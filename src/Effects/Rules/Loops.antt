-- ===== src/Effects/Rules/Loops.antt =====
-- The rule for `each`: a relation between states that every item keeps.
use hub_nfts.Prelude.{List, [], ◌∷◌}
use hub_nfts.Effects.State.{World}
use hub_nfts.Effects.Monad.{M}
use hub_nfts.Effects.Steps.{each}
use hub_nfts.Effects.Rules.Control.{Wp, part_then, weaken}

module _ {E A : Type 0} (R : World → World → Type 0) (reflexive : (w : World) → R w w)
    (transitive : (u v w : World) → R u v → R v w → R u w) where
  pub each_by :
      (body : A → M E (Unit {0})) (xs : List A) (w : World)
      → ((x : A) (v : World) → Wp (λ r v'. R v v') (body x) v)
      → Wp (λ r v'. R w v') (each body xs) w
  unfolding each
  each_by body [] w h = record { holds = reflexive w }
  each_by body (x ∷ xs) w h = record {
    holds =
        (part_then (body x) (λ _. each body xs) {Q = λ r v'. R w v'} (λ r v'. R w v') (h x w)
          (λ v k. k) (λ e v k. k)
          (λ a v k. weaken _ (λ r u l. transitive w v u k l) (each_by body xs v h))).holds;
  }
