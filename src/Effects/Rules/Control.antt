-- ===== src/Effects/Rules/Control.antt =====
-- The judgement, and the rules for errors, parts and transactions.
use hub_nfts.Prelude.{◌≡◌, refl, Bool, true, false, Option, none, some, Bool-cases, inl, inr}
use hub_nfts.Entities.{Time, Uuid}
use hub_nfts.Effects.State.{World, Env}
use hub_nfts.Effects.Monad.{
  Result, ok, err, fault, M, ◌>>=◌, pure, raise, lift, ok_or, fail_if, and_then,
}
use hub_nfts.Effects.Steps.{tick, rolled_back, read_clock, new_uuid, read_env, atomically, rolled}

pub record Wp {E A : Type 0} (Q : Result E A → World → Type 0) (m : M E A) (w : World)
    : Type 0 where
  pub holds : Q (m w).0 (m w).1

module _ {E : Type 0} {A B : Type 0} where
  pub ok_or_then :
      (o : Option A) (e : E) (k : A → M E B) {Q : Result E B → World → Type 0} {w : World}
      → Q (err e) w
      → ((a : A) → o ≡ some a → Wp Q (k a) w)
      → Wp Q (ok_or o e >>= k) w
  unfolding ◌>>=◌ ok_or
  ok_or_then none e k h s = record { holds = h }
  ok_or_then (some a) e k h s = record { holds = (s a refl).holds }

  pub lift_then :
      (r : Result E A) (k : A → M E B) {Q : Result E B → World → Type 0} {w : World}
      → ((e : E) → r ≡ err e → Q (err e) w)
      → Q fault w
      → ((a : A) → r ≡ ok a → Wp Q (k a) w)
      → Wp Q (lift r >>= k) w
  unfolding ◌>>=◌ lift
  lift_then (ok a) k h g s = record { holds = (s a refl).holds }
  lift_then (err e) k h g s = record { holds = h e refl }
  lift_then fault k h g s = record { holds = g }

  -- A part of a handler about which something is known: `S` at its result and state.
  pub part_then :
      (m : M E A) (k : A → M E B) {Q : Result E B → World → Type 0} {w : World}
      (S : Result E A → World → Type 0)
      → Wp S m w
      → ((w' : World) → S fault w' → Q fault w')
      → ((e : E) (w' : World) → S (err e) w' → Q (err e) w')
      → ((a : A) (w' : World) → S (ok a) w' → Wp Q (k a) w')
      → Wp Q (m >>= k) w
  unfolding ◌>>=◌
  part_then m k {Q} {w} S p h g s = record { holds = go (m w).0 (m w).1 p.holds }
    where
      go : (r : Result E A) (w' : World) → S r w' → Q (and_then k r w').0 (and_then k r w').1
      go (ok a) w' x = (s a w' x).holds
      go (err e) w' x = g e w' x
      go fault w' x = h w' x

  -- The steps of a transaction, about which `S` is known, with the roll back and the commit.
  pub atomically_then :
      (m : M E A) (k : A → M E B) {Q : Result E B → World → Type 0} {w : World}
      (S : Result E A → World → Type 0)
      → Wp S m w
      → ((w' : World) → S fault w' → Q fault (rolled_back w w'))
      → ((e : E) (w' : World) → S (err e) w' → Q (err e) (rolled_back w w'))
      → ((a : A) (w' : World) → S (ok a) w' → Q fault (tick (rolled_back w w')))
      → ((a : A) (w' : World) → S (ok a) w' → Wp Q (k a) (tick w'))
      → Wp Q (atomically m >>= k) w
  unfolding ◌>>=◌ atomically
  atomically_then m k {Q} {w} S p h g c s = record { holds = go (m w).0 (m w).1 p.holds }
    where
      go :
          (r : Result E A) (w' : World)
          → S r w'
          → let (r', w'') = rolled w r w' in Q (and_then k r' w'').0 (and_then k r' w'').1
      go (ok a) w' x = elim (Bool-cases (w'.env.fails w'.calls)) [
        | inl t ↦ rw t (c a w' x)
        | inr t ↦ rw t (s a w' x).holds
      ]
      go (err e) w' x = g e w' x
      go fault w' x = h w' x

module _ {E : Type 0} {B : Type 0} where
  pub fail_if_then :
      (b : Bool) (e : E) (k : Unit {0} → M E B) {Q : Result E B → World → Type 0} {w : World}
      → (b ≡ true → Q (err e) w)
      → (b ≡ false → Wp Q (k tt) w)
      → Wp Q (fail_if b e >>= k) w
  unfolding ◌>>=◌ fail_if
  fail_if_then true e k h s = record { holds = h refl }
  fail_if_then false e k h s = record { holds = (s refl).holds }

  pub read_clock_then :
      (k : Time → M E B) {Q : Result E B → World → Type 0} {w : World}
      → Wp Q (k (w.env.clock w.calls)) (tick w)
      → Wp Q (read_clock >>= k) w
  unfolding ◌>>=◌ read_clock
  read_clock_then k s = record { holds = s.holds }

  pub new_uuid_then :
      (k : Uuid → M E B) {Q : Result E B → World → Type 0} {w : World}
      → Wp Q (k (w.env.fresh w.calls)) (tick w)
      → Wp Q (new_uuid >>= k) w
  unfolding ◌>>=◌ new_uuid
  new_uuid_then k s = record { holds = s.holds }

  pub read_env_then :
      (k : Env → M E B) {Q : Result E B → World → Type 0} {w : World}
      → Wp Q (k w.env) w
      → Wp Q (read_env >>= k) w
  unfolding ◌>>=◌ read_env
  read_env_then k s = record { holds = s.holds }

  pub pure_end :
      (b : B) {Q : Result E B → World → Type 0} {w : World} → Q (ok b) w → Wp Q (pure b) w
  unfolding pure
  pure_end b h = record { holds = h }

  pub raise_end :
      (e : E) {Q : Result E B → World → Type 0} {w : World} → Q (err e) w → Wp Q (raise e) w
  unfolding raise
  raise_end e h = record { holds = h }

module _ {E A : Type 0} where
  -- The last step of a handler, by the rule for a step that others follow.
  pub by_then :
      (m : M E A) {Q : Result E A → World → Type 0} {w : World} → Wp Q (m >>= pure) w → Wp Q m w
  unfolding ◌>>=◌ pure
  by_then m {Q} {w} p = record { holds = go (m w).0 (m w).1 p.holds }
    where
      go : (r : Result E A) (w' : World) → Q (and_then pure r w').0 (and_then pure r w').1 → Q r w'
      go (ok a) w' x = x
      go (err e) w' x = x
      go fault w' x = x

  -- A weaker statement about the same run.
  pub weaken :
      (m : M E A) {P Q : Result E A → World → Type 0} {w : World}
      → ((r : Result E A) (w' : World) → P r w' → Q r w')
      → Wp P m w
      → Wp Q m w
  weaken m f p = record { holds = f _ _ p.holds }
