-- ===== src/Mutations/Common/Owner.antt =====
-- The rule for `fetch_owner`, a read.
use hub_nfts.Prelude.{◌≡◌, refl, subst, sym, String}
use hub_nfts.Entities.{Uuid, Blockchain}
use hub_nfts.Effects.{
  World, M, Result, ok, err, fault, ◌>>=◌, tick, Wp, part_then, query_then, ok_or_then, pure_end,
}
use hub_nfts.Mutations.Common.Queries.{fetch_owner}

module _ {E : Type 0} where
  -- The wallet, or an error: the database is only read.
  abbrev Reads : E → World → Result E String → World → Type 0
  Reads error w (ok a) w' = w' ≡ tick w
  Reads error w (err e) w' = (w' ≡ tick w) × (e ≡ error)
  Reads error w fault w' = w' ≡ tick w

  fetch_owner-Reads :
      (error : E) (project : Uuid) (chain : Blockchain) (w : World)
      → Wp (Reads error w) (fetch_owner error project chain) w
  unfolding fetch_owner
  fetch_owner-Reads error project chain w =
      query_then _ _ refl (ok_or_then _ _ _ (refl, refl) λ a _. pure_end _ refl)

module _ {E B : Type 0} where
  pub fetch_owner_then :
      (error : E) (project : Uuid) (chain : Blockchain) (k : String → M E B)
      {Q : Result E B → World → Type 0} {w : World}
      → Q fault (tick w)
      → Q (err error) (tick w)
      → ((owner : String) → Wp Q (k owner) (tick w))
      → Wp Q (fetch_owner error project chain >>= k) w
  fetch_owner_then error project chain k {Q} {w} h g s =
      part_then (fetch_owner error project chain) k (Reads error w)
        (fetch_owner-Reads error project chain w) (λ w' e. subst (Q fault) (sym e) h)
        (λ e w' (p, q). subst (λ x. Q (err x) w') (sym q) (subst (Q (err error)) (sym p) g))
        (λ a w' e. subst (Wp Q (k a)) (sym e) (s a))
