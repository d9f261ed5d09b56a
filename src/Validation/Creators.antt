-- ===== src/Validation/Creators.antt =====
-- Which creators a collection, a drop or a mint may have: `validate_creators` and
-- `validate_solana_creator_verification` against a description of the creators that they accept.
use hub_nfts.Prelude.{
  ℕ, ◌≡◌, ◌≤◌, ◌<◌, ◌+◌, ◌%◌, ◌↔◌, ◌∙◌, String, List, [], ◌∷◌, arith, refl, true, false, Bool-cases,
  inl, inr, not, ◌&&◌, ◌==◌, length, ltb, All, get_or, str_eq, eq_iff,
}
use hub_nfts.Entities.{Blockchain, solana, polygon, ethereum}
use hub_nfts.Inputs.{Creator}
use hub_nfts.Effects.{Env, ok, err, ◌&>◌}
use hub_nfts.Errors.{too_many_creators, blockchain_not_supported}
use hub_nfts.Validation.{
  unless, royalty_share, validate_creators, validate_one_creator, validate_solana_addresses,
  validate_solana_address, validate_evm_address, validate_solana_creator_verification,
}
use hub_nfts.Validation.DropStatus.{unless-passes}

abbrev pub total_share : List Creator → ℕ
total_share [] = 0
total_share (c ∷ cs) = c.share + total_share cs

abbrev pub FitsChain : Env → Blockchain → List Creator → Type 0
FitsChain env solana creators =
    (length creators ≤ 5) × All (λ c. env.is_solana_address c.address ≡ true) creators
FitsChain env polygon creators =
    (c : Creator) × (creators ≡ c ∷ []) × (env.is_evm_address c.address ≡ true)
FitsChain env ethereum creators = ⊥

-- The shares come to 100 modulo 256, and the creators are right for the blockchain: on Solana at
-- most five, all with Solana addresses, and on Polygon one, with an EVM address.
pub record IsAccepted (env : Env) (chain : Blockchain) (creators : List Creator) : Type 0 where
  pub shares : total_share creators % 256 ≡ 100
  pub fits : FitsChain env chain creators

royalty_share-total :
    (sum : ℕ) (cs : List Creator) → sum < 256 → royalty_share sum cs ≡ (sum + total_share cs) % 256
unfolding royalty_share
royalty_share-total sum [] h = omega arith
royalty_share-total sum (c ∷ cs) h =
    royalty_share-total ((sum + c.share) % 256) cs (omega arith) ∙ omega arith

shares-pass :
    (cs : List Creator) → (not (royalty_share 0 cs == 100) ≡ false) ↔ (total_share cs % 256 ≡ 100)
shares-pass cs =
    (λ h. ground (arith, royalty_share-total 0 cs), λ h. ground (arith, royalty_share-total 0 cs))

addresses-pass :
    (env : Env) (cs : List Creator)
    → (validate_solana_addresses env cs ≡ ok tt)
      ↔ All (λ c. env.is_solana_address c.address ≡ true) cs
unfolding validate_solana_addresses validate_solana_address
addresses-pass env [] = (λ h. tt, λ h. refl)
addresses-pass env (c ∷ cs) = (
  λ h.
      let (a, b) =
        unless-passes (not (env.is_solana_address c.address)) _ (validate_solana_addresses env cs)
          h in
      (ground arith, (addresses-pass env cs).0 b),
  λ h. rw h.0 ((addresses-pass env cs).1 h.1),
)

one-passes :
    (env : Env) (cs : List Creator)
    → (validate_one_creator env cs ≡ ok tt) ↔ FitsChain env polygon cs
unfolding validate_one_creator validate_evm_address
one-passes env [] = (λ h. cc, λ h. cc)
one-passes env (c ∷ []) = (λ h. (c, refl, ground arith), λ (d, e, v). ground (arith, e))
one-passes env (c ∷ d ∷ cs) = (λ h. cc, λ (x, e, v). cc)

at_most-pass : (n : ℕ) → n ≤ 5 → ltb 5 n ≡ false
at_most-pass n h = ground arith

fits-passes :
    (env : Env) (chain : Blockchain) (cs : List Creator)
    → (elim chain [
      | solana ↦ unless (ltb 5 (length cs)) too_many_creators &> validate_solana_addresses env cs
      | polygon ↦ validate_one_creator env cs
      | ethereum ↦ err blockchain_not_supported
    ]
        ≡ ok tt)
      ↔ FitsChain env chain cs
fits-passes env solana cs = (
  λ h.
      let (a, b) = unless-passes (ltb 5 (length cs)) _ (validate_solana_addresses env cs) h in
      (ground arith, (addresses-pass env cs).0 b),
  λ h. rw (at_most-pass (length cs) h.0) ((addresses-pass env cs).1 h.1),
)
fits-passes env polygon cs = one-passes env cs
fits-passes env ethereum cs = (λ h. cc, λ h. absurd h)

-- The creators are accepted exactly when they fit: so a total share of 356 is taken for 100.
pub validate_creators-IsAccepted :
    (env : Env) (chain : Blockchain) (creators : List Creator)
    → (validate_creators env chain creators ≡ ok tt) ↔ IsAccepted env chain creators
unfolding validate_creators
validate_creators-IsAccepted env chain creators = (
  λ h.
      let (a, b) = unless-passes (not (royalty_share 0 creators == 100)) _ _ h in
      record { shares = (shares-pass creators).0 a; fits = (fits-passes env chain creators).0 b },
  λ r. rw ((shares-pass creators).1 r.shares) ((fits-passes env chain creators).1 r.fits),
)

pub record IsOwn (treasury : String) (c : Creator) : Type 0 where
  pub own : get_or false c.verified ≡ true → c.address ≡ treasury

IsOwn-passes :
    (treasury : String) (c : Creator)
    → ((get_or false c.verified && not (str_eq c.address treasury)) ≡ false) ↔ IsOwn treasury c
IsOwn-passes treasury c = elim (Bool-cases (get_or false c.verified)) [
  | inl t ↦ elim (Bool-cases (str_eq c.address treasury)) [
    | inl u ↦ (λ h. record { own = λ _. (eq_iff _ _).0 u }, λ r. rw (t, u) refl)
    | inr u ↦ (
      λ h. let e = rw (t, u) at h in cc,
      λ r. let e = (eq_iff c.address treasury).1 (r.own t) in cc,
    )
  ]
  | inr t ↦ (λ h. record { own = λ k. cc }, λ r. rw t refl)
]

-- The check of the verified flags passes exactly when each creator that is marked as verified is
-- the project's treasury wallet.
pub validate_solana_creator_verification_iff :
    (treasury : String) (creators : List Creator)
    → (validate_solana_creator_verification treasury creators ≡ ok tt)
      ↔ All (IsOwn treasury) creators
unfolding validate_solana_creator_verification
validate_solana_creator_verification_iff treasury [] = (λ h. tt, λ h. refl)
validate_solana_creator_verification_iff treasury (c ∷ cs) =
    elim (Bool-cases (get_or false c.verified && not (str_eq c.address treasury))) [
      | inl t ↦ (λ h. cc, λ h. let e = (IsOwn-passes treasury c).1 h.0 in cc)
      | inr t ↦ rw t (
        λ h. (
          (IsOwn-passes treasury c).0 t,
          (validate_solana_creator_verification_iff treasury cs).0 h,
        ),
        λ h. (validate_solana_creator_verification_iff treasury cs).1 h.1,
      )
    ]
