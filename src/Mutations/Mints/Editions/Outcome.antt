-- ===== src/Mutations/Mints/Editions/Outcome.antt =====
-- What a request to `mint_edition` leaves, whatever becomes of it.
use hub_nfts.Prelude.{◌≡◌, refl, ap, sym, ◌∙◌, some, ◌∷◌, ◌⊎◌, inl, inr, String}
use hub_nfts.Entities.{Uuid, Blockchain, ethereum, polygon, solana, CollectionMint}
use hub_nfts.Inputs.{Headers}
use hub_nfts.Errors.{Error}
use hub_nfts.Messages.{NftEventKey}
use hub_nfts.Effects.{
  World, Result, ok, err, fault, Wp, Deduction, cache_del_then, send_then, pure_end, raise_end,
  part_then, by_then,
}
use hub_nfts.Mutations.Mints.Editions.{Reservation, announce_edition, send_edition, mint_edition}
use hub_nfts.Mutations.Mints.Editions.Reserve.{Reserves, IsReserved, Pays, reserve_edition-Reserves}
use hub_nfts.Mutations.Mints.Editions.Writes.{IsMintOf, Records, record_edition-Records}

-- The mints and the deductions are as they were.
abbrev Quiet : {A : Type 0} → World → Result Error A → World → Type 0
Quiet w r v = (v.db ≡ w.db) × (v.submitted ≡ w.submitted)

send_edition-Quiet :
    (r : Reservation) (recipient : String) (mint : CollectionMint) (key : NftEventKey) (w : World)
    → Wp (Quiet w) (send_edition r recipient mint key) w
send_edition-Quiet r recipient mint key w = go r.collection.blockchain refl
  where
    go :
        (b : Blockchain)
        → r.collection.blockchain ≡ b
        → Wp (Quiet w) (send_edition r recipient mint key) w
    go solana e = rw e (by_then _ (send_then _ _ _ (refl, refl) (pure_end _ (refl, refl))))
    go polygon e = rw e (by_then _ (send_then _ _ _ (refl, refl) (pure_end _ (refl, refl))))
    go ethereum e = rw e (raise_end _ (refl, refl))

announce_edition-Quiet :
    (r : Reservation) (recipient : String) (mint : CollectionMint) (w : World)
    → Wp (Quiet w) (announce_edition r recipient mint) w
unfolding announce_edition
announce_edition-Quiet r recipient mint w =
    cache_del_then _ _ (refl, refl)
      (part_then _ _ _ (send_edition-Quiet r recipient mint _ _) (λ w' e. e) (λ x w' e. e)
        (λ a w' e. by_then _ (send_then _ _ _ e (pure_end _ e))))

-- A mint that a request to `mint_edition` has made: it is the only new one, it is the mint of a
-- reservation that the state before allowed, it belongs to the caller, and the one deduction that was
-- submitted is for it.
pub record Made (headers : Headers) (drop_id : Uuid) (w : World) (m : CollectionMint) (v : World)
    : Type 0 where
  pub reservation : Reservation
  pub is_reserved : IsReserved w drop_id reservation
  pub is_mint_of : IsMintOf reservation m
  pub by_caller : headers.user_id ≡ some m.created_by
  pub mints : v.db.mints ≡ m ∷ w.db.mints
  pub deduction : Deduction
  pub submitted : v.submitted ≡ deduction ∷ w.submitted
  pub pays : Pays headers reservation deduction

-- No mint, or one.
abbrev pub AtMostOne : Headers → Uuid → World → World → Type 0
AtMostOne headers drop_id w v =
    (v.db.mints ≡ w.db.mints) ⊎ ((m : CollectionMint) × Made headers drop_id w m v)

-- The outcomes of a request to `mint_edition`.
abbrev pub EditionOutcome : Headers → Uuid → World → Result Error CollectionMint → World → Type 0
EditionOutcome headers drop_id w (ok m) v = Made headers drop_id w m v
EditionOutcome headers drop_id w (err e) v = AtMostOne headers drop_id w v
EditionOutcome headers drop_id w fault v = AtMostOne headers drop_id w v

module _ (headers : Headers) (drop_id : Uuid) (w : World) (r : Reservation) (u : World)
    (reserved : Reserves headers w drop_id (ok r) u) where
  made :
      (m : CollectionMint) (z : World)
      → IsMintOf r m
      → z.db.mints ≡ m ∷ u.db.mints
      → z.submitted ≡ u.submitted
      → Made headers drop_id w m z
  made m z i e s =
      let (same, (d, submitted, pays), reservable, by) = reserved in
      record {
        reservation = r;
        is_reserved = reservable;
        is_mint_of = i;
        by_caller = by ∙ ap (λ x. some x) (sym i.by_user);
        mints = e ∙ ap (λ db. m ∷ db.mints) same;
        deduction = d;
        submitted = s ∙ submitted;
        pays = pays;
      }

  perhaps_made :
      (z : World)
      → (z.db.mints ≡ u.db.mints)
        ⊎ ((m : CollectionMint) × IsMintOf r m × (z.db.mints ≡ m ∷ u.db.mints))
      → z.submitted ≡ u.submitted
      → AtMostOne headers drop_id w z
  perhaps_made z (inl e) s = let (same, _, _, _) = reserved in inl (e ∙ ap (λ db. db.mints) same)
  perhaps_made z (inr (m, i, e)) s = inr (m, made m z i e s)

  -- The announcement changes nothing of it.
  announced :
      (m : CollectionMint) (v z : World)
      → Records r u (ok m) v
      → (z.db ≡ v.db) × (z.submitted ≡ v.submitted)
      → Made headers drop_id w m z
  announced m v z k (e, s) =
      let (i, f) = k.mints in made m z i (ap (λ db. db.mints) e ∙ f) (s ∙ k.submitted)

-- A success of `mint_edition` returns a pending mint that is the only new one. It has the edition
-- number after the mints of the collection that were counted, which left room in the supply, it is
-- the caller's, and it carries the id of the one deduction that was submitted: of the minting of an
-- edition, for the caller and the organization, on the collection's blockchain. Where the request
-- fails, the mints are as they were, or there is one such mint.
pub mint_edition-EditionOutcome :
    (headers : Headers) (drop_id : Uuid) (recipient : String) (w : World)
    → Wp (EditionOutcome headers drop_id w) (mint_edition headers drop_id recipient) w
unfolding mint_edition
mint_edition-EditionOutcome headers drop_id recipient w =
    part_then _ _ _ (reserve_edition-Reserves headers drop_id w)
      (λ u (e, _). inl (ap (λ db. db.mints) e)) (λ x u (e, _). inl (ap (λ db. db.mints) e))
      (λ r u reserved.
        part_then _ _ _ (record_edition-Records r recipient u)
          (λ v k. perhaps_made headers drop_id w r u reserved v k.mints k.submitted)
          (λ x v k. perhaps_made headers drop_id w r u reserved v k.mints k.submitted)
          (λ m v k.
            part_then _ _ _ (announce_edition-Quiet r recipient m v)
              (λ z q. inr (m, announced headers drop_id w r u reserved m v z k q))
              (λ x z q. inr (m, announced headers drop_id w r u reserved m v z k q))
              (λ a z q. pure_end _ (announced headers drop_id w r u reserved m v z k q))))
