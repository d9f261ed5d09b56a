-- ===== src/Mutations/Mints/Editions/Writes.antt =====
-- What the writes of `mint_edition` leave in the tables, whatever becomes of them.
use hub_nfts.Prelude.{◌≡◌, refl, ◌⊎◌, inl, inr, some, List, [], ◌∷◌, String}
use hub_nfts.Entities.{
  Uuid, Blockchain, ethereum, polygon, solana, pending, numbered, CollectionMint, MetadataFile,
  MetadataAttribute,
}
use hub_nfts.Effects.{
  tick, Env, World, Wp, Result, ok, err, fault, connect_then, read_env_then, read_clock_then,
  ok_or_then, query_then, insert_then, write_then, atomically_then, pure_end, by_then,
}
use hub_nfts.Errors.{Error}
use hub_nfts.Mutations.Common.{insert_mint_creators-IsSide, side_then, IsSide, settled, here}
use hub_nfts.Mutations.Mints.Editions.{
  Reservation, record_edition, record_history, copy_metadata, copy_if_solana, insert_files,
  insert_attributes,
}

pub insert_files-IsSide :
    (files : List MetadataFile) (w : World) → Wp (λ r w'. IsSide w w') (insert_files files) w
unfolding insert_files
insert_files-IsSide [] w = pure_end _ (here w)
insert_files-IsSide (f ∷ fs) w =
    by_then _ (write_then _ _ (settled _ _ refl) (pure_end _ (settled _ _ refl)))

pub insert_attributes-IsSide :
    (attributes : List MetadataAttribute) (w : World)
    → Wp (λ r w'. IsSide w w') (insert_attributes attributes) w
unfolding insert_attributes
insert_attributes-IsSide [] w = pure_end _ (here w)
insert_attributes-IsSide (f ∷ fs) w =
    by_then _ (write_then _ _ (settled _ _ refl) (pure_end _ (settled _ _ refl)))

pub copy_metadata-IsSide :
    (collection_id mint_id : Uuid) (w : World)
    → Wp (λ r w'. IsSide w w') (copy_metadata collection_id mint_id) w
unfolding copy_metadata
copy_metadata-IsSide collection_id mint_id w =
    let same : IsSide w (tick w) = settled _ _ refl in
    query_then _ _ (settled _ _ refl) (
      ok_or_then _ _ _ (settled _ _ refl) λ json _. query_then _ _ (settled _ _ refl) (
        query_then _ _ (settled _ _ refl) (
          query_then _ _ (settled _ _ refl) (
            insert_then _ _ _ (settled _ _ refl) λ _.
              side_then _ _ (insert_mint_creators-IsSide _ _) (λ s c. settled _ _ refl)
                (λ e s c. settled _ _ refl)
                λ _ s c.
                  side_then _ _ (insert_files-IsSide _ _) (λ s c. settled _ _ refl)
                    (λ e s c. settled _ _ refl)
                    λ _ s c. by_then _ (
                      side_then _ _ (insert_attributes-IsSide _ _) (λ s c. settled _ _ refl)
                        (λ e s c. settled _ _ refl) λ _ s c. pure_end _ (settled _ _ refl))))))

pub copy_if_solana-IsSide :
    (chain : Blockchain) (collection_id mint_id : Uuid) (w : World)
    → Wp (λ r w'. IsSide w w') (copy_if_solana chain collection_id mint_id) w
copy_if_solana-IsSide solana c m w = copy_metadata-IsSide c m w
copy_if_solana-IsSide polygon c m w = pure_end _ (here w)
copy_if_solana-IsSide ethereum c m w = pure_end _ (here w)

-- The mint that a reservation leads to.
pub record IsMintOf (r : Reservation) (m : CollectionMint) : Type 0 where
  pub of_collection : m.collection_id ≡ r.collection.id
  pub is_pending : m.creation_status ≡ pending
  pub has_edition : m.edition ≡ numbered r.edition
  pub has_deduction : m.credits_deduction_id ≡ some r.deduction
  pub by_user : m.created_by ≡ r.user

is_mint_of :
    (r : Reservation) (m : CollectionMint)
    → m.collection_id ≡ r.collection.id
    → m.creation_status ≡ pending
    → m.edition ≡ numbered r.edition
    → m.credits_deduction_id ≡ some r.deduction
    → m.created_by ≡ r.user
    → IsMintOf r m
is_mint_of r m a b c d e = record {
  of_collection = a;
  is_pending = b;
  has_edition = c;
  has_deduction = d;
  by_user = e;
}

-- The mints after the writes: a success returns the new mint, an error may have inserted it.
abbrev pub Recorded :
    Reservation → List CollectionMint → Result Error CollectionMint → List CollectionMint → Type 0
Recorded r before (ok m) after = IsMintOf r m × (after ≡ m ∷ before)
Recorded r before (err e) after =
    (after ≡ before) ⊎ ((m : CollectionMint) × IsMintOf r m × (after ≡ m ∷ before))
Recorded r before fault after =
    (after ≡ before) ⊎ ((m : CollectionMint) × IsMintOf r m × (after ≡ m ∷ before))

pub record Records (r : Reservation) (w : World) (x : Result Error CollectionMint) (w' : World)
    : Type 0 where
  pub mints : Recorded r w.db.mints x w'.db.mints
  pub submitted : w'.submitted ≡ w.submitted

-- A later state with the same mints.
pub record Same (w w' : World) : Type 0 where
  pub mints : w'.db.mints ≡ w.db.mints
  pub collections : w'.db.collections ≡ w.db.collections
  pub submitted : w'.submitted ≡ w.submitted

pub Same-as :
    (w w' : World)
    → w'.db.mints ≡ w.db.mints
    → w'.db.collections ≡ w.db.collections
    → w'.submitted ≡ w.submitted
    → Same w w'
Same-as w w' a b c = record { mints = a; collections = b; submitted = c }

pub record_history-Same :
    (r : Reservation) (env : Env) (now : Uuid) (mint : CollectionMint) (recipient : String)
    (w : World)
    → Wp (λ x w'. Same w w') (record_history r env now mint recipient) w
unfolding record_history
record_history-Same r env now mint recipient w = insert_then _ _ _ (Same-as _ _ refl refl refl) λ _.
    by_then _ (
      side_then _ _ (copy_if_solana-IsSide _ _ _ _) (λ s c. Same-as _ _ refl refl refl)
        (λ e s c. Same-as _ _ refl refl refl) λ _ s c. pure_end _ (Same-as _ _ refl refl refl))

records :
    {r : Reservation} {w w' : World} {x : Result Error CollectionMint}
    → Recorded r w.db.mints x w'.db.mints
    → w'.submitted ≡ w.submitted
    → Records r w x w'
records a b = record { mints = a; submitted = b }

pub record_edition-Records :
    (r : Reservation) (recipient : String) (w : World)
    → Wp (Records r w) (record_edition r recipient) w
unfolding record_edition
record_edition-Records r recipient w = connect_then _ (records (inl refl) refl) (
    read_env_then _ (
      read_clock_then _ (
        insert_then _ _ _ (records (inl refl) refl) λ _.
          let new = is_mint_of r _ refl refl refl refl refl in
          atomically_then _ _ _ (record_history-Same r _ _ _ recipient _)
            (λ w' k. records (inr (_, new, refl)) k.submitted)
            (λ e w' k. records (inr (_, new, refl)) k.submitted)
            (λ a w' k. records (inr (_, new, refl)) k.submitted)
            (λ a w' k. pure_end _ (records (new, k.mints) k.submitted)))))
