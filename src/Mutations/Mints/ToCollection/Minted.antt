-- ===== src/Mutations/Mints/ToCollection/Minted.antt =====
-- What a success of `mint_to_collection` leaves in the tables, the ledger and the cache.
use hub_nfts.Prelude.{
  ℕ, ◌≡◌, refl, ap, false, not, none, some, List, [], ◌∷◌, find, select, get_or, Bool-cases, inl,
  inr,
}
use hub_nfts.Entities.{Uuid, Collection, CollectionMint, MintHistory, pending}
use hub_nfts.Effects.{
  Env, Db, World, Wp, IfOk, Deduction, CacheKey, same_key, total_mints, find_by_id,
  collections_table, ok_or_then, lift_then, connect_then, read_env_then, read_clock_then,
  query_then, insert_then, submit_then, send_then, enqueue_then, cache_del_then, part_then,
  atomically_then, pure_end, by_then,
}
use hub_nfts.Inputs.{Headers}
use hub_nfts.Messages.{NftEvent, NftEventKey, minted_to_collection, in_progress}
use hub_nfts.Mutations.Common.{
  fetch_owner_then, side_then, save_metadata-IsSide, insert_each_mint_creator-IsSide,
}
use hub_nfts.Mutations.Mints.Queue.{mint_action}
use hub_nfts.Mutations.Mints.ToCollection.{MintToCollectionInput, record_mint, mint_to_collection}

-- One more mint with one more history, both pending, for the recipient of the request.
pub record IsInserted (env : Env) (input : MintToCollectionInput)
    (user collection_id deduction : Uuid) (mint : CollectionMint) (before after : Db) : Type 0 where
  pub mints : after.mints ≡ mint ∷ before.mints
  pub of_collection : mint.collection_id ≡ collection_id
  pub is_pending : mint.creation_status ≡ pending
  pub owned : mint.owner ≡ some (env.before_save input.recipient)
  pub by_user : mint.created_by ≡ user
  pub charged : mint.credits_deduction_id ≡ some deduction
  pub history : MintHistory
  pub histories : after.mint_histories ≡ history ∷ before.mint_histories
  pub of_mint : history.mint_id ≡ mint.id
  pub history_pending : history.status ≡ pending
  pub same_collections : after.collections ≡ before.collections
  pub same_drops : after.drops ≡ before.drops

abbrev Inserts :
    MintToCollectionInput → Uuid → Uuid → Uuid → World → CollectionMint → World → Type 0
Inserts input user collection_id deduction w mint v =
    IsInserted w.env input user collection_id deduction mint w.db v.db
    × (v.submitted ≡ w.submitted)
    × (v.sent ≡ w.sent)

record_mint-Inserts :
    (user : Uuid) (collection : Collection) (input : MintToCollectionInput) (deduction : Uuid)
    (w : World)
    → Wp
        (IfOk (Inserts input user collection.id deduction w))
        (record_mint user collection input deduction)
        w
unfolding record_mint
record_mint-Inserts user collection input deduction w = connect_then _ tt (
    read_env_then _ (
      read_clock_then _ (
        by_then _ (
          atomically_then _ _ (IfOk (Inserts input user collection.id deduction w))
            (ok_or_then _ _ _ tt λ fee _. insert_then _ _ _ tt λ _.
              side_then _ _ (save_metadata-IsSide _ input.metadata_json _) (λ s c. tt) (λ e s c. tt)
                λ _ s c.
                  side_then _ _ (insert_each_mint_creator-IsSide _ _ input.creators _) (λ t d. tt)
                    (λ e t d. tt)
                    λ _ t d. insert_then _ _ _ tt λ _. pure_end _ (
                      record {
                        mints = refl;
                        of_collection = refl;
                        is_pending = refl;
                        owned = refl;
                        by_user = refl;
                        charged = refl;
                        history = _;
                        histories = refl;
                        of_mint = refl;
                        history_pending = refl;
                        same_collections = refl;
                        same_drops = refl;
                      },
                      refl,
                      refl,
                    ))
            (λ v k. tt) (λ e v k. tt) (λ a v k. tt) (λ a v k. pure_end _ k)))))

-- What the caller of `mint_to_collection` gets.
pub record IsMinted (headers : Headers) (input : MintToCollectionInput) (mint : CollectionMint)
    (before after : World) : Type 0 where
  pub collection : Collection
  pub collection_found : find_by_id collections_table input.collection before.db ≡ some collection
  pub user : Uuid
  pub of_user : headers.user_id ≡ some user
  pub deduction : Deduction
  pub submitted : after.submitted ≡ deduction ∷ before.submitted
  pub for_user : deduction.user ≡ user
  pub for_organization : headers.organization_id ≡ some deduction.organization
  pub for_action : deduction.action ≡ mint_action (get_or false input.compressed)
  pub on_blockchain : deduction.blockchain ≡ collection.blockchain
  pub inserted : IsInserted before.env input user collection.id deduction.id mint before.db after.db
  pub no_total : find (λ entry. same_key entry.0 (total_mints collection.id)) after.cache ≡ none
  pub key : NftEventKey
  pub sent : after.sent ≡ (minted_to_collection collection.id in_progress, key) ∷ before.sent
  pub same_key : key.id ≡ mint.id

sent_one :
    (event : NftEvent × NftEventKey) {after before : List (NftEvent × NftEventKey)}
    → after ≡ before
    → event ∷ after ≡ event ∷ before
sent_one event e = ap (λ l. event ∷ l) e

forgotten :
    (key : CacheKey) (entries : List (CacheKey × ℕ))
    → find (λ entry. same_key entry.0 key) (select (λ entry. not (same_key entry.0 key)) entries)
      ≡ none
forgotten key [] = refl
forgotten key (x ∷ xs) = elim (Bool-cases (same_key x.0 key)) [
  | inl t ↦ rw t (forgotten key xs)
  | inr t ↦ rw (t, t) (forgotten key xs)
]

-- Where `mint_to_collection` succeeds, it returns the only new mint: pending, of the collection that
-- the request names, for its recipient, by the caller, with a pending history. One deduction has been
-- submitted, whose id the mint carries: for the caller, the organization, the action that the
-- compression asks for and the collection's blockchain. The cache has no total of the collection's
-- mints any more, and one event has been sent, which says that the mint is in progress. No
-- collection and no drop has changed.
pub mint_to_collection-IsMinted :
    (headers : Headers) (input : MintToCollectionInput) (w : World)
    → Wp (IfOk (λ mint v. IsMinted headers input mint w v)) (mint_to_collection headers input) w
unfolding mint_to_collection
mint_to_collection-IsMinted headers input w = connect_then _ tt (
    ok_or_then _ _ _ tt λ user by. ok_or_then _ _ _ tt λ org for. ok_or_then _ _ _ tt λ balance _.
      query_then _ _ tt (
        ok_or_then _ _ _ tt λ collection found. read_env_then _ (
          lift_then _ _ (λ e _. tt) tt
            λ _ _. fetch_owner_then _ _ _ _ tt tt λ owner.
              lift_then _ _ (λ e _. tt) tt
                λ _ _. submit_then _ _ _ _ _ _ tt (
                  part_then _ _ _ (record_mint-Inserts user collection input _ _) (λ v k. tt)
                    (λ e v k. tt)
                    λ mint v (inserted, submitted, sent). cache_del_then _ _ tt (
                      enqueue_then _ _ (λ j c. tt)
                        λ j c. send_then _ _ _ tt (
                          pure_end _ (record {
                            collection = collection;
                            collection_found = found;
                            user = user;
                            of_user = by;
                            deduction = _;
                            submitted = submitted;
                            for_user = refl;
                            for_organization = for;
                            for_action = refl;
                            on_blockchain = refl;
                            inserted = inserted;
                            no_total = forgotten (total_mints collection.id) v.cache;
                            key = record {
                              id = mint.id;
                              project_id = collection.project_id;
                              user_id = user;
                            };
                            sent = sent_one _ sent;
                            same_key = refl;
                          })))))))
