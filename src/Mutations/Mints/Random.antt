-- ===== src/Mutations/Mints/Random.antt =====
-- Mints at random places of the queue: `mint_random_queued_to_drop` and
-- `mint_random_queued_to_drop_batched` of api/src/mutations/mint.rs.
use hub_nfts.Prelude.{
  ℕ, zero, suc, ◌%◌, String, Bool, not, ◌&&◌, Option, none, some, List, [], ◌∷◌, map, ltb, ◌==◌,
  select, length, get_elem?, remove_at,
}
use hub_nfts.Entities.{
  Uuid, solana, queued, same_status, same_chain, Drop, Collection, CollectionMint, MetadataJson,
  CreatorRow,
}
use hub_nfts.Effects.{
  Db, M, ◌>>=◌, ◌>>◌, pure, ok_or, fail_if, connect, query, random_query, submit, send, find_by_id,
  drops_table, collections_table, metadata_jsons_table,
}
use hub_nfts.Errors.{
  Error, user_id_not_found, organization_id_not_found, balance_not_found, drop_not_found,
  collection_not_found, no_project_wallet, metadata_json_not_found, metadata_uri_not_found,
  no_queued_mint, no_recipients, batch_too_large, not_enough_mints, only_solana,
}
use hub_nfts.Inputs.{Headers}
use hub_nfts.Messages.{MintOpenDrop, drop_minted, in_progress, solana_mint_open_drop_batched}
use hub_nfts.Mutations.Common.{creators_of, fetch_owner}
use hub_nfts.Mutations.Mints.Queue.{mint_action, claim, mint_metadata, mint_found}
pub mod OneDrawn

-- `n` items at random places, none twice: `ORDER BY random() LIMIT n`.
abbrev pub pick {ℓ} : {A : Type ℓ} → ℕ → List A → Option A
pick r xs = get_elem? xs (r % length xs)

abbrev pub drawn {ℓ} : {A : Type ℓ} → Option A → List A → List A
drawn none rest = []
drawn (some x) rest = x ∷ rest

abbrev pub draw {ℓ} : {A : Type ℓ} → ℕ → (ℕ → ℕ) → List A → List A
draw zero random xs = []
draw (suc n) random xs =
    let rest = draw n (λ i. random (suc i)) (remove_at (random 0 % length xs) xs) in
    drawn (pick (random 0) xs) rest

abbrev pub first {ℓ} : {A : Type ℓ} → List A → Option A
first [] = none
first (x ∷ xs) = some x

abbrev pub queued_for : Uuid → CollectionMint → Bool
queued_for id m = m.collection_id == id && same_status m.creation_status queued

unfoldable pub mint_random_queued_to_drop : Headers → Uuid → String → Bool → M Error CollectionMint
mint_random_queued_to_drop headers drop_id recipient compressed = do
  connect
  user ← ok_or headers.user_id user_id_not_found
  org ← ok_or headers.organization_id organization_id_not_found
  balance ← ok_or headers.balance balance_not_found
  found ← query (find_by_id drops_table drop_id)
  drop ← ok_or found drop_not_found
  found_mint ←
      random_query (λ r db. first (draw 1 r (select (queued_for drop.collection_id) db.mints)))
  mint ← ok_or found_mint no_queued_mint
  found_collection ← query (find_by_id collections_table drop.collection_id)
  collection ← ok_or found_collection collection_not_found
  mint_found user org balance drop mint collection recipient compressed

-- One mint of a batch, with its metadata, its creators and its recipient.
pub record BatchItem : Type 0 where
  pub mint : CollectionMint
  pub json : Option MetadataJson
  pub creators : List CreatorRow
  pub recipient : String

-- `select_also(metadata_jsons)` by an inner join.
abbrev with_metadata : Db → List CollectionMint → List (CollectionMint × Option MetadataJson)
with_metadata db [] = []
with_metadata db (m ∷ ms) =
    let rest = with_metadata db ms in
    elim (find_by_id metadata_jsons_table m.id db) [ none ↦ rest | some j ↦ (m, some j) ∷ rest ]

abbrev pub queued_with_metadata : Uuid → Db → List (CollectionMint × Option MetadataJson)
queued_with_metadata id db = with_metadata db (select (queued_for id) db.mints)

-- `zip`, with the creators that `load_many` gives for each mint.
abbrev batch_items :
    List CreatorRow → List (CollectionMint × Option MetadataJson) → List String → List BatchItem
batch_items rows [] recipients = []
batch_items rows (found ∷ rest) [] = []
batch_items rows ((mint, json) ∷ rest) (r ∷ rs) =
    record { mint = mint; json = json; creators = creators_of mint.id rows; recipient = r }
    ∷ batch_items rows rest rs

pub record Batch : Type 0 where
  pub user : Uuid
  pub org : Uuid
  pub balance : ℕ
  pub drop : Drop
  pub collection : Collection
  pub owner : String
  pub compressed : Bool

-- The body of the loop: the mint is claimed, announced, and its transaction returned.
unfoldable pub mint_item : Batch → BatchItem → M Error MintOpenDrop
mint_item b item = do
  json ← ok_or item.json metadata_json_not_found
  uri ← ok_or json.uri metadata_uri_not_found
  deduction ← submit b.org b.user (mint_action b.compressed) b.collection.blockchain b.balance
  new ← claim item.mint.id deduction b.compressed item.recipient b.collection
  send (drop_minted b.drop.id in_progress)
      (record { id = new.id; project_id = b.drop.project_id; user_id = b.user })
  pure (record {
    recipient_address = item.recipient;
    metadata = mint_metadata b.owner json uri new item.creators;
    mint_id = new.id;
  })

unfoldable pub mint_items : Batch → List BatchItem → M Error (List MintOpenDrop)
mint_items b [] = pure []
mint_items b (item ∷ items) = do
  first ← mint_item b item
  rest ← mint_items b items
  pure (first ∷ rest)

unfoldable pub mint_random_queued_to_drop_batched :
    Headers → Uuid → List String → Bool → M Error (List CollectionMint)
mint_random_queued_to_drop_batched headers drop_id recipients compressed = do
  user ← ok_or headers.user_id user_id_not_found
  org ← ok_or headers.organization_id organization_id_not_found
  balance ← ok_or headers.balance balance_not_found
  fail_if (length recipients == 0) no_recipients
  fail_if (ltb 250 (length recipients)) batch_too_large
  found ← query (find_by_id drops_table drop_id)
  drop ← ok_or found drop_not_found
  mints ←
      random_query (λ r db. draw (length recipients) r (queued_with_metadata drop.collection_id db))
  rows ← query (λ db. db.mint_creators)
  fail_if (not (length mints == length recipients)) not_enough_mints
  found_collection ← query (find_by_id collections_table drop.collection_id)
  collection ← ok_or found_collection collection_not_found
  fail_if (not (same_chain collection.blockchain solana)) only_solana
  owner ← fetch_owner no_project_wallet collection.project_id collection.blockchain
  let batch : Batch = record {
    user = user;
    org = org;
    balance = balance;
    drop = drop;
    collection = collection;
    owner = owner;
    compressed = compressed;
  }
  transactions ← mint_items batch (batch_items rows mints recipients)
  send (solana_mint_open_drop_batched collection.id compressed transactions)
      (record { id = collection.id; user_id = user; project_id = collection.project_id })
  pure (map (λ found. found.0) mints)
