-- ===== src/Mutations/Drops.antt =====
-- The mutations of drops (api/src/mutations/drop.rs): `create_drop`, `retry_drop`, `pause_drop`,
-- `resume_drop` and `shutdown_drop`.
pub mod Created
use hub_nfts.Prelude.{ℕ, String, Option, none, some, List, get_or}
use hub_nfts.Entities.{
  Uuid, Time, Action, Blockchain, ethereum, polygon, solana, DropType, edition_drop, open_drop,
  created, pending, same_status, Drop, Collection, MetadataJson,
}
use hub_nfts.Effects.{
  M, Result, ok, ◌>>=◌, ◌>>◌, pure, raise, lift, ok_or, fail_if, connect, query, insert, update,
  read_clock, read_env, submit, send, atomically, enqueue, find_by_id, drops_table,
  collections_table, metadata_jsons_table,
}
use hub_nfts.Errors.{
  Error, user_id_not_found, organization_id_not_found, balance_not_found, drop_not_found,
  collection_not_found, already_created, metadata_json_not_found, metadata_uri_not_found,
  no_project_wallet, conversion, supply_is_null, open_drops_not_on_polygon,
  blockchain_not_supported,
}
use hub_nfts.Inputs.{Headers, Creator, MetadataJsonInput, Caller}
use hub_nfts.Messages.{NftEventKey, MasterEdition, ProtoCreator, drop_created, in_progress}
use hub_nfts.Validation.{validate_drop}
use hub_nfts.Blockchains.Solana
use hub_nfts.Blockchains.Polygon
use hub_nfts.Mutations.Common.{
  drop_also_collection, proto_creators, to_i16, to_i64, optional_i64, fetch_owner,
  insert_each_collection_creator, save_metadata,
}
use hub_nfts.Mutations.Mints.ToCollection.{verified_on}

-- `CreateDropInput`
pub record CreateDropInput : Type 0 where
  pub project : Uuid
  pub price : Option ℕ
  pub seller_fee_basis_points : Option ℕ
  pub supply : Option ℕ
  pub start_time : Option Time
  pub end_time : Option Time
  pub blockchain : Blockchain
  pub creators : List Creator
  pub metadata_json : MetadataJsonInput
  pub drop_type : DropType

-- An open drop has no supply of its own.
abbrev collection_supply : DropType → Option ℕ → Result Error (Option ℕ)
collection_supply open_drop supply = ok none
collection_supply edition_drop supply = optional_i64 supply

abbrev pub drop_collection_row :
    Time → Uuid → CreateDropInput → Option ℕ → ℕ → Uuid → Uuid → Collection
drop_collection_row now user input supply fee deduction id = record {
  id = id;
  blockchain = input.blockchain;
  supply = supply;
  project_id = input.project;
  credits_deduction_id = some deduction;
  creation_status = pending;
  address = none;
  signature = none;
  seller_fee_basis_points = fee;
  created_by = user;
  created_at = now;
}

abbrev pub drop_row : Time → Uuid → CreateDropInput → Uuid → ℕ → Uuid → Uuid → Drop
drop_row now user input collection_id price deduction id = record {
  id = id;
  project_id = input.project;
  collection_id = collection_id;
  creation_status = pending;
  start_time = input.start_time;
  end_time = input.end_time;
  price = price;
  created_by = user;
  created_at = now;
  paused_at = none;
  shutdown_at = none;
  credits_deduction_id = some deduction;
  drop_type = input.drop_type;
}

-- The transaction of `create_drop`.
unfoldable pub record_drop : Uuid → CreateDropInput → Option ℕ → Uuid → M Error Drop
record_drop user input supply deduction = do
  connect
  env ← read_env
  now ← read_clock
  atomically (do
    fee ← ok_or (to_i16 (get_or 0 input.seller_fee_basis_points)) conversion
    collection ← insert collections_table (drop_collection_row now user input supply fee deduction)
    insert_each_collection_creator env collection.id input.creators
    save_metadata collection.id input.metadata_json
    price ← ok_or (to_i64 (get_or 0 input.price)) conversion
    insert drops_table (drop_row now user input collection.id price deduction))

unfoldable pub create_drop : Headers → CreateDropInput → M Error Drop
create_drop headers input = do
  user ← ok_or headers.user_id user_id_not_found
  org ← ok_or headers.organization_id organization_id_not_found
  balance ← ok_or headers.balance balance_not_found
  owner ← fetch_owner no_project_wallet input.project input.blockchain
  supply ← lift (collection_supply input.drop_type input.supply)
  env ← read_env
  now ← read_clock
  lift (
      validate_drop env now input.blockchain input.drop_type input.supply input.end_time
        input.creators input.metadata_json)
  lift (verified_on input.blockchain owner input.creators)
  deduction ← submit org user Action.create_drop input.blockchain balance
  drop ← record_drop user input supply deduction
  enqueue (record { metadata_json = input.metadata_json; caller = Caller.create_drop drop.id })
  send (drop_created in_progress drop.collection_id)
      (record { id = drop.id; project_id = input.project; user_id = user })
  pure drop

abbrev pub master_edition :
    String → Option ℕ → MetadataJson → String → ℕ → List ProtoCreator → MasterEdition
master_edition owner supply json uri fee creators = record {
  owner_address = owner;
  supply = supply;
  name = json.name;
  symbol = json.symbol;
  metadata_uri = uri;
  seller_fee_basis_points = fee;
  creators = creators;
}

unfoldable pub resend_drop :
    Drop
    → Collection
    → NftEventKey
    → String
    → MetadataJson
    → String
    → List ProtoCreator
    → M Error (Unit {0})
resend_drop drop collection key owner json uri creators = elim collection.blockchain [
  | solana ↦
      Solana.retry_create_drop drop.drop_type key (
        master_edition owner collection.supply json uri collection.seller_fee_basis_points creators)
  | polygon ↦ ok_or collection.supply supply_is_null >>= λ amount.
      Polygon.retry_create_drop open_drops_not_on_polygon drop.drop_type key (record {
        edition_info = none;
        amount = amount;
        fee_receiver = owner;
        fee_numerator = collection.seller_fee_basis_points;
      })
  | ethereum ↦ raise blockchain_not_supported
]

-- The deduction of a retry is submitted, and its id is dropped.
unfoldable pub retry_drop : Headers → Uuid → M Error Drop
retry_drop headers id = do
  user ← ok_or headers.user_id user_id_not_found
  org ← ok_or headers.organization_id organization_id_not_found
  balance ← ok_or headers.balance balance_not_found
  found ← query (drop_also_collection id)
  pair ← ok_or found drop_not_found
  collection ← ok_or pair.1 collection_not_found
  let drop : Drop = pair.0
  fail_if (same_status drop.creation_status created) already_created
  found_json ← query (find_by_id metadata_jsons_table collection.id)
  json ← ok_or found_json metadata_json_not_found
  uri ← ok_or json.uri metadata_uri_not_found
  creators ← query (λ db. proto_creators collection.id db.collection_creators)
  owner ← fetch_owner no_project_wallet drop.project_id collection.blockchain
  submit org user Action.retry_drop collection.blockchain balance
  resend_drop drop collection
      (record { id = collection.id; user_id = user; project_id = drop.project_id }) owner json uri
      creators
  update drops_table drop.id (λ d. record d { creation_status = pending })

unfoldable pub pause_drop : Uuid → M Error Drop
pause_drop id = do
  found ← query (find_by_id drops_table id)
  drop ← ok_or found drop_not_found
  now ← read_clock
  update drops_table drop.id (λ d. record d { paused_at = some now })

unfoldable pub resume_drop : Uuid → M Error Drop
resume_drop id = do
  found ← query (find_by_id drops_table id)
  drop ← ok_or found drop_not_found
  update drops_table drop.id (λ d. record d { paused_at = none })

unfoldable pub shutdown_drop : Uuid → M Error Drop
shutdown_drop id = do
  found ← query (find_by_id drops_table id)
  drop ← ok_or found drop_not_found
  now ← read_clock
  update drops_table drop.id (λ d. record d { shutdown_at = some now })
