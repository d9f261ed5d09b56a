-- ===== src/Mutations/Patches/OfDrop.antt =====
-- `patch_drop` of api/src/mutations/drop.rs. The upload task is enqueued, or the event sent, before
-- the transaction is committed.
use hub_nfts.Prelude.{ℕ, String, Option, none, some, List, [], ◌∷◌, get_or}
use hub_nfts.Entities.{
  Uuid, Time, Blockchain, ethereum, polygon, solana, Drop, Collection, MetadataJson,
}
use hub_nfts.Effects.{
  M, Result, ok, err, ◌>>=◌, ◌>>◌, pure, raise, lift, ok_or, connect, query, update, read_clock,
  read_env, atomically, find_by_id, drops_table, collections_table, metadata_jsons_table,
}
use hub_nfts.Errors.{
  Error, user_id_not_found, drop_not_found, collection_not_found, metadata_json_not_found,
  metadata_uri_not_found, no_project_wallet, conversion, no_creator, open_drops_not_on_polygon,
  blockchain_not_supported,
}
use hub_nfts.Inputs.{Headers, Creator, MetadataJsonInput, Caller}
use hub_nfts.Messages.{NftEventKey, ProtoCreator}
use hub_nfts.Validation.{validate_end_time}
use hub_nfts.Blockchains.Solana
use hub_nfts.Blockchains.Polygon
use hub_nfts.Mutations.Common.{
  drop_with_collection, proto_creators, to_i16, optional_i64, fetch_owner,
}
use hub_nfts.Mutations.Drops.{master_edition}
use hub_nfts.Mutations.Patches.{check_creators, check_json, replace_creators, replace_metadata}

pub record PatchDropInput : Type 0 where
  pub id : Uuid
  pub price : Option ℕ
  pub start_time : Option Time
  pub end_time : Option Time
  pub seller_fee_basis_points : Option ℕ
  pub metadata_json : Option MetadataJsonInput
  pub creators : Option (List Creator)

-- A column that is set only where the request has it.
abbrev converted_fee : Option ℕ → Result Error (Option ℕ)
converted_fee none = ok none
converted_fee (some fee) = elim (to_i16 fee) [ none ↦ err conversion | some n ↦ ok (some n) ]

abbrev pub set_fee : Option ℕ → Collection → Collection
set_fee fee c = record c { seller_fee_basis_points = get_or c.seller_fee_basis_points fee }

-- The start is always set, to the present where the request has none, and so is the end.
abbrev pub patched_drop : Option ℕ → Time → Option Time → Drop → Drop
patched_drop price start end d = record d {
  price = get_or d.price price;
  start_time = some start;
  end_time = end;
}

abbrev pub first_creator : List ProtoCreator → Option ProtoCreator
first_creator [] = none
first_creator (c ∷ cs) = some c

-- The event of a patch without metadata.
unfoldable pub send_updated_drop :
    Blockchain
    → Drop
    → Collection
    → NftEventKey
    → String
    → MetadataJson
    → String
    → List ProtoCreator
    → M Error (Unit {0})
send_updated_drop solana drop collection key owner json uri creators =
    Solana.update_drop drop.drop_type key
      (master_edition owner collection.supply json uri collection.seller_fee_basis_points creators)
send_updated_drop polygon drop collection key owner json uri creators =
    ok_or (first_creator creators) no_creator >>= λ creator.
    Polygon.update_drop open_drops_not_on_polygon drop.drop_type key (record {
      description = json.description;
      image_uri = json.image;
      collection = json.name;
      uri = uri;
      creator = creator.address;
    })
send_updated_drop ethereum drop collection key owner json uri creators =
    raise blockchain_not_supported

unfoldable pub finish_drop_patch :
    Option MetadataJsonInput
    → Uuid
    → Drop
    → Collection
    → String
    → MetadataJson
    → List ProtoCreator
    → M Error (Unit {0})
finish_drop_patch (some json) user drop collection owner model creators =
    replace_metadata collection.id json (Caller.patch_drop drop.id user)
finish_drop_patch none user drop collection owner model creators =
    ok_or model.uri metadata_uri_not_found >>= λ uri.
    send_updated_drop collection.blockchain drop collection
      (record { id = collection.id; user_id = user; project_id = drop.project_id }) owner model uri
      creators

-- The transaction of `patch_drop`.
unfoldable pub write_drop_patch :
    PatchDropInput
    → Uuid
    → Drop
    → Collection
    → String
    → MetadataJson
    → List ProtoCreator
    → M Error Drop
write_drop_patch input user drop collection owner model current = do
  fee ← lift (converted_fee input.seller_fee_basis_points)
  patched ← update collections_table collection.id (set_fee fee)
  price ← lift (optional_i64 input.price)
  now ← read_clock
  later ← read_clock
  lift (validate_end_time later input.end_time)
  creators ← replace_creators collection.id input.creators current
  new ← update drops_table drop.id (patched_drop price (get_or now input.start_time) input.end_time)
  finish_drop_patch input.metadata_json user new patched owner model creators
  pure new

unfoldable pub patch_drop : Headers → PatchDropInput → M Error Drop
patch_drop headers input = do
  user ← ok_or headers.user_id user_id_not_found
  found ← query (drop_with_collection input.id)
  pair ← ok_or found drop_not_found
  collection ← ok_or pair.1 collection_not_found
  let drop : Drop = pair.0
  owner ← fetch_owner no_project_wallet drop.project_id collection.blockchain
  env ← read_env
  now ← read_clock
  lift (validate_end_time now input.end_time)
  lift (check_creators env collection.blockchain owner input.creators)
  lift (check_json env collection.blockchain input.metadata_json)
  current ← query (λ db. proto_creators collection.id db.collection_creators)
  found_json ← query (find_by_id metadata_jsons_table collection.id)
  model ← ok_or found_json metadata_json_not_found
  connect
  atomically (write_drop_patch input user drop collection owner model current)
