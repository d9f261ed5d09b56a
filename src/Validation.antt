-- ===== src/Validation.antt =====
-- The checks of requests: `validate_*` of api/src/mutations/collection.rs and drop.rs,
-- `validate_compress`, `check_drop_status` and `check_collection_status` of mint.rs.
use Prim.Native.String.{count}
use hub_nfts.Prelude.{
  ℕ, ◌+◌, ◌%◌, String, Bool, true, false, not, ◌&&◌, Option, none, some, List, [], ◌∷◌, ltb, leb,
  ◌==◌, str_eq, if◌then◌else◌, length, is_some, get_or,
}
use hub_nfts.Entities.{
  Blockchain, ethereum, polygon, solana, created, DropType, is_edition, same_status, same_chain,
  Drop, Collection, Time,
}
use hub_nfts.Effects.{Env, Result, ok, err, ◌&>◌}
use hub_nfts.Inputs.{Creator, MetadataJsonInput}
use hub_nfts.Errors.{
  Error, drop_not_created, drop_paused, drop_shutdown, drop_not_started, drop_ended,
  collection_not_created, compression_not_supported, shares_not_100, too_many_creators, one_creator,
  blockchain_not_supported, not_solana_address, not_evm_address, only_treasury_verified,
  invalid_animation_url, invalid_external_url, invalid_image_url, name_too_long, symbol_too_long,
  zero_supply, polygon_supply_required, polygon_one_creator, end_time_in_past,
}
pub mod Creators
pub mod DropStatus

abbrev pub Check : Type 0
Check = Result Error (Unit {0})

-- `if refused { return Err(error) } Ok(())`
abbrev pub unless : Bool → Error → Check
unless true e = err e
unless false e = ok tt

-- `creators.iter().map(|c| c.share).sum::<u8>()`, which wraps in a release build.
unfoldable pub royalty_share : ℕ → List Creator → ℕ
royalty_share sum [] = sum
royalty_share sum (c ∷ cs) = royalty_share ((sum + c.share) % 256) cs

unfoldable pub validate_solana_address : Env → String → Check
validate_solana_address env address =
    unless (not (env.is_solana_address address)) not_solana_address

unfoldable pub validate_evm_address : Env → String → Check
validate_evm_address env address = unless (not (env.is_evm_address address)) not_evm_address

unfoldable pub validate_solana_addresses : Env → List Creator → Check
unfolding validate_solana_address
validate_solana_addresses env [] = ok tt
validate_solana_addresses env (c ∷ cs) =
    let rest = validate_solana_addresses env cs in validate_solana_address env c.address &> rest

-- `creators.len() != 1`, and the address of `creators[0]`.
unfoldable pub validate_one_creator : Env → List Creator → Check
unfolding validate_evm_address
validate_one_creator env (c ∷ []) = validate_evm_address env c.address
validate_one_creator env _ = err one_creator

unfoldable pub validate_creators : Env → Blockchain → List Creator → Check
unfolding royalty_share validate_solana_addresses validate_one_creator
validate_creators env chain creators =
    unless (not (royalty_share 0 creators == 100)) shares_not_100 &> elim chain [
      | solana ↦
          unless (ltb 5 (length creators)) too_many_creators
          &> validate_solana_addresses env creators
      | polygon ↦ validate_one_creator env creators
      | ethereum ↦ err blockchain_not_supported
    ]

unfoldable pub validate_solana_creator_verification : String → List Creator → Check
validate_solana_creator_verification treasury [] = ok tt
validate_solana_creator_verification treasury (c ∷ cs) =
    let rest = validate_solana_creator_verification treasury cs in
    if get_or false c.verified && not (str_eq c.address treasury)
    then err only_treasury_verified
    else rest

abbrev invalid_url : Env → Option String → Bool
invalid_url env none = false
invalid_url env (some url) = not (env.is_url url)

unfoldable pub validate_json : Env → Blockchain → MetadataJsonInput → Check
validate_json env chain json =
    unless (invalid_url env json.animation_url) invalid_animation_url
    &> unless (invalid_url env json.external_url) invalid_external_url
    &> unless (not (env.is_url json.image)) invalid_image_url
    &> (if not (same_chain chain solana)
        then ok tt
        else unless (ltb 32 (count json.name)) name_too_long
          &> unless (ltb 10 (count json.symbol)) symbol_too_long)

-- `CreateCollectionInput::validate`
unfoldable pub validate_collection : Env → Blockchain → List Creator → MetadataJsonInput → Check
unfolding validate_creators validate_json
validate_collection env chain creators json =
    validate_creators env chain creators &> validate_json env chain json

unfoldable pub validate_polygon_creator : Blockchain → List Creator → Check
validate_polygon_creator chain creators =
    unless (same_chain chain polygon && ltb 1 (length creators)) polygon_one_creator

unfoldable pub validate_polygon_supply : Blockchain → Option ℕ → Check
validate_polygon_supply chain supply =
    unless (same_chain chain polygon && not (is_some supply)) polygon_supply_required

unfoldable pub validate_end_time : Time → Option Time → Check
validate_end_time now none = ok tt
validate_end_time now (some end) = unless (not (ltb now end)) end_time_in_past

abbrev is_zero : Option ℕ → Bool
is_zero none = false
is_zero (some n) = n == 0

-- `CreateDropInput::validate`
unfoldable pub validate_drop :
    Env
    → Time
    → Blockchain
    → DropType
    → Option ℕ
    → Option Time
    → List Creator
    → MetadataJsonInput
    → Check
unfolding validate_end_time validate_creators validate_json validate_polygon_supply
    validate_polygon_creator
validate_drop env now chain type supply end creators json =
    unless (is_zero supply && is_edition type) zero_supply
    &> validate_end_time now end
    &> validate_creators env chain creators
    &> validate_json env chain json
    &> validate_polygon_supply chain supply
    &> validate_polygon_creator chain creators

unfoldable pub validate_compress : Blockchain → Bool → Check
validate_compress chain compressed =
    unless (not (same_chain chain solana) && compressed) compression_not_supported

abbrev pub not_started : Time → Option Time → Bool
not_started now none = false
not_started now (some start) = ltb now start

abbrev pub has_ended : Time → Option Time → Bool
has_ended now none = false
has_ended now (some end) = leb end now

-- The clock is read once for the start and once for the end.
unfoldable pub check_drop_status : Drop → Time → Time → Check
check_drop_status drop now later =
    unless (not (same_status drop.creation_status created)) drop_not_created
    &> unless (is_some drop.paused_at) drop_paused
    &> unless (is_some drop.shutdown_at) drop_shutdown
    &> unless (not_started now drop.start_time) drop_not_started
    &> unless (has_ended later drop.end_time) drop_ended

unfoldable pub check_collection_status : Collection → Check
check_collection_status collection =
    unless (not (same_status collection.creation_status created)) collection_not_created
