-- ===== src/Mutations/Transfers.antt =====
-- `transfer_asset` of api/src/mutations/transfer.rs.
use text.Mathlib.Text.{starts_with}
use hub_nfts.Prelude.{String, Bool, not, some, str_eq, if◌then◌else◌, find}
use hub_nfts.Entities.{
  Uuid, Action, Blockchain, ethereum, polygon, solana, created, same_status, CollectionMint,
  CustomerWallet,
}
use hub_nfts.Effects.{
  Env, M, err, ◌>>=◌, ◌>>◌, pure, raise, lift, ok_or, fail_if, query, insert, read_env, submit,
  transfer_charges_table,
}
use hub_nfts.Errors.{
  Error, user_id_not_found, organization_id_not_found, balance_not_found, collection_not_found,
  mint_not_found, blockchain_not_supported, mint_not_created, no_owner, sender_not_managed,
}
use hub_nfts.Inputs.{Headers}
use hub_nfts.Messages.{NftEventKey, TransferAsset}
use hub_nfts.Validation.{Check, validate_solana_address, validate_evm_address}
use hub_nfts.Blockchains.Solana
use hub_nfts.Blockchains.Polygon
use hub_nfts.Mutations.Common.{mint_with_collection}

-- `TransferAssetInput::validate_recipient_address`
abbrev validate_recipient : Env → Blockchain → String → Check
validate_recipient env ethereum recipient = err blockchain_not_supported
validate_recipient env polygon recipient = validate_evm_address env recipient
validate_recipient env solana recipient = validate_solana_address env recipient

abbrev send_transfer : Blockchain → NftEventKey → TransferAsset → M Error (Unit {0})
send_transfer solana key payload = Solana.transfer_asset key payload
send_transfer polygon key payload = Polygon.transfer_asset key payload 1
send_transfer ethereum key payload = raise blockchain_not_supported

-- `CustomerWallets::find_by_address`
abbrev wallet_at : Env → String → CustomerWallet → Bool
wallet_at env address w =
    str_eq w.address (if starts_with address "0x" then env.to_lowercase address else address)

unfoldable pub transfer_asset : Headers → Uuid → String → M Error CollectionMint
transfer_asset headers id recipient = do
  user ← ok_or headers.user_id user_id_not_found
  org ← ok_or headers.organization_id organization_id_not_found
  balance ← ok_or headers.balance balance_not_found
  found ← query (mint_with_collection id)
  pair ← ok_or found mint_not_found
  let mint : CollectionMint = pair.0
  fail_if (not (same_status mint.creation_status created)) mint_not_created
  collection ← ok_or pair.1 collection_not_found
  env ← read_env
  lift (validate_recipient env collection.blockchain recipient)
  owner ← ok_or mint.owner no_owner
  wallet ← query (λ db. find (wallet_at env owner) db.customer_wallets)
  ok_or wallet sender_not_managed
  deduction ← submit org user Action.transfer_asset collection.blockchain balance
  charge ←
      insert transfer_charges_table
        (λ id. record { id = id; credits_deduction_id = some deduction })
  send_transfer collection.blockchain
      (record { id = charge.id; user_id = user; project_id = collection.project_id })
      (record {
        recipient_address = recipient;
        owner_address = owner;
        collection_mint_id = mint.id;
      })
  pure mint
