-- ===== src/Tests/Example.antt =====
-- A state of the service: a running drop of a Solana collection with a supply of five, one mint in
-- the queue, and one pending edition.
use hub_nfts.Prelude.{ℕ, ◌+◌, true, false, none, some, [], ◌∷◌, str_eq, if◌then◌else◌}
use hub_nfts.Entities.{
  created, pending, queued, solana, edition_drop, unnumbered, numbered, Drop, Collection,
  CollectionMint, MintHistory, MetadataJson, ProjectWallet,
}
use hub_nfts.Inputs.{Headers, Creator, MetadataJsonInput}
use hub_nfts.Effects.{World, Env}
use hub_nfts.Mutations.Drops.{CreateDropInput}

abbrev pub env : Env
env = record {
  fails = λ n. false;
  clock = λ n. 50 + n;
  fresh = λ n. 100 + n;
  random = λ n i. 0;
  is_solana_address = λ s. true;
  is_evm_address = λ s. false;
  is_url = λ s. true;
  parse_uuid = λ s. if str_eq s "mint" then some 31 else some 10;
  before_save = λ s. s;
  to_lowercase = λ s. s;
  upload = λ json. record { uri = "uri"; cid = "cid" };
}

abbrev pub collection : Collection
collection = record {
  id = 10;
  blockchain = solana;
  supply = some 5;
  project_id = 1;
  credits_deduction_id = some 6;
  creation_status = created;
  address = none;
  signature = none;
  seller_fee_basis_points = 500;
  created_by = 2;
  created_at = 0;
}

abbrev pub drop : Drop
drop = record {
  id = 20;
  project_id = 1;
  collection_id = 10;
  creation_status = created;
  start_time = some 1;
  end_time = some 99;
  price = 0;
  created_by = 2;
  created_at = 0;
  paused_at = none;
  shutdown_at = none;
  credits_deduction_id = some 6;
  drop_type = edition_drop;
}

abbrev queued_mint : CollectionMint
queued_mint = record {
  id = 30;
  collection_id = 10;
  address = none;
  owner = none;
  creation_status = queued;
  created_by = 2;
  created_at = 0;
  signature = none;
  edition = unnumbered;
  seller_fee_basis_points = 500;
  credits_deduction_id = none;
  compressed = none;
}

abbrev pub pending_mint : CollectionMint
pending_mint = record queued_mint {
  id = 31;
  owner = some "owner";
  creation_status = pending;
  edition = numbered 1;
  credits_deduction_id = some 7;
}

abbrev history : MintHistory
history = record {
  id = 40;
  mint_id = 31;
  wallet = "owner";
  tx_signature = none;
  status = pending;
  created_at = 0;
  collection_id = 10;
}

abbrev json : ℕ → MetadataJson
json id = record {
  id = id;
  identifier = some "cid";
  name = "name";
  uri = some "uri";
  symbol = "symbol";
  description = "description";
  image = "image";
  animation_url = none;
  external_url = none;
}

abbrev wallet : ProjectWallet
wallet = record { id = 3; project_id = 1; wallet_address = "treasury"; blockchain = solana }

abbrev pub world : World
world = record {
  env = env;
  db = record {
    drops = drop ∷ [];
    collections = collection ∷ [];
    mints = queued_mint ∷ pending_mint ∷ [];
    mint_histories = history ∷ [];
    update_histories = [];
    switch_histories = [];
    transfer_charges = [];
    nft_transfers = [];
    project_wallets = wallet ∷ [];
    customer_wallets = [];
    metadata_jsons = json 10 ∷ json 30 ∷ [];
    metadata_attributes = [];
    metadata_files = [];
    collection_creators = [];
    mint_creators = [];
  };
  cache = [];
  jobs = record { trackings = []; next_id = 1; waiting = [] };
  sent = [];
  submitted = [];
  confirmed = [];
  calls = 0;
}

abbrev pub headers : Headers
headers = record { user_id = some 2; organization_id = some 4; balance = some 1000 }

abbrev pub creator : ℕ → Creator
creator share = record { address = "treasury"; verified = some true; share = share }

abbrev pub metadata : MetadataJsonInput
metadata = record {
  name = "name";
  symbol = "symbol";
  description = "description";
  image = "image";
  animation_url = none;
  collection = some (record { name = some "name"; family = none });
  attributes = [];
  external_url = none;
  properties = some (record { files = none; category = some "image" });
}

abbrev pub drop_input : CreateDropInput
drop_input = record {
  project = 1;
  price = none;
  seller_fee_basis_points = some 500;
  supply = some 5;
  start_time = none;
  end_time = none;
  blockchain = solana;
  creators = creator 100 ∷ [];
  metadata_json = metadata;
  drop_type = edition_drop;
}
