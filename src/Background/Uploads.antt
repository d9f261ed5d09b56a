-- ===== src/Background/Uploads.antt =====
-- What a task does to the state: the statements, and the steps that the tasks share.
mod Steps
mod Sends
pub mod Callers
pub mod Process
use hub_nfts.Prelude.{◌≡◌, ◌⊎◌, String, Option, none, some, List, ◌∷◌, update_where}
use hub_nfts.Entities.{Uuid, MetadataJson}
use hub_nfts.Messages.{
  NftEvent, NftEventKey, EditionInfo, solana_create_edition_drop, solana_create_open_drop,
  solana_update_edition_drop, solana_update_open_drop, solana_create_collection,
  solana_update_collection, solana_mint_to_collection, solana_updated_collection_mint,
  polygon_create_drop, polygon_update_drop,
}
use hub_nfts.Effects.{
  World, Db, Result, ok, err, fault, UploadResponse, find_by_id, has_key, metadata_jsons_table,
}
use hub_nfts.Background.Errors.{TaskError}

-- The row of the metadata gets the URI and the content id; nothing else of the database changes.
pub record Stored (response : UploadResponse) (id : Uuid) (before after : Db) : Type 0 where
  pub row : MetadataJson
  pub was : find_by_id metadata_jsons_table id before ≡ some row
  pub now : after ≡ record before {
    metadata_jsons =
        update_where
          (has_key metadata_jsons_table id)
          (λ json. record json { uri = some response.uri; identifier = some response.cid })
          before.metadata_jsons;
  }

-- The URI that an event announces.
abbrev pub info_uri : Option EditionInfo → Option String
info_uri none = none
info_uri (some info) = some info.uri

abbrev pub event_uri : NftEvent → Option String
event_uri (solana_create_edition_drop p) = some p.metadata_uri
event_uri (solana_create_open_drop p) = some p.metadata_uri
event_uri (solana_update_edition_drop p) = some p.metadata_uri
event_uri (solana_update_open_drop p) = some p.metadata_uri
event_uri (solana_create_collection p) = some p.metadata_uri
event_uri (solana_update_collection p) = some p.metadata_uri
event_uri (solana_mint_to_collection p) = some p.metadata.metadata_uri
event_uri (solana_updated_collection_mint p _) = some p.metadata_uri
event_uri (polygon_create_drop p) = info_uri p.edition_info
event_uri (polygon_update_drop p) = some p.uri
event_uri _ = none

-- What the tasks leave alone: the job store, the cache, and the deductions.
abbrev pub Untouched : World → World → Type 0
Untouched w w' =
    (w'.jobs ≡ w.jobs)
    × (w'.cache ≡ w.cache)
    × (w'.submitted ≡ w.submitted)
    × (w'.confirmed ≡ w.confirmed)
    × (w'.env ≡ w.env)

-- One more event, which announces this URI.
pub record Announced (uri : String) (before after : List (NftEvent × NftEventKey)) : Type 0 where
  pub event : NftEvent
  pub key : NftEventKey
  pub now : after ≡ (event, key) ∷ before
  pub announces : event_uri event ≡ some uri

-- The outcomes of a task that stores the upload in the row `target`, with `Sends` of the events
-- where it succeeds.
abbrev pub Outcome :
    (List (NftEvent × NftEventKey) → List (NftEvent × NftEventKey) → Type 0)
    → UploadResponse
    → Option Uuid
    → World
    → Result TaskError (Unit {0})
    → World
    → Type 0
Outcome Sends response target w (ok _) w' =
    Untouched w w'
    × Sends w.sent w'.sent
    × (id : Uuid) × (target ≡ some id)
    × Stored response id w.db w'.db
Outcome Sends response target w (err e) w' =
    Untouched w w'
    × (w'.sent ≡ w.sent)
    × ((w'.db ≡ w.db) ⊎ ((id : Uuid) × (target ≡ some id) × Stored response id w.db w'.db))
Outcome Sends response target w fault w' =
    Untouched w w'
    × (w'.sent ≡ w.sent)
    × ((w'.db ≡ w.db) ⊎ ((id : Uuid) × (target ≡ some id) × Stored response id w.db w'.db))

-- A step that sends one event with this URI, or fails.
abbrev pub Sending : String → World → Result TaskError (Unit {0}) → World → Type 0
Sending uri w (ok _) w' = Untouched w w' × (w'.db ≡ w.db) × Announced uri w.sent w'.sent
Sending uri w (err e) w' = Untouched w w' × (w'.db ≡ w.db) × (w'.sent ≡ w.sent)
Sending uri w fault w' = Untouched w w' × (w'.db ≡ w.db) × (w'.sent ≡ w.sent)
