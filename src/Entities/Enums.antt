-- ===== src/Entities/Enums.antt =====
-- The enumerations of api/src/entities/sea_orm_active_enums.rs, and `Actions` of api/src/lib.rs.
use hub_nfts.Prelude.{ℕ, ◌≡◌, Bool, arith, ◌==◌, true, false}

pub data Blockchain : Type 0 where
  ethereum polygon solana : Blockchain

pub data CreationStatus : Type 0 where
  blocked canceled created failed pending rejected queued : CreationStatus

pub data DropType : Type 0 where
  edition_drop open_drop : DropType

-- What a credits deduction is for.
pub data Action : Type 0 where
  create_drop mint_edition retry_mint retry_drop transfer_asset mint mint_compressed : Action
  create_collection retry_collection update_mint : Action

abbrev status_tag : CreationStatus → ℕ
status_tag blocked = 0
status_tag canceled = 1
status_tag created = 2
status_tag failed = 3
status_tag pending = 4
status_tag rejected = 5
status_tag queued = 6

-- The derived `PartialEq`.
abbrev pub same_status : CreationStatus → CreationStatus → Bool
same_status s t = status_tag s == status_tag t

abbrev chain_tag : Blockchain → ℕ
chain_tag ethereum = 0
chain_tag polygon = 1
chain_tag solana = 2

abbrev pub same_chain : Blockchain → Blockchain → Bool
same_chain a b = chain_tag a == chain_tag b

abbrev pub is_edition : DropType → Bool
is_edition edition_drop = true
is_edition open_drop = false

pub same_status-eq : (s t : CreationStatus) → same_status s t ≡ true → s ≡ t
same_status-eq s t h = ground arith

pub same_chain-eq : (a b : Blockchain) → same_chain a b ≡ true → a ≡ b
same_chain-eq a b h = ground arith
