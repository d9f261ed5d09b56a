-- ===== src/Tests/Objects.antt =====
-- Witnesses: the status of a drop.
use hub_nfts.Prelude.{◌≡◌, ◌⊎◌, refl, some, arith}
use hub_nfts.Effects.{ok}
use hub_nfts.Validation.{check_drop_status}
use hub_nfts.Objects.{
  minting, minted, drop_status, status_at, drop_status-running, drop_status-minting,
}
use hub_nfts.Tests.Example.{drop}

drop_status-running_example :
    (drop_status drop 50 (some 5) (some (some 5)) ≡ ok minting)
    ⊎ (drop_status drop 50 (some 5) (some (some 5)) ≡ ok minted)
unfolding check_drop_status
drop_status-running_example = drop_status-running drop 50 5 (some 5) refl

drop_status-minting_example : check_drop_status drop 50 50 ≡ ok tt
unfolding drop_status status_at
drop_status-minting_example =
    drop_status-minting drop 50 1 (some 5) (λ e. cc) (λ e. ground arith) refl
