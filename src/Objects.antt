-- ===== src/Objects.antt =====
-- The status that the GraphQL object of a drop shows (`status` of api/src/objects/drop.rs), and
-- how it agrees with the check that `mint_edition` makes.
use hub_nfts.Prelude.{
  ℕ, ◌≡◌, ◌≢◌, ◌⊎◌, inl, inr, refl, Bool, true, false, Option, none, some, ltb, ◌==◌, ◌&&◌, is_some,
  if◌then◌else◌, arith, ap, ==_iff, Bool-cases,
}
use hub_nfts.Entities.{
  Time, Drop, CreationStatus, blocked, canceled, created, failed, pending, rejected, queued,
}
use hub_nfts.Effects.{Result, ok, err}
use hub_nfts.Errors.{Error, no_drop_status, no_total_mints, no_supply}
use hub_nfts.Validation.{check_drop_status}
use hub_nfts.Validation.DropStatus.{IsAfter, IsBefore, check_drop_status-IsRunning}

pub data DropStatus : Type 0 where
  minting minted scheduled expired creating paused shutdown failed_drop : DropStatus

abbrev is_scheduled : Time → Option Time → Bool
is_scheduled now none = false
is_scheduled now (some start) = ltb now start

abbrev is_expired : Time → Option Time → Bool
is_expired now none = false
is_expired now (some end) = ltb end now

-- `supply.map(|supply| supply == total_mints && total_mints > 0)`
abbrev pub is_minted : ℕ → Option ℕ → Option Bool
is_minted total none = none
is_minted total (some supply) = some (supply == total && ltb 0 total)

-- The last arms of the `match`.
abbrev by_supply : CreationStatus → Option Bool → Result Error DropStatus
by_supply s (some true) = ok minted
by_supply s (some false) = ok minting
by_supply created none = ok minting
by_supply _ none = err no_drop_status

-- The arms for a drop that is neither paused nor shut down.
abbrev by_time : Bool → Bool → CreationStatus → Option Bool → Result Error DropStatus
by_time scheduled_now expired_now s m =
    if scheduled_now then ok scheduled else if expired_now then ok expired else by_supply s m

abbrev by_creation : CreationStatus → Bool → Bool → Option Bool → Result Error DropStatus
by_creation pending a b m = ok creating
by_creation blocked a b m = ok failed_drop
by_creation canceled a b m = ok failed_drop
by_creation failed a b m = ok failed_drop
by_creation rejected a b m = ok failed_drop
by_creation created a b m = by_time a b created m
by_creation queued a b m = by_time a b queued m

-- The `match`, its arms in order.
unfoldable pub status_at : Drop → Time → Option Bool → Result Error DropStatus
status_at d now m =
    if is_some d.paused_at
    then ok paused
    else if is_some d.shutdown_at
    then ok shutdown
    else by_creation d.creation_status (is_scheduled now d.start_time) (is_expired now d.end_time) m

-- `total` and `supply` are what the two loaders answer.
unfoldable pub drop_status : Drop → Time → Option ℕ → Option (Option ℕ) → Result Error DropStatus
drop_status d now none supply = err no_total_mints
drop_status d now (some total) none = err no_supply
drop_status d now (some total) (some supply) = status_at d now (is_minted total supply)

not_scheduled :
    (now : Time) (start : Option Time) → IsAfter start now → is_scheduled now start ≡ false
not_scheduled now none h = refl
not_scheduled now (some start) h = ground arith

not_expired : (now : Time) (end : Option Time) → IsBefore now end → is_expired now end ≡ false
not_expired now none h = refl
not_expired now (some end) h = ground arith

running_by_supply :
    (m : Option Bool) → (by_supply created m ≡ ok minting) ⊎ (by_supply created m ≡ ok minted)
running_by_supply none = inl refl
running_by_supply (some true) = inr refl
running_by_supply (some false) = inl refl

-- A drop that the check of `mint_edition` lets through is shown as minting or as minted.
pub drop_status-running :
    (d : Drop) (now : Time) (total : ℕ) (supply : Option ℕ)
    → check_drop_status d now now ≡ ok tt
    → (drop_status d now (some total) (some supply) ≡ ok minting)
      ⊎ (drop_status d now (some total) (some supply) ≡ ok minted)
unfolding drop_status status_at
drop_status-running d now total supply h =
    let r = (check_drop_status-IsRunning d now now).0 h in
    rw
      (
        r.not_paused,
        r.not_shutdown,
        r.is_created,
        not_scheduled now d.start_time r.started,
        not_expired now d.end_time r.not_ended,
      )
      (running_by_supply (is_minted total supply))

is_some-none : {A : Type 0} (o : Option A) → is_some o ≡ false → o ≡ none
is_some-none none h = refl
is_some-none (some x) h = cc

-- A drop that is shown as minting is neither paused nor shut down.
status_at-open :
    (d : Drop) (now : Time) (m : Option Bool)
    → status_at d now m ≡ ok minting
    → (d.paused_at ≡ none)
      × (d.shutdown_at ≡ none)
      × (by_creation d.creation_status (is_scheduled now d.start_time) (is_expired now d.end_time) m
          ≡ ok minting)
unfolding status_at
status_at-open d now m h = elim (Bool-cases (is_some d.paused_at)) [
  | inl t ↦ let e = rw t at h in cc
  | inr t ↦ elim (Bool-cases (is_some d.shutdown_at)) [
    | inl u ↦ let e = rw (t, u) at h in cc
    | inr u ↦ (is_some-none d.paused_at t, is_some-none d.shutdown_at u, rw (t, u) at h)
  ]
]

by_time-open :
    (a b : Bool) (s : CreationStatus) (m : Option Bool)
    → by_time a b s m ≡ ok minting
    → (a ≡ false) × (b ≡ false)
by_time-open true b s m h = cc
by_time-open false true s m h = cc
by_time-open false false s m h = (refl, refl)

by_creation-open :
    (s : CreationStatus) (a b : Bool) (m : Option Bool)
    → by_creation s a b m ≡ ok minting
    → s ≢ queued
    → (s ≡ created) × (a ≡ false) × (b ≡ false)
by_creation-open created a b m h n = let (x, y) = by_time-open a b created m h in (refl, x, y)
by_creation-open queued a b m h n = absurd (n refl)
by_creation-open pending a b m h n = cc
by_creation-open blocked a b m h n = cc
by_creation-open canceled a b m h n = cc
by_creation-open failed a b m h n = cc
by_creation-open rejected a b m h n = cc

has_started :
    (now : Time) (start : Option Time) → is_scheduled now start ≡ false → IsAfter start now
has_started now none h = tt
has_started now (some start) h = ground arith

not_ended_yet :
    (now : Time) (end : Option Time)
    → is_expired now end ≡ false
    → end ≢ some now
    → IsBefore now end
not_ended_yet now none h n = tt
not_ended_yet now (some end) h n = elim (Bool-cases (end == now)) [
  | inl t ↦ absurd (n (ap (λ x. some x) ((==_iff end now).0 t)))
  | inr t ↦ ground arith
]

-- A drop that is shown as minting, whose creation status is not queued and which does not end at
-- this very moment, is let through by the check of `mint_edition` at the same moment.
pub drop_status-minting :
    (d : Drop) (now : Time) (total : ℕ) (supply : Option ℕ)
    → d.creation_status ≢ queued
    → d.end_time ≢ some now
    → drop_status d now (some total) (some supply) ≡ ok minting
    → check_drop_status d now now ≡ ok tt
unfolding drop_status
drop_status-minting d now total supply not_queued not_now h =
    let (p, q, g) = status_at-open d now (is_minted total supply) h in
    let (s, a, b) = by_creation-open d.creation_status _ _ (is_minted total supply) g not_queued in
    (check_drop_status-IsRunning d now now).1 (record {
      is_created = s;
      not_paused = p;
      not_shutdown = q;
      started = has_started now d.start_time a;
      not_ended = not_ended_yet now d.end_time b not_now;
    })
