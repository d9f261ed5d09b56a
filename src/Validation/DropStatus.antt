-- ===== src/Validation/DropStatus.antt =====
-- When a drop can be minted from: `check_drop_status` against a description of a running drop.
use hub_nfts.Prelude.{
  ◌≡◌, ◌≤◌, ◌<◌, ◌↔◌, Option, none, some, arith, refl, is_some, Bool, true, false, not,
}
use hub_nfts.Entities.{Drop, CreationStatus, created, same_status, same_status-eq, Time}
use hub_nfts.Effects.{ok, ◌&>◌}
use hub_nfts.Validation.{Check, unless, check_drop_status, not_started, has_ended}
use hub_nfts.Errors.{Error}

abbrev pub IsAfter : Option Time → Time → Type 0
IsAfter none now = Unit
IsAfter (some start) now = start ≤ now

abbrev pub IsBefore : Time → Option Time → Type 0
IsBefore now none = Unit
IsBefore now (some end) = now < end

-- A drop that is created, is neither paused nor shut down, has started and has not ended.
pub record IsRunning (drop : Drop) (now later : Time) : Type 0 where
  pub is_created : drop.creation_status ≡ created
  pub not_paused : drop.paused_at ≡ none
  pub not_shutdown : drop.shutdown_at ≡ none
  pub started : IsAfter drop.start_time now
  pub not_ended : IsBefore later drop.end_time

pub unless-passes :
    (b : Bool) (e : Error) (r : Check) → (unless b e &> r ≡ ok tt) → (b ≡ false) × (r ≡ ok tt)
unless-passes true e r h = cc
unless-passes false e r h = (refl, h)

pub unless-end : (b : Bool) (e : Error) → unless b e ≡ ok tt → b ≡ false
unless-end true e h = cc
unless-end false e h = refl

not_started-IsAfter :
    (now : Time) (start : Option Time) → (not_started now start ≡ false) ↔ IsAfter start now
not_started-IsAfter now none = (λ h. tt, λ h. refl)
not_started-IsAfter now (some start) = ground arith

has_ended-IsBefore :
    (now : Time) (end : Option Time) → (has_ended now end ≡ false) ↔ IsBefore now end
has_ended-IsBefore now none = (λ h. tt, λ h. refl)
has_ended-IsBefore now (some end) = ground arith

is_some-none : {A : Type 0} (o : Option A) → (is_some o ≡ false) → o ≡ none
is_some-none none h = refl
is_some-none (some x) h = cc

created-same_status : (s : CreationStatus) → (not (same_status s created) ≡ false) → s ≡ created
created-same_status s h = same_status-eq s created (ground arith)

-- The check passes exactly for the drops that are running, where `now` and `later` are the two
-- readings of the clock.
pub check_drop_status-IsRunning :
    (drop : Drop) (now later : Time)
    → (check_drop_status drop now later ≡ ok tt) ↔ IsRunning drop now later
unfolding check_drop_status
check_drop_status-IsRunning drop now later = (sound, complete)
  where
    sound : check_drop_status drop now later ≡ ok tt → IsRunning drop now later
    sound h =
        let (a, h) = unless-passes _ _ _ h in
        let (b, h) = unless-passes _ _ _ h in
        let (c, h) = unless-passes _ _ _ h in
        let (d, h) = unless-passes _ _ _ h in
        record {
          is_created = created-same_status _ a;
          not_paused = is_some-none _ b;
          not_shutdown = is_some-none _ c;
          started = (not_started-IsAfter now drop.start_time).0 d;
          not_ended = (has_ended-IsBefore later drop.end_time).0 (unless-end _ _ h);
        }

    complete : IsRunning drop now later → check_drop_status drop now later ≡ ok tt
    complete r =
        rw
          (
            r.is_created,
            r.not_paused,
            r.not_shutdown,
            (not_started-IsAfter now drop.start_time).1 r.started,
            (has_ended-IsBefore later drop.end_time).1 r.not_ended,
          )
          refl
