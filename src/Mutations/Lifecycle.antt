-- ===== src/Mutations/Lifecycle.antt =====
-- Pausing, resuming and shutting down a drop, and what that means for `mint_edition`.
mod Marks
pub mod Resume
pub use Marks.*
use mathlib.Core.Option.{some-injective}
use hub_nfts.Prelude.{
  ◌≡◌, refl, ap, sym, ◌∙◌, subst, Bool, true, false, none, some, List, [], ◌∷◌, String, inl, inr,
  is_some, find_sound, find-update_any, find-update_where, ==_iff, ◌==◌, update_where, find,
}
use hub_nfts.Entities.{
  Uuid, Time, Drop, CollectionMint, Collection, MetadataJson, Blockchain, solana, polygon, ethereum,
  DropType, edition_drop, open_drop, pending,
}
use hub_nfts.Inputs.{Headers}
use hub_nfts.Messages.{NftEventKey, ProtoCreator}
use hub_nfts.Errors.{Error}
use hub_nfts.Validation.DropStatus.{IsRunning}
use hub_nfts.Effects.{
  World, Result, ok, err, fault, Wp, find_by_id, has_key, drops_table, by_then, pure_end, raise_end,
  query_then, ok_or_then, read_clock_then, Succeeds, update_then, fail_if_then, submit_then,
  send_then, part_then,
}
use hub_nfts.Mutations.Common.{fetch_owner_then}
use hub_nfts.Mutations.Drops.{pause_drop, resume_drop, shutdown_drop, retry_drop, resend_drop}
use hub_nfts.Mutations.Mints.Editions.{mint_edition}
use hub_nfts.Mutations.Mints.Editions.Reserve.{reserve_edition-Reserves}

-- The mutations of drops that have rows already.
pub data DropRequest : Type 0 where
  pause resume shutdown : Uuid → DropRequest
  retry : Headers → Uuid → DropRequest

abbrev pub run_request : DropRequest → World → World
run_request (DropRequest.pause id) w = (pause_drop id w).1
run_request (DropRequest.resume id) w = (resume_drop id w).1
run_request (DropRequest.shutdown id) w = (shutdown_drop id w).1
run_request (DropRequest.retry headers id) w = (retry_drop headers id w).1

abbrev pub run_requests : List DropRequest → World → World
run_requests [] w = w
run_requests (r ∷ rs) w = run_requests rs (run_request r w)

abbrev is_shutdown : Drop → Bool
is_shutdown d = is_some d.shutdown_at

module _ (id x : Uuid) (w : World) where
  pause_drop-Shutdown :
      Marked is_shutdown id w → Wp (λ r w'. Marked is_shutdown id w') (pause_drop x) w
  unfolding pause_drop
  pause_drop-Shutdown m = query_then _ _ (Marked-same _ id refl m) (
      ok_or_then _ _ _ (Marked-same _ id refl m) λ d _. read_clock_then _ (
        by_then _ (
          update_then _ _ _ _ (Marked-same _ id refl m) λ row _. pure_end _ (
            Marked-update _ id d.id (λ d. record d { paused_at = some _ }) w _ (λ d. refl)
              (λ d h. h) m refl))))

  resume_drop-Shutdown :
      Marked is_shutdown id w → Wp (λ r w'. Marked is_shutdown id w') (resume_drop x) w
  unfolding resume_drop
  resume_drop-Shutdown m = query_then _ _ (Marked-same _ id refl m) (
      ok_or_then _ _ _ (Marked-same _ id refl m) λ d _. by_then _ (
        update_then _ _ _ _ (Marked-same _ id refl m) λ row _. pure_end _ (
          Marked-update _ id d.id (λ d. record d { paused_at = none }) w _ (λ d. refl) (λ d h. h) m
            refl)))

  shutdown_drop-Shutdown :
      Marked is_shutdown id w → Wp (λ r w'. Marked is_shutdown id w') (shutdown_drop x) w
  unfolding shutdown_drop
  shutdown_drop-Shutdown m = query_then _ _ (Marked-same _ id refl m) (
      ok_or_then _ _ _ (Marked-same _ id refl m) λ d _. read_clock_then _ (
        by_then _ (
          update_then _ _ _ _ (Marked-same _ id refl m) λ row _. pure_end _ (
            Marked-update _ id d.id (λ d. record d { shutdown_at = some _ }) w _ (λ d. refl)
              (λ d h. refl) m refl))))

module _ (id : Uuid) where
  request-Shutdown :
      (r : DropRequest) (w : World)
      → Marked is_shutdown id w
      → Marked is_shutdown id (run_request r w)
  request-Shutdown (DropRequest.pause x) w m = (pause_drop-Shutdown id x w m).holds
  request-Shutdown (DropRequest.resume x) w m = (resume_drop-Shutdown id x w m).holds
  request-Shutdown (DropRequest.shutdown x) w m = (shutdown_drop-Shutdown id x w m).holds
  request-Shutdown (DropRequest.retry headers x) w m =
      (retry_drop-Marked is_shutdown id headers x w (λ d h. h) m).holds

  requests-Shutdown :
      (rs : List DropRequest) (w : World)
      → Marked is_shutdown id w
      → Marked is_shutdown id (run_requests rs w)
  requests-Shutdown [] w m = m
  requests-Shutdown (r ∷ rs) w m = requests-Shutdown rs (run_request r w) (request-Shutdown r w m)

  -- What a success of the two requests does to the drop.
  pause_drop-Paused :
      (w : World)
      → Wp (λ r w'. Succeeds r → Marked (λ d. is_some d.paused_at) id w') (pause_drop id) w
  unfolding pause_drop
  pause_drop-Paused w =
      query_then _ _ (λ x. absurd x)
        (ok_or_then _ _ _ (λ x. absurd x)
          λ d f. read_clock_then _ (
            by_then _ (
              update_then _ _ _ _ (λ x. absurd x)
                λ row _. pure_end _ λ _.
                  set_mark _ id d (λ d. record d { paused_at = some _ }) w _ (λ d. refl) f refl
                    refl)))

  shutdown_drop-Stopped :
      (w : World) → Wp (λ r w'. Succeeds r → Marked is_shutdown id w') (shutdown_drop id) w
  unfolding shutdown_drop
  shutdown_drop-Stopped w =
      query_then _ _ (λ x. absurd x)
        (ok_or_then _ _ _ (λ x. absurd x)
          λ d f. read_clock_then _ (
            by_then _ (
              update_then _ _ _ _ (λ x. absurd x)
                λ row _. pure_end _ λ _.
                  set_mark _ id d (λ d. record d { shutdown_at = some _ }) w _ (λ d. refl) f refl
                    refl)))

not_minted :
    (mark : Drop → Bool) (headers : Headers) (id : Uuid) (recipient : String) (w : World)
    → Marked mark id w
    → ((d : Drop) (now later : Time) → IsRunning d now later → mark d ≡ false)
    → ¬ Succeeds (mint_edition headers id recipient w).0
not_minted mark headers id recipient w m off =
    go _ (mint_edition-RanOn headers id recipient w).holds
  where
    go : (r : Result Error CollectionMint) → RanOn w id r → ¬ Succeeds r
    go (ok a) (d, f, now, later, running) x =
        let e = off d now later running in
        let g : m.drop ≡ d = some-injective _ _ (sym m.found ∙ f) in
        let h = ap mark g in let k = m.is_marked in cc
    go (err e) h x = x
    go fault h x = x

-- After a success of `pause_drop`, a request to `mint_edition` of that drop does not succeed.
pub pause_drop-stops :
    (id : Uuid) (headers : Headers) (recipient : String) (w : World)
    → Succeeds (pause_drop id w).0
    → ¬ Succeeds (mint_edition headers id recipient (pause_drop id w).1).0
pause_drop-stops id headers recipient w s =
    not_minted (λ d. is_some d.paused_at) headers id recipient _ ((pause_drop-Paused id w).holds s)
      (λ d now later r. rw r.not_paused refl)

-- A shutdown is final: after a success of `shutdown_drop`, and then any requests to pause, resume,
-- shut down or retry drops, whatever becomes of them, `mint_edition` of that drop does not succeed.
pub shutdown_drop-final :
    (id : Uuid) (requests : List DropRequest) (headers : Headers) (recipient : String) (w : World)
    → Succeeds (shutdown_drop id w).0
    → ¬ Succeeds
        (mint_edition headers id recipient (run_requests requests (shutdown_drop id w).1)).0
shutdown_drop-final id requests headers recipient w s =
    not_minted is_shutdown headers id recipient _
      (requests-Shutdown id requests _ ((shutdown_drop-Stopped id w).holds s))
      (λ d now later r. rw r.not_shutdown refl)
