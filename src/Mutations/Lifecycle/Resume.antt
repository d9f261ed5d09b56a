-- ===== src/Mutations/Lifecycle/Resume.antt =====
-- A drop that is paused and resumed.
use hub_nfts.Prelude.{
  ◌≡◌, refl, sym, ap, ◌∙◌, subst, suc, Option, none, some, find, update_where, find-update_where,
  ◌==◌,
}
use mathlib.Core.Option.{some-injective}
use hub_nfts.Entities.{Uuid, Time, Drop}
use hub_nfts.Effects.{
  World, Db, Wp, IfOk, ◌>>◌, find_by_id, find_by_id_key, has_key, drops_table, query_then,
  ok_or_then, read_clock_then, update_then, part_then, pure_end, by_then,
}
use hub_nfts.Mutations.Drops.{pause_drop, resume_drop}

abbrev with_pause : Option Time → Drop → Drop
with_pause p d = record d { paused_at = p }

-- The row of a drop after an update of the row that was found.
updated_drop :
    (id : Uuid) (f : Drop → Drop) (db : Db) (d old : Drop)
    → ((y : Drop) → (f y).id ≡ y.id)
    → find_by_id drops_table id db ≡ some d
    → find_by_id drops_table d.id db ≡ some old
    → find (has_key drops_table id) (update_where (has_key drops_table d.id) f db.drops)
      ≡ some (f d)
updated_drop id f db d old same found again =
    subst
      (λ k.
        find (has_key drops_table id) (update_where (has_key drops_table k) f db.drops)
        ≡ some (f d))
      (sym (find_by_id_key drops_table id db found))
      (find-update_where (has_key drops_table id) f db.drops (λ y. ap (λ k. k == id) (same y))
        found)

-- Where both requests succeed, a drop that was not paused is as it was after it is paused and
-- resumed.
pub pause_drop-resume_drop :
    (id : Uuid) (d : Drop) (w : World)
    → find_by_id drops_table id w.db ≡ some d
    → d.paused_at ≡ none
    → Wp (IfOk (λ r v. find_by_id drops_table id v.db ≡ some d)) (pause_drop id >> resume_drop id) w
unfolding pause_drop resume_drop
pause_drop-resume_drop id d w found unpaused =
    part_then _ _
      (IfOk (λ r v. (t : Time) × (find_by_id drops_table id v.db ≡ some (with_pause (some t) d))))
      (query_then _ _ tt (
        ok_or_then _ _ _ tt λ x e. read_clock_then _ (
          by_then _ (
            update_then _ _ _ _ tt λ old again. pure_end _ (
              _,
              updated_drop id _ w.db x old (λ y. refl) e again
                  ∙ ap (λ y. some (with_pause (some (w.env.clock (suc w.calls))) y))
                      (some-injective _ _ (sym e ∙ found)),
            )))))
      (λ v k. tt) (λ e v k. tt)
      λ r v (t, paused). query_then _ _ tt (
        ok_or_then _ _ _ tt λ x e. by_then _ (
          update_then _ _ _ _ tt λ old again. pure_end _ (
            updated_drop id _ v.db x old (λ y. refl) e again
            ∙ ap (λ y. some (with_pause none y)) (some-injective _ _ (sym e ∙ paused))
            ∙ ap (λ p. some (with_pause p d)) (sym unpaused))))
