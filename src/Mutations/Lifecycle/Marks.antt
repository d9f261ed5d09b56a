-- ===== src/Mutations/Lifecycle/Marks.antt =====
-- Marks in the row of a drop, which updates of other columns keep.
use hub_nfts.Prelude.{
  ◌≡◌, refl, ap, sym, ◌∙◌, subst, Bool, true, some, List, String, inl, inr, find_sound,
  find-update_any, find-update_where, ==_iff, ◌==◌, update_where, find,
}
use hub_nfts.Entities.{
  Uuid, Time, Drop, CollectionMint, Collection, MetadataJson, Blockchain, solana, polygon, ethereum,
  DropType, edition_drop, open_drop, pending,
}
use hub_nfts.Inputs.{Headers}
use hub_nfts.Messages.{NftEventKey, ProtoCreator}
use hub_nfts.Errors.{Error}
use hub_nfts.Validation.DropStatus.{IsRunning}
use hub_nfts.Effects.{
  World, Result, ok, err, fault, Wp, find_by_id, has_key, drops_table, by_then, pure_end, raise_end,
  query_then, ok_or_then, update_then, fail_if_then, submit_then, send_then, part_then,
}
use hub_nfts.Mutations.Common.{fetch_owner_then}
use hub_nfts.Mutations.Drops.{retry_drop, resend_drop}
use hub_nfts.Mutations.Mints.Editions.{mint_edition}
use hub_nfts.Mutations.Mints.Editions.Reserve.{reserve_edition-Reserves}

-- A success of `mint_edition` is for a drop that was running.
abbrev pub RanOn : World → Uuid → Result Error CollectionMint → Type 0
RanOn w id (ok m) =
    (d : Drop) × (find_by_id drops_table id w.db ≡ some d)
    × (now : Time) × (later : Time) × IsRunning d now later
RanOn w id (err e) = Unit
RanOn w id fault = Unit

pub mint_edition-RanOn :
    (headers : Headers) (id : Uuid) (recipient : String) (w : World)
    → Wp (λ x w'. RanOn w id x) (mint_edition headers id recipient) w
unfolding mint_edition
mint_edition-RanOn headers id recipient w =
    part_then _ _ _ (reserve_edition-Reserves headers id w) (λ u k. tt) (λ e u k. tt)
      (λ r u (_, _, k, _).
        part_then _ _ (λ x v. Unit) (record { holds = tt }) (λ v h. tt) (λ e v h. tt)
          (λ m v h.
            part_then _ _ (λ x z. Unit) (record { holds = tt }) (λ z g. tt) (λ e z g. tt)
              (λ a z g. pure_end _ (r.drop, k.drop_found, k.running.0, k.running.1, k.running.2))))

pub resend_drop-same :
    (drop : Drop) (collection : Collection) (key : NftEventKey) (owner : String)
    (json : MetadataJson) (uri : String) (creators : List ProtoCreator) (w : World)
    → Wp (λ x w'. w'.db ≡ w.db) (resend_drop drop collection key owner json uri creators) w
unfolding resend_drop
resend_drop-same drop collection key owner json uri creators w =
    go collection.blockchain drop.drop_type refl refl
  where
    go :
        (b : Blockchain) (t : DropType)
        → collection.blockchain ≡ b
        → drop.drop_type ≡ t
        → Wp (λ x w'. w'.db ≡ w.db) (resend_drop drop collection key owner json uri creators) w
    go solana edition_drop e f = rw (e, f) (by_then _ (send_then _ _ _ refl (pure_end _ refl)))
    go solana open_drop e f = rw (e, f) (by_then _ (send_then _ _ _ refl (pure_end _ refl)))
    go polygon edition_drop e f =
        rw (e, f)
          (ok_or_then _ _ _ refl λ amount _. by_then _ (send_then _ _ _ refl (pure_end _ refl)))
    go polygon open_drop e f = rw (e, f) (ok_or_then _ _ _ refl λ amount _. raise_end _ refl)
    go ethereum t e f = rw e (raise_end _ refl)

-- A drop that is found, with a mark in its row.
pub record Marked (mark : Drop → Bool) (id : Uuid) (w : World) : Type 0 where
  pub drop : Drop
  pub found : find_by_id drops_table id w.db ≡ some drop
  pub is_marked : mark drop ≡ true

module _ (mark : Drop → Bool) (id : Uuid) where
  -- An update keeps the mark if the columns that it sets do.
  pub Marked-update :
      (x : Uuid) (f : Drop → Drop) (w w' : World)
      → ((d : Drop) → (f d).id ≡ d.id)
      → ((d : Drop) → mark d ≡ true → mark (f d) ≡ true)
      → Marked mark id w
      → w'.db.drops ≡ update_where (has_key drops_table x) f w.db.drops
      → Marked mark id w'
  Marked-update x f w w' key keeps m e =
      let (d, h, c) =
        find-update_any (has_key drops_table id) (has_key drops_table x) f w.db.drops
          (λ y. ap (λ k. k == id) (key y)) m.found in
      record {
        drop = d;
        found = ap (find (has_key drops_table id)) e ∙ h;
        is_marked = elim c [
          | inl g ↦ subst (λ z. mark z ≡ true) (sym g) m.is_marked
          | inr g ↦ subst (λ z. mark z ≡ true) (sym g) (keeps m.drop m.is_marked)
        ];
      }

  pub set_mark :
      (d : Drop) (f : Drop → Drop) (w w' : World)
      → ((d : Drop) → (f d).id ≡ d.id)
      → find_by_id drops_table id w.db ≡ some d
      → mark (f d) ≡ true
      → w'.db.drops ≡ update_where (has_key drops_table d.id) f w.db.drops
      → Marked mark id w'
  set_mark d f w w' key found h e =
      let k : d.id ≡ id = (==_iff _ _).0 (find_sound (has_key drops_table id) w.db.drops found) in
      record {
        drop = f d;
        found =
            ap (find (has_key drops_table id))
              (e ∙ ap (λ x. update_where (has_key drops_table x) f w.db.drops) k)
            ∙ find-update_where (has_key drops_table id) f w.db.drops
                (λ y. ap (λ k. k == id) (key y)) found;
        is_marked = h;
      }

  pub Marked-same : {w w' : World} → w'.db ≡ w.db → Marked mark id w → Marked mark id w'
  Marked-same e m = record {
    drop = m.drop;
    found = ap (find_by_id drops_table id) e ∙ m.found;
    is_marked = m.is_marked;
  }

  pub retry_drop-Marked :
      (headers : Headers) (x : Uuid) (w : World)
      → ((d : Drop) → mark d ≡ true → mark (record d { creation_status = pending }) ≡ true)
      → Marked mark id w
      → Wp (λ r w'. Marked mark id w') (retry_drop headers x) w
  unfolding retry_drop
  retry_drop-Marked headers x w keeps m = ok_or_then _ _ _ m λ user _. ok_or_then _ _ _ m λ org _.
      ok_or_then _ _ _ m λ balance _. query_then _ _ (Marked-same refl m) (
        ok_or_then _ _ _ (Marked-same refl m) λ pair _.
          ok_or_then _ _ _ (Marked-same refl m) λ collection _.
            fail_if_then _ _ _ (λ _. Marked-same refl m)
              λ _. query_then _ _ (Marked-same refl m) (
                ok_or_then _ _ _ (Marked-same refl m) λ json _.
                  ok_or_then _ _ _ (Marked-same refl m) λ uri _.
                    query_then _ _ (Marked-same refl m) (
                      fetch_owner_then _ _ _ _ (Marked-same refl m) (Marked-same refl m) λ owner.
                        submit_then _ _ _ _ _ _ (Marked-same refl m) (
                          part_then _ _ _ (resend_drop-same _ _ _ _ _ _ _ _)
                            (λ w' e. Marked-same e m) (λ r w' e. Marked-same e m)
                            λ a w' e. by_then _ (
                              update_then _ _ _ _ (Marked-same e m) λ row _. pure_end _ (
                                Marked-update _ (λ d. record d { creation_status = pending }) w' _
                                  (λ d. refl) keeps (Marked-same e m) refl))))))
