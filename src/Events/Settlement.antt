-- ===== src/Events/Settlement.antt =====
-- What a success of `drop_created` and of `drop_minted` leaves in the tables.
use mathlib.Core.Option.{some-injective}
use hub_nfts.Prelude.{
  ◌≡◌, refl, sym, ap, subst, String, Option, some, none, List, ◌∷◌, Option-cases, inl, inr,
}
use hub_nfts.Entities.{Uuid, Drop, Collection, CollectionMint, MintHistory}
use hub_nfts.Effects.{
  Env, World, Wp, Result, ok, err, fault, Becomes, becomes, Becomes-at, IfOk, mints_table,
  mint_histories_table, collections_table, drops_table, find_by_id, find_by_id_key, Db, by_then,
  ok_or_then, read_env_then, query_then, confirm_then, send_then, update_then, pure_end, part_then,
}
use hub_nfts.Mutations.Common.{drop_of_collection, mint_also_collection-found}
use hub_nfts.Events.Confirmations.{collection_with_drop-found}
use hub_nfts.Events.Results.{ProcessorError, MintResult}
use hub_nfts.Events.Creation.{
  confirm_success, drop_created_handler, drop_minted_handler, settle_drop, settle_collection,
  settle_mint, settle_history, collection_with_drop, history_of_mint,
}

-- The confirmed deductions after an outcome.
abbrev pub confirmed_with : MintResult → Option Uuid → List Uuid → List Uuid
confirmed_with (MintResult.success _ _) (some d) ds = d ∷ ds
confirmed_with (MintResult.success _ _) none ds = ds
confirmed_with MintResult.failure o ds = ds

abbrev Confirmed :
    MintResult → Option Uuid → World → Result ProcessorError (Unit {0}) → World → Type 0
Confirmed payload o w (ok a) w' =
    (w'.db ≡ w.db) × (w'.confirmed ≡ confirmed_with payload o w.confirmed)
Confirmed payload o w (err e) w' = Unit
Confirmed payload o w fault w' = Unit

confirm_success-Confirmed :
    (payload : MintResult) (o : Option Uuid) (w : World)
    → Wp (Confirmed payload o w) (confirm_success payload o) w
unfolding confirm_success
confirm_success-Confirmed (MintResult.success s a) none w = ok_or_then _ _ _ tt λ d e. absurd (cc)
confirm_success-Confirmed (MintResult.success s a) (some x) w = ok_or_then _ _ _ tt λ d e.
    by_then _ (
      confirm_then _ _ tt
        (pure_end _ (refl, ap (λ z. z ∷ w.confirmed) (some-injective _ _ (sym e)))))
confirm_success-Confirmed MintResult.failure o w = pure_end _ (refl, refl)

-- The collection that the message names and its drop have the outcome's status (and a success's
-- signature and address), and the drop's deduction is confirmed by a success alone.
pub record DropSettled (id : String) (payload : MintResult) (w w' : World) : Type 0 where
  pub collection_id : Uuid
  pub named : w.env.parse_uuid id ≡ some collection_id
  pub drop : Drop
  pub drop_found : drop_of_collection collection_id w.db ≡ some drop
  pub collection_now :
      Becomes collections_table collection_id (settle_collection w.env payload) w.db w'.db
  pub drop_now : Becomes drops_table drop.id (settle_drop payload) w.db w'.db
  pub confirmed : w'.confirmed ≡ confirmed_with payload drop.credits_deduction_id w.confirmed

-- The mint that the message names and its history, and the mint's deduction.
pub record MintSettled (id : String) (payload : MintResult) (w w' : World) : Type 0 where
  pub mint_id : Uuid
  pub named : w.env.parse_uuid id ≡ some mint_id
  pub mint : CollectionMint
  pub mint_named : find_by_id mints_table mint_id w.db ≡ some mint
  pub mint_now : Becomes mints_table mint_id (settle_mint w.env payload) w.db w'.db
  pub history : MintHistory
  pub history_named : history_of_mint mint_id w.db ≡ some history
  pub history_now : Becomes mint_histories_table history.id (settle_history payload) w.db w'.db
  pub confirmed : w'.confirmed ≡ confirmed_with payload mint.credits_deduction_id w.confirmed

collection_key :
    (env : Env) (payload : MintResult) (c : Collection)
    → (settle_collection env payload c).id ≡ c.id
collection_key env (MintResult.success s a) c = refl
collection_key env MintResult.failure c = refl

drop_key : (payload : MintResult) (d : Drop) → (settle_drop payload d).id ≡ d.id
drop_key (MintResult.success s a) d = refl
drop_key MintResult.failure d = refl

mint_key :
    (env : Env) (payload : MintResult) (m : CollectionMint) → (settle_mint env payload m).id ≡ m.id
mint_key env (MintResult.success s a) m = refl
mint_key env MintResult.failure m = refl

history_key : (payload : MintResult) (h : MintHistory) → (settle_history payload h).id ≡ h.id
history_key (MintResult.success s a) h = refl
history_key MintResult.failure h = refl

-- The collection of the join is the one that was asked for.
collection_with_drop_key :
    (id : Uuid) (db : Db) {c : Collection} {o : Option Drop}
    → collection_with_drop id db ≡ some (c, o)
    → c.id ≡ id
collection_with_drop_key id db {c} {o} h =
    elim (Option-cases (find_by_id collections_table id db)) [
      | inl n ↦ let e = rw n at h in cc
      | inr (x, e) ↦ elim (Option-cases (drop_of_collection x.id db)) [
        | inl n ↦ let g = rw (e, n) at h in cc
        | inr (y, f) ↦
            let g : (x, some y) ≡ (c, o) = some-injective _ _ (rw (e, f) at h) in
            subst (λ z. z.id ≡ id) (ap (λ p. p.0) g) (find_by_id_key collections_table id db e)
      ]
    ]

-- Where the message that a drop was created, or failed to be, is processed without an error, the
-- collection that the message names and its drop are settled as the outcome says: both have its
-- status, the collection the signature and the address of a success, and a success alone confirms
-- the deduction of that drop, and no other.
pub drop_created_handler-DropSettled :
    (id : String) (payload : MintResult) (w : World)
    → Wp (IfOk (λ a. DropSettled id payload w)) (drop_created_handler id payload) w
unfolding drop_created_handler
drop_created_handler-DropSettled id payload w = read_env_then _ (
    ok_or_then _ _ _ tt λ collection_id parsed. query_then _ _ tt (
      ok_or_then _ _ _ tt λ pair f. ok_or_then _ _ _ tt λ drop g.
        let same = collection_with_drop_key collection_id w.db f in
        part_then _ _ _ (confirm_success-Confirmed payload drop.credits_deduction_id _) (λ u k. tt)
          (λ e u k. tt)
          λ a u (e, k). send_then _ _ _ tt (
            update_then _ _ _ _ tt λ c c_found. update_then _ _ _ _ tt λ d d_found.
              pure_end _ (record {
                collection_id = collection_id;
                named = parsed;
                drop = drop;
                drop_found =
                    subst (λ k. drop_of_collection k w.db ≡ some drop) same
                      (collection_with_drop-found collection_id w.db f g);
                collection_now = Becomes-at same (
                    becomes collections_table pair.0.id (settle_collection w.env payload) w.db u.db
                      _ e (collection_key w.env payload) c_found refl);
                drop_now =
                    becomes drops_table drop.id (settle_drop payload) w.db u.db _ e
                      (drop_key payload) d_found refl;
                confirmed = k;
              }))))

-- Where the message that a drop's mint was made, or failed, is processed without an error, the mint
-- that the message names and its history are settled as the outcome says: both have its status, and
-- the signature of a success, the mint its address too, and a success alone confirms the deduction
-- of that mint, and no other.
pub drop_minted_handler-MintSettled :
    (id : String) (payload : MintResult) (w : World)
    → Wp (IfOk (λ a. MintSettled id payload w)) (drop_minted_handler id payload) w
unfolding drop_minted_handler
drop_minted_handler-MintSettled id payload w = read_env_then _ (
    ok_or_then _ _ _ tt λ mint_id parsed. query_then _ _ tt (
      ok_or_then _ _ _ tt λ pair f. query_then _ _ tt (
        let found = mint_also_collection-found mint_id w.db f in
        let same = find_by_id_key mints_table mint_id w.db found in
        ok_or_then _ _ _ tt λ history h. ok_or_then _ _ _ tt λ collection _. query_then _ _ tt (
          ok_or_then _ _ _ tt λ drop _.
            part_then _ _ _ (confirm_success-Confirmed payload pair.0.credits_deduction_id _)
              (λ u k. tt) (λ e u k. tt)
              λ a u (e, k). send_then _ _ _ tt (
                update_then _ _ _ _ tt λ c m_found. update_then _ _ _ _ tt λ d h_found.
                  pure_end _ (record {
                    mint_id = mint_id;
                    named = parsed;
                    mint = pair.0;
                    mint_named = found;
                    mint_now = Becomes-at same (
                        becomes mints_table pair.0.id (settle_mint w.env payload) w.db u.db _ e
                          (mint_key w.env payload) m_found refl);
                    history = history;
                    history_named = h;
                    history_now =
                        becomes mint_histories_table history.id (settle_history payload) w.db u.db _
                          e (history_key payload) h_found refl;
                    confirmed = k;
                  }))))))
