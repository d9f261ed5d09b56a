-- ===== src/Mutations/Mints/Editions/Reserve.antt =====
-- What `mint_edition` knows after its reads and checks.
use hub_nfts.Prelude.{ℕ, ◌≡◌, ◌+◌, refl, ap, subst, false, some, ◌∷◌, arith}
use hub_nfts.Entities.{Uuid, Time, Action}
use hub_nfts.Inputs.{Headers}
use hub_nfts.Errors.{Error}
use hub_nfts.Validation.DropStatus.{IsRunning, check_drop_status-IsRunning}
use hub_nfts.Effects.{
  World, Result, ok, err, fault, Wp, Deduction, find_by_id, drops_table, collections_table,
  connect_then, ok_or_then, query_then, read_clock_then, lift_then, fail_if_then, submit_then,
  pure_end,
}
use hub_nfts.Mutations.Common.{drop_with_collection-found, minted, to_i64, fetch_owner_then}
use hub_nfts.Mutations.Mints.Editions.{Reservation, reserve_edition, is_sold_out}

to_i64-eq : (n : ℕ) {m : ℕ} → to_i64 n ≡ some m → m ≡ n
to_i64-eq n e = ground arith

-- What a reservation says of the state in which it was made.
pub record IsReserved (w : World) (drop_id : Uuid) (r : Reservation) : Type 0 where
  pub drop_found : find_by_id drops_table drop_id w.db ≡ some r.drop
  pub collection_found : find_by_id collections_table r.drop.collection_id w.db ≡ some r.collection
  pub edition_next : r.edition ≡ minted r.collection.id w.db + 1
  pub has_room : is_sold_out r.collection.supply (minted r.collection.id w.db) ≡ false
  pub running : (now : Time) × (later : Time) × IsRunning r.drop now later

-- The deduction for a reservation: of the mint of an edition, for the caller.
pub record Pays (headers : Headers) (r : Reservation) (d : Deduction) : Type 0 where
  pub is_reserved : d.id ≡ r.deduction
  pub of_user : headers.user_id ≡ some d.user
  pub of_organization : headers.organization_id ≡ some d.organization
  pub of_action : d.action ≡ Action.mint_edition
  pub on_blockchain : d.blockchain ≡ r.collection.blockchain

-- The database is only read; the deduction is submitted as the last step.
abbrev pub Reserves : Headers → World → Uuid → Result Error Reservation → World → Type 0
Reserves headers w id (ok r) w' =
    (w'.db ≡ w.db)
    × ((d : Deduction) × (w'.submitted ≡ d ∷ w.submitted) × Pays headers r d)
    × IsReserved w id r
    × (headers.user_id ≡ some r.user)
Reserves headers w id (err e) w' = (w'.db ≡ w.db) × (w'.submitted ≡ w.submitted)
Reserves headers w id fault w' = (w'.db ≡ w.db) × (w'.submitted ≡ w.submitted)

paid :
    {headers : Headers} {r : Reservation} {d : Deduction}
    → headers.user_id ≡ some d.user
    → headers.organization_id ≡ some d.organization
    → d.id ≡ r.deduction
    → d.action ≡ Action.mint_edition
    → d.blockchain ≡ r.collection.blockchain
    → Pays headers r d
paid u o i a b = record {
  is_reserved = i;
  of_user = u;
  of_organization = o;
  of_action = a;
  on_blockchain = b;
}

pub reserve_edition-Reserves :
    (headers : Headers) (drop_id : Uuid) (w : World)
    → Wp (Reserves headers w drop_id) (reserve_edition headers drop_id) w
unfolding reserve_edition
reserve_edition-Reserves headers drop_id w =
    let same : (w.db ≡ w.db) × (w.submitted ≡ w.submitted) = (refl, refl) in
    connect_then _ same (
      ok_or_then _ _ _ same λ user by. ok_or_then _ _ _ same λ org for.
        ok_or_then _ _ _ same λ balance _. query_then _ _ same (
          ok_or_then _ _ _ same λ pair p. ok_or_then _ _ _ same λ collection c. read_clock_then _ (
            read_clock_then _ (
              lift_then _ _ (λ _ _. same) same
                λ _ checked. query_then _ _ same (
                  ok_or_then _ _ _ same λ total t.
                    fail_if_then _ _ _ (λ _. same)
                      λ room. fetch_owner_then _ _ _ _ same same λ owner.
                        submit_then _ _ _ _ _ _ same (
                          pure_end _ (
                            let (f, g) = drop_with_collection-found drop_id w.db p c in
                            let n = to_i64-eq _ t in
                            (
                              refl,
                              (_, refl, paid by for refl refl refl),
                              record {
                                drop_found = f;
                                collection_found = g;
                                edition_next = ap (λ i. i + 1) n;
                                has_room =
                                    subst (λ i. is_sold_out collection.supply i ≡ false) n room;
                                running = (_, _, (check_drop_status-IsRunning _ _ _).0 checked);
                              },
                              by,
                            ))))))))
