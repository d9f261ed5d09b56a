-- ===== src/Mutations/Mints/Queue/Once.antt =====
-- `mint_queued` takes a mint off the queue at most once.
use mathlib.Core.Option.{some-injective}
use hub_nfts.Prelude.{
  ℕ, ◌≡◌, refl, sym, ap, ◌∙◌, subst, String, Bool, false, not, some, find, find_sound, update_where,
  ==_iff, arith,
}
use hub_nfts.Entities.{
  Uuid, Drop, Collection, CollectionMint, CreationStatus, Blockchain, solana, polygon, ethereum,
  queued, pending, same_status, same_status-eq,
}
use hub_nfts.Inputs.{Headers}
use hub_nfts.Messages.{NftEventKey, MetaplexMetadata}
use hub_nfts.Errors.{Error}
use hub_nfts.Effects.{
  World, Env, Wp, Result, ok, err, fault, IfOk, Succeeds, becomes, find_by_id, has_key, mints_table,
  by_then, connect_then, read_env_then, read_clock_then, ok_or_then, query_then, fail_if_then,
  submit_then, atomically_then, update_then, insert_then, cache_del_then, send_then, pure_end,
  raise_end, part_then,
}
use hub_nfts.Mutations.Common.{fetch_owner_then, mint_with_collection-found}
use hub_nfts.Mutations.Mints.Queue.{claim, claimed, send_open_mint, mint_found, mint_queued}

-- The row of the mint is pending, with a deduction.
pub record IsClaimed (id : Uuid) (w : World) : Type 0 where
  pub mint : CollectionMint
  pub found : find_by_id mints_table id w.db ≡ some mint
  pub is_pending : mint.creation_status ≡ pending
  pub deduction : Uuid
  pub has_deduction : mint.credits_deduction_id ≡ some deduction

claimed_now :
    (id deduction : Uuid) (compressed : Bool) (recipient : String) (collection : Collection)
    (env : Env) (w w' : World) {row : CollectionMint}
    → find_by_id mints_table id w.db ≡ some row
    → w'.db.mints
      ≡ update_where
          (has_key mints_table id)
          (claimed env deduction compressed recipient collection)
          w.db.mints
    → IsClaimed id w'
claimed_now id deduction compressed recipient collection env w w' f e =
    let b =
      becomes mints_table id (claimed env deduction compressed recipient collection) w.db w.db w'.db
        refl (λ y. refl) f e in
    record {
      mint = _;
      found = b.is_now;
      is_pending = refl;
      deduction = deduction;
      has_deduction = refl;
    }

IsClaimed-same :
    (id : Uuid) (w w' : World) → w'.db.mints ≡ w.db.mints → IsClaimed id w → IsClaimed id w'
IsClaimed-same id w w' e k = record {
  mint = k.mint;
  found = ap (find (has_key mints_table id)) e ∙ k.found;
  is_pending = k.is_pending;
  deduction = k.deduction;
  has_deduction = k.has_deduction;
}

claim-IsClaimed :
    (id deduction : Uuid) (compressed : Bool) (recipient : String) (collection : Collection)
    (w : World)
    → Wp (IfOk (λ m. IsClaimed id)) (claim id deduction compressed recipient collection) w
unfolding claim
claim-IsClaimed id deduction compressed recipient collection w = connect_then _ tt (
    read_env_then _ (
      read_clock_then _ (
        by_then _ (
          atomically_then _ _ (IfOk (λ m. IsClaimed id))
            (update_then _ _ _ _ tt λ row f. insert_then _ _ _ tt λ _.
              pure_end _
                (claimed_now id deduction compressed recipient collection w.env w _ f refl))
            (λ w' k. tt) (λ e w' k. tt) (λ a w' k. tt)
            (λ a w' k. pure_end _ (IsClaimed-same id w' _ refl k))))))

send_open_mint-same :
    (collection : Collection) (key : NftEventKey) (metadata : MetaplexMetadata) (recipient : String)
    (compressed : Bool) (w : World)
    → Wp (λ r w'. w'.db ≡ w.db) (send_open_mint collection key metadata recipient compressed) w
unfolding send_open_mint
send_open_mint-same collection key metadata recipient compressed w = go collection.blockchain refl
  where
    go :
        (b : Blockchain)
        → collection.blockchain ≡ b
        → Wp (λ r w'. w'.db ≡ w.db) (send_open_mint collection key metadata recipient compressed) w
    go solana e = rw e (by_then _ (send_then _ _ _ refl (pure_end _ refl)))
    go polygon e = rw e (raise_end _ refl)
    go ethereum e = rw e (raise_end _ refl)

pub mint_found-IsClaimed :
    (user org : Uuid) (balance : ℕ) (drop : Drop) (mint : CollectionMint) (collection : Collection)
    (recipient : String) (compressed : Bool) (w : World)
    → Wp
        (IfOk (λ m. IsClaimed mint.id))
        (mint_found user org balance drop mint collection recipient compressed)
        w
unfolding mint_found
mint_found-IsClaimed user org balance drop mint collection recipient compressed w =
    fetch_owner_then _ _ _ _ tt tt λ owner. query_then _ _ tt (
      ok_or_then _ _ _ tt λ json _. ok_or_then _ _ _ tt λ uri _. query_then _ _ tt (
        submit_then _ _ _ _ _ _ tt (
          part_then _ _ _ (claim-IsClaimed mint.id _ compressed recipient collection _) (λ u k. tt)
            (λ e u k. tt)
            λ new u k. cache_del_then _ _ tt (
              part_then _ _ _ (send_open_mint-same _ _ _ _ _ _) (λ v e. tt) (λ x v e. tt)
                λ a v e.
                  send_then _ _ _ tt
                    (pure_end _ (IsClaimed-same mint.id u _ (ap (λ db. db.mints) e) k))))))

-- A success of `mint_queued` is for a mint that was queued, and leaves it claimed.
pub record TakesQueued (id : Uuid) (w w' : World) : Type 0 where
  pub before : CollectionMint
  pub was : find_by_id mints_table id w.db ≡ some before
  pub was_queued : before.creation_status ≡ queued
  pub after : IsClaimed id w'

queued-same_status : (s : CreationStatus) → not (same_status s queued) ≡ false → s ≡ queued
queued-same_status s h = same_status-eq s queued (ground arith)

-- Where `mint_queued` succeeds, the mint was queued, and its row is pending afterwards, with a
-- deduction.
pub mint_queued-TakesQueued :
    (headers : Headers) (id : Uuid) (recipient : String) (compressed : Bool) (w : World)
    → Wp (IfOk (λ m. TakesQueued id w)) (mint_queued headers id recipient compressed) w
unfolding mint_queued
mint_queued-TakesQueued headers id recipient compressed w = connect_then _ tt (
    ok_or_then _ _ _ tt λ user _. ok_or_then _ _ _ tt λ org _. ok_or_then _ _ _ tt λ balance _.
      query_then _ _ tt (
        ok_or_then _ _ _ tt λ pair f.
          fail_if_then _ _ _ (λ _. tt)
            λ status. ok_or_then _ _ _ tt λ collection _. query_then _ _ tt (
              ok_or_then _ _ _ tt λ drop _. by_then _ (
                part_then _ _ _
                  (mint_found-IsClaimed user org balance drop pair.0 collection recipient compressed
                    _)
                  (λ u k. tt) (λ e u k. tt)
                  λ a u k. pure_end _ (
                    let found = (mint_with_collection-found id w.db f).0 in
                    let same : pair.0.id ≡ id =
                      (==_iff _ _).0 (find_sound (has_key mints_table id) w.db.mints found) in
                    record {
                      before = pair.0;
                      was = found;
                      was_queued = queued-same_status _ status;
                      after = subst (λ x. IsClaimed x u) same k;
                    })))))

-- After a success of `mint_queued`, no request to `mint_queued` of the same mint succeeds.
pub mint_queued-once :
    (first second : Headers) (id : Uuid) (recipient other : String) (compressed packed : Bool)
    (w : World)
    → Succeeds (mint_queued first id recipient compressed w).0
    → ¬ Succeeds
        (mint_queued second id other packed (mint_queued first id recipient compressed w).1).0
mint_queued-once first second id recipient other compressed packed w s =
    go _ _ (mint_queued-TakesQueued second id other packed _).holds
      (taken _ (mint_queued-TakesQueued first id recipient compressed w).holds s)
  where
    u : World
    u = (mint_queued first id recipient compressed w).1

    taken :
        (r : Result Error CollectionMint)
        → IfOk (λ m. TakesQueued id w) r u
        → Succeeds r
        → IsClaimed id u
    taken (ok a) k x = k.after
    taken (err e) k x = absurd x
    taken fault k x = absurd x

    go :
        (v : World) (r : Result Error CollectionMint)
        → IfOk (λ m. TakesQueued id u) r v
        → IsClaimed id u
        → ¬ Succeeds r
    go v (ok a) k c x =
        let e : k.before ≡ c.mint = some-injective _ _ (sym k.was ∙ c.found) in
        let g = sym k.was_queued ∙ ap (λ m. m.creation_status) e ∙ c.is_pending in cc
    go v (err e) k c x = x
    go v fault k c x = x
