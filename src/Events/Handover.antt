-- ===== src/Events/Handover.antt =====
-- `update_polygon_mints_owner`: the owners of a batch of mints change together.
use hub_nfts.Prelude.{
  ℕ, ◌+◌, ◌≡◌, refl, sym, ap, ◌∙◌, subst, Bool, true, false, ◌||◌, Option, none, some, List, [],
  ◌∷◌, String, ◌==◌, ==_iff, Bool-cases, inl, inr, find, select, update_where, length, arith,
}
use hub_nfts.Entities.{Uuid, Time, CollectionMint}
use hub_nfts.Effects.{
  Env, Db, World, Wp, Result, ok, err, fault, IfOk, find_by_id, mints_table, has_key, each,
  atomically_then, read_env_then, connect_then, ok_or_then, query_then, update_then, insert_then,
  part_then, pure_end, by_then,
}
use hub_nfts.Events.Results.{ProcessorError}
use hub_nfts.Events.Ownership.{
  OwnershipUpdate, update_polygon_mints_owner, hand_over, set_owner, is_in, parse_uuids,
}

-- The mint, with its new owner.
abbrev pub owned : Env → String → Option CollectionMint → Option CollectionMint
owned env owner none = none
owned env owner (some m) = some (set_owner env owner m)

-- The mints with the keys of `p` have the new owner, and the others are as they were; a number of
-- transfers has been recorded.
pub record HandedOver (env : Env) (owner : String) (p : Uuid → Bool) (count : ℕ) (before after : Db)
    : Type 0 where
  pub moved :
      (k : Uuid)
      → p k ≡ true
      → find_by_id mints_table k after ≡ owned env owner (find_by_id mints_table k before)
  pub others :
      (k : Uuid) → p k ≡ false → find_by_id mints_table k after ≡ find_by_id mints_table k before
  pub transfers : length after.nft_transfers ≡ count + length before.nft_transfers

owned_twice :
    (env : Env) (owner : String) (o : Option CollectionMint)
    → owned env owner (owned env owner o) ≡ owned env owner o
owned_twice env owner none = refl
owned_twice env owner (some m) = refl

find-owned :
    (env : Env) (owner : String) (k : Uuid) (l : List CollectionMint)
    → find (has_key mints_table k) (update_where (has_key mints_table k) (set_owner env owner) l)
      ≡ owned env owner (find (has_key mints_table k) l)
find-owned env owner k [] = refl
find-owned env owner k (m ∷ ms) = ground (arith, find-owned env owner k ms)

find-not_owned :
    (env : Env) (owner : String) (k id : Uuid) (l : List CollectionMint)
    → (k == id) ≡ false
    → find (has_key mints_table k) (update_where (has_key mints_table id) (set_owner env owner) l)
      ≡ find (has_key mints_table k) l
find-not_owned env owner k id [] e = refl
find-not_owned env owner k id (m ∷ ms) e = ground (arith, find-not_owned env owner k id ms e)

nothing_moved : (env : Env) (owner : String) (db : Db) → HandedOver env owner (λ k. false) 0 db db
nothing_moved env owner db = record {
  moved = λ k e. absurd (cc);
  others = λ k e. refl;
  transfers = omega arith;
}

both :
    (env : Env) (owner : String) (p q : Uuid → Bool) (m n : ℕ) (a b c : Db)
    → HandedOver env owner p m a b
    → HandedOver env owner q n b c
    → (t : ℕ) → t ≡ m + n
    → HandedOver env owner (λ k. p k || q k) t a c
both env owner p q m n a b c x y t l = record {
  moved = λ k e. elim (Bool-cases (p k)) [
    | inl s ↦ elim (Bool-cases (q k)) [
      | inl u ↦ y.moved k u ∙ ap (owned env owner) (x.moved k s) ∙ owned_twice env owner _
      | inr u ↦ y.others k u ∙ x.moved k s
    ]
    | inr s ↦ y.moved k (ground arith) ∙ ap (owned env owner) (x.others k s)
  ];
  others = λ k e. y.others k (ground arith) ∙ x.others k (ground arith);
  transfers = omega (arith, l, x.transfers, y.transfers);
}

hand_over-HandedOver :
    (env : Env) (payload : OwnershipUpdate) (at : Time) (mint : CollectionMint) (w : World)
    → Wp
        (IfOk (λ a v. HandedOver env payload.new_owner (λ k. k == mint.id) 1 w.db v.db))
        (hand_over env payload at mint)
        w
unfolding hand_over
hand_over-HandedOver env payload at mint w = update_then _ _ _ _ tt λ row _.
    ok_or_then _ _ _ tt λ sender _. insert_then _ _ _ tt λ _. pure_end _ (record {
      moved = λ k e.
          subst
            (λ i.
              find (has_key mints_table k)
                (update_where (has_key mints_table i) (set_owner env payload.new_owner) w.db.mints)
              ≡ owned env payload.new_owner (find (has_key mints_table k) w.db.mints))
            ((==_iff _ _).0 e) (find-owned env payload.new_owner k w.db.mints);
      others = λ k e. find-not_owned env payload.new_owner k mint.id w.db.mints e;
      transfers = omega arith;
    })

-- The keys of these mints.
abbrev keys : List CollectionMint → Uuid → Bool
keys [] k = false
keys (m ∷ ms) k = k == m.id || keys ms k

each-HandedOver :
    (env : Env) (payload : OwnershipUpdate) (at : Time) (ms : List CollectionMint) (w : World)
    → Wp
        (IfOk (λ a v. HandedOver env payload.new_owner (keys ms) (length ms) w.db v.db))
        (each (hand_over env payload at) ms)
        w
unfolding each
each-HandedOver env payload at [] w = record { holds = nothing_moved env payload.new_owner w.db }
each-HandedOver env payload at (m ∷ ms) w = record {
  holds =
      (part_then (hand_over env payload at m) (λ _. each (hand_over env payload at) ms)
        {Q = IfOk
          (λ a v. HandedOver env payload.new_owner (keys (m ∷ ms)) (length (m ∷ ms)) w.db v.db)}
        _ (hand_over-HandedOver env payload at m w) (λ v k. tt) (λ e v k. tt)
        (λ a v k. by_then _ (
          part_then _ _ _ (each-HandedOver env payload at ms v) (λ u l. tt) (λ e u l. tt)
            (λ b u l. pure_end _ (both _ _ _ _ _ _ _ _ _ k l _ (omega arith)))))).holds;
}

keys-select :
    (ids : List Uuid) (k : Uuid) (l : List CollectionMint)
    → is_in ids k ≡ false
    → keys (select (λ m. is_in ids m.id) l) k ≡ false
keys-select ids k [] e = refl
keys-select ids k (m ∷ ms) e = elim (Bool-cases (k == m.id)) [
  | inl t ↦
      let f : is_in ids m.id ≡ false = ap (is_in ids) (sym ((==_iff _ _).0 t)) ∙ e in
      rw f (keys-select ids k ms e)
  | inr t ↦ elim (Bool-cases (is_in ids m.id)) [
    | inl u ↦ rw (u, t) (keys-select ids k ms e)
    | inr u ↦ rw u (keys-select ids k ms e)
  ]
]

find-absent :
    (ids : List Uuid) (k : Uuid) (l : List CollectionMint)
    → is_in ids k ≡ true
    → keys (select (λ m. is_in ids m.id) l) k ≡ false
    → find (has_key mints_table k) l ≡ none
find-absent ids k [] e f = refl
find-absent ids k (m ∷ ms) e f = elim (Bool-cases (is_in ids m.id)) [
  | inl u ↦
      let g : (k == m.id || keys (select (λ n. is_in ids n.id) ms) k) ≡ false = rw u at f in
      rw (other m _ g) (find-absent ids k ms e (ground arith))
  | inr u ↦ elim (Bool-cases (m.id == k)) [
    | inl t ↦ let h : is_in ids m.id ≡ true = ap (is_in ids) ((==_iff _ _).0 t) ∙ e in absurd (cc)
    | inr t ↦ rw t (find-absent ids k ms e (rw u at f))
  ]
]
  where
    other : (n : CollectionMint) (b : Bool) → (k == n.id || b) ≡ false → (n.id == k) ≡ false
    other n b g = ground arith

-- The outcomes of the message: the mints that it names change their owner, each with a transfer, or
-- nothing does.
abbrev pub HandOver : OwnershipUpdate → World → Result ProcessorError (Unit {0}) → World → Type 0
HandOver payload w (ok _) v =
    (ids : List Uuid) × (parse_uuids w.env payload.mint_ids ≡ some ids)
    × HandedOver w.env payload.new_owner (is_in ids)
        (length (select (λ m. is_in ids m.id) w.db.mints)) w.db v.db
HandOver payload w (err e) v = v.db ≡ w.db
HandOver payload w fault v = v.db ≡ w.db

-- Where the message with the new owner of a batch of mints is processed without an error, every mint
-- that it names has the new owner, every other mint is as it was, and there is one more transfer for
-- each mint that was found under a name. Where it fails, at any step, the database is as it was.
pub update_polygon_mints_owner-HandOver :
    (payload : OwnershipUpdate) (w : World)
    → Wp (HandOver payload w) (update_polygon_mints_owner payload) w
unfolding update_polygon_mints_owner
update_polygon_mints_owner-HandOver payload w = read_env_then _ (
    ok_or_then _ _ _ refl λ now _. connect_then _ refl (
      ok_or_then _ _ _ refl λ ids named. query_then _ _ refl (
        by_then _ (
          atomically_then _ _ _ (each-HandedOver w.env payload now _ _) (λ v k. refl)
            (λ e v k. refl) (λ a v k. refl)
            (λ a v k. pure_end _ (
              ids,
              named,
              (record {
                moved = λ i e.
                    elim (Bool-cases (keys (select (λ m. is_in ids m.id) w.db.mints) i)) [
                      | inl t ↦ k.moved i t
                      | inr t ↦
                          let absent = find-absent ids i w.db.mints e t in
                          k.others i t ∙ absent ∙ sym (ap (owned w.env payload.new_owner) absent)
                    ];
                others = λ i e. k.others i (keys-select ids i w.db.mints e);
                transfers = k.transfers;
              }),
            ))))))
