-- ===== src/Effects/Rules/Services.antt =====
-- The rules for the credits client, the producer, the cache and the job queue.
use hub_nfts.Prelude.{ℕ, suc, ◌∷◌, Bool-cases, inl, inr, select, not, find, Option, none}
use hub_nfts.Entities.{Uuid, Action, Blockchain}
use hub_nfts.Inputs.{MetadataJsonUploadTask}
use hub_nfts.Messages.{NftEvent, NftEventKey}
use hub_nfts.Effects.State.{World, CacheKey, JobStore}
use hub_nfts.Effects.Monad.{Result, fault, M, ◌>>=◌}
use hub_nfts.Effects.Steps.{
  tick, connect, submit, confirm, send, same_key, cache_del, cache_get, cache_set, entry_value,
}
use hub_nfts.Effects.Jobs.{enqueue}
use hub_nfts.Effects.Rules.Control.{Wp}

module _ {E : Type 0} {B : Type 0} where
  pub connect_then :
      (k : Unit {0} → M E B) {Q : Result E B → World → Type 0} {w : World}
      → Q fault (tick w)
      → Wp Q (k tt) (tick w)
      → Wp Q (connect >>= k) w
  unfolding ◌>>=◌ connect
  connect_then k {w = w} h s = elim (Bool-cases (w.env.fails w.calls)) [
    | inl t ↦ record { holds = rw t h }
    | inr t ↦ record { holds = rw t s.holds }
  ]

  pub submit_then :
      (org user : Uuid) (action : Action) (chain : Blockchain) (balance : ℕ) (k : Uuid → M E B)
      {Q : Result E B → World → Type 0} {w : World}
      → Q fault (tick w)
      → (let id = w.env.fresh (suc w.calls) in
          Wp Q (k id) (record (tick w) {
            submitted =
                record {
                  id = id;
                  organization = org;
                  user = user;
                  action = action;
                  blockchain = chain;
                  balance = balance;
                }
                ∷ w.submitted;
          }))
      → Wp Q (submit org user action chain balance >>= k) w
  unfolding ◌>>=◌ submit
  submit_then org user action chain balance k {w = w} h s =
      elim (Bool-cases (w.env.fails w.calls)) [
        | inl t ↦ record { holds = rw t h }
        | inr t ↦ record { holds = rw t s.holds }
      ]

  pub confirm_then :
      (id : Uuid) (k : Unit {0} → M E B) {Q : Result E B → World → Type 0} {w : World}
      → Q fault (tick w)
      → Wp Q (k tt) (record (tick w) { confirmed = id ∷ w.confirmed })
      → Wp Q (confirm id >>= k) w
  unfolding ◌>>=◌ confirm
  confirm_then id k {w = w} h s = elim (Bool-cases (w.env.fails w.calls)) [
    | inl t ↦ record { holds = rw t h }
    | inr t ↦ record { holds = rw t s.holds }
  ]

  pub send_then :
      (event : NftEvent) (key : NftEventKey) (k : Unit {0} → M E B)
      {Q : Result E B → World → Type 0} {w : World}
      → Q fault (tick w)
      → Wp Q (k tt) (record (tick w) { sent = (event, key) ∷ w.sent })
      → Wp Q (send event key >>= k) w
  unfolding ◌>>=◌ send
  send_then event key k {w = w} h s = elim (Bool-cases (w.env.fails w.calls)) [
    | inl t ↦ record { holds = rw t h }
    | inr t ↦ record { holds = rw t s.holds }
  ]

  pub cache_del_then :
      (key : CacheKey) (k : Unit {0} → M E B) {Q : Result E B → World → Type 0} {w : World}
      → Q fault (tick w)
      → Wp Q
          (k tt)
          (record (tick w) { cache = select (λ entry. not (same_key entry.0 key)) w.cache })
      → Wp Q (cache_del key >>= k) w
  unfolding ◌>>=◌ cache_del
  cache_del_then key k {w = w} h s = elim (Bool-cases (w.env.fails w.calls)) [
    | inl t ↦ record { holds = rw t h }
    | inr t ↦ record { holds = rw t s.holds }
  ]

  -- The value of an entry of the cache, or none.
  pub cache_get_then :
      (key : CacheKey) (k : Option ℕ → M E B) {Q : Result E B → World → Type 0} {w : World}
      → Wp Q (k none) (tick w)
      → Wp Q (k (entry_value (find (λ entry. same_key entry.0 key) w.cache))) (tick w)
      → Wp Q (cache_get key >>= k) w
  unfolding ◌>>=◌ cache_get
  cache_get_then key k {w = w} n s = elim (Bool-cases (w.env.fails w.calls)) [
    | inl t ↦ record { holds = rw t n.holds }
    | inr t ↦ record { holds = rw t s.holds }
  ]

  pub cache_set_then :
      (key : CacheKey) (value : ℕ) (k : Unit {0} → M E B) {Q : Result E B → World → Type 0}
      {w : World}
      → Q fault (tick w)
      → Wp Q (k tt) (record (tick w) {
        cache = (key, value) ∷ select (λ entry. not (same_key entry.0 key)) w.cache;
      })
      → Wp Q (cache_set key value >>= k) w
  unfolding ◌>>=◌ cache_set
  cache_set_then key value k {w = w} h s = elim (Bool-cases (w.env.fails w.calls)) [
    | inl t ↦ record { holds = rw t h }
    | inr t ↦ record { holds = rw t s.holds }
  ]

  -- Nothing but the job store and the number of calls changes.
  pub enqueue_then :
      (task : MetadataJsonUploadTask) (k : Unit {0} → M E B) {Q : Result E B → World → Type 0}
      {w : World}
      → ((j : JobStore) (c : ℕ) → Q fault (record w { jobs = j; calls = c }))
      → ((j : JobStore) (c : ℕ) → Wp Q (k tt) (record w { jobs = j; calls = c }))
      → Wp Q (enqueue task >>= k) w
  unfolding ◌>>=◌ enqueue
  enqueue_then task k {w = w} h s = elim (Bool-cases (w.env.fails w.calls)) [
    | inl t ↦ record { holds = rw t (h w.jobs (suc w.calls)) }
    | inr t ↦ elim (Bool-cases (w.env.fails (suc w.calls))) [
      | inl u ↦ record { holds = rw (t, u) (h w.jobs (suc (suc w.calls))) }
      | inr u ↦ elim (Bool-cases (w.env.fails (suc (suc w.calls)))) [
        | inl v ↦ record { holds = rw (t, u, v) (h _ _) }
        | inr v ↦ record { holds = rw (t, u, v) (s _ _).holds }
      ]
    ]
  ]
