-- ===== src/Mutations/Patches/Patched.antt =====
-- What a patch of a drop that succeeds leaves in the database.
use hub_nfts.Prelude.{◌≡◌, ℕ, some, get_or, ◌≤◌}
use hub_nfts.Effects.{World, Db, Result, Becomes, Env, drops_table}
use hub_nfts.Errors.{Error}
use hub_nfts.Blockchains.Solana
use hub_nfts.Blockchains.Polygon
use hub_nfts.Mutations.Patches.OfDrop.{PatchDropInput}

-- The drops are as they were.
abbrev SameDrops : {A : Type 0} → World → Result Error A → World → Type 0
SameDrops w r v = v.db.drops ≡ w.db.drops

-- The drop of a patch, before and after. Where the request has no start, it is a reading of the
-- clock that was made after `from` calls or later.
pub record DropPatched (input : PatchDropInput) (env : Env) (from : ℕ) (before after : Db)
    : Type 0 where
  pub reading : ℕ
  pub in_request : from ≤ reading
  pub patched :
      Becomes drops_table input.id
        (λ d. record d {
          price = get_or d.price input.price;
          start_time = some (get_or (env.clock reading) input.start_time);
          end_time = input.end_time;
        })
        before
        after
