-- ===== src/Effects/Monad.antt =====
-- Handlers: state, errors, and the failure of a service.
use hub_nfts.Prelude.{Bool, true, false, Option, none, some}
use hub_nfts.Effects.State.{World}

-- `err` is an error that the code raises itself; `fault` is one that a service raised and `?`
-- passed on (`DbErr`, `RedisError`, `SendError`, `DeductionError`).
pub data Result (E A : Type 0) : Type 0 where
  ok : A → Result E A
  err : E → Result E A
  fault : Result E A

abbrev pub M : Type 0 → Type 0 → Type 0
M E A = World → Result E A × World

-- `check?; rest` where neither reads the state.
infixr 6 ◌&>◌
abbrev pub ◌&>◌ : {E A : Type 0} → Result E (Unit {0}) → Result E A → Result E A
ok _ &> r = r
err e &> r = err e
fault &> r = fault

module _ {E : Type 0} where
  unfoldable pub pure : {A : Type 0} → A → M E A
  pure a w = (ok a, w)

  unfoldable pub raise : {A : Type 0} → E → M E A
  raise e w = (err e, w)

  abbrev pub and_then : {A B : Type 0} → (A → M E B) → Result E A → World → Result E B × World
  and_then f (ok a) w = f a w
  and_then f (err e) w = (err e, w)
  and_then f fault w = (fault, w)

  infixl 5 ◌>>=◌ ◌>>◌
  unfoldable pub ◌>>=◌ : {A B : Type 0} → M E A → (A → M E B) → M E B
  ◌>>=◌ m f w = let (r, w') = m w in and_then f r w'

  abbrev pub ◌>>◌ : {A B : Type 0} → M E A → M E B → M E B
  m >> k = m >>= λ _. k

  -- A computation that reads and writes nothing: `?` at a pure result.
  unfoldable pub lift : {A : Type 0} → Result E A → M E A
  lift r w = (r, w)

  -- `ok_or(error)?`
  abbrev pub option_result : {A : Type 0} → Option A → E → Result E A
  option_result none e = err e
  option_result (some a) e = ok a

  unfoldable pub ok_or : {A : Type 0} → Option A → E → M E A
  ok_or o e w = (option_result o e, w)

  -- `if test { return Err(error) }`
  abbrev pub bool_result : Bool → E → Result E (Unit {0})
  bool_result true e = err e
  bool_result false e = ok tt

  unfoldable pub fail_if : Bool → E → M E (Unit {0})
  fail_if b e w = (bool_result b e, w)
