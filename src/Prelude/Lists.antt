-- ===== src/Prelude/Lists.antt =====
-- Lists measured by native numbers, and the searches that the tables are read with.
use Prim.Native.Nat.{ℕ, zero, suc, ◌+◌}
use mathlib.Core.Path.{◌≡◌, refl, subst, ap}
use mathlib.Core.Logic.{◌⊎◌, inl, inr}
use mathlib.Core.Bool.{Bool, true, false}
use mathlib.Core.List.{List, [], ◌∷◌, ◌++◌}
use mathlib.Core.Option.{Option, none, some, some-injective}
use native.Mathlib.Omega.{arith}
use hub_nfts.Prelude.Tests.{if◌then◌else◌, Bool-cases}

module _ {ℓ} {A : Type ℓ} where
  abbrev pub length : List A → ℕ
  length [] = 0
  length (x ∷ xs) = suc (length xs)

  abbrev pub get_elem? : List A → ℕ → Option A
  get_elem? [] i = none
  get_elem? (x ∷ xs) zero = some x
  get_elem? (x ∷ xs) (suc i) = get_elem? xs i

  -- The first item that passes the test.
  abbrev pub find : (A → Bool) → List A → Option A
  find p [] = none
  find p (x ∷ xs) = if p x then some x else find p xs

  -- The items that pass the test, in order.
  abbrev pub select : (A → Bool) → List A → List A
  select p [] = []
  select p (x ∷ xs) = let rest = select p xs in if p x then x ∷ rest else rest

  -- How many items pass the test.
  abbrev pub tally : (A → Bool) → List A → ℕ
  tally p [] = 0
  tally p (x ∷ xs) = let rest = tally p xs in if p x then suc rest else rest

  -- Every item that passes the test is changed.
  abbrev pub update_where : (A → Bool) → (A → A) → List A → List A
  update_where p f [] = []
  update_where p f (x ∷ xs) = (if p x then f x else x) ∷ update_where p f xs

  abbrev pub remove_at : ℕ → List A → List A
  remove_at i [] = []
  remove_at zero (x ∷ xs) = xs
  remove_at (suc i) (x ∷ xs) = x ∷ remove_at i xs

  -- A predicate holds of every item.
  abbrev pub All {κ} : (A → Type κ) → List A → Type κ
  All P [] = Unit
  All P (x ∷ xs) = P x × All P xs

  pub find_sound : (p : A → Bool) (xs : List A) {x : A} → find p xs ≡ some x → p x ≡ true
  find_sound p [] e = cc
  find_sound p (y ∷ xs) {x} e = ground (arith, find_sound p xs {x = x})

  pub All-find {κ} :
      (P : A → Type κ) (p : A → Bool) (xs : List A) {x : A} → All P xs → find p xs ≡ some x → P x
  All-find P p [] h e = cc
  All-find P p (y ∷ xs) h e = elim (Bool-cases (p y)) [
    | inl t ↦ subst P (some-injective _ _ (rw t at e)) h.0
    | inr t ↦ All-find P p xs h.1 (rw t at e)
  ]

  pub All-append {κ} : (P : A → Type κ) (xs ys : List A) → All P xs → All P ys → All P (xs ++ ys)
  All-append P [] ys h k = k
  All-append P (x ∷ xs) ys h k = (h.0, All-append P xs ys h.1 k)

  pub All-update_where {κ} :
      (P : A → Type κ) (p : A → Bool) (f : A → A) (xs : List A)
      → ((x : A) → P x → P (f x))
      → All P xs
      → All P (update_where p f xs)
  All-update_where P p f [] step h = h
  All-update_where P p f (x ∷ xs) step h = elim (Bool-cases (p x)) [
    | inl t ↦ rw t (step x h.0, All-update_where P p f xs step h.1)
    | inr t ↦ rw t (h.0, All-update_where P p f xs step h.1)
  ]

  pub All-map {κ ι} :
      (P : A → Type κ) (Q : A → Type ι) (xs : List A) → ((x : A) → P x → Q x) → All P xs → All Q xs
  All-map P Q [] step h = tt
  All-map P Q (x ∷ xs) step h = (step x h.0, All-map P Q xs step h.1)

  pub All-select {κ} :
      (P : A → Type κ) (p : A → Bool) (xs : List A)
      → All P xs
      → All (λ x. P x × (p x ≡ true)) (select p xs)
  All-select P p [] h = tt
  All-select P p (x ∷ xs) h = elim (Bool-cases (p x)) [
    | inl t ↦ rw t ((h.0, t), All-select P p xs h.1)
    | inr t ↦ rw t (All-select P p xs h.1)
  ]

  pub tally-append : (p : A → Bool) (xs ys : List A) → tally p (xs ++ ys) ≡ tally p xs + tally p ys
  tally-append p [] ys = omega arith
  tally-append p (x ∷ xs) ys = ground (arith, tally-append p xs ys)

  -- An update that does not change what the test says leaves the tally alone.
  pub tally-update_where :
      (p q : A → Bool) (f : A → A) (xs : List A)
      → ((x : A) → p (f x) ≡ p x)
      → tally p (update_where q f xs) ≡ tally p xs
  tally-update_where p q f [] same = refl
  tally-update_where p q f (x ∷ xs) same = ground (arith, same x, tally-update_where p q f xs same)

  pub update_where-update_where :
      (p : A → Bool) (f g : A → A) (xs : List A)
      → ((x : A) → p (f x) ≡ p x)
      → update_where p g (update_where p f xs) ≡ update_where p (λ x. g (f x)) xs
  update_where-update_where p f g [] same = refl
  update_where-update_where p f g (x ∷ xs) same =
      ground (arith, same x, update_where-update_where p f g xs same)

  -- The first item that passes the test, after an update that does not change what the test says.
  pub find-update_where :
      (p : A → Bool) (f : A → A) (xs : List A) {x : A}
      → ((y : A) → p (f y) ≡ p y)
      → find p xs ≡ some x
      → find p (update_where p f xs) ≡ some (f x)
  find-update_where p f [] same e = cc
  find-update_where p f (y ∷ xs) {x} same e = elim (Bool-cases (p y)) [
    | inl t ↦ rw (t, same y, t) (ap (λ z. some (f z)) (some-injective _ _ (rw t at e)))
    | inr t ↦ rw (t, t) (find-update_where p f xs same (rw t at e))
  ]

  -- An update of items that neither pass the test nor will leaves the search alone.
  pub find-update_other :
      (p q : A → Bool) (f : A → A) (xs : List A)
      → ((y : A) → q y ≡ true → (p y ≡ false) × (p (f y) ≡ false))
      → find p (update_where q f xs) ≡ find p xs
  find-update_other p q f [] apart = refl
  find-update_other p q f (y ∷ xs) apart = elim (Bool-cases (q y)) [
    | inl t ↦ let (a, b) = apart y t in rw (t, a, b) (find-update_other p q f xs apart)
    | inr t ↦ rw (t, find-update_other p q f xs apart) refl
  ]

  -- The same, where the update is of items that pass another test.
  pub find-update_any :
      (p q : A → Bool) (f : A → A) (xs : List A) {x : A}
      → ((y : A) → p (f y) ≡ p y)
      → find p xs ≡ some x
      → (y : A) × (find p (update_where q f xs) ≡ some y) × ((y ≡ x) ⊎ (y ≡ f x))
  find-update_any p q f [] same e = absurd (cc)
  find-update_any p q f (y ∷ xs) {x} same e = elim (Bool-cases (p y)) [
    | inl t ↦
        let g : y ≡ x = some-injective _ _ (rw t at e) in
        elim (Bool-cases (q y)) [
          | inl u ↦ (f y, rw (u, same y, t) refl, inr (ap f g))
          | inr u ↦ (y, rw (u, t) refl, inl g)
        ]
    | inr t ↦
        let (z, h, c) = find-update_any p q f xs {x = x} same (rw t at e) in
        elim (Bool-cases (q y)) [
          | inl u ↦ (z, rw (u, same y, t) h, c)
          | inr u ↦ (z, rw (u, t) h, c)
        ]
  ]

  pub get_elem?_cases :
      (y : A) (ys : List A) (i : ℕ) {x : A}
      → get_elem? (y ∷ ys) i ≡ some x
      → (y ≡ x) ⊎ ((j : ℕ) × (get_elem? ys j ≡ some x))
  get_elem?_cases y ys zero e = inl (some-injective _ _ e)
  get_elem?_cases y ys (suc i) e = inr (i, e)

  -- An item that is selected passes the test and is an item of the list.
  pub get_elem?-select :
      (p : A → Bool) (xs : List A) (i : ℕ) {x : A}
      → get_elem? (select p xs) i ≡ some x
      → (p x ≡ true) × (j : ℕ) × (get_elem? xs j ≡ some x)
  get_elem?-select p [] i e = absurd (cc)
  get_elem?-select p (y ∷ xs) i {x} e = elim (Bool-cases (p y)) [
    | inr t ↦ let (a, j, g) = get_elem?-select p xs i {x = x} (rw t at e) in (a, suc j, g)
    | inl t ↦ elim (get_elem?_cases y (select p xs) i {x = x} (rw t at e)) [
      | inl f ↦ (subst (λ z. p z ≡ true) f t, 0, ap (λ z. some z) f)
      | inr (j, g) ↦ let (a, k, h) = get_elem?-select p xs j {x = x} g in (a, suc k, h)
    ]
  ]
