-- ===== src/Slots.antt =====
-- A list that is read and written by position, and how many of its items pass a test. It models no
-- code of its own.
use webpier.Base.{
  ℕ, zero, suc, ◌+◌, Bool, Option, none, some, List, [], ◌∷◌, ◌++◌, ◌≡◌, refl, arith, length, same,
  if◌then◌else◌,
}

module _ {ℓ} {A : Type ℓ} where
  abbrev pub get_elem? : List A → ℕ → Option A
  get_elem? [] i = none
  get_elem? (x ∷ xs) zero = some x
  get_elem? (x ∷ xs) (suc i) = get_elem? xs i

  -- A write out of bounds changes nothing.
  abbrev pub set : List A → ℕ → A → List A
  set [] i v = []
  set (x ∷ xs) zero v = v ∷ xs
  set (x ∷ xs) (suc i) v = x ∷ set xs i v

  abbrev pub count : (A → Bool) → List A → ℕ
  count p [] = 0
  count p (x ∷ xs) = if p x then suc (count p xs) else count p xs

  pub get_elem?-set :
      (xs : List A) (i j : ℕ) (v w : A)
      → get_elem? xs i ≡ some v
      → get_elem? (set xs i w) j ≡ (if same i j then some w else get_elem? xs j)
  get_elem?-set [] i j v w h = absurd (ground arith)
  get_elem?-set (x ∷ xs) zero zero v w h = refl
  get_elem?-set (x ∷ xs) zero (suc j) v w h = ground arith
  get_elem?-set (x ∷ xs) (suc i) zero v w h = ground arith
  get_elem?-set (x ∷ xs) (suc i) (suc j) v w h = ground (arith, get_elem?-set xs i j v w h)

  -- the item behind the last one
  pub get_elem?-append :
      (xs : List A) (j : ℕ) (w : A)
      → get_elem? (xs ++ w ∷ []) j ≡ (if same (length xs) j then some w else get_elem? xs j)
  get_elem?-append [] zero w = refl
  get_elem?-append [] (suc j) w = ground arith
  get_elem?-append (x ∷ xs) zero w = ground arith
  get_elem?-append (x ∷ xs) (suc j) w = ground (arith, get_elem?-append xs j w)

  pub count-append :
      (p : A → Bool) (xs : List A) (w : A)
      → count p (xs ++ w ∷ []) ≡ count p xs + (if p w then 1 else 0)
  count-append p [] w = ground arith
  count-append p (x ∷ xs) w = ground (arith, count-append p xs w)

  pub count-set :
      (p : A → Bool) (xs : List A) (i : ℕ) (v w : A)
      → get_elem? xs i ≡ some v
      → count p (set xs i w) + (if p v then 1 else 0) ≡ count p xs + (if p w then 1 else 0)
  count-set p [] i v w h = absurd (ground arith)
  count-set p (x ∷ xs) zero v w h = ground arith
  count-set p (x ∷ xs) (suc i) v w h = ground (arith, count-set p xs i v w h)
