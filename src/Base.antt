-- ===== src/Base.antt =====
-- Names that every module shares: the libraries', passed on, and the tests and splits over the
-- native numbers and texts. It models no code of its own.
use Prim.Native.Nat.{compare, Ordering}
pub use Prim.Native.Nat.{ℕ, zero, suc, ◌+◌, ◌-◌, ◌*◌, ◌/◌, ◌%◌, ◌^◌, ◌≤◌, ◌<◌}
pub use Prim.Native.String.{String, ◌++◌ as ◌<>◌}
pub use mathlib.Core.Path.{◌≡◌, refl, sym, ap, ◌∙◌}
pub use mathlib.Core.Logic.{◌≢◌, ◌↔◌, ◌⊎◌, inl, inr}
pub use mathlib.Core.Bool.{Bool, true, false, ◌&&◌, ◌||◌, not}
pub use mathlib.Core.Option.{Option, none, some}
pub use mathlib.Core.List.{List, [], ◌∷◌, ◌++◌, map}
pub use native.Mathlib.Omega.{arith}
pub use text.Mathlib.Text.{◌==◌}
pub use text.Mathlib.TextEquality.{eq_iff}
pub use text.Mathlib.TextPositions.{eq_refl}

abbrev pub ltb : ℕ → ℕ → Bool
ltb a b = elim (compare a b) [ Ordering.lt ↦ true | _ ↦ false ]

abbrev pub leb : ℕ → ℕ → Bool
leb a b = elim (compare a b) [ Ordering.gt ↦ false | _ ↦ true ]

-- `==` on numbers; `==` itself is the test on texts
abbrev pub same : ℕ → ℕ → Bool
same a b = elim (compare a b) [ Ordering.eq ↦ true | _ ↦ false ]

infix 1 if◌then◌else◌
abbrev pub if◌then◌else◌ {ℓ} : {A : Type ℓ} → Bool → A → A → A
if true then x else y = x
if false then x else y = y

pub Bool-cases : (b : Bool) → (b ≡ true) ⊎ (b ≡ false)
Bool-cases true = inl refl
Bool-cases false = inr refl

pub Option-cases {ℓ} : {A : Type ℓ} (o : Option A) → (o ≡ none) ⊎ ((a : A) × (o ≡ some a))
Option-cases none = inl refl
Option-cases (some a) = inr (a, refl)

-- `std::string::empty`
abbrev pub is_empty : String → Bool
is_empty s = s == ""

abbrev pub All {ℓ κ} : {A : Type ℓ} → (A → Type κ) → List A → Type κ
All P [] = Unit
All P (x ∷ xs) = P x × All P xs

abbrev pub length {ℓ} : {A : Type ℓ} → List A → ℕ
length [] = 0
length (x ∷ xs) = suc (length xs)

-- `negsuc n` is -(n + 1).
pub data ℤ : Type 0 where
  pos negsuc : ℕ → ℤ

-- The values of a 32-bit `int`.
abbrev pub in_int : ℤ → Bool
in_int (pos n) = ltb n 2147483648
in_int (negsuc n) = ltb n 2147483648

-- The conversion of an `int` to `uint32_t`, modulo 2 ^ 32.
abbrev pub to_uint32 : ℤ → ℕ
to_uint32 (pos n) = n % 2 ^ 32
to_uint32 (negsuc n) = (2 ^ 32 - 1) - n % 2 ^ 32

-- What a call that may throw a `std::exception` comes to: its value, or the text of `what()`.
pub data Result {ℓ} (Value : Type ℓ) : Type ℓ where
  err : String → Result Value
  ok : Value → Result Value

infixl 5 ◌>>=◌ ◌>>◌
-- the next call, unless this one threw
abbrev pub ◌>>=◌ {ℓ μ} : {S : Type ℓ} {T : Type μ} → Result S → (S → Result T) → Result T
err what >>= next = err what
ok value >>= next = next value

abbrev pub ◌>>◌ {ℓ} : {T : Type ℓ} → Result (Unit {0}) → Result T → Result T
first >> second = first >>= (λ done. second)

abbrev pub or_throw {ℓ} : {A : Type ℓ} → Option A → String → Result A
or_throw none e = err e
or_throw (some a) e = ok a

-- A loop that converts one item after another, and ends with the first that throws.
unfoldable pub each {ℓ κ} : {A : Type ℓ} {B : Type κ} → (A → Result B) → List A → Result (List B)
each f [] = ok []
each f (x ∷ xs) = do y ← f x; ys ← each f xs; ok (y ∷ ys)

-- Items that are converted back to what they were.
pub each-map {ℓ κ} :
    {A : Type ℓ} {B : Type κ} (back : B → Result A) (to : A → B) (xs : List A)
    → All (λ x. back (to x) ≡ ok x) xs
    → each back (map to xs) ≡ ok xs
unfolding each
each-map back to [] h = refl
each-map back to (x ∷ xs) h = rw (h.0, each-map back to xs h.1)

pub Result-cases {ℓ} :
    {A : Type ℓ} (r : Result A) → ((e : String) × (r ≡ err e)) ⊎ ((a : A) × (r ≡ ok a))
Result-cases (ok a) = inr (a, refl)
Result-cases (err e) = inl (e, refl)
