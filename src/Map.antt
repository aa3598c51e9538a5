-- ===== src/Map.antt =====
-- `std::map` over keys that are compared by a text: the bundles of both programs are keyed by a
-- `std::string`, the pool of the backend by a `handle`, whose `operator<` compares one text too.
-- Two keys with one text are one key. Entries stand in ascending order of their texts.
pub mod Distinct
use Prim.Native.Nat.{Ordering}
use Prim.Native.String.{compare}
use mathlib.Core.Option
use webpier.Base.{
  String, Bool, true, false, Option, none, some, List, [], ◌∷◌, ◌≡◌, refl, arith, ◌==◌, eq_iff, inl,
  inr, if◌then◌else◌,
}

-- What the comparator reads of a key.
pub record Key {ℓ} (K : Type ℓ) : Type ℓ where
  pub text : K → String

instance abbrev pub string_key : Key String
string_key = record { text = λ s. s }

abbrev pub Map {ℓ κ} : Type ℓ → Type κ → Type (ℓ ⊔ κ)
Map K V = List (K × V)

-- Neither key is less than the other.
abbrev pub same_key {ℓ} : {K : Type ℓ} ⦃key : Key K⦄ → K → K → Bool
same_key ⦃key⦄ j k = key.text j == key.text k

module _ {ℓ κ} {K : Type ℓ} {V : Type κ} ⦃key : Key K⦄ where
  -- `find`, and the value behind the iterator
  unfoldable pub find : K → Map K V → Option V
  find k [] = none
  find k ((j, v) ∷ m) = if same_key j k then some v else find k m

  -- the key behind the iterator
  unfoldable pub find_key : K → Map K V → Option K
  find_key k [] = none
  find_key k ((j, v) ∷ m) = if same_key j k then some j else find_key k m

  abbrev pub contains : K → Map K V → Bool
  contains k m = elim (find k m) [ none ↦ false | some _ ↦ true ]

  unfoldable pub insert : K → V → Map K V → Map K V
  insert k v [] = (k, v) ∷ []
  insert k v ((j, w) ∷ m) = elim (compare (key.text j) (key.text k)) [
    | Ordering.lt ↦ (j, w) ∷ insert k v m
    | _ ↦ (k, v) ∷ (j, w) ∷ m
  ]

  -- `emplace`: an entry that is there stays as it is
  unfoldable pub emplace : K → V → Map K V → Map K V
  emplace k v m = if contains k m then m else insert k v m

  unfoldable pub erase : K → Map K V → Map K V
  erase k [] = []
  erase k ((j, v) ∷ m) = let rest = erase k m in if same_key j k then rest else (j, v) ∷ rest

  -- a change of the value behind an iterator
  unfoldable pub update : K → (V → V) → Map K V → Map K V
  update k f [] = []
  update k f ((j, v) ∷ m) = if same_key j k then (j, f v) ∷ m else (j, v) ∷ update k f m

  pub find-insert :
      (k j : K) (v : V) (m : Map K V)
      → find k m ≡ none
      → find j (insert k v m) ≡ (if same_key k j then some v else find j m)
  unfolding find insert
  find-insert k j v [] h = refl
  find-insert k j v ((i, w) ∷ m) h = ground (
    arith,
    find-insert k j v m,
    eq_iff (key.text i) (key.text k),
    eq_iff (key.text i) (key.text j),
    eq_iff (key.text k) (key.text j),
  )

  pub find-emplace :
      (k j : K) (v : V) (m : Map K V)
      → find j (emplace k v m)
        ≡ (if contains k m then find j m else if same_key k j then some v else find j m)
  unfolding emplace
  find-emplace k j v m = ground (arith, find-insert k j v m)

  pub find-erase :
      (k j : K) (m : Map K V) → find j (erase k m) ≡ (if same_key k j then none else find j m)
  unfolding find erase
  find-erase k j [] = ground arith
  find-erase k j ((i, w) ∷ m) = ground (
    arith,
    find-erase k j m,
    eq_iff (key.text i) (key.text k),
    eq_iff (key.text i) (key.text j),
    eq_iff (key.text k) (key.text j),
  )

  pub find-update :
      (k j : K) (f : V → V) (m : Map K V)
      → find j (update k f m) ≡ (if same_key k j then Option.map f (find j m) else find j m)
  unfolding find update
  find-update k j f [] = ground arith
  find-update k j f ((i, w) ∷ m) = ground (
    arith,
    find-update k j f m,
    eq_iff (key.text i) (key.text k),
    eq_iff (key.text i) (key.text j),
    eq_iff (key.text k) (key.text j),
  )
