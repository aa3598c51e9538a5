-- ===== src/Map/Distinct.antt =====
-- Maps with one entry for each key, as every `std::map` is, and lookups under equal keys.
use Prim.Native.Nat.{Ordering}
use Prim.Native.String.{compare}
use webpier.Base.{true, none, some, [], ◌∷◌, ◌≡◌, refl, arith, eq_iff, if◌then◌else◌}
use webpier.Map.{
  Key, Map, same_key, find, insert, emplace, erase, update, find-insert, find-emplace, find-erase,
  find-update,
}

module _ {ℓ κ} {K : Type ℓ} {V : Type κ} ⦃key : Key K⦄ where
  abbrev pub IsDistinct : Map K V → Type κ
  IsDistinct [] = Unit
  IsDistinct ((k, v) ∷ m) = (find k m ≡ none) × IsDistinct m

  -- Equal keys find the same.
  pub find_same : (j k : K) (m : Map K V) → same_key j k ≡ true → find j m ≡ find k m
  unfolding find
  find_same j k [] h = refl
  find_same j k ((i, v) ∷ m) h = ground (
    arith,
    find_same j k m h,
    eq_iff (key.text j) (key.text k),
    eq_iff (key.text i) (key.text j),
    eq_iff (key.text i) (key.text k),
  )

  pub insert-IsDistinct :
      (k : K) (v : V) (m : Map K V) → find k m ≡ none → IsDistinct m → IsDistinct (insert k v m)
  unfolding insert find
  insert-IsDistinct k v [] h d = (refl, tt)
  insert-IsDistinct k v ((j, w) ∷ m) h d =
      let later : find k m ≡ none = ground arith in
      let apart : find j (insert k v m) ≡ none = ground (
        arith,
        find-insert k j v m later,
        eq_iff (key.text j) (key.text k),
        eq_iff (key.text k) (key.text j),
      ) in
      let rest = insert-IsDistinct k v m later d.1 in
      elim (compare (key.text j) (key.text k))
        as (λ o.
          IsDistinct (elim o [ Ordering.lt ↦ (j, w) ∷ insert k v m | _ ↦ (k, v) ∷ (j, w) ∷ m ])) [
            | Ordering.lt ↦ (apart, rest)
            | _ ↦ (h, d)
          ]

  pub emplace-IsDistinct : (k : K) (v : V) (m : Map K V) → IsDistinct m → IsDistinct (emplace k v m)
  unfolding emplace
  emplace-IsDistinct k v m d = ground (arith, insert-IsDistinct k v m)

  pub update-IsDistinct :
      (k : K) (f : V → V) (m : Map K V) → IsDistinct m → IsDistinct (update k f m)
  unfolding update
  update-IsDistinct k f [] d = tt
  update-IsDistinct k f ((j, w) ∷ m) d =
      ground (arith, update-IsDistinct k f m, find-update k j f m)

  pub erase-IsDistinct : (k : K) (m : Map K V) → IsDistinct m → IsDistinct (erase k m)
  unfolding erase
  erase-IsDistinct k [] d = tt
  erase-IsDistinct k ((j, w) ∷ m) d = ground (arith, erase-IsDistinct k m, find-erase k j m)

  -- The value for a key is found or made, and then changed.
  pub find-update-emplace :
      (k j : K) (f : V → V) (v : V) (m : Map K V)
      → find j (update k f (emplace k v m))
        ≡ (if same_key k j then some (f (elim (find k m) [ none ↦ v | some w ↦ w ])) else find j m)
  find-update-emplace k j f v m =
      ground (arith, find-update k j f (emplace k v m), find-emplace k j v m, find_same k j m)
