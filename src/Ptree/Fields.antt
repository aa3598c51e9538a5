-- ===== src/Ptree/Fields.antt =====
-- A run of `put` calls on one tree, as the writers of src/store/context.cpp make, and what can be
-- read back; the readers with a default, `get<T>(path, default)`.
use mathlib.Core.Path.{subst}
use webpier.Base.{
  ℕ, ℤ, pos, leb, String, Bool, true, false, Option, none, some, List, [], ◌∷◌, ◌≡◌, ◌⊎◌, inl, inr,
  refl, arith, ap, ◌∙◌, ◌==◌, ◌&&◌, not, if◌then◌else◌, Bool-cases, eq_iff, Result, ok, or_throw,
  in_int, ◌>>=◌,
}
use webpier.Ptree.{PropertyTree, is_name, is_plain}

-- the paths and texts that are put, in their order
abbrev pub Fields : Type 0
Fields = List (String × String)

-- The text that is put last at a path.
abbrev pub get_last : String → Fields → Option String → Option String
get_last j [] o = o
get_last j ((k, v) ∷ fs) o = get_last j fs (if k == j then some v else o)

abbrev pub mem : String → List String → Bool
mem j [] = false
mem j (k ∷ ks) = if k == j then true else mem j ks

-- The paths are names, and all different.
abbrev pub is_flat : Fields → List String → Bool
is_flat [] seen = true
is_flat ((k, v) ∷ fs) seen = is_name k && not (mem k seen) && is_flat fs (k ∷ seen)

module _ (lib : PropertyTree) where
  open lib use {
    Tree, empty, put, value?, has, to_int?, of_int, to_bool?, of_bool, IsObject, value-put_self,
    value-put_ne, put-IsObject, has-put, has-empty, empty-IsObject, to_int-of_int, to_uint?,
    to_uint-of_int, to_bool-of_bool, bad_path, bad_data,
  }

  abbrev pub put_all : Fields → Tree → Tree
  put_all [] t = t
  put_all ((k, v) ∷ fs) t = put_all fs (put k v t)

  -- `get<std::string>`, `get<int>` and `get<bool>` with a default
  abbrev pub string_or : String → String → Tree → String
  string_or k d t = elim (value? k t) [ none ↦ d | some v ↦ v ]

  abbrev pub int_or : String → ℤ → Tree → ℤ
  int_or k d t = elim (value? k t) [
    | none ↦ d
    | some v ↦ elim (to_int? v) [ none ↦ d | some z ↦ z ]
  ]

  abbrev pub uint_or : ℕ → String → ℕ → Tree → ℕ
  uint_or most k d t = elim (value? k t) [
    | none ↦ d
    | some v ↦ elim (to_uint? most v) [ none ↦ d | some n ↦ n ]
  ]

  abbrev pub bool_or : String → Bool → Tree → Bool
  bool_or k d t = elim (value? k t) [
    | none ↦ d
    | some v ↦ elim (to_bool? v) [ none ↦ d | some b ↦ b ]
  ]

  -- `get<bool>`
  abbrev pub get_bool : String → Tree → Result Bool
  get_bool k t = do v ← or_throw (value? k t) (bad_path k); or_throw (to_bool? v) (bad_data k)

  value-put_keeps :
      (k j v : String) (t : Tree) (o : Option String)
      → (k == j) ≡ false
      → (o ≡ none) ⊎ (value? j t ≡ o)
      → (o ≡ none) ⊎ (value? j (put k v t) ≡ o)
  value-put_keeps k j v t none n e = inl refl
  value-put_keeps k j v t (some u) n (inl x) = cc
  value-put_keeps k j v t (some u) n (inr x) = inr (value-put_ne k j v u t n x)

  value-put_all_from :
      (fs : Fields) (j w : String) (t : Tree) (o : Option String)
      → (o ≡ none) ⊎ (value? j t ≡ o)
      → get_last j fs o ≡ some w
      → value? j (put_all fs t) ≡ some w
  value-put_all_from [] j w t o (inl n) h = cc
  value-put_all_from [] j w t o (inr e) h = cc
  value-put_all_from ((k, v) ∷ fs) j w t o e h = elim (Bool-cases (k == j)) [
    | inl y ↦
        value-put_all_from fs j w (put k v t) (some v)
          (inr
            (subst (λ i. value? i (put k v t) ≡ some v) ((eq_iff k j).0 y) (value-put_self k v t)))
          (subst (λ b. get_last j fs (if b then some v else o) ≡ some w) y h)
    | inr n ↦
        value-put_all_from fs j w (put k v t) o (value-put_keeps k j v t o n e)
          (subst (λ b. get_last j fs (if b then some v else o) ≡ some w) n h)
  ]

  -- What a run of calls puts at a path is there in the end.
  pub value-put_all :
      (fs : Fields) (j w : String)
      → get_last j fs none ≡ some w
      → value? j (put_all fs empty) ≡ some w
  value-put_all fs j w h = value-put_all_from fs j w empty none (inl refl) h

  put_all-IsObject_from :
      (fs : Fields) (seen : List String) (t : Tree)
      → ((j : String) → is_plain j ≡ true → has j t ≡ mem j seen)
      → is_flat fs seen ≡ true
      → IsObject t
      → IsObject (put_all fs t)
  put_all-IsObject_from [] seen t h f o = o
  put_all-IsObject_from ((k, v) ∷ fs) seen t h f o =
      let name : is_name k ≡ true = ground arith in
      let plain : is_plain k ≡ true = ground arith in
      let new : mem k seen ≡ false = ground arith in
      let rest : is_flat fs (k ∷ seen) ≡ true = ground arith in
      put_all-IsObject_from fs (k ∷ seen) (put k v t)
        (λ j p. has-put k j v t name p ∙ ap (λ b. if k == j then true else b) (h j p)) rest
        (put-IsObject k v t name (h k plain ∙ new) o)

  pub put_all-IsObject : (fs : Fields) → is_flat fs [] ≡ true → IsObject (put_all fs empty)
  put_all-IsObject fs f = put_all-IsObject_from fs [] empty (λ j p. has-empty j) f empty-IsObject

  pub int_or-of_int :
      (k : String) (d z : ℤ) (t : Tree)
      → in_int z ≡ true
      → value? k t ≡ some (of_int z)
      → int_or k d t ≡ z
  int_or-of_int k d z t i e = rw (e, to_int-of_int z, i, int_or) refl

  pub uint_or-of_int :
      (most : ℕ) (k : String) (d n : ℕ) (t : Tree)
      → leb n most ≡ true
      → value? k t ≡ some (of_int (pos n))
      → uint_or most k d t ≡ n
  uint_or-of_int most k d n t i e = rw (e, to_uint-of_int most n, i, uint_or) refl

  pub string_or-value : (k d v : String) (t : Tree) → value? k t ≡ some v → string_or k d t ≡ v
  string_or-value k d v t e = rw (e, string_or) refl

  pub bool_or-of_bool :
      (k : String) (d b : Bool) (t : Tree) → value? k t ≡ some (of_bool b) → bool_or k d t ≡ b
  bool_or-of_bool k d b t e = rw (e, to_bool-of_bool b, bool_or) refl

  pub get_bool-of_bool :
      (k : String) (b : Bool) (t : Tree) → value? k t ≡ some (of_bool b) → get_bool k t ≡ ok b
  get_bool-of_bool k b t e = simp (e, to_bool-of_bool b)
