-- ===== src/Store/Context/Refusing.antt =====
-- What `context_impl` of src/store/context.cpp does not change: a name that is taken, or not there.
use webpier.Base.{
  ℕ, String, Bool, true, false, none, some, ◌≡◌, refl, inl, inr, arith, ok, if◌then◌else◌,
  Option-cases,
}
use webpier.Ptree.{PropertyTree}
use webpier.Map.{string_key, find, erase, contains}
use webpier.Store.Types.{Service, Enums}
use webpier.Store.Context.{Disk, Context, Changed, change_services, failed}
use webpier.Store.Context.Effects.{lookup, side, accepted_export, accepted_import, add_service}

module _ (lib : PropertyTree) (enums : Enums) (cannot_open : String) where
  open lib use {Text}

  -- a service whose name is taken is refused, and nothing changes
  pub add_service-taken :
      (b : Bool) (now : ℕ) (info old : Service) (c : Context) (d : Disk Text)
      → info.local ≡ b
      → lookup (side b info.pier c) info.name c ≡ some old
      → add_service lib enums cannot_open b now info c d ≡ failed c d "Such service already exists"
  unfolding find
  add_service-taken true now info old c d l n = elim (Option-cases (find c.config.pier c.bundle)) [
    | inl e ↦ let no : ⊥ = ground (arith, e, n) in absurd no
    | inr (m, e) ↦
        let taken : contains info.name m ≡ true = ground (arith, e, n) in
        rw (accepted_export lib enums cannot_open now info c d l, e, taken) refl
  ]
  add_service-taken false now info old c d l n = elim (Option-cases (find info.pier c.bundle)) [
    | inl e ↦ let no : ⊥ = ground (arith, e, n) in absurd no
    | inr (m, e) ↦
        let taken : contains info.name m ≡ true = ground (arith, e, n) in
        rw (accepted_import lib enums cannot_open now info c d l, e, taken) refl
  ]

  -- a service that is not there is not deleted
  pub del-absent :
      (now : ℕ) (pier wrong name : String) (c : Context) (d : Disk Text)
      → lookup pier name c ≡ none
      → let r : Changed Text = elim (find pier c.bundle) [
        | none ↦ failed c d wrong
        | some m ↦
            if contains name m
            then change_services lib enums cannot_open now pier (erase name m) c d
            else record { context = c; disk = d; result = ok tt }
      ] in
        (r.context ≡ c) × (r.disk ≡ d)
  del-absent now pier wrong name c d n = elim (Option-cases (find pier c.bundle)) [
    | inl e ↦ rw e (refl, refl)
    | inr (m, e) ↦
        let gone : contains name m ≡ false = ground (arith, e, n) in rw (e, gone) (refl, refl)
  ]
