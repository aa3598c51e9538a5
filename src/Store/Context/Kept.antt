-- ===== src/Store/Context/Kept.antt =====
-- What a call of `context_impl` that adds a service leaves of the others, also when it throws.
use webpier.Base.{
  ℕ, String, Bool, true, false, none, some, [], ◌≡◌, refl, inl, inr, arith, ◌==◌, if◌then◌else◌,
  Bool-cases, Option-cases, eq_iff,
}
use webpier.Ptree.{PropertyTree}
use webpier.Map.{string_key, find, emplace, contains, update, find-emplace, find-update}
use webpier.Store.Types.{Service, Enums}
use webpier.Store.Services.{Services}
use webpier.Store.Context.{
  Disk, Context, Changed, is_stale, dir_of, with_lock, save_pier_config, change_services, failed,
  add_export_service, add_import_service,
}
use webpier.Store.Context.Changing.{find-changed}
use webpier.Store.Context.Effects.{lookup, add_service, accepted_export, accepted_import}

module _ (lib : PropertyTree) (enums : Enums) (cannot_open : String) where
  open lib use {Text}

  pub save_pier_config-context :
      (id : String) (c : Context) (d : Disk Text)
      → (save_pier_config lib enums cannot_open id c d).context
        ≡ record c { bundle = emplace id [] c.bundle }
  unfolding save_pier_config
  save_pier_config-context id c d = elim (Option-cases (dir_of c.config.repo id d)) [
    | inl n ↦ rw (n, save_pier_config) refl
    | inr (dir, e) ↦ rw (e, save_pier_config) refl
  ]

  pub change_services-lookup :
      (now : ℕ) (id q k : String) (m : Services) (c : Context) (d : Disk Text)
      → contains id c.bundle ≡ true
      → lookup q k (change_services lib enums cannot_open now id m c d).context
        ≡ (if id == q then find k m else lookup q k c)
  unfolding with_lock
  change_services-lookup now id q k m c d h = elim (Bool-cases (is_stale c.time d.stamp)) [
    | inl t ↦ rw t (ground (arith, find-update id q (λ (old : Services). m) c.bundle, eq_iff id q))
    | inr t ↦
        rw
          (
            t,
            save_pier_config-context id
                (record c { bundle = update id (λ (old : Services). m) c.bundle }) d,
          )
          (ground (arith, find-changed lib enums cannot_open id q m c.bundle h))
  ]

  -- the shape of the two calls that add
  added-lookup :
      (now : ℕ) (pier q k wrong : String) (info old : Service) (c : Context) (d : Disk Text)
      → lookup q k c ≡ some old
      → lookup q k
          (elim (find pier c.bundle) as (λ _. Changed Text) [
            | none ↦ failed c d wrong
            | some m ↦
                if contains info.name m
                then failed c d "Such service already exists"
                else change_services lib enums cannot_open now pier (emplace info.name info m) c d
          ]).context
        ≡ some old
  added-lookup now pier q k wrong info old c d h = elim (Option-cases (find pier c.bundle)) [
    | inl n ↦ rw n h
    | inr (m, e) ↦ elim (Bool-cases (contains info.name m)) [
      | inl t ↦ rw (e, t) h
      | inr t ↦
          let known : contains pier c.bundle ≡ true = rw (e, contains) refl in
          rw (e, t, change_services-lookup now pier q k (emplace info.name info m) c d known)
            (ground
              (arith, find-emplace info.name k info m, eq_iff pier q, eq_iff info.name k, e, h))
    ]
  ]

  -- Whatever comes of a call that adds a service, the services that were found are found as before.
  pub add_service-lookup :
      (b : Bool) (now : ℕ) (q k : String) (info old : Service) (c : Context) (d : Disk Text)
      → lookup q k c ≡ some old
      → lookup q k (add_service lib enums cannot_open b now info c d).context ≡ some old
  unfolding add_export_service add_import_service
  add_service-lookup true now q k info old c d h = elim (Bool-cases info.local) [
    | inl l ↦
        rw (accepted_export lib enums cannot_open now info c d l)
          (added-lookup now c.config.pier q k _ info old c d h)
    | inr l ↦ simp l h
  ]
  add_service-lookup false now q k info old c d h = elim (Bool-cases info.local) [
    | inl l ↦ simp l h
    | inr l ↦
        rw (accepted_import lib enums cannot_open now info c d l)
          (added-lookup now info.pier q k _ info old c d h)
  ]
