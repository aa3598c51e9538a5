-- ===== src/Store/Context/Switching.antt =====
-- What `set_config` of src/store/context.cpp leaves, when the settings are those of another pier.
use webpier.Base.{
  ℕ, String, Bool, false, Option, none, some, [], ◌∷◌, ◌≡◌, refl, ◌∙◌, inl, inr, ◌==◌, ◌&&◌, ◌||◌,
  not, Bool-cases, Option-cases, Result-cases,
}
use webpier.Ptree.{PropertyTree}
use webpier.Map.{Map, string_key}
use webpier.Store.Types.{Config, Enums}
use webpier.Store.Settings.{of_config}
use webpier.Store.Context.{PierDir, Disk, Context, dir_of, is_stale, with_lock, save_config}
use webpier.Store.Context.Opening.{
  load_pier_config, load_piers, has_cert, has_key, enter, set_config,
}

module _ (lib : PropertyTree) (enums : Enums) (cannot_open : String) where
  open lib use {Text, write, read}

  load_pier_config-config :
      (id : String) (file : Option Text) (c : Context)
      → (load_pier_config lib enums cannot_open id file c).0.config ≡ c.config
  unfolding load_pier_config
  load_pier_config-config id none c = refl
  load_pier_config-config id (some x) c = elim (Option-cases (read x)) [
    | inl n ↦ rw (n, load_pier_config) refl
    | inr (doc, n) ↦ rw (n, load_pier_config) refl
  ]

  pub load_piers-config :
      (dirs : Map String (PierDir Text)) (c : Context)
      → (load_piers lib enums cannot_open dirs c).0.config ≡ c.config
  unfolding load_piers
  load_piers-config [] c = refl
  load_piers-config ((id, dir) ∷ dirs) c =
      let r = load_pier_config lib enums cannot_open id dir.file c in
      let one = load_pier_config-config id dir.file c in
      elim (Bool-cases dir.cert) [
        | inr n ↦ rw n (load_piers-config dirs c)
        | inl t ↦ elim (Result-cases r.1) [
          | inl (e, n) ↦ rw (t, n) one
          | inr (d, n) ↦ rw (t, n) (load_piers-config dirs r.0 ∙ one)
        ]
      ]

  -- Half an identity refuses the pier.
  abbrev pub is_half : Option (PierDir Text) → Bool
  is_half dir =
      let cert = has_cert lib enums cannot_open dir in
      let key = has_key lib enums cannot_open dir in (not cert && key) || (cert && not key)

  pub set_config-moved :
      (now : ℕ) (info : Config) (c : Context) (d : Disk Text)
      → (info.pier == c.config.pier) ≡ false
      → is_half (dir_of info.repo info.pier d) ≡ false
      → is_stale c.time d.stamp ≡ false
      → let r = set_config lib enums cannot_open now info c d in
        (r.context.config ≡ info)
        × (r.context.time ≡ now)
        × (r.disk.settings ≡ some (write (of_config lib enums info)))
        × (r.disk.stamp ≡ now)
  unfolding set_config with_lock enter save_config
  set_config-moved now info c d other whole fresh =
      rw (other, whole, fresh) (load_piers-config _ _, refl, refl, refl)
