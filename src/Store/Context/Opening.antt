-- ===== src/Store/Context/Opening.antt =====
-- How `context_impl` of src/store/context.cpp comes to its state: `load_config`, `load_pier_config`,
-- the constructor and `set_config`. `generate_x509_pair` is taken to make both files.
use webpier.Base.{
  ℕ, String, Bool, true, false, Option, none, some, [], ◌∷◌, Result, ok, err, ◌==◌, ◌&&◌, ◌||◌, not,
  if◌then◌else◌,
}
use webpier.Ptree.{PropertyTree}
use webpier.Map.{Map, string_key, find, emplace, update}
use webpier.Store.Types.{Config, Enums}
use webpier.Store.Settings.{bootstrap_node, to_config_with}
use webpier.Store.Services.{load_services}
use webpier.Store.Context.{
  PierDir, Disk, Context, Changed, dir_of, failed, empty_dir, set_dirs, is_own, with_lock,
  save_config,
}

module _ (lib : PropertyTree) (enums : Enums) (cannot_open : String) where
  open lib use {Text, read, is_blank, bad_text}

  -- `load_pier_config`, with the file of the pier
  unfoldable pub load_pier_config : String → Option Text → Context → Context × Result (Unit {0})
  load_pier_config id file c =
      let made = record c { bundle = emplace id [] c.bundle } in
      elim file [
        | none ↦ (made, ok tt)
        | some x ↦ elim (read x) [
          | none ↦ (made, err (bad_text x))
          | some doc ↦ (
            record made {
              bundle = update id (load_services lib enums (is_own id c) doc) made.bundle;
            },
            ok tt,
          )
        ]
      ]

  -- the loops over the directories; one without a certificate is passed by
  unfoldable pub load_piers : Map String (PierDir Text) → Context → Context × Result (Unit {0})
  load_piers [] c = (c, ok tt)
  load_piers ((id, dir) ∷ dirs) c =
      let (next, result) = load_pier_config id dir.file c in
      let skipped = load_piers dirs c in
      let rest = load_piers dirs next in
      if dir.cert then elim result [ err e ↦ (next, err e) | ok _ ↦ rest ] else skipped

  abbrev pub dirs_of : String → Disk Text → Map String (PierDir Text)
  dirs_of repo d = elim (find repo d.repos) [ none ↦ [] | some dirs ↦ dirs ]

  -- `load_config`, over the configuration of a new context; an empty file is passed by
  unfoldable pub load_config : Config → Text → Result Config
  load_config blank x = if is_blank x then ok blank else elim (read x) [
    | none ↦ err (bad_text x)
    | some doc ↦ to_config_with lib enums bootstrap_node blank doc
  ]

  -- the constructor, with the configuration of a new context
  unfoldable pub open_context : Config → Disk Text → Result Context
  open_context blank d =
      let start : Context = record { config = blank; bundle = []; time = 0 } in
      elim d.settings [
        | none ↦ ok start
        | some x ↦ elim (load_config blank x) [
          | err e ↦ err e
          | ok config ↦
              let (c, result) =
                load_piers (dirs_of config.repo d) (record start { config = config }) in
              elim result [ err e ↦ err e | ok _ ↦ ok c ]
        ]
      ]

  abbrev pub has_cert : Option (PierDir Text) → Bool
  has_cert o = elim o [ none ↦ false | some dir ↦ dir.cert ]

  abbrev pub has_key : Option (PierDir Text) → Bool
  has_key o = elim o [ none ↦ false | some dir ↦ dir.key ]

  -- the directories of a new pier, with the two halves of its identity
  abbrev pub make_pier : Config → Disk Text → Disk Text
  make_pier info d =
      let whole : PierDir Text → PierDir Text = λ dir. record dir { cert = true; key = true } in
      set_dirs info.repo (λ dirs. update info.pier whole (emplace info.pier empty_dir dirs)) d

  -- the part of `set_config` under the lock, for another pier
  unfoldable pub enter : Config → Context → Disk Text → Changed Text
  enter info c d =
      let dir = dir_of info.repo info.pier d in
      let made =
        if not (has_cert dir) && not (has_key dir)
        then make_pier info d
        else set_dirs info.repo (λ dirs. dirs) d in
      let saved = save_config lib enums cannot_open c made in
      let (next, result) = load_piers (dirs_of info.repo saved.disk) saved.context in
      record { context = next; disk = saved.disk; result = result }

  unfoldable pub set_config : ℕ → Config → Context → Disk Text → Changed Text
  set_config now info c d =
      let dir = dir_of info.repo info.pier d in
      let moved = record c { config = info; bundle = (info.pier, []) ∷ [] } in
      if info.pier == c.config.pier
      then with_lock lib enums cannot_open now (record c { config = info }) d
          (save_config lib enums cannot_open)
      else if (not (has_cert dir) && has_key dir) || (has_cert dir && not (has_key dir))
      then failed c d "Wrong local pier"
      else with_lock lib enums cannot_open now moved d (enter info)
