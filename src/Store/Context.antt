-- ===== src/Store/Context.antt =====
-- `context_impl` of src/store/context.cpp: the settings and services in memory, the lock that shows
-- when another process has written, and the files. A write fails when its directory is missing; no
-- other failure of the disk is modelled. The certificates are openssl's.
pub mod Changing
pub mod Saving
pub mod Faults
pub mod Opening
pub mod Switching
pub mod Reopening
pub mod Effects
pub mod Refusing
pub mod Kept
pub mod Placing
pub mod Histories
use webpier.Base.{
  ℕ, ℤ, String, Bool, true, false, Option, none, some, List, [], ◌∷◌, ◌++◌, Result, ok, err, ◌==◌,
  ◌&&◌, ◌||◌, not, same, is_empty, if◌then◌else◌,
}
use webpier.Ptree.{PropertyTree}
use webpier.Map.{Map, string_key, find, emplace, erase, update, contains}
use webpier.Store.Types.{Config, Service, Enums}
use webpier.Store.Settings.{of_config}
use webpier.Store.Services.{Services, values, of_services, load_services}

-- the directory of a pier: the two halves of its identity, and the file of services
pub record PierDir (Text : Type 0) : Type 0 where
  pub cert : Bool
  pub key : Bool
  pub file : Option Text

-- `stamp` is the time of the lock file, 0 for one that has none; `repos` are the pier directories by
-- the path of the repository and the name of the pier, which is a path of two parts.
pub record Disk (Text : Type 0) : Type 0 where
  pub stamp : ℕ
  pub settings : Option Text
  pub repos : Map String (Map String (PierDir Text))

-- `m_config`, `m_bundle` and `m_guard.m_time`, 0 before the first write
pub record Context : Type 0 where
  pub config : Config
  pub bundle : Map String Services
  pub time : ℕ

-- What a call leaves, also when it throws.
pub record Changed (Text : Type 0) : Type 0 where
  pub context : Context
  pub disk : Disk Text
  pub result : Result (Unit {0})

abbrev pub services_of : String → Context → Services
services_of id c = elim (find id c.bundle) [ none ↦ [] | some m ↦ m ]

-- `soft_lock`: whether another process has written since
abbrev pub is_stale : ℕ → ℕ → Bool
is_stale time stamp = not (same time 0) && not (same time stamp)

abbrev pub is_own : String → Context → Bool
is_own id c = id == c.config.pier

-- `get_export_services`
unfoldable pub get_export_services : Context → List Service
get_export_services c = values (services_of c.config.pier c)

-- the loops of `get_import_services` and `get_piers`
unfoldable pub imports : String → Map String Services → List Service
imports own [] = []
imports own ((id, m) ∷ rest) = if id == own then imports own rest else values m ++ imports own rest

unfoldable pub get_import_services : Context → List Service
get_import_services c = imports c.config.pier c.bundle

unfoldable pub other_piers : String → Map String Services → List String
other_piers own [] = []
other_piers own ((id, m) ∷ rest) =
    let others = other_piers own rest in if id == own then others else id ∷ others

unfoldable pub get_piers : Context → List String
get_piers c = other_piers c.config.pier c.bundle

module _ {Text : Type 0} where
  unfoldable pub dir_of : String → String → Disk Text → Option (PierDir Text)
  dir_of repo id d = elim (find repo d.repos) [ none ↦ none | some dirs ↦ find id dirs ]

  unfoldable pub write_file : String → String → Text → Disk Text → Disk Text
  write_file repo id text d = record d {
    repos = update repo (update id (λ dir. record dir { file = some text })) d.repos;
  }

  abbrev pub failed : Context → Disk Text → String → Changed Text
  failed c d e = record { context = c; disk = d; result = err e }

  unfoldable pub set_dirs :
      String → (Map String (PierDir Text) → Map String (PierDir Text)) → Disk Text → Disk Text
  set_dirs repo f d = record d { repos = update repo f (emplace repo [] d.repos) }

  abbrev pub empty_dir : PierDir Text
  empty_dir = record { cert = false; key = false; file = none }

module _ (lib : PropertyTree) (enums : Enums) (cannot_open : String) where
  open lib use {Text, write}

  -- `hard_lock` around the rest of a call, which it stamps at the time `now` in the end
  unfoldable pub with_lock :
      ℕ → Context → Disk Text → (Context → Disk Text → Changed Text) → Changed Text
  with_lock now c d body =
      let r = body c d in
      if is_stale c.time d.stamp then failed c d "The context is outdated" else record {
        context = record r.context { time = now };
        disk = record r.disk { stamp = now };
        result = r.result;
      }

  -- `save_config`
  unfoldable pub save_config : Context → Disk Text → Changed Text
  save_config c d = record {
    context = c;
    disk = record d { settings = some (write (of_config lib enums c.config)) };
    result = ok tt;
  }

  -- `save_pier_config`; `m_bundle[id]` makes an entry that is missing
  unfoldable pub save_pier_config : String → Context → Disk Text → Changed Text
  save_pier_config id c d =
      let kept = record c { bundle = emplace id [] c.bundle } in
      elim (dir_of c.config.repo id d) [
        | none ↦ failed kept d cannot_open
        | some dir ↦ record {
          context = kept;
          disk = write_file c.config.repo id (write (of_services lib enums (services_of id c))) d;
          result = ok tt;
        }
      ]

  -- the end of the four calls that change services
  abbrev pub change_services : ℕ → String → Services → Context → Disk Text → Changed Text
  change_services now id m c d =
      with_lock now (record c { bundle = update id (λ old. m) c.bundle }) d (save_pier_config id)

  unfoldable pub add_export_service : ℕ → Service → Context → Disk Text → Changed Text
  add_export_service now info c d =
      if not info.local
      then failed c d "Wrong kind of the service"
      else elim (find c.config.pier c.bundle) [
        | none ↦ failed c d "There is no such local pier"
        | some m ↦
            if contains info.name m
            then failed c d "Such service already exists"
            else change_services now c.config.pier (emplace info.name info m) c d
      ]

  unfoldable pub del_export_service : ℕ → String → Context → Disk Text → Changed Text
  del_export_service now name c d = elim (find c.config.pier c.bundle) [
    | none ↦ failed c d "There is no such local pier"
    | some m ↦
        if contains name m
        then change_services now c.config.pier (erase name m) c d
        else record { context = c; disk = d; result = ok tt }
  ]

  unfoldable pub add_import_service : ℕ → Service → Context → Disk Text → Changed Text
  add_import_service now info c d =
      if info.local
      then failed c d "Wrong kind of the service"
      else elim (find info.pier c.bundle) [
        | none ↦ failed c d "There is no such remote pier"
        | some m ↦
            if contains info.name m
            then failed c d "Such service already exists"
            else change_services now info.pier (emplace info.name info m) c d
      ]

  unfoldable pub del_import_service : ℕ → String → String → Context → Disk Text → Changed Text
  del_import_service now pier name c d = elim (find pier c.bundle) [
    | none ↦ failed c d "There is no such remote pier"
    | some m ↦
        if contains name m
        then change_services now pier (erase name m) c d
        else record { context = c; disk = d; result = ok tt }
  ]

  -- `add_pier`; the argument `refused` is what `save_x509_cert` throws, when it does
  unfoldable pub add_pier : ℕ → String → Option String → Context → Disk Text → Changed Text
  add_pier now pier refused c d = with_lock now c d (λ c d. elim (dir_of c.config.repo pier d) [
    | some dir ↦ failed c d "The pier already exists"
    | none ↦ elim refused [
      | some e ↦ failed c (set_dirs c.config.repo (emplace pier empty_dir) d) e
      | none ↦ record {
        context = record c { bundle = emplace pier [] c.bundle };
        disk = set_dirs c.config.repo (emplace pier (record empty_dir { cert = true })) d;
        result = ok tt;
      }
    ]
  ])

  unfoldable pub del_pier : ℕ → String → Context → Disk Text → Changed Text
  del_pier now pier c d =
      if pier == c.config.pier
      then failed c d "Can't delete local pier"
      else with_lock now c d (λ c d. record {
        context = record c { bundle = erase pier c.bundle };
        disk = record d { repos = update c.config.repo (erase pier) d.repos };
        result = ok tt;
      })
