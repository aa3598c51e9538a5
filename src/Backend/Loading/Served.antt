-- ===== src/Backend/Loading/Served.antt =====
-- What the store has saved is what the engine runs (src/store/context.cpp, src/backend/server.cpp).
use webpier.Base.{String, Option, none, some, [], Result, ok, ◌≡◌, refl, ap, sym, All, ◌>>=◌}
use webpier.Ptree.{PropertyTree}
use webpier.Map.{string_key, find}
use webpier.Store.Types.{Config, Service, Enums}
use webpier.Store.Services.{Services, load_named, nameless}
use webpier.Store.Services.Agreement.{IsEntry, load_named-of_services}
use webpier.Store.Context.{PierDir, Disk, dir_of}
use webpier.Store.Context.Saving.{IsFile, IsSaved}
use webpier.Backend.Message.{Handle}
use webpier.Backend.Engine.{load_one}
use webpier.Backend.Loading.{load_settings, load_service, read_file, home_of}

module _ (lib : PropertyTree) (enums : Enums) (cannot_open : String) where
  open lib use {Text, read}

  -- The service that a name finds, or a nameless one.
  abbrev pub chosen : String → Services → Service
  chosen k m = elim (find k m) [ none ↦ nameless lib enums | some s ↦ s ]

  chosen-nil : (k : String) → chosen k [] ≡ nameless lib enums
  unfolding find
  chosen-nil k = refl

  load_from :
      (file : Option Text) (k : String) (m : Services)
      → All IsEntry m
      → IsFile lib enums cannot_open m file
      → elim file as (λ x. Result Service) [
        | none ↦ ok (nameless lib enums)
        | some x ↦ do doc ← read_file lib enums cannot_open (some x); load_named lib enums k doc
      ]
        ≡ ok (chosen k m)
  load_from none k m h e = rw e (ap ok (sym (chosen-nil k)))
  load_from (some x) k m h e = rw e (load_named-of_services lib enums k m h)

  load_found :
      (o : Option (PierDir Text)) (k : String) (m : Services)
      → All IsEntry m
      → IsSaved lib enums cannot_open m o
      → elim o as (λ x. Result Service) [
        | none ↦ ok (nameless lib enums)
        | some dir ↦ elim dir.file as (λ x. Result Service) [
          | none ↦ ok (nameless lib enums)
          | some x ↦ do doc ← read_file lib enums cannot_open (some x); load_named lib enums k doc
        ]
      ]
        ≡ ok (chosen k m)
  load_found none k m h e = rw e (ap ok (sym (chosen-nil k)))
  load_found (some dir) k m h e = load_from dir.file k m h e

  load_service-saved :
      (repo : String) (id : Handle) (d : Disk Text) (m : Services)
      → All IsEntry m
      → IsSaved lib enums cannot_open m (dir_of repo id.pier d)
      → load_service lib enums cannot_open repo id d ≡ ok (chosen id.service m)
  unfolding load_service
  load_service-saved repo id d m h e = load_found (dir_of repo id.pier d) id.service m h e

  -- The engine, before a command on one service, loads the settings of the store and the service
  -- that was saved under its name for the pier, or a nameless one. The lock is free, the settings
  -- load, the directory of the pier holds the services, and each of these stands under its own name,
  -- with enumerators that are values of an `int`.
  pub load_one-home_of :
      (id : Handle) (d : Disk Text) (m : Services) (conf : Config)
      → load_settings lib enums cannot_open d ≡ ok conf
      → All IsEntry m
      → IsSaved lib enums cannot_open m (dir_of conf.repo id.pier d)
      → load_one (home_of lib enums cannot_open (ok tt) d) id ≡ ok (conf, chosen id.service m)
  unfolding load_one home_of
  load_one-home_of id d m conf c h e = rw (c, load_service-saved conf.repo id d m h e) refl
