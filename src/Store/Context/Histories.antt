-- ===== src/Store/Context/Histories.antt =====
-- The calls of `context_impl` in any order, between two openings.
use webpier.Base.{ℕ, String, Option, List, [], ◌∷◌, ok}
use webpier.Ptree.{PropertyTree}
use webpier.Store.Types.{Config, Service, Enums}
use webpier.Store.Context.Opening.{set_config}
use webpier.Store.Context.{
  Disk, Context, Changed, add_export_service, del_export_service, add_import_service,
  del_import_service, add_pier, del_pier,
}
use webpier.Store.Context.Placing.{
  ArePlaced, add_export-ArePlaced, add_import-ArePlaced, del_export-ArePlaced, del_import-ArePlaced,
  add_pier-ArePlaced, del_pier-ArePlaced, set_config-ArePlaced,
}

module _ (lib : PropertyTree) (enums : Enums) (cannot_open : String) where
  open lib use {Text}

  -- the calls that change a context, and another process that writes the files in between
  pub data Call : Type 0 where
    adds_export adds_import : ℕ → Service → Call
    dels_export : ℕ → String → Call
    dels_import : ℕ → String → String → Call
    adds_pier : ℕ → String → Option String → Call
    dels_pier : ℕ → String → Call
    sets_config : ℕ → Config → Call
    others_write : Disk Text → Call

  -- What a call leaves, also when it throws. The settings that are stored keep the pier: another one
  -- is like another opening, since it loads the services anew.
  abbrev pub run : Call → Context → Disk Text → Changed Text
  run (adds_export now info) c d = add_export_service lib enums cannot_open now info c d
  run (adds_import now info) c d = add_import_service lib enums cannot_open now info c d
  run (dels_export now name) c d = del_export_service lib enums cannot_open now name c d
  run (dels_import now pier name) c d = del_import_service lib enums cannot_open now pier name c d
  run (adds_pier now pier refused) c d = add_pier lib enums cannot_open now pier refused c d
  run (dels_pier now pier) c d = del_pier lib enums cannot_open now pier c d
  run (sets_config now info) c d =
      set_config lib enums cannot_open now (record info { pier = c.config.pier }) c d
  run (others_write other) c d = record { context = c; disk = other; result = ok tt }

  abbrev pub run_all : List Call → Context → Disk Text → Context
  run_all [] c d = c
  run_all (call ∷ calls) c d = let r = run call c d in run_all calls r.context r.disk

  run-ArePlaced :
      (call : Call) (c : Context) (d : Disk Text) → ArePlaced c → ArePlaced (run call c d).context
  run-ArePlaced (adds_export now info) c d old =
      add_export-ArePlaced lib enums cannot_open now info c d old
  run-ArePlaced (adds_import now info) c d old =
      add_import-ArePlaced lib enums cannot_open now info c d old
  run-ArePlaced (dels_export now name) c d old =
      del_export-ArePlaced lib enums cannot_open now name c d old
  run-ArePlaced (dels_import now pier name) c d old =
      del_import-ArePlaced lib enums cannot_open now pier name c d old
  run-ArePlaced (adds_pier now pier refused) c d old =
      add_pier-ArePlaced lib enums cannot_open now pier refused c d old
  run-ArePlaced (dels_pier now pier) c d old =
      del_pier-ArePlaced lib enums cannot_open now pier c d old
  run-ArePlaced (sets_config now info) c d old =
      set_config-ArePlaced lib enums cannot_open now info c d old
  run-ArePlaced (others_write other) c d old = old

  -- Whatever services and piers are added and deleted, and whatever settings are stored for the same
  -- pier, in whatever order, also by calls that throw, and whatever other processes write in
  -- between: a service that is found under a pier and a name has that name, one to export is under
  -- the own pier, and an import under the pier that it names, if this was so at first.
  pub run_all-ArePlaced :
      (calls : List Call) (c : Context) (d : Disk Text)
      → ArePlaced c
      → ArePlaced (run_all calls c d)
  run_all-ArePlaced [] c d old = old
  run_all-ArePlaced (call ∷ calls) c d old =
      let r = run call c d in run_all-ArePlaced calls r.context r.disk (run-ArePlaced call c d old)
