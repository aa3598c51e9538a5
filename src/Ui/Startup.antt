-- ===== src/Ui/Startup.antt =====
-- How the user interface starts: `CWebPierApp` of src/ui/main.cpp, and `Init` and `InitContext` of
-- src/ui/context.cpp. The processes, the sockets and the dialog of the first start are arguments.
pub mod Again
use webpier.Base.{
  ℕ, String, ◌<>◌, Bool, true, false, Option, none, some, List, [], ◌∷◌, Result, ok, err, ◌>>=◌,
  ◌>>◌, is_empty, not, ◌&&◌, if◌then◌else◌,
}
use webpier.Ptree.{PropertyTree}
use webpier.Store.Types.{Config, Enums}
use webpier.Store.Context.{Disk, Context, Changed}
use webpier.Store.Context.Opening.{open_context, set_config}
use webpier.Store.Utils.{make_text_hash}
use webpier.Ui.Settings.{code_points}

-- What starting finds: whether the paths of the program are right and the directory is there or can be made,
-- the identity that the dialog was given, if it was, and what starting the backend's
-- process comes to: whether it runs then, or what `bp::child` throws. `connect_backend` returns in any case.
pub record World : Type 0 where
  pub is_module : Bool
  pub has_home : Bool
  pub makes_home : Bool
  pub identity : Option String
  pub starts : Result Bool

-- `OnCmdLineParsed`
unfoldable pub home_of_args : (env : Option String) (data_dir : String) → List String → String
home_of_args none data_dir [] = data_dir
home_of_args (some home) data_dir [] = home
home_of_args env data_dir (param ∷ params) = param

-- the settings of the first start
unfoldable pub first_config : String → Option String → Config → Config
first_config home none c = c
first_config home (some identity) c = record c {
  pier = identity;
  repo = home <> ("/" <> make_text_hash (code_points identity));
  log = record c.log { folder = home <> "/journal" };
}

module _ (lib : PropertyTree) (enums : Enums) (cannot_open : String) where
  open lib use {Text}

  -- the part of `InitContext` for a context without a pier
  unfoldable pub enter_pier : ℕ → String → Option String → Context → Disk Text → Changed Text
  enter_pier now home identity c d =
      let config = first_config home identity c.config in
      if not (is_empty c.config.pier)
      then record { context = c; disk = d; result = ok tt }
      else if is_empty config.pier
      then record { context = c; disk = d; result = err "No pier identity" }
      else set_config lib enums cannot_open now config c d

  -- `InitContext`: the context, unless it throws, and the disk
  unfoldable pub init_context : ℕ → String → Config → World → Disk Text → Result Context × Disk Text
  init_context now home blank world d = elim (open_context lib enums cannot_open blank d) [
    | err e ↦ (err e, d)
    | ok c ↦
        let r = enter_pier now home world.identity c d in
        (
          (do
            r.result
            is_running ← world.starts
            if is_running then ok tt else err "Can't start backend"
            ok r.context),
          r.disk,
        )
  ]

  -- `Init`, which shows what is thrown
  unfoldable pub init : ℕ → String → Config → World → Disk Text → Result Context × Disk Text
  init now home blank world d =
      if not world.is_module
      then (err "Wrong module path", d)
      else if not world.has_home && not world.makes_home
      then (err "Can't make home dir", d)
      else init_context now home blank world d

-- What `OnInit` comes to: another instance is there, which is raised unless this one starts in the
-- tray; or this one runs, shown or not; or it ends. `parses` is whether the arguments are read.
pub data Started : Type 0 where
  other_instance : (is_raised : Bool) → Started
  runs : (is_shown : Bool) → Context → Started
  ends : Started

unfoldable pub on_init : (parses tray has_instance makes_server : Bool) → Result Context → Started
on_init parses tray has_instance makes_server started =
    if not parses
    then ends
    else if has_instance
    then other_instance (not tray)
    else if makes_server
    then (elim started [ err e ↦ ends | ok c ↦ runs (not tray) c ])
    else ends
