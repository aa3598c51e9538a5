-- ===== src/Ui/Settings/Menu.antt =====
-- `CMainFrame::OnSettingsMenuSelection` of src/ui/mainframe.cpp: the window with the form of its settings.
pub mod Moved
use webpier.Base.{
  ℕ, String, ◌<>◌, Bool, true, false, Option, none, some, List, [], ◌∷◌, ◌++◌, Result, ok, err,
  ◌==◌, if◌then◌else◌,
}
use webpier.Ptree.{PropertyTree}
use webpier.Store.Types.{Config, Enums}
use webpier.Store.Context.{Disk, Context}
use webpier.Store.Context.Opening.{open_context}
use webpier.Backend.Message.{Command}
use webpier.Ui.Settings.{ConfigDesk, Configured, without_network, store_config}
use webpier.Ui.Upload.{Session}
use webpier.Ui.Buttons.{Frame, populate_frame, say}

-- The window, the settings of `m_config` as they are shown and were taken, the text of `m_pierLabel`,
-- and the commands that the backend was given.
pub record Shell (Text : Type 0) : Type 0 where
  pub frame : Frame Text
  pub shown : Config
  pub origin : Config
  pub label : String
  pub commands : List Command

module _ {Text : Type 0} where
  abbrev pub in_session : Context → Disk Text → Frame Text → Frame Text
  in_session c d w = record w { session = record w.session { context = c; disk = d } }

  -- `m_config` with what it works on, when the dialog has left `shown` in it
  abbrev pub config_desk : Config → Shell Text → ConfigDesk Text
  config_desk shown s = record {
    shown = shown;
    origin = s.origin;
    context = s.frame.session.context;
    disk = s.frame.session.disk;
    commands = s.commands;
  }

  abbrev pub with_config_desk : ConfigDesk Text → Shell Text → Shell Text
  with_config_desk d s = record s {
    frame = in_session d.context d.disk s.frame;
    shown = d.shown;
    origin = d.origin;
    commands = d.commands;
  }

  -- `Populate`
  abbrev pub populate_shell : Shell Text → Shell Text
  populate_shell s =
      let config = s.frame.session.context.config in
      record s {
        frame = populate_frame s.frame;
        shown = without_network config;
        origin = config;
        label = config.pier;
      }

module _ (lib : PropertyTree) (enums : Enums) (cannot_open : String) (parent_path : String → String)
    (give : Command → Result (Unit {0})) where
  open lib use {Text}

  -- What is thrown by `Reload` leaves the handler. The dialog is cancelled, or leaves its settings.
  unfoldable pub on_settings :
      ℕ → Config → Option Config → Shell Text → Shell Text × Result (Unit {0})
  on_settings now blank none s = (s, ok tt)
  on_settings now blank (some shown) s =
      let r = store_config lib enums cannot_open parent_path give now (config_desk shown s) in
      let after = with_config_desk r.desk s in
      elim r.result [
        | ok done ↦ (if shown.pier == s.label then after else populate_shell after, ok tt)
        | err e ↦
            let told : Shell Text = record after {
              frame = say ("Can't setup the settings. " <> e) after.frame;
            } in
            elim (open_context lib enums cannot_open blank told.frame.session.disk) [
              | err f ↦ (told, err f)
              | ok c ↦ (
                populate_shell
                    (record told { frame = in_session c told.frame.session.disk told.frame }),
                ok tt,
              )
            ]
      ]
