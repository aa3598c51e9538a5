-- ===== src/Ui/Tray.antt =====
-- The menu of the icon in the task bar, in src/ui/main.cpp. `B` is the state of the backend.
pub mod Clicks
use webpier.Base.{
  ℕ, String, ◌<>◌, Bool, true, false, List, [], ◌∷◌, ◌++◌, Result, ok, err, ◌==◌, not,
  if◌then◌else◌,
}
use webpier.Backend.Message.{
  Handle, Status, asleep, Health, Command, unplug, engage, int_eq, of_status,
}
use webpier.Ui.Window.{Window, Notice}
use webpier.Ui.Window.States.{title, complain, refresh_all}
use webpier.Ui.Window.Actions.{Backend, command}

-- a `wxMenuItem` of the menus of services, with what it is bound to
pub record Check : Type 0 where
  pub label : String
  pub is_checked : Bool
  pub id : Handle
  pub action : Command
  pub what : String

-- the menus of services, and whether "&Unplug" is enabled
pub record Popup : Type 0 where
  pub imports : List Check
  pub exports : List Check
  pub can_unplug : Bool
  pub told : List Notice

-- the two branches of the loop
unfoldable pub check_of : Health → Check
check_of item =
    let name = title item.handle in
    if int_eq (of_status item.state) (of_status asleep)
    then record {
      label = name;
      is_checked = false;
      id = item.handle;
      action = engage;
      what = "Can't start " <> name <> " service. ";
    }
    else record {
      label = name;
      is_checked = true;
      id = item.handle;
      action = unplug;
      what = "Can't stop " <> name <> " service. ";
    }

-- the loop over the states
unfoldable pub add_checks : String → List Health → Popup
add_checks pier [] = record { imports = []; exports = []; can_unplug = false; told = [] }
add_checks pier (item ∷ items) =
    let rest = add_checks pier items in
    let check = check_of item in
    let can_unplug = if check.is_checked then true else rest.can_unplug in
    if item.handle.pier == pier
    then record rest { exports = check ∷ rest.exports; can_unplug = can_unplug }
    else record rest { imports = check ∷ rest.imports; can_unplug = can_unplug }

-- `CreatePopupMenu`, on what `Backend::Status()` answers
unfoldable pub popup_menu : String → Result (List Health) → Popup
popup_menu pier (ok status) = add_checks pier status
popup_menu pier (err what) = record (add_checks pier []) {
  told = complain "Can't popup menu. " what ∷ [];
}

-- the calls for all services
pub record WholeBackend (B : Type 0) : Type 0 where
  pub tell_all : Command → B → B × Result (Unit {0})
  pub ask_all : B → Result (List Health)

-- a click on a service
unfoldable pub on_check : {B : Type 0} → Backend B → Check → Window → B → Window × B
on_check backend check w b = command backend check.what check.action check.id w b

module _ {B : Type 0} (backend : WholeBackend B) where
  -- a click on "&Unplug" or "&Reboot"
  unfoldable pub command_all : String → Command → Window → B → Window × B
  command_all what action w b =
      let answer = backend.tell_all action b in
      let told : List Notice = elim answer.1 [ err e ↦ complain what e ∷ [] | ok done ↦ [] ] in
      (refresh_all (backend.ask_all answer.0) (record w { notices = w.notices ++ told }), answer.0)

  unfoldable pub on_unplug : Window → B → Window × B
  on_unplug = command_all "Can't unplug the pier. " unplug

  unfoldable pub on_reboot : Window → B → Window × B
  on_reboot = command_all "Can't reboot the pier. " engage
