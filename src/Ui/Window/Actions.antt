-- ===== src/Ui/Window/Actions.antt =====
-- The calls of the backend from the list of src/ui/mainframe.cpp. `B` is the state of the backend.
use webpier.Base.{
  String, Bool, false, Option, none, some, List, [], ◌∷◌, ◌++◌, map, Result, ok, err, not,
  if◌then◌else◌,
}
use webpier.Backend.Message.{
  Handle, asleep, burden, Health, Tunnel, Report, Command, unplug, engage, int_eq, of_status,
}
use webpier.Ui.Window.{Row, Bar, Notice, Window, is_for}
use webpier.Ui.Window.States.{bar_of, complain, row_handle, refresh_one}

-- `active` in `onServiceItemCellActivated`: the first state that is found is not `Asleep`
unfoldable pub is_active : Handle → List Health → Bool
is_active id [] = false
is_active id (item ∷ rest) =
    let found = is_active id rest in
    if is_for id.pier id.service item
    then not (int_eq (of_status item.state) (of_status asleep))
    else found

-- A backend: its calls, which may throw, and what it is asked.
pub record Backend (B : Type 0) : Type 0 where
  pub tell : Command → Handle → B → B × Result (Unit {0})
  pub ask : Handle → B → Result Health

module _ {B : Type 0} (backend : Backend B) where
  open backend use {tell, ask}

  -- a call for a service, and the notification when it throws
  unfoldable pub command : String → Command → Handle → Window → B → Window × B
  command what action id w b =
      let answer = tell action id b in
      let told : List Notice = elim answer.1 [ err e ↦ complain what e ∷ [] | ok done ↦ [] ] in
      (refresh_one (ask id answer.0) id (record w { notices = w.notices ++ told }), answer.0)

  -- `onServiceItemCellActivated` on the first column of a row
  unfoldable pub toggle : Row → Window → B → Window × B
  toggle row w b =
      let id = row_handle w row in
      command "Can't change state of the service. "
        (if is_active id w.status then unplug else engage) id w b

-- `onServiceItemSelectionChanged`, on the row that is selected, if any
unfoldable pub show_bar : Handle → List Health → Bar → Bar
show_bar id [] bar = bar
show_bar id (item ∷ rest) bar =
    let found = show_bar id rest bar in
    if is_for id.pier id.service item then bar_of item else found

unfoldable pub select_row : Option Row → Window → Window
select_row none w = record w { bar = record { state = ""; message = "" } }
select_row (some row) w = record w { bar = show_bar (row_handle w row) w.status w.bar }

-- The entries of the menu of `onServiceItemContextMenu`: the one that calls the backend, and the
-- texts under "&Tunnels", if there is such an entry.
pub record Menu : Type 0 where
  pub label : String
  pub action : Command
  pub what : String
  pub tunnels : Option (List String)

-- on what `Backend::Review` answers; `format` writes a tunnel with `%s %d`
unfoldable pub context_menu : (Tunnel → String) → Bool → Report → Menu
context_menu format exporting info =
    if int_eq (of_status info.health.state) (of_status asleep)
    then record {
      label = if exporting then "&Export" else "&Import";
      action = engage;
      what = "Can't start the service. ";
      tunnels = none;
    }
    else record {
      label = "&Unplug";
      action = unplug;
      what = "Can't stop the service. ";
      tunnels =
          if int_eq (of_status info.health.state) (of_status burden)
          then some (map format info.tunnels)
          else elim info.tunnels [ [] ↦ none | t ∷ ts ↦ some (map format info.tunnels) ];
    }
