-- ===== src/Ui/Window/States.antt =====
-- The states that the main window of src/ui/mainframe.cpp shows, and its notifications.
use webpier.Base.{
  ℕ, suc, String, ◌<>◌, Bool, true, false, Option, none, some, List, [], ◌∷◌, ◌++◌, Result, ok, err,
  ◌==◌, ◌&&◌, same, if◌then◌else◌,
}
use webpier.Backend.Message.{Handle, asleep, broken, burden, Health, int_eq, of_status}
use webpier.Ui.Window.{
  status_bitmap, status_text, Row, Bar, Notice, Window, is_for, find_status, find_service,
}

abbrev pub title : Handle → String
title id = id.pier <> ":" <> id.service

-- `notify`
unfoldable pub notify : Window → Health → Health → List Notice
notify w curr next =
    if int_eq (of_status curr.state) (of_status next.state) then [] else elim next.state [
      | broken ↦
          record {
            is_error = true;
            text = "Service " <> title next.handle <> " failed with error: " <> next.message;
          }
          ∷ []
      | burden ↦ elim (find_service next.handle w) [
        | none ↦
            record { is_error = true; text = "Can't find " <> title next.handle <> " service" } ∷ []
        | some service ↦
            record {
              is_error = false;
              text =
                  "Service "
                  <> title next.handle
                  <> " started "
                  <> (if service.local then "exporting from " else "importing to ")
                  <> service.address;
            }
            ∷ []
      ]
      | _ ↦ []
    ]

abbrev pub bar_of : Health → Bar
bar_of health = record { state = status_text health.state; message = health.message }

abbrev pub lost : Handle → Health
lost id = record { handle = id; state = broken; message = "" }

abbrev pub complain : String → String → Notice
complain what why = record { is_error = true; text = what <> why }

-- the handle of a row
abbrev pub row_handle : Window → Row → Handle
row_handle w row = record { pier = if w.exporting then w.own else row.pier; service = row.name }

abbrev pub is_current : Option ℕ → ℕ → Bool
is_current none i = false
is_current (some n) i = same n i

-- What a loop over the rows leaves.
pub record Shown : Type 0 where
  pub rows : List Row
  pub bar : Bar

-- the loop over `m_status` of `RefreshStatus()`, after the answer took its place
unfoldable pub notify_all : Window → List Health → List Health → List Notice
notify_all w current [] = []
notify_all w current (status ∷ rest) =
    let before : Health = record { handle = status.handle; state = asleep; message = "" } in
    notify w (find_status before current) status ++ notify_all w current rest

-- its loop over the rows, from row `i` on
unfoldable pub show_all : Window → List Health → ℕ → List Row → Bar → Shown
show_all w status i [] bar = record { rows = []; bar = bar }
show_all w status i (row ∷ rows) bar =
    let health = find_status (lost (row_handle w row)) status in
    let shown =
      show_all w status (suc i) rows (if is_current w.selected i then bar_of health else bar) in
    record shown { rows = record row { icon = status_bitmap health.state } ∷ shown.rows }

-- `RefreshStatus()`, on what `Backend::Status()` answers
unfoldable pub refresh_all : Result (List Health) → Window → Window
refresh_all answer w =
    let status : List Health = elim answer [ err e ↦ [] | ok next ↦ next ] in
    let told : List Notice = elim answer [
      | err e ↦ complain "Can't refresh the status. " e ∷ []
      | ok next ↦ notify_all w w.status next
    ] in
    let shown = show_all w status 0 w.rows w.bar in
    record w { status = status; notices = w.notices ++ told; rows = shown.rows; bar = shown.bar }

-- What the loop over `m_status` of `RefreshStatus(handle)` leaves.
pub record Put : Type 0 where
  pub status : List Health
  pub told : List Notice

unfoldable pub put_status : Window → Health → Handle → List Health → Put
put_status w health id [] = record { status = []; told = [] }
put_status w health id (status ∷ rest) =
    let put = put_status w health id rest in
    if is_for id.pier id.service status
    then record { status = health ∷ rest; told = notify w status health }
    else record put { status = status ∷ put.status }

-- its loop over the rows, which ends at the first that is the handle's
unfoldable pub show_one : Window → Health → Handle → ℕ → List Row → Bar → Shown
show_one w health id i [] bar = record { rows = []; bar = bar }
show_one w health id i (row ∷ rows) bar =
    let shown = show_one w health id (suc i) rows bar in
    let own = row_handle w row in
    if (id.service == own.service) && (id.pier == own.pier)
    then record {
      rows = record row { icon = status_bitmap health.state } ∷ rows;
      bar = if is_current w.selected i then bar_of health else bar;
    }
    else record shown { rows = row ∷ shown.rows }

-- `RefreshStatus(handle)`, on what `Backend::Status(handle)` answers
unfoldable pub refresh_one : Result Health → Handle → Window → Window
refresh_one answer id w =
    let health : Health = elim answer [ err e ↦ lost id | ok health ↦ health ] in
    let told : List Notice = elim answer [
      | err e ↦ complain "Can't get the pier status. " e ∷ []
      | ok health ↦ []
    ] in
    let put = put_status w health id w.status in
    let shown = show_one w health id 0 w.rows w.bar in
    record w {
      status = put.status;
      notices = w.notices ++ (told ++ put.told);
      rows = shown.rows;
      bar = shown.bar;
    }
