-- ===== src/Ui/Buttons.antt =====
-- The buttons of src/ui/mainframe.cpp that add, change and remove a service. What the dialogs come to
-- is an argument. `key` is the address of a service, which is the data of its line in the list.
pub mod Refused
use webpier.Base.{
  ℕ, String, Bool, true, false, Option, none, some, List, [], ◌∷◌, ◌++◌, Result, ok, err, ◌<>◌,
  ◌&&◌, same, if◌then◌else◌,
}
use webpier.Ptree.{PropertyTree}
use webpier.Store.Types.{Service, Enums}
use webpier.Store.Context.{Disk, Context}
use webpier.Backend.Message.{Handle, Health}
use webpier.Ui.Services
use webpier.Ui.Services.{Form, Desk, is_dirty, revert, store, purge}
use webpier.Ui.Window.{Row, make_list_item}
use webpier.Ui.Upload
use webpier.Ui.Upload.{Item, Session, desk_of, with_desk, populate}

-- The session with what is shown: `m_exportBtn`, `m_status`, `m_serviceList` with the data of its
-- lines and of the selection, and the texts of the message dialogs.
pub record Frame (Text : Type 0) : Type 0 where
  pub session : Session Text
  pub exporting : Bool
  pub status : List Health
  pub rows : List (ℕ × Row)
  pub selected : Option ℕ
  pub messages : List String

unfoldable pub find_item : ℕ → List Item → Option Item
find_item key [] = none
find_item key (item ∷ items) =
    let found = find_item key items in if same item.key key then some item else found

-- the form of a service is changed, which a `ServiceList` only points to
unfoldable pub change_item : ℕ → Form → List Item → List Item
change_item key form [] = []
change_item key form (item ∷ items) =
    let rest = change_item key form items in
    if same item.key key then record item { form = form } ∷ rest else item ∷ rest

unfoldable pub erase_item : ℕ → List Item → List Item
erase_item key [] = []
erase_item key (item ∷ items) =
    let rest = erase_item key items in if same item.key key then rest else item ∷ rest

-- `DeleteItem` and `InsertItem` at the line of the selection
unfoldable pub change_row : ℕ → Row → List (ℕ × Row) → List (ℕ × Row)
change_row key row [] = []
change_row key row ((k, r) ∷ rows) =
    let rest = change_row key row rows in if same k key then (k, row) ∷ rest else (k, r) ∷ rest

unfoldable pub erase_row : ℕ → List (ℕ × Row) → List (ℕ × Row)
erase_row key [] = []
erase_row key ((k, r) ∷ rows) =
    let rest = erase_row key rows in if same k key then rest else (k, r) ∷ rest

module _ {Text : Type 0} where
  -- `m_exportBtn->GetValue() ? m_export : m_import`
  abbrev pub shown_items : Frame Text → List Item
  shown_items w = if w.exporting then w.session.exports else w.session.imports

  abbrev pub with_items : List Item → Frame Text → Frame Text
  with_items items w =
      if w.exporting
      then record w { session = record w.session { exports = items } }
      else record w { session = record w.session { imports = items } }

  -- `makeListItem`
  abbrev pub row_of : Service → Frame Text → Row
  row_of service w = make_list_item w.session.context.config.pier w.status service

  abbrev pub say : String → Frame Text → Frame Text
  say text w = record w { messages = w.messages ++ (text ∷ []) }

  -- `Populate`; the lines are those of the services
  unfoldable pub rows_of : Frame Text → List Item → List (ℕ × Row)
  rows_of w [] = []
  rows_of w (item ∷ items) = (item.key, row_of item.form.shown w) ∷ rows_of w items

  abbrev pub populate_frame : Frame Text → Frame Text
  populate_frame w =
      let filled : Frame Text = record w { session = populate w.session } in
      record filled { rows = rows_of filled (shown_items filled); selected = none }

module _ (lib : PropertyTree) (enums : Enums) where
  abbrev pub created : Bool → Form
  created exporting =
      if exporting
      then Services.create_export_service lib enums
      else Services.create_import_service lib enums

module _ (lib : PropertyTree) (enums : Enums) (cannot_open : String)
    (adjust : Handle → Result (Unit {0})) where
  open lib use {Text}

  -- `service->Store()` on a form of the session
  abbrev pub save : Form → Frame Text → Desk Text
  save form w = Upload.stored lib enums cannot_open adjust form w.session

  -- `onAddServiceButtonClick`, on the fields that the dialog is confirmed with; `Store` does not throw,
  -- so the `catch` is not reached
  unfoldable pub on_add : ℕ → Option Service → Frame Text → Frame Text
  on_add key none w = w
  on_add key (some entered) w =
      let d = save (record (created lib enums w.exporting) { shown = entered }) w in
      let stored : Frame Text = record w { session = with_desk d w.session } in
      let item : Item = record { key = key; form = d.form } in
      let listed = with_items (shown_items stored ++ (item ∷ [])) stored in
      record listed { rows = w.rows ++ ((key, row_of d.form.shown listed) ∷ []) }

  -- the `try` of `onEditServiceButtonClick`, when the service is there; the dialog leaves `entered` in
  -- the form, also when it is cancelled
  unfoldable pub edit_item : ℕ → Bool → Service → Form → Frame Text → Frame Text
  edit_item key confirmed entered form w =
      let edited : Form = record form { shown = entered } in
      let kept = with_items (change_item key edited (shown_items w)) w in
      if confirmed && is_dirty edited
      then (let d = save edited kept in
          let stored : Frame Text = record kept { session = with_desk d kept.session } in
          let changed = with_items (change_item key d.form (shown_items stored)) stored in
          record changed { rows = change_row key (row_of d.form.shown changed) w.rows })
      else kept

  -- `onEditServiceButtonClick`; only a service that is not found is thrown, and `Reload` comes after
  -- the message
  unfoldable pub on_edit :
      (Disk Text → Result Context) → Bool → Service → Frame Text → Frame Text × Result (Unit {0})
  on_edit reopen confirmed entered w = elim w.selected [
    | none ↦ (w, ok tt)
    | some key ↦ elim (find_item key (shown_items w)) [
      | some item ↦ (edit_item key confirmed entered item.form w, ok tt)
      | none ↦
          let told = say "Can't change the service. The service item is not found" w in
          elim (reopen w.session.disk) [
            | err e ↦ (told, err e)
            | ok c ↦
                (populate_frame (record told { session = record w.session { context = c } }), ok tt)
          ]
    ]
  ]

  -- `onDeleteServiceButtonClick`
  unfoldable pub on_delete : Bool → Frame Text → Frame Text
  on_delete confirmed w = elim w.selected [
    | none ↦ w
    | some key ↦ elim (find_item key (shown_items w)) [
      | none ↦ say "Can't remove the service. The service item is not found" w
      | some item ↦
          let r = purge lib enums cannot_open adjust w.session.now (desk_of item.form w.session) in
          let left : Frame Text = record w { session = with_desk r.desk w.session } in
          let dropped = with_items (erase_item key (shown_items w)) left in
          if confirmed
          then elim r.result [
            | err e ↦
                say ("Can't remove the service. " <> e)
                  (with_items (change_item key r.desk.form (shown_items w)) left)
            | ok done ↦ record dropped { rows = erase_row key w.rows; selected = none }
          ]
          else w
    ]
  ]
