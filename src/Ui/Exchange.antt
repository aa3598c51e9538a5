-- ===== src/Ui/Exchange.antt =====
-- `CExchangeDialog` of src/ui/exchangedialog.cpp, in which the services of an offer are chosen, with its
-- two pages. The widgets are fields; the data of a line is the service that it shows.
pub mod Moves
pub mod Complete
pub mod Merged
use webpier.Base.{
  ℕ, String, Bool, true, false, Option, none, some, List, [], ◌∷◌, map, pos, ℤ, is_empty, not, ◌&&◌,
  ◌||◌, if◌then◌else◌,
}
use webpier.Slots.{get_elem?, set}
use webpier.Store.Types.{Service, Enums}
use webpier.Backend.Message.{int_eq}
use webpier.Ui.Services.{Form}
use webpier.Ptree.{PropertyTree}
use webpier.Ui.Offer.{write_offer}
use webpier.Ui.Upload.{Item, Choice}
use webpier.Ui.Window.{protocol_text, routing_text, bool_text}

-- a line of the `wxCheckListBox`
pub record Line : Type 0 where
  pub item : Item
  pub is_checked : Bool

-- what `populate` writes to the labels
pub record Labels : Type 0 where
  pub name : String
  pub gateway : String
  pub proto : String
  pub schema : String
  pub route : String
  pub obscure : String
  pub rendezvous : String

-- `CImportPage`, with the two widgets that can be edited
pub record ImportPage : Type 0 where
  pub lines : List Line
  pub selection : Option ℕ
  pub labels : Option Labels
  pub address : String
  pub autostart : Bool

-- `CExportPage`
pub record ExportPage : Type 0 where
  pub lines : List Line
  pub labels : Option (Labels × String × String)

-- `m_reply` is the answer to the offer, `m_purge` what becomes of the services that are there.
pub record Dialog : Type 0 where
  pub import_page : ImportPage
  pub export_page : ExportPage
  pub at_exports : Bool
  pub can_go_back : Bool
  pub purge : Bool
  pub reply : Bool
  pub is_confirmed : Bool

-- `ToString` of a `Schema`
abbrev pub schema_text : ℤ → String
schema_text role =
    if int_eq role (pos 1)
    then "Client"
    else if int_eq role (pos 2)
    then "Server"
    else if int_eq role (pos 3)
    then "Mutual"
    else "Auto"

-- what both pages show of a service
unfoldable pub labels_of : Service → Labels
labels_of s = record {
  name = s.name;
  gateway = s.gateway;
  proto = protocol_text s.proto;
  schema = schema_text s.role;
  route = routing_text s.route;
  obscure = if int_eq s.proto (pos 3) then "-" else bool_text s.obscure;
  rendezvous = if is_empty s.rendezvous then "Email" else "DHT";
}

-- `populate`; a selection is always a line
unfoldable pub populate_import : Option ℕ → ImportPage → ImportPage
populate_import none page = page
populate_import (some i) page = elim (get_elem? page.lines i) [
  | none ↦ page
  | some line ↦
      let s = line.item.form.shown in
      record page { labels = some (labels_of s); address = s.address; autostart = s.autostart }
]

unfoldable pub populate_export : Option ℕ → ExportPage → ExportPage
populate_export none page = page
populate_export (some i) page = elim (get_elem? page.lines i) [
  | none ↦ page
  | some line ↦
      let s = line.item.form.shown in
      record page { labels = some (labels_of s, s.address, bool_text s.autostart) }
]

-- The constructors of the pages. No import is checked, and of the exports those that the pier has: what
-- `HasPier` says of a service is an argument, `has_pier` of Ui/Services.
abbrev pub unchecked : Item → Line
unchecked item = record { item = item; is_checked = false }

unfoldable pub import_page_of : List Item → ImportPage
import_page_of items =
    let lines = map unchecked items in
    let page : ImportPage = record {
      lines = lines;
      selection = none;
      labels = none;
      address = "";
      autostart = false;
    } in
    elim lines [
      | [] ↦ page
      | line ∷ rest ↦ populate_import (some 0) (record page { selection = some 0 })
    ]

abbrev pub by_pier : (Service → Bool) → Item → Line
by_pier has_pier item = record { item = item; is_checked = has_pier item.form.shown }

unfoldable pub export_page_of : (Service → Bool) → List Item → ExportPage
export_page_of has_pier items =
    let page : ExportPage = record { lines = map (by_pier has_pier) items; labels = none } in
    populate_export (some 0) page

-- the user's clicks on the lists, and `onListItemSelected`
unfoldable pub select_import : ℕ → ImportPage → ImportPage
select_import i page = populate_import (some i) (record page { selection = some i })

abbrev pub toggle_line : Line → Line
toggle_line line = record line { is_checked = not line.is_checked }

unfoldable pub toggle_at : ℕ → List Line → List Line
toggle_at i lines = elim (get_elem? lines i) [
  | none ↦ lines
  | some line ↦ set lines i (toggle_line line)
]

-- `m_import[line]->...`
unfoldable pub edit_at : ℕ → (Service → Service) → List Line → List Line
edit_at i edit lines = elim (get_elem? lines i) [
  | none ↦ lines
  | some line ↦
      let form = line.item.form in
      set lines i
        (record line { item = record line.item { form = record form { shown = edit form.shown } } })
]

-- the selected line, or the first one
abbrev pub or_first : Option ℕ → ℕ
or_first none = 0
or_first (some i) = i

abbrev pub no_lines : List Line → Bool
no_lines [] = true
no_lines (line ∷ lines) = false

-- the line that the two handlers edit, which is selected if none was; without lines they return
unfoldable pub edit_selected : (Service → Service) → ImportPage → ImportPage
edit_selected edit page =
    let i = or_first page.selection in
    record page {
      selection = if no_lines page.lines then page.selection else some i;
      lines = edit_at i edit page.lines;
    }

-- `onServiceCtrlKillFocus`, after the text was typed
unfoldable pub on_kill_focus : String → ImportPage → ImportPage
on_kill_focus text page =
    edit_selected (λ s. record s { address = text }) (record page { address = text })

-- `onAutostartCheckBox`
unfoldable pub on_autostart : Bool → ImportPage → ImportPage
on_autostart value page =
    edit_selected (λ s. record s { autostart = value }) (record page { autostart = value })

-- `ValidateData`
unfoldable pub validate_data : List Line → Bool
validate_data [] = true
validate_data (line ∷ lines) =
    (not line.is_checked || not (is_empty line.item.form.shown.address)) && validate_data lines

-- `GetImport` and `GetExport`
unfoldable pub checked_items : List Line → List Item
checked_items [] = []
checked_items (line ∷ lines) =
    if line.is_checked then line.item ∷ checked_items lines else checked_items lines

-- the two constructors of the dialog; the second is that of `OnExportMenuSelection`
unfoldable pub upload_dialog : (has_pier : Service → Bool) → List Item → List Item → Dialog
upload_dialog has_pier for_import for_export = record {
  import_page = import_page_of for_import;
  export_page = export_page_of has_pier for_export;
  at_exports = false;
  can_go_back = false;
  purge = false;
  reply = true;
  is_confirmed = false;
}

unfoldable pub offer_dialog : (has_pier : Service → Bool) → List Item → Dialog
offer_dialog has_pier for_export = record (upload_dialog has_pier [] for_export) {
  at_exports = true;
}

-- `onBackButtonClick`
unfoldable pub on_back : Dialog → Dialog
on_back d = record d { can_go_back = false; at_exports = false }

-- `onNextButtonClick`
unfoldable pub on_next : Dialog → Dialog
on_next d =
    if d.at_exports
    then record d { is_confirmed = true }
    else if validate_data d.import_page.lines
    then record d { at_exports = true; can_go_back = true }
    else d

-- what `OnImportMenuSelection` reads from the dialog
unfoldable pub choice_of : Dialog → Choice
choice_of d = record {
  exports = map (λ (item : Item). item.key) (checked_items d.export_page.lines);
  imports = checked_items d.import_page.lines;
  merge = not d.purge;
}

-- The services that are written to the offer of `OnExportMenuSelection`, and of `OnImportMenuSelection` as the
-- answer; the document is that of `WriteOffer`, unless the program ends.
unfoldable pub export_offer :
    (lib : PropertyTree) (enums : Enums) (udp6 tcp6 : String → Option Bool)
    (pier certificate : String)
    → Dialog
    → Option (lib.Tree)
export_offer lib enums udp6 tcp6 pier certificate d =
    write_offer lib enums udp6 tcp6 pier certificate
      (map (λ (item : Item). item.form) (checked_items d.export_page.lines))
