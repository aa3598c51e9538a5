-- ===== src/Ui/Window.antt =====
-- The main window of src/ui/mainframe.cpp with the texts of src/ui/context.cpp: the list of services. The widgets are fields that the code sets and reads, the
-- translated texts are the English ones.
pub mod States
pub mod Actions
pub mod Refresh
pub mod Quiet
pub mod Toggle
use webpier.Base.{
  ℕ, suc, ℤ, pos, String, ◌<>◌, Bool, true, false, Option, none, some, List, [], ◌∷◌, ◌++◌, map,
  Result, ok, err, ◌==◌, ◌&&◌, not, same, is_empty, if◌then◌else◌,
}
use webpier.Store.Types.{Service}
use webpier.Store.Context.{Context, get_export_services, get_import_services}
use webpier.Backend.Message.{
  Handle, Status, asleep, broken, lonely, burden, other, Health, Tunnel, Report, Command, unplug,
  engage, int_eq, of_status,
}
use webpier.Ui.Services.{Form, form_of}

-- `::GetBlankBoxImage` and the others
pub data Image : Type 0 where
  blank red blue green : Image

-- `GetStatusBitmap`
abbrev pub status_bitmap : Status → Image
status_bitmap asleep = blank
status_bitmap broken = red
status_bitmap lonely = blue
status_bitmap _ = green

-- the overloads of `ToString`
abbrev pub status_text : Status → String
status_text asleep = "Asleep"
status_text broken = "Broken"
status_text lonely = "Lonely"
status_text _ = "Burden"

abbrev pub protocol_text : ℤ → String
protocol_text proto =
    if int_eq proto (pos 1)
    then "UDP"
    else if int_eq proto (pos 2)
    then "TCP"
    else if int_eq proto (pos 3)
    then "SSL"
    else "Auto"

abbrev pub routing_text : ℤ → String
routing_text route =
    if int_eq route (pos 0) then "Direct" else if int_eq route (pos 1) then "Bridge" else "Either"

abbrev pub bool_text : Bool → String
bool_text value = if value then "Yes" else "No"

-- a line of `m_serviceList`
pub record Row : Type 0 where
  pub icon : Image
  pub name : String
  pub pier : String
  pub address : String
  pub rendezvous : String
  pub tunnel : String
  pub route : String
  pub autostart : String

-- `m_statusBar`
pub record Bar : Type 0 where
  pub state : String
  pub message : String

-- a `wxNotificationMessage`
pub record Notice : Type 0 where
  pub is_error : Bool
  pub text : String

-- `own` is `Context::Pier()`, `exporting` is `m_exportBtn`.
pub record Window : Type 0 where
  pub own : String
  pub exporting : Bool
  pub exports : List Form
  pub imports : List Form
  pub status : List Health
  pub rows : List Row
  pub selected : Option ℕ
  pub bar : Bar
  pub notices : List Notice

abbrev pub is_for : String → String → Health → Bool
is_for pier service item = (item.handle.pier == pier) && (item.handle.service == service)

-- the first item that a loop over `m_status` finds, or a default
unfoldable pub find_status : Health → List Health → Health
find_status health [] = health
find_status health (item ∷ rest) =
    let found = find_status health rest in
    if is_for health.handle.pier health.handle.service item then item else found

-- the loop of `makeListItem`, which goes on after it has found one
unfoldable pub last_state : String → String → Status → List Health → Status
last_state pier service state [] = state
last_state pier service state (item ∷ rest) =
    last_state pier service (if is_for pier service item then item.state else state) rest

unfoldable pub make_list_item : String → List Health → Service → Row
make_list_item own status service =
    let pier = if service.local then own else service.pier in
    let state = if service.autostart then lonely else asleep in
    record {
      icon = status_bitmap (last_state pier service.name state status);
      name = service.name;
      pier = service.pier;
      address = service.address;
      rendezvous = if is_empty service.rendezvous then "Email" else "DHT";
      tunnel = protocol_text service.proto;
      route = routing_text service.route;
      autostart = bool_text service.autostart;
    }

-- `Populate`; `visit` is the order in which a `ServiceList` is visited
unfoldable pub populate : (List Form → List Form) → Context → Window → Window
populate visit c w =
    let exports = map form_of (get_export_services c) in
    let imports = map form_of (get_import_services c) in
    record w {
      own = c.config.pier;
      exports = exports;
      imports = imports;
      rows =
          map (λ form. make_list_item c.config.pier w.status form.shown)
            (visit (if w.exporting then exports else imports));
      selected = none;
    }

-- `findService`
unfoldable pub find_export : String → List Form → Option Service
find_export name [] = none
find_export name (form ∷ rest) =
    let found = find_export name rest in if form.shown.name == name then some form.shown else found

unfoldable pub find_import : Handle → List Form → Option Service
find_import id [] = none
find_import id (form ∷ rest) =
    let found = find_import id rest in
    if (id.pier == form.shown.pier) && (form.shown.name == id.service)
    then some form.shown
    else found

unfoldable pub find_service : Handle → Window → Option Service
find_service id w =
    if id.pier == w.own then find_export id.service w.exports else find_import id w.imports
