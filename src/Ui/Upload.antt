-- ===== src/Ui/Upload.antt =====
-- `CMainFrame::OnImportMenuSelection` of src/ui/mainframe.cpp, which takes over the services of an
-- offer, with `IsEqual` and `IsUnknownPier` of src/ui/context.cpp. What the dialogs come to, and the
-- certificates, which are openssl's, are arguments.
pub mod Merging
pub mod Whole
use webpier.Base.{
  ℕ, suc, ◌+◌, String, Bool, true, false, Option, none, some, List, [], ◌∷◌, ◌++◌, Result, ok, err,
  ◌>>=◌, ◌==◌, ◌&&◌, ◌||◌, not, same, if◌then◌else◌,
}
use webpier.Ptree.{PropertyTree}
use webpier.Store.Types.{Service, Enums}
use webpier.Store.Services.{nameless}
use webpier.Store.Context
use webpier.Store.Context.{
  Disk, Context, Changed, get_export_services, get_import_services, get_piers,
}
use webpier.Backend.Message.{Handle, int_eq}
use webpier.Ui.Offer.{Offer}
use webpier.Ui.Services
use webpier.Ui.Services.{Form, Desk, Called, form_of, bool_eq, has, store, purge}

-- `IsEqual`
unfoldable pub is_equal : Service → Service → Bool
is_equal a b =
    (a.name == b.name)
    && (a.pier == b.pier)
    && (a.address == b.address)
    && (a.gateway == b.gateway)
    && (a.rendezvous == b.rendezvous)
    && int_eq a.proto b.proto
    && int_eq a.role b.role
    && int_eq a.route b.route
    && bool_eq a.autostart b.autostart
    && bool_eq a.obscure b.obscure

-- an entry of a `ServiceList`, which is keyed by the address of the service
pub record Item : Type 0 where
  pub key : ℕ
  pub form : Form

-- `m_export` and `m_import` with what they work on; `now` is the time of the next write.
pub record Session (Text : Type 0) : Type 0 where
  pub context : Context
  pub disk : Disk Text
  pub adjusted : List Handle
  pub exports : List Item
  pub imports : List Item
  pub now : ℕ

-- What a step leaves, also when it throws.
pub record Step (Text : Type 0) : Type 0 where
  pub session : Session Text
  pub result : Result (Unit {0})

-- What `CExchangeDialog` comes to when it is confirmed: the services to export that are checked, those
-- of the offer that are checked, as they were edited there, and `NeedImportMerge`.
pub record Choice : Type 0 where
  pub exports : List ℕ
  pub imports : List Item
  pub merge : Bool

-- What the other dialogs are answered: whether to replace a pier, and a service.
pub record Answers : Type 0 where
  pub replace_pier : Bool
  pub choice : Option Choice
  pub replace_service : Service → Bool

-- `find(key) != end()`
unfoldable pub is_checked : ℕ → List ℕ → Bool
is_checked key [] = false
is_checked key (k ∷ keys) = same k key || is_checked key keys

-- the loop that looks for `curr`
unfoldable pub find_same : Service → List Item → Option Service
find_same next [] = none
find_same next (item ∷ items) =
    let found = find_same next items in
    if (item.form.shown.name == next.name) && (item.form.shown.pier == next.pier)
    then some item.form.shown
    else found

unfoldable pub map_shown : (Item → Service) → List Item → List Item
map_shown f [] = []
map_shown f (item ∷ items) =
    record item { form = record item.form { shown = f item } } ∷ map_shown f items

unfoldable pub number : ℕ → List Service → List Item
number key [] = []
number key (s ∷ ss) = record { key = key; form = form_of s } ∷ number (suc key) ss

module _ {Text : Type 0} where
  infixl 4 ◌>>>◌
  -- the next step, unless this one threw
  abbrev pub ◌>>>◌ : Step Text → (Session Text → Step Text) → Step Text
  r >>> next = elim r.result [ err e ↦ r | ok _ ↦ next r.session ]

  abbrev pub passed : Session Text → Step Text
  passed s = record { session = s; result = ok tt }

  -- a call of the context
  abbrev pub call : (ℕ → Context → Disk Text → Changed Text) → Session Text → Step Text
  call change s =
      let r = change s.now s.context s.disk in
      record {
        session = record s { context = r.context; disk = r.disk; now = suc s.now };
        result = r.result;
      }

  -- a form of the session, and the session after it has been worked on
  abbrev pub desk_of : Form → Session Text → Desk Text
  desk_of form s = record { form = form; context = s.context; disk = s.disk; adjusted = s.adjusted }

  abbrev pub with_desk : Desk Text → Session Text → Session Text
  with_desk d s = record s {
    context = d.context;
    disk = d.disk;
    adjusted = d.adjusted;
    now = s.now + 2;
  }

  -- the services of `Populate`
  abbrev pub populate : Session Text → Session Text
  populate s = record s {
    exports = number 0 (get_export_services s.context);
    imports = number 0 (get_import_services s.context);
  }

module _ (lib : PropertyTree) (enums : Enums) where
  -- the services of an offer, which `ReadOffer` made by `CreateImportService`
  unfoldable pub offered_from : ℕ → List Service → List Item
  offered_from key [] = []
  offered_from key (s ∷ ss) =
      record {
        key = key;
        form = record { shown = s; origin = (Services.create_import_service lib enums).origin };
      }
      ∷ offered_from (suc key) ss

module _ (lib : PropertyTree) (enums : Enums) (cannot_open : String)
    (adjust : Handle → Result (Unit {0})) where
  open lib use {Text}

  -- `Store` of a form, which stays in the session if it is one of its own
  abbrev pub stored : Form → Session Text → Desk Text
  stored form s = store lib enums cannot_open adjust s.now (suc s.now) (desk_of form s)

  unfoldable pub store_item : Item → Session Text → Session Text
  store_item item s = with_desk (stored item.form s) s

  -- the loop that stores services of the offer
  unfoldable pub store_items : List Item → Session Text → Session Text
  store_items [] s = s
  store_items (item ∷ items) s = store_items items (store_item item s)

  -- a round of the loop that merges
  unfoldable pub merge_item : (Service → Bool) → Item → Session Text → Session Text
  merge_item replace_service item s =
      let next = item.form.shown in
      elim (find_same next s.imports) [
        | some curr ↦
            if not (is_equal curr next) && replace_service next then store_item item s else s
        | none ↦ store_item item s
      ]

  unfoldable pub merge_items : (Service → Bool) → List Item → Session Text → Session Text
  merge_items replace_service [] s = s
  merge_items replace_service (item ∷ items) s =
      merge_items replace_service items (merge_item replace_service item s)

  -- the loop that purges the imports from the pier
  unfoldable pub purge_items : String → List Item → Session Text → Step Text
  purge_items pier [] s = passed s
  purge_items pier (item ∷ items) s =
      let r = purge lib enums cannot_open adjust s.now (desk_of item.form s) in
      (if item.form.shown.pier == pier
        then record { session = with_desk r.desk s; result = r.result }
        else passed s)
      >>> purge_items pier items

  module _ (split : String → List String) (join : List String → String) where
    abbrev pub without_pier : String → Item → Service
    without_pier pier item = Services.del_pier split join pier item.form.shown

    abbrev pub with_pier : String → Item → Service
    with_pier pier item = Services.add_pier split join pier item.form.shown

    -- the loop over the exported services; each of them is stored, and kept with its form
    unfoldable pub export_items : String → List ℕ → List Item → Session Text → Session Text
    export_items pier keys [] s = record s { exports = [] }
    export_items pier keys (item ∷ items) s =
        let shown =
          if is_checked item.key keys then with_pier pier item else without_pier pier item in
        let d = stored (record item.form { shown = shown }) s in
        let rest = export_items pier keys items (with_desk d s) in
        record rest { exports = record item { form = d.form } ∷ rest.exports }
