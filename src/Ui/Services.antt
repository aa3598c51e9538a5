-- ===== src/Ui/Services.antt =====
-- `ServiceImpl` of src/ui/context.cpp: the form of a service, which the dialogs edit, over the context
-- and the backend. `now` and `later` are the times at which two calls of the context write; `adjust`
-- is what the backend answers. A `wxString` and the `std::string` it is converted to are one text.
pub mod Saving
pub mod Stored
pub mod Losing
pub mod Untold
pub mod Piers
use webpier.Base.{
  ℕ, String, Bool, true, false, List, [], ◌∷◌, ◌++◌, Result, ok, err, ◌==◌, ◌&&◌, ◌||◌, not,
  is_empty, if◌then◌else◌,
}
use webpier.Ptree.{PropertyTree}
use webpier.Store.Types.{Service, Enums}
use webpier.Store.Services.{nameless}
use webpier.Store.Context.{
  Disk, Context, Changed, add_export_service, del_export_service, add_import_service,
  del_import_service,
}
use webpier.Backend.Message.{Handle, int_eq}

-- the fields of the form, and `m_origin`
pub record Form : Type 0 where
  pub shown : Service
  pub origin : Service

-- A form with what it works on: `g_context`, the files, and the handles that the backend was told of.
pub record Desk (Text : Type 0) : Type 0 where
  pub form : Form
  pub context : Context
  pub disk : Disk Text
  pub adjusted : List Handle

-- What a step leaves, also when it throws.
pub record Called (Text : Type 0) : Type 0 where
  pub desk : Desk Text
  pub result : Result (Unit {0})

abbrev pub bool_eq : Bool → Bool → Bool
bool_eq true b = b
bool_eq false b = not b

-- `IsDirty`
unfoldable pub is_dirty : Form → Bool
is_dirty f =
    not (f.shown.name == f.origin.name)
    || not (f.shown.pier == f.origin.pier)
    || not (f.shown.address == f.origin.address)
    || not (f.shown.gateway == f.origin.gateway)
    || not (f.shown.rendezvous == f.origin.rendezvous)
    || not (int_eq f.shown.proto f.origin.proto)
    || not (int_eq f.shown.role f.origin.role)
    || not (int_eq f.shown.route f.origin.route)
    || not (bool_eq f.shown.autostart f.origin.autostart)
    || not (bool_eq f.shown.obscure f.origin.obscure)

-- `Revert`
abbrev pub revert : Form → Form
revert f = record f { shown = f.origin }

-- the constructor
abbrev pub form_of : Service → Form
form_of s = record { shown = s; origin = s }

-- `Local ? Context::Pier() : Pier`
abbrev pub owner : Service → Context → String
owner s c = if s.local then c.config.pier else s.pier

module _ {Text : Type 0} where
  infixl 4 ◌>>>◌
  -- the next step, unless this one threw
  abbrev pub ◌>>>◌ : Called Text → (Desk Text → Called Text) → Called Text
  r >>> next = elim r.result [ err e ↦ r | ok _ ↦ next r.desk ]

  abbrev pub passed : Desk Text → Called Text
  passed s = record { desk = s; result = ok tt }

  -- a call of the context
  abbrev pub call : (Context → Disk Text → Changed Text) → Desk Text → Called Text
  call change s =
      let r = change s.context s.disk in
      record { desk = record s { context = r.context; disk = r.disk }; result = r.result }

  -- `m_origin = actual`
  abbrev pub accept : Desk Text → Desk Text
  accept s = record s { form = form_of s.form.shown }

module _ (lib : PropertyTree) (enums : Enums) where
  -- `CreateExportService` and `CreateImportService`
  abbrev pub create_export_service : Form
  create_export_service = form_of (record (nameless lib enums) { local = true })

  abbrev pub create_import_service : Form
  create_import_service = form_of (record (nameless lib enums) { local = false })

module _ (lib : PropertyTree) (enums : Enums) (cannot_open : String) where
  open lib use {Text}

  -- the first call of `Store` and of `Purge`
  unfoldable pub drop_origin : ℕ → Desk Text → Called Text
  drop_origin now s =
      let old = s.form.origin in
      if s.form.shown.local
      then if is_empty old.name
        then passed s
        else call (del_export_service lib enums cannot_open now old.name) s
      else if is_empty old.name || is_empty old.pier
      then passed s
      else call (del_import_service lib enums cannot_open now old.pier old.name) s

  -- the second call of `Store`
  unfoldable pub put_shown : ℕ → Desk Text → Called Text
  put_shown now s =
      if s.form.shown.local
      then call (add_export_service lib enums cannot_open now s.form.shown) s
      else call (add_import_service lib enums cannot_open now s.form.shown) s

module _ {Text : Type 0} (adjust : Handle → Result (Unit {0})) where
  -- `WebPier::Backend::Adjust` with the handle of a name
  unfoldable pub tell : String → Desk Text → Called Text
  tell name s =
      let handle : Handle = record { pier = owner s.form.shown s.context; service = name } in
      record { desk = record s { adjusted = s.adjusted ++ (handle ∷ []) }; result = adjust handle }

  -- the rest of the `try` of `Store`
  unfoldable pub tell_all : Desk Text → Called Text
  tell_all s =
      (if s.form.origin.name == s.form.shown.name then passed s else tell s.form.origin.name s)
      >>> (λ s. tell s.form.shown.name (accept s))

module _ (lib : PropertyTree) (enums : Enums) (cannot_open : String)
    (adjust : Handle → Result (Unit {0})) where
  open lib use {Text}

  -- `Store`, which logs what is thrown and returns
  unfoldable pub store : ℕ → ℕ → Desk Text → Desk Text
  store now later s =
      if is_dirty s.form
      then (drop_origin lib enums cannot_open now s
          >>> put_shown lib enums cannot_open later
          >>> tell_all adjust).desk
      else s

  -- `Purge`: what the backend throws is logged
  unfoldable pub purge : ℕ → Desk Text → Called Text
  purge now s = drop_origin lib enums cannot_open now s >>> (λ s.
      let told = (tell adjust s.form.shown.name s).desk in
      passed (record told { form = record told.form { origin = nameless lib enums } }))

-- `Index(pier) != wxNOT_FOUND`
unfoldable pub has : String → List String → Bool
has pier [] = false
has pier (p ∷ ps) = p == pier || has pier ps

-- `RemoveAt(Index(pier))`
unfoldable pub remove : String → List String → List String
remove pier [] = []
remove pier (p ∷ ps) = let rest = remove pier ps in if p == pier then ps else p ∷ rest

-- `AddPier`, `DelPier` and `HasPier`; `wxSplit` and `wxJoin` at a space are wxWidgets'
module _ (split : String → List String) (join : List String → String) where
  unfoldable pub add_pier : String → Service → Service
  add_pier pier s =
      if s.local
      then if has pier (split s.pier)
        then s
        else record s { pier = join (split s.pier ++ (pier ∷ [])) }
      else record s { pier = pier }

  unfoldable pub del_pier : String → Service → Service
  del_pier pier s =
      if s.local
      then if has pier (split s.pier)
        then record s { pier = join (remove pier (split s.pier)) }
        else s
      else if pier == s.pier
      then record s { pier = "" }
      else s

  unfoldable pub has_pier : String → Service → Bool
  has_pier pier s = if s.local then has pier (split s.pier) else pier == s.pier
