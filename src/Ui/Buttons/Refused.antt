-- ===== src/Ui/Buttons/Refused.antt =====
-- What the button that adds a service, of src/ui/mainframe.cpp, does when the context refuses it.
use webpier.Base.{
  ℕ, suc, true, some, [], ◌∷◌, ◌++◌, ◌≡◌, refl, inl, inr, String, Result, Bool-cases,
}
use webpier.Ptree.{PropertyTree}
use webpier.Store.Types.{Service, Enums}
use webpier.Store.Context.Effects.{lookup}
use webpier.Backend.Message.{Handle}
use webpier.Ui.Services.{Form, owner}
use webpier.Ui.Services.Losing.{store-ignores, is_absent}
use webpier.Ui.Upload.{Item, desk_of}
use webpier.Ui.Buttons.{Frame, shown_items, row_of, created, save, on_add}

module _ (lib : PropertyTree) (enums : Enums) (cannot_open : String)
    (adjust : Handle → Result (Unit {0})) where
  open lib use {Text}

  save-refused :
      (entered other : Service) (w : Frame Text)
      → entered.local ≡ w.exporting
      → lookup (owner entered w.session.context) entered.name w.session.context ≡ some other
      → let form : Form = record (created lib enums w.exporting) { shown = entered } in
        save lib enums cannot_open adjust form w ≡ desk_of form w.session
  save-refused entered other w kind taken =
      let form : Form = record (created lib enums w.exporting) { shown = entered } in
      let absent : is_absent form w.session.context ≡ true = elim (Bool-cases w.exporting) [
        | inl e ↦ rw (kind, e) refl
        | inr e ↦ rw (kind, e) refl
      ] in
      store-ignores lib enums cannot_open adjust w.session.now (suc w.session.now) other
        (desk_of form w.session) absent taken

  -- A service that is added under a name that is taken is listed all the same: it is the last
  -- service of the window and has a line, while the context, the disk and the backend are as before,
  -- and no message is shown. The name is taken in the context by a service of the same pier.
  pub on_add-refused :
      (key : ℕ) (entered other : Service) (w : Frame Text)
      → entered.local ≡ w.exporting
      → lookup (owner entered w.session.context) entered.name w.session.context ≡ some other
      → let after = on_add lib enums cannot_open adjust key (some entered) w in
        let form : Form = record (created lib enums w.exporting) { shown = entered } in
        let item : Item = record { key = key; form = form } in
        (shown_items after ≡ shown_items w ++ (item ∷ []))
        × (after.rows ≡ w.rows ++ ((key, row_of entered w) ∷ []))
        × (after.session.context ≡ w.session.context)
        × (after.session.disk ≡ w.session.disk)
        × (after.session.adjusted ≡ w.session.adjusted)
        × (after.messages ≡ w.messages)
  unfolding on_add
  on_add-refused key entered other w kind taken = elim (Bool-cases w.exporting) [
    | inl e ↦ rw (save-refused entered other w kind taken, e) (refl, refl, refl, refl, refl, refl)
    | inr e ↦ rw (save-refused entered other w kind taken, e) (refl, refl, refl, refl, refl, refl)
  ]
