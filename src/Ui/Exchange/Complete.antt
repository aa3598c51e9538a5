-- ===== src/Ui/Exchange/Complete.antt =====
-- What a confirmed `CExchangeDialog` of src/ui/exchangedialog.cpp hands on.
use webpier.Base.{
  ℕ, zero, suc, String, Bool, true, false, Option, none, some, List, [], ◌∷◌, ◌≡◌, refl, inl, inr,
  arith, All, map, not, ◌||◌, is_empty, Bool-cases, Option-cases,
}
use webpier.Slots.{get_elem?, set}
use webpier.Store.Types.{Service}
use webpier.Ui.Services.{has_pier}
use webpier.Ui.Upload.{Item}
use webpier.Ui.Exchange.{
  choice_of, Line, ImportPage, Dialog, unchecked, import_page_of, populate_import, select_import,
  toggle_line, toggle_at, edit_at, edit_selected, on_kill_focus, on_autostart, validate_data,
  checked_items, upload_dialog, on_back, on_next,
}
use webpier.Ui.Exchange.Moves.{
  Move, selects, checks, types, starts, selects_export, checks_export, purges, replies, goes_back,
  goes_on, Reach, opened, then_moved,
}

-- The page behind is shown, or the dialog confirmed, only with the imports in order.
abbrev IsChecked : Dialog → Type 0
IsChecked d =
    ((not d.at_exports || validate_data d.import_page.lines) ≡ true)
    × ((not d.is_confirmed || d.at_exports) ≡ true)

Move-IsChecked : {d e : Dialog} → d.is_confirmed ≡ false → Move d e → IsChecked d → IsChecked e
unfolding on_back on_next
Move-IsChecked n (selects i a e) h = rw e (ground arith)
Move-IsChecked n (checks i a e) h = rw e (ground arith)
Move-IsChecked n (types text a e) h = rw e (ground arith)
Move-IsChecked n (starts value a e) h = rw e (ground arith)
Move-IsChecked n (selects_export i a e) h = rw e (ground arith)
Move-IsChecked n (checks_export i a e) h = rw e (ground arith)
Move-IsChecked n (purges a e) h = rw e (ground arith)
Move-IsChecked n (replies a e) h = rw e (ground arith)
Move-IsChecked n (goes_back a e) h = rw e (ground arith)
Move-IsChecked n (goes_on e) h = rw e (ground arith)

Reach-IsChecked : {d e : Dialog} → Reach d e → IsChecked d → IsChecked e
Reach-IsChecked opened h = h
Reach-IsChecked (then_moved r n m) h = Move-IsChecked n m (Reach-IsChecked r h)

-- The service of the line is the offered one, but for what the page can edit.
abbrev pub IsEdited : Item → Item → Type 0
IsEdited offered item =
    (item.key ≡ offered.key)
    × (item.form.origin ≡ offered.form.origin)
    × (item.form.shown ≡ record offered.form.shown {
      address = item.form.shown.address;
      autostart = item.form.shown.autostart;
    })

-- The lines are those of the offer, in its order.
abbrev pub AreEdited : List Item → List Line → Type 0
AreEdited [] [] = Unit
AreEdited [] (line ∷ lines) = ⊥
AreEdited (o ∷ os) [] = ⊥
AreEdited (o ∷ os) (line ∷ lines) = IsEdited o line.item × AreEdited os lines

set-AreEdited :
    (os : List Item) (lines : List Line) (i : ℕ) (line new : Line)
    → get_elem? lines i ≡ some line
    → ((o : Item) → IsEdited o line.item → IsEdited o new.item)
    → AreEdited os lines
    → AreEdited os (set lines i new)
set-AreEdited [] [] i line new at keep h = h
set-AreEdited [] (l ∷ lines) i line new at keep h = absurd h
set-AreEdited (o ∷ os) [] i line new at keep h = absurd h
set-AreEdited (o ∷ os) (l ∷ lines) zero line new at keep h =
    let same : l ≡ line = cc in (keep o (rw (← same) h.0), h.1)
set-AreEdited (o ∷ os) (l ∷ lines) (suc i) line new at keep h =
    (h.0, set-AreEdited os lines i line new at keep h.1)

unchecked-AreEdited : (os : List Item) → AreEdited os (map unchecked os)
unchecked-AreEdited [] = tt
unchecked-AreEdited (o ∷ os) = ((refl, refl, refl), unchecked-AreEdited os)

toggle_at-AreEdited :
    (os : List Item) (i : ℕ) (lines : List Line)
    → AreEdited os lines
    → AreEdited os (toggle_at i lines)
unfolding toggle_at
toggle_at-AreEdited os i lines h = elim (Option-cases (get_elem? lines i)) [
  | inl n ↦ rw (n, toggle_at) h
  | inr (line, e) ↦
      rw (e, toggle_at) (set-AreEdited os lines i line (toggle_line line) e (λ o k. k) h)
]

-- an edit of the address or of the automatic start
abbrev IsEdit : (Service → Service) → Type 0
IsEdit edit =
    (s o : Service)
    → s ≡ record o { address = s.address; autostart = s.autostart }
    → edit s ≡ record o { address = (edit s).address; autostart = (edit s).autostart }

edit_at-AreEdited :
    (os : List Item) (i : ℕ) (edit : Service → Service) (lines : List Line)
    → IsEdit edit
    → AreEdited os lines
    → AreEdited os (edit_at i edit lines)
unfolding edit_at
edit_at-AreEdited os i edit lines ok_edit h = elim (Option-cases (get_elem? lines i)) [
  | inl n ↦ rw (n, edit_at) h
  | inr (line, e) ↦
      rw (e, edit_at)
        (set-AreEdited os lines i line _ e
          (λ o k. (k.0, k.1, ok_edit line.item.form.shown o.form.shown k.2)) h)
]

edit_selected-AreEdited :
    (os : List Item) (edit : Service → Service) (page : ImportPage)
    → IsEdit edit
    → AreEdited os page.lines
    → AreEdited os (edit_selected edit page).lines
unfolding edit_selected
edit_selected-AreEdited os edit page ok_edit h = edit_at-AreEdited os _ edit page.lines ok_edit h

populate-lines : (s : Option ℕ) (page : ImportPage) → (populate_import s page).lines ≡ page.lines
unfolding populate_import
populate-lines none page = refl
populate-lines (some i) page = elim (Option-cases (get_elem? page.lines i)) [
  | inl n ↦ rw (n, populate_import) refl
  | inr (line, e) ↦ rw (e, populate_import) refl
]

Move-AreEdited :
    (os : List Item) {d e : Dialog}
    → Move d e
    → AreEdited os d.import_page.lines
    → AreEdited os e.import_page.lines
unfolding on_back on_next select_import on_kill_focus on_autostart
Move-AreEdited os {d} (selects i a e) h =
    rw (e, populate-lines (some i) (record d.import_page { selection = some i })) h
Move-AreEdited os {d} (checks i a e) h = rw e (toggle_at-AreEdited os i d.import_page.lines h)
Move-AreEdited os {d} (types text a e) h = rw e (
    edit_selected-AreEdited os (λ s. record s { address = text })
      (record d.import_page { address = text }) (λ s o k. rw k refl) h)
Move-AreEdited os {d} (starts value a e) h = rw e (
    edit_selected-AreEdited os (λ s. record s { autostart = value })
      (record d.import_page { autostart = value }) (λ s o k. rw k refl) h)
Move-AreEdited os (selects_export i a e) h = rw e h
Move-AreEdited os (checks_export i a e) h = rw e h
Move-AreEdited os (purges a e) h = rw e h
Move-AreEdited os (replies a e) h = rw e h
Move-AreEdited os (goes_back a e) h = rw e h
Move-AreEdited os {d} (goes_on e) h = elim (Bool-cases d.at_exports) [
  | inl t ↦ rw (e, t) h
  | inr t ↦ elim (Bool-cases (validate_data d.import_page.lines)) [
    | inl v ↦ rw (e, t, v) h
    | inr v ↦ rw (e, t, v) h
  ]
]

Reach-AreEdited :
    (os : List Item) {d e : Dialog}
    → Reach d e
    → AreEdited os d.import_page.lines
    → AreEdited os e.import_page.lines
Reach-AreEdited os opened h = h
Reach-AreEdited os (then_moved r n m) h = Move-AreEdited os m (Reach-AreEdited os r h)

upload_dialog-AreEdited :
    (has_pier : Service → Bool) (os es : List Item)
    → AreEdited os (upload_dialog has_pier os es).import_page.lines
unfolding upload_dialog import_page_of
upload_dialog-AreEdited has_pier [] es = tt
upload_dialog-AreEdited has_pier (o ∷ os) es =
    rw (populate-lines (some 0) _) (unchecked-AreEdited (o ∷ os))

-- Each of the items that are read from the lines has an address.
checked_items_complete :
    (lines : List Line)
    → validate_data lines ≡ true
    → All (λ (item : Item). is_empty item.form.shown.address ≡ false) (checked_items lines)
unfolding validate_data checked_items
checked_items_complete [] h = tt
checked_items_complete (line ∷ lines) h = elim (Bool-cases line.is_checked) [
  | inl c ↦ rw c (ground arith, checked_items_complete lines (ground arith))
  | inr c ↦ rw c (checked_items_complete lines (ground arith))
]

-- However the dialog is used, the services of the offer stay as they are but for the address and the
-- automatic start, and once it is confirmed each of those that it hands on has an address.
pub Reach-complete :
    (split : String → List String) (join : List String → String) (pier : String)
    (offered exports : List Item) {e : Dialog}
    → Reach (upload_dialog (has_pier split join pier) offered exports) e
    → e.is_confirmed ≡ true
    → AreEdited offered e.import_page.lines
      × ((choice_of e).imports ≡ checked_items e.import_page.lines)
      × All (λ (item : Item). is_empty item.form.shown.address ≡ false) (choice_of e).imports
unfolding upload_dialog choice_of
Reach-complete split join pier offered exports {e} r c =
    let checked = Reach-IsChecked r (refl, refl) in
    (
      Reach-AreEdited offered r
          (upload_dialog-AreEdited (has_pier split join pier) offered exports),
      refl,
      checked_items_complete e.import_page.lines (ground arith),
    )
