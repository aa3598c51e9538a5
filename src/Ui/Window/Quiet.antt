-- ===== src/Ui/Window/Quiet.antt =====
-- `RefreshStatus()` of src/ui/mainframe.cpp when nothing has changed in the backend.
use webpier.Base.{
  ℕ, suc, Bool, true, false, Option, List, [], ◌∷◌, ◌++◌, map, ◌≡◌, refl, inl, inr, arith, ok, All,
  ◌&&◌, not, Bool-cases, eq_refl, ◌∙◌,
}
use webpier.Backend.Message.{Health, asleep, of_status, int_eq_refl}
use webpier.Ui.Window.{Window, Row, Bar, Notice, is_for, find_status}
use webpier.Ui.Window.States.{notify, notify_all, refresh_all, is_current}
use webpier.Ui.Window.Refresh.{row_shown, bar_after, current_row, refresh_all-eq}

-- no item of the list has the handle of this one
abbrev pub is_fresh : Health → List Health → Bool
is_fresh h [] = true
is_fresh h (item ∷ rest) = not (is_for item.handle.pier item.handle.service h) && is_fresh h rest

-- every handle stands in the list once
abbrev pub is_distinct : List Health → Bool
is_distinct [] = true
is_distinct (item ∷ rest) = is_fresh item rest && is_distinct rest

-- what is looked up for an item of the answer
abbrev before : Health → Health
before h = record { handle = h.handle; state = asleep; message = "" }

IsFound : List Health → Health → Type 0
IsFound hs h = find_status (before h) hs ≡ h

IsFound-later :
    (h : Health) (hs items : List Health)
    → is_fresh h items ≡ true
    → All (IsFound hs) items
    → All (IsFound (h ∷ hs)) items
unfolding find_status IsFound
IsFound-later h hs [] f a = tt
IsFound-later h hs (item ∷ items) f a =
    let off : is_for item.handle.pier item.handle.service h ≡ false = ground arith in
    (rw (off, a.0) refl, IsFound-later h hs items (ground arith) a.1)

All-IsFound : (hs : List Health) → is_distinct hs ≡ true → All (IsFound hs) hs
unfolding find_status IsFound
All-IsFound [] d = tt
All-IsFound (h ∷ hs) d = (
  rw (eq_refl h.handle.pier, eq_refl h.handle.service) refl,
  IsFound-later h hs hs (ground arith) (All-IsFound hs (ground arith)),
)

notify-same : (w : Window) (h : Health) → notify w h h ≡ []
unfolding notify
notify-same w h = rw (int_eq_refl (of_status h.state)) refl

notify_all-found :
    (w : Window) (hs items : List Health) → All (IsFound hs) items → notify_all w hs items ≡ []
unfolding notify_all IsFound
notify_all-found w hs [] a = refl
notify_all-found w hs (item ∷ items) a =
    rw (a.0, notify-same w item, notify_all-found w hs items a.1) refl

rows_again :
    (w : Window) (status : List Health) (rows : List Row)
    → map (row_shown w status) (map (row_shown w status) rows) ≡ map (row_shown w status) rows
rows_again w status [] = refl
rows_again w status (row ∷ rows) = rw (rows_again w status rows) refl

bar_again :
    (w : Window) (status : List Health) (selected : Option ℕ) (i : ℕ) (rows : List Row) (bar : Bar)
    → bar_after w status
        (current_row selected i (map (row_shown w status) rows))
        (bar_after w status (current_row selected i rows) bar)
      ≡ bar_after w status (current_row selected i rows) bar
bar_again w status selected i [] bar = refl
bar_again w status selected i (row ∷ rows) bar = elim (Bool-cases (is_current selected i)) [
  | inl c ↦ rw c refl
  | inr c ↦ rw c (bar_again w status selected (suc i) rows bar)
]

nothing : (notices : List Notice) → notices ++ [] ≡ notices
nothing [] = refl
nothing (n ∷ notices) = rw (nothing notices) refl

-- A refresh that gets the answer of the one before changes nothing and notifies nothing. No handle
-- stands in the answer twice.
refresh_all-quiet :
    (next : List Health) (w : Window)
    → is_distinct next ≡ true
    → let shown = refresh_all (ok next) w in refresh_all (ok next) shown ≡ shown
refresh_all-quiet next w d =
    let shown : Window = record w {
      status = next;
      rows = map (row_shown w next) w.rows;
      bar = bar_after w next (current_row w.selected 0 w.rows) w.bar;
      notices = w.notices ++ notify_all w w.status next;
    } in
    let rows : map (row_shown shown next) shown.rows ≡ shown.rows = rows_again w next w.rows in
    let bar : bar_after shown next (current_row w.selected 0 shown.rows) shown.bar ≡ shown.bar =
      bar_again w next w.selected 0 w.rows w.bar in
    let told : shown.notices ++ notify_all shown next next ≡ shown.notices =
      rw (notify_all-found shown next next (All-IsFound next d)) (nothing shown.notices) in
    rw (refresh_all-eq (ok next) w) (refresh_all-eq (ok next) shown ∙ rw (rows, bar, told) refl)
