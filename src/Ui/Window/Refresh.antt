-- ===== src/Ui/Window/Refresh.antt =====
-- What `RefreshStatus()` of src/ui/mainframe.cpp leaves in the window.
use webpier.Base.{
  ℕ, zero, suc, true, false, Option, none, some, List, [], ◌∷◌, ◌++◌, map, ◌≡◌, refl, inl, inr,
  arith, Result, ok, err, ltb, if◌then◌else◌, Bool-cases,
}
use webpier.Backend.Message.{Health}
use webpier.Ui.Window.{Window, Row, Bar, Notice, status_bitmap, find_status}
use webpier.Ui.Window.States.{
  lost, row_handle, bar_of, complain, notify_all, is_current, show_all, refresh_all,
}

-- the state that a row is about
abbrev pub row_health : Window → List Health → Row → Health
row_health w status row = find_status (lost (row_handle w row)) status

abbrev pub row_shown : Window → List Health → Row → Row
row_shown w status row = record row { icon = status_bitmap (row_health w status row).state }

-- the row of a number
abbrev pub get_row : ℕ → List Row → Option Row
get_row n [] = none
get_row zero (row ∷ rows) = some row
get_row (suc n) (row ∷ rows) = get_row n rows

-- the row that is selected, the first having the number `i`
abbrev pub current_row : Option ℕ → ℕ → List Row → Option Row
current_row selected i [] = none
current_row selected i (row ∷ rows) =
    let later = current_row selected (suc i) rows in
    if is_current selected i then some row else later

abbrev pub bar_after : Window → List Health → Option Row → Bar → Bar
bar_after w status none bar = bar
bar_after w status (some row) bar = bar_of (row_health w status row)

past :
    (selected : Option ℕ) (i j : ℕ) (rows : List Row)
    → is_current selected i ≡ true
    → ltb i j ≡ true
    → current_row selected j rows ≡ none
past selected i j [] h l = refl
past none i j (row ∷ rows) h l = let no : ⊥ = ground arith in absurd no
past (some n) i j (row ∷ rows) h l =
    let off : is_current (some n) j ≡ false = ground arith in
    rw (past (some n) i (suc j) rows h (ground arith), off) refl

show_all-rows :
    (w : Window) (status : List Health) (i : ℕ) (rows : List Row) (bar : Bar)
    → (show_all w status i rows bar).rows ≡ map (row_shown w status) rows
unfolding show_all
show_all-rows w status i [] bar = refl
show_all-rows w status i (row ∷ rows) bar = rw (show_all-rows w status (suc i) rows _) refl

show_all-bar :
    (w : Window) (status : List Health) (i : ℕ) (rows : List Row) (bar : Bar)
    → (show_all w status i rows bar).bar ≡ bar_after w status (current_row w.selected i rows) bar
unfolding show_all
show_all-bar w status i [] bar = refl
show_all-bar w status i (row ∷ rows) bar = elim (Bool-cases (is_current w.selected i)) [
  | inl c ↦
      rw (show_all-bar w status (suc i) rows _, c, past w.selected i (suc i) rows c (ground arith))
        refl
  | inr c ↦ rw (show_all-bar w status (suc i) rows _, c) refl
]

-- After `RefreshStatus()` every row has the image of the first state that the backend answered for its
-- handle, or the broken one, the status bar shows that state of the selected row, if any, and the
-- window holds the answer; for an answer that throws, every row is broken. What is notified is
-- appended, and everything else of the window stays.
pub refresh_all-eq :
    (answer : Result (List Health)) (w : Window)
    → let status : List Health = elim answer [ err e ↦ [] | ok next ↦ next ] in
      refresh_all answer w ≡ record w {
        status = status;
        rows = map (row_shown w status) w.rows;
        bar = bar_after w status (current_row w.selected 0 w.rows) w.bar;
        notices = w.notices ++ elim answer as (λ _. List Notice) [
          | err e ↦ complain "Can't refresh the status. " e ∷ []
          | ok next ↦ notify_all w w.status next
        ];
      }
unfolding refresh_all
refresh_all-eq answer w =
    let status : List Health = elim answer [ err e ↦ [] | ok next ↦ next ] in
    rw (show_all-rows w status 0 w.rows w.bar, show_all-bar w status 0 w.rows w.bar) refl
