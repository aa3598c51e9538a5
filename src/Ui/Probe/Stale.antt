-- ===== src/Ui/Probe/Stale.antt =====
-- A test of a rendezvous in src/ui/settingsdialog.cpp, when the field is edited meanwhile.
use webpier.Base.{
  String, true, false, List, [], ◌∷◌, ◌++◌, ◌≡◌, refl, inl, inr, Result, is_empty, if◌then◌else◌,
  Bool-cases,
}
use webpier.Ui.Probe.{
  Event, tick, cross, Panel, on_change, start, show_rendezvous, check_rendezvous,
}
use webpier.Ui.Probe.Verdict.{verdict, verdict_cases, thrown, check_rendezvous-verdict}

-- the edits of the field, and the calls of the callback
abbrev pub edit_all : List String → Panel → Panel
edit_all [] p = p
edit_all (text ∷ texts) p = edit_all texts (on_change text p)

abbrev pub show_all : String → List String → Panel → Panel
show_all name [] p = p
show_all name (error ∷ errors) p = show_all name errors (show_rendezvous name error p)

abbrev pub last_text : String → List String → String
last_text text [] = text
last_text text (next ∷ texts) = last_text next texts

edit_all_busy :
    (texts : List String) (p : Panel)
    → ((edit_all texts p).is_busy ≡ p.is_busy)
      × ((edit_all texts p).is_enabled ≡ p.is_enabled)
      × ((edit_all texts p).text ≡ last_text p.text texts)
unfolding on_change
edit_all_busy [] p = (refl, refl, refl)
edit_all_busy (text ∷ texts) p = edit_all_busy texts (on_change text p)

-- Where a test stands: undecided it keeps its button disabled, decided it has the button enabled and
-- the picture of what decided.
abbrev pub IsShown : List String → Panel → Type 0
IsShown [] p = (p.is_busy ≡ true) × (p.is_enabled ≡ false)
IsShown (error ∷ more) p =
    (p.is_busy ≡ false)
    × (p.is_enabled ≡ true)
    × (p.badge ≡ (if is_empty error then tick else cross))
    × (more ≡ [])

-- The test of a rendezvous that was started shows what decides it, once it is decided, and its picture
-- stands beside the text that was typed last, whether this is the one that was tested or not.
pub test-IsShown :
    (name : String) (receiving forwarding : Result (Unit {0})) (events : List Event)
    (texts : List String) (p : Panel)
    → let told = check_rendezvous receiving forwarding events in
      let after = show_all name told (edit_all texts (start p)) in
      (told ≡ verdict false false (thrown receiving forwarding ++ events))
      × IsShown told after
      × (after.text ≡ last_text p.text texts)
unfolding start show_rendezvous
test-IsShown name receiving forwarding events texts p =
    let decided = check_rendezvous-verdict receiving forwarding events in
    let (busy, disabled, typed) = edit_all_busy texts (start p) in
    rw decided (elim (verdict_cases false false (thrown receiving forwarding ++ events)) [
      | inl n ↦ rw n (refl, (busy, disabled), typed)
      | inr (error, n) ↦ elim (Bool-cases (is_empty error)) [
        | inl e ↦ rw (n, e) (refl, (refl, refl, refl, refl), typed)
        | inr e ↦ rw (n, e) (refl, (refl, refl, refl, refl), typed)
      ]
    ])
