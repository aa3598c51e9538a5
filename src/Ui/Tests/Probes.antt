-- ===== src/Ui/Tests/Probes.antt =====
-- The theorem about the test of a rendezvous, at one whose field is edited before it is decided.
use webpier.Base.{true, false, List, [], ◌∷◌, ◌++◌, ◌≡◌, ok, refl}
use webpier.Ui.Probe.{
  Event, expires, receives, forwards, Panel, redo, tick, start, check_rendezvous, show_rendezvous,
  on_change, on_event, run,
}
use webpier.Ui.Probe.Verdict.{verdict, thrown}
use webpier.Ui.Probe.Stale.{edit_all, show_all, last_text, IsShown, test-IsShown}

abbrev panel : Panel
panel = record {
  text = "bootstrap.jami.net";
  badge = redo;
  is_enabled = true;
  is_busy = false;
  tool_tip = "";
}

abbrev events : List Event
events = receives (ok tt) ∷ forwards (ok tt) ∷ expires ∷ []

test-IsShown_example :
    let told = check_rendezvous (ok tt) (ok tt) events in
    let after = show_all "DHT" told (edit_all ("nowhere" ∷ []) (start panel)) in
    (told ≡ verdict false false (thrown (ok tt) (ok tt) ++ events))
    × IsShown told after
    × (after.text ≡ last_text "bootstrap.jami.net" ("nowhere" ∷ []))
test-IsShown_example = test-IsShown "DHT" (ok tt) (ok tt) events ("nowhere" ∷ []) panel

-- the tick stands beside a text that was not tested
unfounded :
    let after =
      show_all "DHT"
        (check_rendezvous (ok tt) (ok tt) events)
        (edit_all ("nowhere" ∷ []) (start panel)) in
    (after.badge ≡ tick) × (after.text ≡ "nowhere")
unfolding start check_rendezvous run on_event show_rendezvous on_change
unfounded = (refl, refl)
