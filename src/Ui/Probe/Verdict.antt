-- ===== src/Ui/Probe/Verdict.antt =====
-- What the test of a rendezvous (src/ui/context.cpp, src/ui/settingsdialog.cpp) comes to.
use webpier.Base.{
  String, Bool, true, false, Option, none, some, List, [], ◌∷◌, ◌++◌, ◌≡◌, ◌⊎◌, refl, ap, inl, inr,
  Result, ok, err, if◌then◌else◌,
}
use webpier.Ui.Probe.{Event, expires, receives, forwards, Probe, on_event, run, check_rendezvous}

-- The first event that decides: a failure, or the second of the two successes.
pub verdict : (received forwarded : Bool) → List Event → List String
verdict received forwarded [] = []
verdict received forwarded (expires ∷ events) = "timeout" ∷ []
verdict received forwarded (receives (err error) ∷ events) = error ∷ []
verdict received forwarded (forwards (err error) ∷ events) = error ∷ []
verdict received forwarded (receives (ok done) ∷ events) =
    if forwarded then "" ∷ [] else verdict true forwarded events
verdict received forwarded (forwards (ok done) ∷ events) =
    if received then "" ∷ [] else verdict received true events

-- nothing is decided, or one thing
pub verdict_cases :
    (received forwarded : Bool) (events : List Event)
    → (verdict received forwarded events ≡ [])
      ⊎ ((error : String) × (verdict received forwarded events ≡ error ∷ []))
unfolding verdict
verdict_cases received forwarded [] = inl refl
verdict_cases received forwarded (expires ∷ events) = inr ("timeout", refl)
verdict_cases received forwarded (receives (err error) ∷ events) = inr (error, refl)
verdict_cases received forwarded (forwards (err error) ∷ events) = inr (error, refl)
verdict_cases received true (receives (ok done) ∷ events) = inr ("", refl)
verdict_cases received false (receives (ok done) ∷ events) = verdict_cases true false events
verdict_cases true forwarded (forwards (ok done) ∷ events) = inr ("", refl)
verdict_cases false forwarded (forwards (ok done) ∷ events) = verdict_cases false true events

run_stopped : (events : List Event) (p : Probe) → p.is_stopped ≡ true → run events p ≡ p
unfolding run
run_stopped [] p h = refl
run_stopped (event ∷ events) p h = simp h (run_stopped events p h)

-- success, or not yet
abbrev noted : Bool → Option String
noted b = if b then some "" else none

abbrev waiting : (received forwarded : Bool) → Probe
waiting received forwarded = record {
  receive = noted received;
  forward = noted forwarded;
  is_stopped = false;
  told = [];
}

abbrev told_of : Probe → List String
told_of p = p.told

run-verdict :
    (received forwarded : Bool) (events : List Event)
    → (run events (waiting received forwarded)).told ≡ verdict received forwarded events
unfolding run verdict on_event
run-verdict received forwarded [] = refl
run-verdict received forwarded (expires ∷ events) = ap told_of (run_stopped events _ refl)
run-verdict received forwarded (receives (err error) ∷ events) =
    ap told_of (run_stopped events _ refl)
run-verdict received forwarded (forwards (err error) ∷ events) =
    ap told_of (run_stopped events _ refl)
run-verdict received true (receives (ok done) ∷ events) = ap told_of (run_stopped events _ refl)
run-verdict received false (receives (ok done) ∷ events) = run-verdict true false events
run-verdict true forwarded (forwards (ok done) ∷ events) = ap told_of (run_stopped events _ refl)
run-verdict false forwarded (forwards (ok done) ∷ events) = run-verdict false true events

-- a call that throws, as the event of its failure
abbrev pub thrown : (receiving forwarding : Result (Unit {0})) → List Event
thrown (err what) forwarding = receives (err what) ∷ []
thrown (ok done) (err what) = forwards (err what) ∷ []
thrown (ok done) (ok also) = []

-- The callback of the test of a rendezvous is called with what decides it, and at most once: what the
-- calls throw, the first failure or the end of the wait, or, when both messages went through before
-- that, nothing.
pub check_rendezvous-verdict :
    (receiving forwarding : Result (Unit {0})) (events : List Event)
    → check_rendezvous receiving forwarding events
      ≡ verdict false false (thrown receiving forwarding ++ events)
unfolding check_rendezvous verdict
check_rendezvous-verdict (err what) forwarding events = refl
check_rendezvous-verdict (ok done) (err what) events = refl
check_rendezvous-verdict (ok done) (ok also) events = run-verdict false false events
