-- ===== src/Ui/Probe.antt =====
-- `CheckRendezvous` of src/ui/context.cpp, which sends a message to oneself and waits for it, and the
-- tests of src/ui/settingsdialog.cpp that it is used for. When plexus calls back is an argument.
pub mod Verdict
pub mod Stale
use webpier.Base.{
  ℕ, String, ◌<>◌, Bool, true, false, Option, none, some, List, [], ◌∷◌, ◌++◌, Result, ok, err,
  is_empty, not, ◌&&◌, if◌then◌else◌,
}

-- what the loop of the thread can run: the handler of the timer, and those of the two calls
pub data Event : Type 0 where
  expires : Event
  receives forwards : Result (Unit {0}) → Event

-- the locals of the thread, whether `io` is stopped, and the calls of `callback`
pub record Probe : Type 0 where
  pub receive : Option String
  pub forward : Option String
  pub is_stopped : Bool
  pub told : List String

abbrev pub tell : String → Probe → Probe
tell error p = record p { told = p.told ++ (error ∷ []) }

abbrev pub stop : Probe → Probe
stop p = record p { is_stopped = true }

-- the last part of the two handlers, on what the other one left
abbrev pub if_both : Option String → Probe → Probe
if_both none p = p
if_both (some text) p = if is_empty text then tell "" (stop p) else stop p

-- the handlers
unfoldable pub on_event : Event → Probe → Probe
on_event expires p = tell "timeout" (stop p)
on_event (receives (ok done)) p = if_both p.forward (record p { receive = some "" })
on_event (receives (err error)) p = tell error (stop (record p { receive = some error }))
on_event (forwards (ok done)) p = if_both p.receive (record p { forward = some "" })
on_event (forwards (err error)) p = tell error (stop (record p { forward = some error }))

-- `io.run()`, which leaves the events behind `io.stop()`
unfoldable pub run : List Event → Probe → Probe
run [] p = p
run (event ∷ events) p = run events (if p.is_stopped then p else on_event event p)

abbrev pub begin : Probe
begin = record { receive = none; forward = none; is_stopped = false; told = [] }

-- the thread; `receive_advent` and `forward_advent` may throw
unfoldable pub check_rendezvous :
    (receiving forwarding : Result (Unit {0})) → List Event → List String
check_rendezvous (err what) forwarding events = what ∷ []
check_rendezvous (ok done) (err what) events = what ∷ []
check_rendezvous (ok done) (ok also) events = (run events begin).told

-- the picture on a button that tests
pub data Badge : Type 0 where
  redo tick cross warning : Badge

-- A panel of the settings: the field that is tested, its button, its gauge and its tool tip.
pub record Panel : Type 0 where
  pub text : String
  pub badge : Badge
  pub is_enabled : Bool
  pub is_busy : Bool
  pub tool_tip : String

-- `onDhtChange` and its like
unfoldable pub on_change : String → Panel → Panel
on_change text p = record p { text = text; badge = redo; tool_tip = "" }

-- the end of the handlers of a click that starts a test
unfoldable pub start : Panel → Panel
start p = record p { is_busy = true; is_enabled = false }

-- what all the callbacks begin with
abbrev pub finish : Panel → Panel
finish p = record p { is_enabled = true; is_busy = false }

-- the callbacks of `onDhtTestClick` and `onEmailTestClick`, by the name that they show
unfoldable pub show_rendezvous : String → String → Panel → Panel
show_rendezvous name error p =
    if is_empty error
    then record (finish p) { badge = tick; tool_tip = name <> " rendezvous is Ok!" }
    else record (finish p) { badge = cross; tool_tip = name <> " rendezvous is wrong!\n" <> error }

-- the callback of `onRicoTestClick`
unfoldable pub show_relay : String → String → String → Panel → Panel
show_relay label relay error p =
    if is_empty error
    then record (finish p) { badge = tick; tool_tip = label <> " relay: " <> relay }
    else record (finish p) {
      badge = cross;
      tool_tip = "Can't get " <> label <> " relay!\n" <> error;
    }

-- the label of a relay
abbrev pub relay_label : (tcp v4 : Bool) → String
relay_label tcp v4 =
    if tcp then (if v4 then "TCP4" else "TCP6") else (if v4 then "UDP4" else "UDP6")

-- the callback of `doExploreNat`; `report` is the text about a hole, and `is_independent` its mapping
unfoldable pub show_nat : String → (is_independent : Bool) → String → String → Panel → Panel
show_nat label is_independent report error p =
    if is_empty error
    then record (finish p) {
      badge = if is_independent then tick else warning;
      tool_tip = label <> report;
    }
    else record (finish p) { badge = cross; tool_tip = label <> "\n" <> error }

-- What a click on the test of a STUN server does: complain, ask for the version, or test from an address.
pub data Click : Type 0 where
  complains asks : Click
  explores : String → Click

-- `onUdpStunTestClick` and `onTcpStunTestClick`; the two patterns are functions
unfoldable pub stun_click : (is_ip4 is_ip6 : String → Bool) → String → Click
stun_click is_ip4 is_ip6 text =
    if is_empty text
    then complains
    else if not (is_ip4 text) && not (is_ip6 text)
    then asks
    else explores (if is_ip4 text then "0.0.0.0:0" else "[::]:0")
