-- ===== src/Ui/Tray/Clicks.antt =====
-- A service that is clicked in the menu of src/ui/main.cpp, down to the engine of src/backend/server.cpp.
use webpier.Base.{
  String, true, false, some, List, ◌≡◌, refl, inl, inr, sym, not, is_empty, ok, Bool-cases,
}
use webpier.Ptree.{PropertyTree}
use webpier.Map.{find}
use webpier.Store.Types.{Config, Service}
use webpier.Backend.Message.{
  Handle, handle_key, Status, asleep, broken, lonely, burden, other, int_eq, of_status,
}
use webpier.Backend.Message.RoundTrip.{IsStatus}
use webpier.Backend.Engine.Wire.{state-IsStatus}
use webpier.Backend.Controller
use webpier.Backend.Controller.{Controller}
use webpier.Backend.Engine.{Pool, Home, load_one, sleeps, health_of}
use webpier.Backend.Engine.Commands.{Splits}
use webpier.Backend.Engine.Single.{one-states}
use webpier.Ui.Window.{Window}
use webpier.Ui.Window.Actions.{command}
use webpier.Ui.Window.Toggle.{over_socket, told_engage, told_unplug}
use webpier.Ui.Tray.{check_of, on_check}

-- the test by number, and by constructor
asleep_both :
    (status : Status)
    → IsStatus status
    → int_eq (of_status status) (of_status asleep) ≡ (elim status [ asleep ↦ true | _ ↦ false ])
asleep_both asleep h = refl
asleep_both broken h = refl
asleep_both lonely h = refl
asleep_both burden h = refl
asleep_both (other n) h = absurd h

module _ (split : String → List String) (home : Home) (lib : PropertyTree) where
  -- A click on the entry that the menu has for a service switches it: its controller is asleep
  -- afterwards exactly when it was not before, as the entry had shown. The service is on disk and in
  -- the pool, and `boost::split` returns at least one token.
  pub on_check-switches :
      (id : Handle) (w : Window) (pool : Pool) (conf : Config) (serv : Service) (c : Controller)
      → Splits split
      → load_one home id ≡ ok (conf, serv)
      → is_empty serv.name ≡ false
      → find id pool ≡ some c
      → let check = check_of (health_of id c) in
        (check.is_checked ≡ not (sleeps id pool))
        × (sleeps id (on_check (over_socket split home lib) check w pool).1 ≡ not (sleeps id pool))
  unfolding check_of on_check command
  on_check-switches id w pool conf serv c splits l n f =
      let states = one-states split home id pool conf serv splits l n in
      let both = asleep_both (Controller.state c) (state-IsStatus c) in
      let before : sleeps id pool ≡ int_eq (of_status (Controller.state c)) (of_status asleep) =
        rw (f, sleeps) (sym both) in
      elim (Bool-cases (int_eq (of_status (Controller.state c)) (of_status asleep))) [
        | inl t ↦ rw (before, t) (refl, rw (told_engage split home lib id pool) states.1)
        | inr t ↦ rw (before, t) (refl, rw (told_unplug split home lib id pool) states.2)
      ]
