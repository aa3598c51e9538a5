-- ===== src/Ui/Window/Toggle.antt =====
-- A service that is started or stopped in the list of src/ui/mainframe.cpp, from the click to the
-- engine of src/backend/server.cpp and back.
use webpier.Base.{
  ℕ, suc, String, false, Option, none, some, List, [], ◌∷◌, ◌≡◌, refl, inl, inr, arith, ok, ◌==◌,
  ◌&&◌, is_empty, if◌then◌else◌, Bool-cases, Option-cases, eq_refl,
}
use webpier.Ptree.{PropertyTree}
use webpier.Map.{find, find-update}
use webpier.Store.Types.{Config, Service}
use webpier.Backend.Message.{
  Handle, handle_key, Command, engage, unplug, Health, handle, make, naught,
}
use webpier.Backend.Message.Codec.{push_message}
use webpier.Backend.Controller
use webpier.Backend.Controller.{Controller, suspend}
use webpier.Backend.Engine.Wire.{comply-answered, done-IsReply}
use webpier.Backend.Engine.{
  Pool, Home, load_one, sleeps, engage_one, unplug_one, unplug_loaded, health_of, status_one,
}
use webpier.Backend.Engine.Commands.{Splits}
use webpier.Backend.Engine.Comply.{comply, obey}
use webpier.Backend.Engine.Single.{one-states}
use webpier.Backend.Client.{call_for, status_for}
use webpier.Backend.Client.Answers.{status_for-comply}
use webpier.Ui.Window.{Window, Row, Bar, Image, status_bitmap}
use webpier.Ui.Window.States.{row_handle, show_one, refresh_one}
use webpier.Ui.Window.Actions.{Backend, is_active, command, toggle}

-- the backend at the other end of the socket
abbrev pub over_socket : (String → List String) → Home → PropertyTree → Backend Pool
over_socket split home lib = record {
  tell = λ action id pool.
      let request = push_message lib (record { action = action; payload = handle id }) in
      (
        (comply split home lib request pool).0,
        call_for lib (λ text. ok (comply split home lib text pool).1) action id,
      );
  ask = λ id pool. status_for lib (λ text. ok (comply split home lib text pool).1) id;
}

-- the image of the first row that is the handle's
abbrev pub image_of : Handle → Window → List Row → Option Image
image_of id w [] = none
image_of id w (row ∷ rows) =
    let later = image_of id w rows in
    let own = row_handle w row in
    if (id.service == own.service) && (id.pier == own.pier) then some row.icon else later

show_one-image :
    (w : Window) (health : Health) (id : Handle) (i : ℕ) (rows : List Row) (bar : Bar) (old : Image)
    → image_of id w rows ≡ some old
    → image_of id w (show_one w health id i rows bar).rows ≡ some (status_bitmap health.state)
unfolding show_one
show_one-image w health id i [] bar old h = cc
show_one-image w health id i (row ∷ rows) bar old h =
    let own = row_handle w row in
    elim (Bool-cases ((id.service == own.service) && (id.pier == own.pier))) [
      | inl t ↦ rw (t, t) refl
      | inr f ↦
          let later : image_of id w rows ≡ some old = ground arith in
          rw (f, f) (show_one-image w health id (suc i) rows bar old later)
    ]

module _ (split : String → List String) (home : Home) (lib : PropertyTree) where
  pub told_engage :
      (id : Handle) (pool : Pool)
      → ((over_socket split home lib).tell engage id pool).0 ≡ (engage_one split home id pool).pool
  unfolding obey
  told_engage id pool =
      (comply-answered split home lib (record { action = engage; payload = handle id })
        (make naught) pool (tt, tt) (done-IsReply (engage_one split home id pool))).0

  pub told_unplug :
      (id : Handle) (pool : Pool)
      → ((over_socket split home lib).tell unplug id pool).0 ≡ (unplug_one home id pool).pool
  unfolding obey
  told_unplug id pool =
      (comply-answered split home lib (record { action = unplug; payload = handle id })
        (make naught) pool (tt, tt) (done-IsReply (unplug_one home id pool))).0

  asked :
      (id : Handle) (pool : Pool) (c : Controller)
      → find id pool ≡ some c
      → (over_socket split home lib).ask id pool ≡ ok (health_of id c)
  unfolding status_one
  asked id pool c e = rw (status_for-comply split home lib pool id, status_one, e) refl

  command-shows :
      (what : String) (action : Command) (id : Handle) (w : Window) (pool next : Pool)
      (c : Controller) (old : Image)
      → ((over_socket split home lib).tell action id pool).0 ≡ next
      → find id next ≡ some c
      → image_of id w w.rows ≡ some old
      → let r = command (over_socket split home lib) what action id w pool in
        (r.1 ≡ next) × (image_of id r.0 r.0.rows ≡ some (status_bitmap (Controller.state c)))
  unfolding command refresh_one show_one
  command-shows what action id w pool next c old t f h =
      rw (t, asked id next c f) (refl, show_one-image w (health_of id c) id 0 w.rows w.bar old h)

  unplug-kept :
      (id : Handle) (pool : Pool) (conf : Config) (serv : Service) (c : Controller)
      → load_one home id ≡ ok (conf, serv)
      → is_empty serv.name ≡ false
      → find id pool ≡ some c
      → (after : Controller) × (find id (unplug_one home id pool).pool ≡ some after)
  unfolding unplug_one unplug_loaded
  unplug-kept id pool conf serv c l n f = elim (Bool-cases (sleeps id pool)) [
    | inl t ↦ (c, rw (l, n, t) f)
    | inr t ↦ (
      suspend c,
      rw (l, n, t, find-update id id suspend pool, eq_refl (handle_key.text id), f) refl,
    )
  ]

  -- Activating a row sends the command to the backend: the service's controller is asleep afterwards
  -- exactly when the window took it for active, and the row shows the state of the controller. The
  -- service is on disk and in the pool, its row is in the list, and `boost::split` returns at least
  -- one token.
  pub toggle-switches :
      (row : Row) (w : Window) (pool : Pool) (conf : Config) (serv : Service) (c : Controller)
      (old : Image)
      → let id = row_handle w row in
        Splits split
        → load_one home id ≡ ok (conf, serv)
        → is_empty serv.name ≡ false
        → find id pool ≡ some c
        → image_of id w w.rows ≡ some old
        → let r = toggle (over_socket split home lib) row w pool in
          (sleeps id r.1 ≡ is_active id w.status)
          × ((after : Controller) × (find id r.1 ≡ some after)
              × (image_of id r.0 r.0.rows ≡ some (status_bitmap (Controller.state after))))
  unfolding toggle
  toggle-switches row w pool conf serv c old splits l n f shown =
      let id = row_handle w row in
      let states = one-states split home id pool conf serv splits l n in
      let what : String = "Can't change state of the service. " in
      elim (Bool-cases (is_active id w.status)) [
        | inl t ↦
            let kept = unplug-kept id pool conf serv c l n f in
            let done =
              command-shows what unplug id w pool (unplug_one home id pool).pool kept.0 old
                (told_unplug id pool) kept.1 shown in
            rw t (rw done.0 states.2, (kept.0, rw done.0 kept.1, done.1))
        | inr t ↦ elim (Option-cases (find id (engage_one split home id pool).pool)) [
          | inl e ↦ let no : ⊥ = ground (arith, states.0, e) in absurd no
          | inr (d, e) ↦
              let done =
                command-shows what engage id w pool (engage_one split home id pool).pool d old
                  (told_engage id pool) e shown in
              rw t (rw done.0 states.1, (d, rw done.0 e, done.1))
        ]
      ]
