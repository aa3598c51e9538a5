-- ===== src/Backend/Client/Answers.antt =====
-- What the user interface gets from the backend, from one end to the other.
use webpier.Base.{
  String, true, false, Option, some, List, Result, ok, err, ◌>>=◌, ◌>>◌, if◌then◌else◌, ◌≡◌, ◌⊎◌,
  refl, ap, is_empty, Option-cases, inl, inr, Bool-cases,
}
use webpier.Ptree.{PropertyTree}
use webpier.Map.{find, find_key}
use webpier.Backend.Message.{
  Handle, handle_key, Health, Report, Command, naught, unplug, engage, adjust, status, review,
  Content, error, handle, health, report, Message, make, is_ok, is_naught,
}
use webpier.Backend.Message.RoundTrip.{IsMessage}
use webpier.Backend.Engine.{
  Pool, Home, health_of, report_of, status_one, report_one, status_all, report_all, engage_one,
  adjust_one, unplug_one,
}
use webpier.Backend.Engine.Comply.{obey, reply, comply}
use webpier.Backend.Engine.Wire.{
  FitsInt, IsReply, done-IsReply, ok-IsReply, status_one-IsHealth, obey-IsReply, comply-answered,
}
use webpier.Backend.Message.Codec.{Pulled}
use webpier.Backend.Client.{
  take, receive, perform, call_for, status_for, review_for, status_every, review_every, get_text,
  get_health, get_report, get_healths, get_reports, server_error,
}

-- What an error of the backend is to the user interface. An empty one passes for success.
abbrev pub reported {ℓ} : {A : Type ℓ} → Result A → Result A
reported (ok a) = ok a
reported (err e) = err (server_error e)

abbrev pub called : Result (Unit {0}) → Result (Unit {0})
called (ok a) = ok tt
called (err e) = if is_empty e then ok tt else err (server_error e)

status_one-cases :
    (id : Handle) (pool : Pool)
    → (status_one id pool ≡ err "unknown service") ⊎ ((h : Health) × (status_one id pool ≡ ok h))
unfolding status_one
status_one-cases id pool = elim (Option-cases (find id pool)) [
  | inl t ↦ inl (rw (t, status_one) refl)
  | inr (c, t) ↦ inr (health_of id c, rw (t, status_one) refl)
]

report_one-cases :
    (id : Handle) (pool : Pool)
    → (report_one id pool ≡ err "unknown service") ⊎ ((h : Report) × (report_one id pool ≡ ok h))
unfolding report_one
report_one-cases id pool = elim (Option-cases (find id pool)) [
  | inl t ↦ inl (rw (t, report_one) refl)
  | inr (c, t) ↦ elim (Option-cases (find_key id pool)) [
    | inl u ↦ inl (rw (t, u, report_one) refl)
    | inr (j, u) ↦ inr (report_of j c, rw (t, u, report_one) refl)
  ]
]

module _ (split : String → List String) (home : Home) (lib : PropertyTree) (pool : Pool) where
  open lib use {Text}

  -- a socket with this backend behind it
  abbrev pub backend : Text → Result Text
  backend text = ok (comply split home lib text pool).1

  perform-comply {ℓ} :
      {A : Type ℓ} (get : Content → Option A) (m : Message)
      → IsMessage m
      → IsReply (obey split home m.action m.payload pool).result
      → perform lib backend get m
        ≡ take get (reply split home m.action (obey split home m.action m.payload pool).result)
  unfolding perform receive
  perform-comply get m h k =
      ap (λ (p : Pulled). take get p.msg)
        (comply-answered split home lib m (make naught) pool h k).1

  taken :
      (command : Command) (r : Result (Unit {0}))
      → is_naught command ≡ false
      → (do answer ← take get_text (reply split home command (do r; ok (error ""))); ok tt)
        ≡ called r
  unfolding take reply
  taken command (ok a) h = rw h refl
  taken command (err e) h = elim (Bool-cases (is_empty e)) [
    | inl t ↦ rw (h, t) refl
    | inr f ↦ rw (h, f) refl
  ]

  taken_one {ℓ} :
      {A : Type ℓ} (command : Command) (r : Result A) (to : A → Content) (get : Content → Option A)
      → is_naught command ≡ false
      → (r ≡ err "unknown service") ⊎ ((a : A) × (r ≡ ok a))
      → ((a : A)
          → (get (to a) ≡ some a) × (is_ok (record { action = command; payload = to a }) ≡ true))
      → take get (reply split home command (do a ← r; ok (to a))) ≡ reported r
  unfolding take reply
  taken_one command r to get n (inl t) k = rw (t, n) refl
  taken_one command r to get n (inr (a, t)) k = rw (t, (k a).1, (k a).0) refl

  -- A call on one service comes to what the command on it comes to: it returns when that returns, and
  -- throws the backend's error when that throws one that is not empty.
  pub call_for-comply :
      (id : Handle)
      → (call_for lib backend engage id ≡ called (engage_one split home id pool).result)
        × (call_for lib backend adjust id ≡ called (adjust_one split home id pool).result)
        × (call_for lib backend unplug id ≡ called (unplug_one home id pool).result)
  unfolding call_for obey
  call_for-comply id = (
    rw
        (perform-comply get_text (record { action = engage; payload = handle id }) (tt, tt)
          (done-IsReply (engage_one split home id pool)))
        (taken engage (engage_one split home id pool).result refl),
    rw
        (perform-comply get_text (record { action = adjust; payload = handle id }) (tt, tt)
          (done-IsReply (adjust_one split home id pool)))
        (taken adjust (adjust_one split home id pool).result refl),
    rw
        (perform-comply get_text (record { action = unplug; payload = handle id }) (tt, tt)
          (done-IsReply (unplug_one home id pool)))
        (taken unplug (unplug_one home id pool).result refl),
  )

  pub status_for-comply : (id : Handle) → status_for lib backend id ≡ reported (status_one id pool)
  unfolding status_for obey
  status_for-comply id =
      rw
        (perform-comply get_health (record { action = status; payload = handle id }) (tt, tt)
          (ok-IsReply health (status_one id pool) (status_one-IsHealth id pool)))
        (taken_one status (status_one id pool) health get_health refl (status_one-cases id pool)
          (λ a. (refl, refl)))

  -- The states and reports that the user interface gets are those of the pool, for all services or for
  -- one, and asking for a service that the pool does not have throws the backend's error. The
  -- process ids in the pool are below 2 ^ 31.
  pub status-comply :
      (id : Handle)
      → FitsInt pool
      → (status_every lib backend ≡ ok (status_all pool))
        × (review_every lib backend ≡ ok (report_all pool))
        × (status_for lib backend id ≡ reported (status_one id pool))
        × (review_for lib backend id ≡ reported (report_one id pool))
  unfolding status_every review_every review_for obey take reply
  status-comply id fits = (
    rw
        (perform-comply get_healths (make status) (tt, tt)
          (obey-IsReply split home status (error "") pool fits))
        refl,
    rw
        (perform-comply get_reports (make review) (tt, tt)
          (obey-IsReply split home review (error "") pool fits))
        refl,
    status_for-comply id,
    rw
        (perform-comply get_report (record { action = review; payload = handle id }) (tt, tt)
          (obey-IsReply split home review (handle id) pool fits))
        (taken_one review (report_one id pool) report get_report refl (report_one-cases id pool)
          (λ a. (refl, refl))),
  )
