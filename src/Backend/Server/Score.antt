-- ===== src/Backend/Server/Score.antt =====
-- What `m_score` of src/backend/server.cpp counts, and when the loop ends.
use webpier.Base.{
  ℕ, String, Bool, true, false, some, List, ◌≡◌, ◌≢◌, refl, arith, Option, Result-cases, inl, inr,
  Result, ok, err, same, if◌then◌else◌,
}
use webpier.Slots.{get_elem?, set, count, count-append, count-set}
use webpier.Backend.Connector.{Posted, Event}
use webpier.Backend.Message.{Handle}
use webpier.Ptree.{PropertyTree}
use webpier.Backend.Engine.{Home}
use webpier.Backend.Engine.Comply.{comply}
use webpier.Backend.Server.{
  Phase, reading, writing, closed, Server, Loop, stopped, idle, on_accept, on_accept_error,
  after_last, cleanup, on_written, on_read, on_event, happen_at, employ, cancel,
}
use webpier.Backend.Server.Moves.{
  Step, happens, accepts, accept_fails, reads, writes, leaves, cancels, Reach, at_start, after,
}

abbrev pub is_open : {Text : Type 0} → Phase Text → Bool
is_open closed = false
is_open _ = true

-- The score is the number of the clients that are there.
abbrev pub IsCounted : {Text : Type 0} → Server Text → Type 0
IsCounted s = s.score ≡ count is_open s.clients

module _ (split : String → List String) (lib : PropertyTree)
    (Ends : Bool → Option Posted → Type 0) where
  open lib use {Text}

  cleanup-IsCounted :
      (autostart : Result Bool) (id : ℕ) (phase : Phase Text) (s : Server Text)
      → get_elem? s.clients id ≡ some phase
      → is_open phase ≡ true
      → IsCounted s
      → IsCounted (cleanup autostart id s)
  unfolding cleanup
  cleanup-IsCounted autostart id phase s at up h =
      ground (arith, count-set is_open s.clients id phase closed at)

  is_open_lem : (phase : Phase Text) → phase ≢ closed → is_open phase ≡ true
  is_open_lem reading n = refl
  is_open_lem closed n = absurd (n refl)
  is_open_lem (writing a) n = refl

  on_event-IsCounted :
      (id : Handle) (pier : String) (event : Event) (s : Server Text)
      → IsCounted s
      → IsCounted (on_event id pier event s)
  unfolding on_event
  on_event-IsCounted id pier event s h = elim (Result-cases (happen_at id pier event s.pool)) [
    | inl (what, q) ↦ rw (q, on_event) h
    | inr (pool, q) ↦ rw (q, on_event) h
  ]

  Step-IsCounted : {s t : Server Text} → Step split lib Ends s t → IsCounted s → IsCounted t
  unfolding on_accept on_accept_error on_read on_written cancel
  Step-IsCounted {s} (accepts r e) h = rw e (ground (arith, count-append is_open s.clients reading))
  Step-IsCounted {s} (accept_fails aborted what r e) h = rw e h
  Step-IsCounted {s} (reads home id text r at e) h = rw e (
      ground (
        arith,
        count-set is_open s.clients id reading (writing (comply split home lib text s.pool).1) at,
      ))
  Step-IsCounted {s} (writes id answer r at e) h =
      rw e (ground (arith, count-set is_open s.clients id (writing answer) reading at))
  Step-IsCounted {s} (leaves autostart id phase r at up e) h =
      rw e (cleanup-IsCounted autostart id phase s at (is_open_lem phase up) h)
  Step-IsCounted {s} (happens id pier event bundle c r f g m e) h =
      rw e (on_event-IsCounted id pier event s h)
  Step-IsCounted {s} (cancels home r e) h = rw e h

  Reach-IsCounted : {s t : Server Text} → Reach split lib Ends s t → IsCounted s → IsCounted t
  Reach-IsCounted at_start h = h
  Reach-IsCounted (after r m) h = Step-IsCounted m (Reach-IsCounted r h)

  after_last_lem :
      (autostart : Result Bool) (loop : Loop)
      → after_last autostart loop
        ≡ (elim autostart [ ok found ↦ if found then loop else stopped | err what ↦ loop ])
  after_last_lem (ok found) loop = refl
  after_last_lem (err what) loop = refl

  -- Whatever the sockets and connectors do in whatever order, the score is the number of the clients that are there.
  -- When one of them leaves, the loop goes on while another is there; with the last one it stops, unless
  -- the automatic start is found, or looking for it throws: then it goes on without a client.
  pub Reach-score :
      (home : Home) {s : Server Text}
      → Reach split lib Ends (employ split home idle).0 s
      → IsCounted s
        × ((autostart : Result Bool) (id : ℕ) (phase : Phase Text)
            → get_elem? s.clients id ≡ some phase
            → is_open phase ≡ true
            → (cleanup autostart id s).loop ≡ (
                if same (count is_open (set s.clients id closed)) 0
                then (elim autostart [
                  | ok found ↦ if found then s.loop else stopped
                  | err what ↦ s.loop
                ])
                else s.loop))
  unfolding employ cleanup
  Reach-score home {s} r =
      let counted : IsCounted s = Reach-IsCounted r refl in
      (
        counted,
        λ autostart id phase at up.
            rw
              (
                cleanup-IsCounted autostart id phase s at up counted,
                after_last_lem autostart s.loop,
              )
              refl,
      )
