-- ===== src/Backend/Server/Moves.antt =====
-- The moves of the sockets and of the main loop around `server_impl` of src/backend/server.cpp.
use webpier.Base.{ℕ, String, Bool, Option, some, List, ◌≡◌, ◌≢◌, Result}
use webpier.Slots.{get_elem?}
use webpier.Map.{find, string_key}
use webpier.Backend.Message.{Handle, handle_key}
use webpier.Backend.Connector.{Connector, Posted, Event, CanBe}
use webpier.Backend.Controller.{Controller}
use webpier.Ptree.{PropertyTree}
use webpier.Backend.Engine.{Home}
use webpier.Backend.Server.{
  Phase, reading, writing, closed, running, Server, on_accept, on_accept_error, cleanup, on_written,
  on_read, on_event, cancel,
}

module _ (split : String → List String) (lib : PropertyTree)
    (Ends : Bool → Option Posted → Type 0) where
  open lib use {Text}

  -- One handler runs at a time, and none once the loop was left. The disk is another at each move. An
  -- error of a socket is one at the place where the client's coroutine stands. Between the requests the
  -- connectors of the pool move by themselves.
  pub data Step (s t : Server Text) : Type 0 where
    accepts : s.loop ≡ running → t ≡ on_accept s → Step s t
    accept_fails :
        (aborted : Bool) (what : String)
        → s.loop ≡ running
        → t ≡ on_accept_error aborted what s
        → Step s t
    reads :
        (home : Home) (id : ℕ) (text : Text)
        → s.loop ≡ running
        → get_elem? s.clients id ≡ some reading
        → t ≡ on_read split lib home id text s
        → Step s t
    writes :
        (id : ℕ) (answer : Text)
        → s.loop ≡ running
        → get_elem? s.clients id ≡ some (writing answer)
        → t ≡ on_written id answer s
        → Step s t
    leaves :
        (autostart : Result Bool) (id : ℕ) (phase : Phase Text)
        → s.loop ≡ running
        → get_elem? s.clients id ≡ some phase
        → phase ≢ closed
        → t ≡ cleanup autostart id s
        → Step s t
    happens :
        (id : Handle) (pier : String) (event : Event) (bundle : Controller) (c : Connector)
        → s.loop ≡ running
        → find id s.pool ≡ some bundle
        → find pier bundle ≡ some c
        → CanBe Ends event c
        → t ≡ on_event id pier event s
        → Step s t
    cancels : (home : Home) → s.loop ≡ running → t ≡ cancel home s → Step s t

  pub data Reach (s : Server Text) : Server Text → Type 0 where
    at_start : Reach s s
    after : {t u : Server Text} → Reach s t → Step t u → Reach s u
