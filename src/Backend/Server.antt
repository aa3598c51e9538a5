-- ===== src/Backend/Server.antt =====
-- `server_impl` of src/backend/server.cpp: the accepted clients, each of which asks and is answered in
-- turn, and the score of those that are there. A client is known by its place in the order in which
-- the clients came. The sockets are asio's; `run` is `m_io.run()`.
pub mod Moves
pub mod Score
pub mod Answers
use webpier.Base.{
  ℕ, ◌+◌, ◌-◌, String, Bool, true, false, Option, none, some, List, [], ◌∷◌, ◌++◌, Result, ok, err,
  same, if◌then◌else◌,
}
use webpier.Slots.{set}
use webpier.Map.{find, update, string_key}
use webpier.Backend.Message.{Handle, handle_key}
use webpier.Backend.Connector.{Event, happen}
use webpier.Ptree.{PropertyTree}
use webpier.Backend.Engine.{Pool, Home, Outcome, engage_all, unplug_all}
use webpier.Backend.Engine.Comply.{comply}

-- Where the coroutine of a client stands: at `async_read_until`, at `async_write` of an answer, or
-- behind `cleanup`.
pub data Phase (Text : Type 0) : Type 0 where
  reading closed : Phase Text
  writing : Text → Phase Text

-- `m_io`: it runs, was stopped, or was left by an exception.
pub data Loop : Type 0 where
  running stopped : Loop
  thrown : String → Loop

-- What changed the pool, the last first: a request of a client, or `finish`, with the disk as it was
-- then; or what happened to a connector of a service by itself.
pub data Asked (Text : Type 0) : Type 0 where
  request : ℕ → Home → Text → Asked Text
  finished : Home → Asked Text
  happened : Handle → String → Event → Asked Text

-- The server, with what went over the sockets: the answers that were written, the last first.
pub record Server (Text : Type 0) : Type 0 where
  pub pool : Pool
  pub score : ℕ
  pub clients : List (Phase Text)
  pub loop : Loop
  pub asked : List (Asked Text)
  pub sent : List (ℕ × Text)

-- what `--m_score == 0` leads to; `autostart` is `verify_autostart(m_home)`, whose exception ends the
-- coroutine, which is detached, and nothing else
abbrev pub after_last : Result Bool → Loop → Loop
after_last (ok found) loop = if found then loop else stopped
after_last (err what) loop = loop

-- something happens to the connector of a service for a pier; one that is gone is passed by
unfoldable pub happen_at : Handle → String → Event → Pool → Result Pool
happen_at id pier event pool = elim (find id pool) [
  | none ↦ ok pool
  | some bundle ↦ elim (find pier bundle) [
    | none ↦ ok pool
    | some c ↦ elim (happen event c) [
      | err what ↦ err what
      | ok next ↦ ok (update id (update pier (λ old. next)) pool)
    ]
  ]
]

module _ {Text : Type 0} where
  -- the constructor
  abbrev pub idle : Server Text
  idle = record { pool = []; score = 0; clients = []; loop = running; asked = []; sent = [] }

  -- the handler of `async_accept` without an error
  unfoldable pub on_accept : Server Text → Server Text
  on_accept s = record s { score = s.score + 1; clients = s.clients ++ (reading ∷ []) }

  -- with an error
  unfoldable pub on_accept_error : (aborted : Bool) → String → Server Text → Server Text
  on_accept_error aborted what s = record s { loop = if aborted then stopped else thrown what }

  -- a handler of a connector, which the main loop runs as well, or its thread; what is thrown leaves
  -- the loop
  unfoldable pub on_event : Handle → String → Event → Server Text → Server Text
  on_event id pier event s = elim (happen_at id pier event s.pool) [
    | err what ↦ record s { loop = thrown what }
    | ok pool ↦ record s { pool = pool; asked = happened id pier event ∷ s.asked }
  ]

  -- `cleanup`
  unfoldable pub cleanup : Result Bool → ℕ → Server Text → Server Text
  cleanup autostart id s =
      let score = s.score - 1 in
      record s {
        score = score;
        clients = set s.clients id closed;
        loop = if same score 0 then after_last autostart s.loop else s.loop;
      }

  -- `async_write` returned without an error, and `handle` starts again
  unfoldable pub on_written : ℕ → Text → Server Text → Server Text
  on_written id answer s = record s {
    clients = set s.clients id reading;
    sent = (id, answer) ∷ s.sent;
  }

module _ (split : String → List String) where
  -- `employ`
  unfoldable pub employ : {Text : Type 0} → Home → Server Text → Server Text × Result (Unit {0})
  employ home s = let o = engage_all split home s.pool in (record s { pool = o.pool }, o.result)

  module _ (lib : PropertyTree) where
    open lib use {Text}

    -- `async_read_until` returned without an error
    unfoldable pub on_read : Home → ℕ → Text → Server Text → Server Text
    on_read home id text s =
        let (pool, answer) = comply split home lib text s.pool in
        record s {
          pool = pool;
          clients = set s.clients id (writing answer);
          asked = request id home text ∷ s.asked;
        }

-- what `finish` comes to: `cancel` is `noexcept`
abbrev pub after_finish : Result (Unit {0}) → Loop → Loop
after_finish (ok done) loop = loop
after_finish (err what) loop = thrown what

-- `cancel`
unfoldable pub cancel : {Text : Type 0} → Home → Server Text → Server Text
cancel home s =
    let o = unplug_all home s.pool in
    record s { pool = o.pool; loop = after_finish o.result s.loop; asked = finished home ∷ s.asked }
