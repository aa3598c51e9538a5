-- ===== src/Backend/Server/Answers.antt =====
-- The clients of `server_impl` of src/backend/server.cpp see a server that obeys one request at a time.
use webpier.Base.{
  ℕ, String, Bool, Option, none, some, List, [], ◌∷◌, ◌≡◌, ◌⊎◌, ok, err, same, if◌then◌else◌,
}
use webpier.Slots.{get_elem?}
use webpier.Backend.Connector.{Posted}
use webpier.Ptree.{PropertyTree}
use webpier.Backend.Engine.{Pool, unplug_all}
use webpier.Backend.Engine.Comply.{comply}
use webpier.Backend.Server.{
  Phase, reading, writing, closed, Asked, request, finished, Server, happen_at, happened,
}

-- the answers that were written to a client, the last first
pub sent_to : {Text : Type 0} → ℕ → List (ℕ × Text) → List Text
sent_to id [] = []
sent_to id ((j, a) ∷ rest) = if same j id then a ∷ sent_to id rest else sent_to id rest

-- What a client was sent, against what it is due: as long as it is there, it lacks the answer that is
-- being written, at most. One that has gone may lack its last answer.
abbrev pub Matches : {Text : Type 0} → Option (Phase Text) → List Text → List Text → Type 0
Matches none got due = (got ≡ []) × (due ≡ [])
Matches (some reading) got due = got ≡ due
Matches {Text} (some closed) got due = (got ≡ due) ⊎ ((a : Text) × (a ∷ got ≡ due))
Matches (some (writing a)) got due = a ∷ got ≡ due

module _ (split : String → List String) (lib : PropertyTree)
    (Ends : Bool → Option Posted → Type 0) where
  open lib use {Text}

  -- The sequential server: the pool after requests that are obeyed and events that happen one by one,
  -- the last first, ...
  pub pool_after : List (Asked Text) → Pool → Pool
  pool_after [] pool = pool
  pool_after (request id home text ∷ rest) pool =
      (comply split home lib text (pool_after rest pool)).0
  pool_after (finished home ∷ rest) pool = (unplug_all home (pool_after rest pool)).pool
  pool_after (happened id pier event ∷ rest) pool =
      let before = pool_after rest pool in
      elim (happen_at id pier event before) [ err what ↦ before | ok after_it ↦ after_it ]

  -- ... and the answers to one client, the last first.
  pub answers_to : ℕ → List (Asked Text) → Pool → List Text
  answers_to id [] pool = []
  answers_to id (request j home text ∷ rest) pool =
      let answer = (comply split home lib text (pool_after rest pool)).1 in
      if same j id then answer ∷ answers_to id rest pool else answers_to id rest pool
  answers_to id (finished home ∷ rest) pool = answers_to id rest pool
  answers_to id (happened j pier event ∷ rest) pool = answers_to id rest pool

  pub record IsSequential (start : Pool) (s : Server Text) : Type 0 where
    pub same_pool : s.pool ≡ pool_after s.asked start
    pub matches :
        (id : ℕ)
        → Matches (get_elem? s.clients id) (sent_to id s.sent) (answers_to id s.asked start)
