-- ===== src/Backend/Client/Connecting.antt =====
-- The constructor of `client_impl` in src/backend/client.cpp, which connects to the backend, as it is
-- outside Windows. What `connect_server` answers to each attempt, and how the timer before it ends,
-- are functions of the attempt.
pub mod Attempts
use webpier.Base.{
  ℕ, zero, suc, ◌+◌, ◌*◌, String, ◌<>◌, Bool, true, false, List, [], ◌∷◌, not, if◌then◌else◌,
}

-- `boost::system::error_code`
pub data ErrorCode : Type 0 where
  success no_such_file connection_refused : ErrorCode
  other : String → ErrorCode

-- the errors after which the loop goes on
abbrev pub is_retried : ErrorCode → Bool
is_retried no_such_file = true
is_retried connection_refused = true
is_retried _ = false

abbrev pub is_failure : ErrorCode → Bool
is_failure success = false
is_failure _ = true

abbrev pub max_attempts : ℕ
max_attempts = 5

-- What the loop leaves: `ec`, the milliseconds that each timer was set to, and how often
-- `connect_server` was called.
pub record Connected : Type 0 where
  pub ec : ErrorCode
  pub delays : List ℕ
  pub calls : ℕ

module _ (connect wait : ℕ → ErrorCode) where
  -- the loop from attempt `i` on, with so many left
  unfoldable pub attempt : ℕ → ℕ → ErrorCode → Connected
  attempt zero i ec = record { ec = ec; delays = []; calls = 0 }
  attempt (suc left) i ec =
      let next = connect i in
      let rest = attempt left (suc i) next in
      let called : Connected =
        if is_retried next
        then record rest { calls = suc rest.calls }
        else record { ec = next; delays = []; calls = 1 } in
      if is_retried ec
      then if is_failure (wait i)
        then record { ec = wait i; delays = i * 500 ∷ []; calls = 0 }
        else record called { delays = i * 500 ∷ called.delays }
      else called

  unfoldable pub connect_all : Connected
  connect_all = attempt max_attempts 0 success

  -- The constructor: whether the socket of the client is connected. What is thrown when it is not ends
  -- the coroutine, which is detached, so the constructor returns.
  unfoldable pub open_client : Bool
  open_client = not (is_failure connect_all.ec)
