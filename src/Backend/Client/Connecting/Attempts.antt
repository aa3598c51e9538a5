-- ===== src/Backend/Client/Connecting/Attempts.antt =====
-- How long the constructor of `client_impl` tries, and what it comes to.
use webpier.Base.{
  ℕ, zero, suc, ◌+◌, ◌*◌, ◌≤◌, false, List, [], ◌∷◌, ◌≡◌, refl, arith, if◌then◌else◌, not,
}
use webpier.Backend.Client.Connecting.{
  ErrorCode, success, is_retried, is_failure, attempt, connect_all, open_client,
}

abbrev pub total : List ℕ → ℕ
total [] = 0
total (x ∷ xs) = x + total xs

-- the milliseconds of the timers before so many attempts
abbrev pub budget : ℕ → ℕ → ℕ
budget zero i = 0
budget (suc left) i = i * 500 + budget left (suc i)

-- what the last attempt answered, when each one but the last is retried
abbrev pub last_answer : (ℕ → ErrorCode) → ℕ → ℕ → ErrorCode → ErrorCode
last_answer connect zero i ec = ec
last_answer connect (suc left) i ec =
    let rest = last_answer connect left (suc i) (connect i) in
    if is_retried (connect i) then rest else connect i

module _ (connect wait : ℕ → ErrorCode) where
  attempt-calls : (left i : ℕ) (ec : ErrorCode) → (attempt connect wait left i ec).calls ≤ left
  unfolding attempt
  attempt-calls zero i ec = omega arith
  attempt-calls (suc left) i ec = ground (arith, attempt-calls left (suc i) (connect i))

  attempt-delays :
      (left i : ℕ) (ec : ErrorCode) → total (attempt connect wait left i ec).delays ≤ budget left i
  unfolding attempt
  attempt-delays zero i ec = omega arith
  attempt-delays (suc left) i ec = ground (arith, attempt-delays left (suc i) (connect i))

  attempt-ec :
      (left i : ℕ) (ec : ErrorCode)
      → ((n : ℕ) → is_failure (wait n) ≡ false)
      → (attempt connect wait left i ec).ec ≡ last_answer connect left i ec
  unfolding attempt
  attempt-ec zero i ec h = refl
  attempt-ec (suc left) i ec h = ground (arith, attempt-ec left (suc i) (connect i) h, h i)

-- The constructor calls `connect_server` five times at most, waits five seconds at most altogether,
-- and comes to the first answer that is neither "no such file" nor "connection refused", or to the
-- fifth answer: the client that it makes is connected exactly when that is no error. The timers end
-- without an error.
pub connect_all-ends :
    (connect wait : ℕ → ErrorCode)
    → ((n : ℕ) → is_failure (wait n) ≡ false)
    → let final = last_answer connect 5 0 success in
      ((connect_all connect wait).calls ≤ 5)
      × (total (connect_all connect wait).delays ≤ 5000)
      × (open_client connect wait ≡ not (is_failure final))
unfolding connect_all open_client
connect_all-ends connect wait h = (
  attempt-calls connect wait 5 0 success,
  attempt-delays connect wait 5 0 success,
  rw (attempt-ec connect wait 5 0 success h) refl,
)
