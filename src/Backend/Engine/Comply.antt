-- ===== src/Backend/Engine/Comply.antt =====
-- `engine::comply` of src/backend/server.cpp: a request is read, obeyed and answered.
use webpier.Base.{String, none, some, List, Result, ok, err, ◌>>=◌, ◌>>◌}
use webpier.Ptree.{PropertyTree}
use webpier.Backend.Message.{
  Handle, handle_key, Command, naught, unplug, engage, adjust, status, review, Content, error,
  handle, health, report, healths, reports, Message, make,
}
use webpier.Backend.Message.Codec.{Pulled, pull_message, push_message}
use webpier.Backend.Engine.{
  Pool, Home, Outcome, engage_all, adjust_all, unplug_all, engage_one, adjust_one, unplug_one,
  status_all, status_one, report_all, report_one,
}

-- `payload.index() == 1 ? f(std::get<handle>(payload)) : f()`
abbrev pub by_handle {ℓ} : {A : Type ℓ} → Content → (Handle → A) → A → A
by_handle (handle id) one all = one id
by_handle _ one all = all

-- `message::make(action)` when the command returned
abbrev pub done : Outcome (Unit {0}) → Outcome Content
done o = record { pool = o.pool; result = (do o.result; ok (error "")) }

abbrev pub answer : Pool → Result Content → Outcome Content
answer pool r = record { pool = pool; result = r }

module _ (split : String → List String) (home : Home) where
  -- the `switch` of `comply`
  unfoldable pub obey : Command → Content → Pool → Outcome Content
  obey unplug payload pool =
      done (by_handle payload (λ id. unplug_one home id pool) (unplug_all home pool))
  obey engage payload pool =
      done (by_handle payload (λ id. engage_one split home id pool) (engage_all split home pool))
  obey adjust payload pool =
      done (by_handle payload (λ id. adjust_one split home id pool) (adjust_all split home pool))
  obey status payload pool = answer pool (
      by_handle payload (λ id. do h ← status_one id pool; ok (health h))
        (ok (healths (status_all pool))))
  obey review payload pool = answer pool (
      by_handle payload (λ id. do r ← report_one id pool; ok (report r))
        (ok (reports (report_all pool))))
  obey _ payload pool = answer pool (ok (error "wrong command"))

  -- the answer, by the `catch` or without it
  unfoldable pub reply : Command → Result Content → Message
  reply action (ok c) = record { action = action; payload = c }
  reply action (err e) = record { action = action; payload = error e }

  module _ (lib : PropertyTree) where
    open lib use {Text}

    -- what is between reading and answering
    unfoldable pub serve : Pulled → Pool → Pool × Message
    serve pulled pool = elim pulled.thrown [
      | some what ↦ (pool, reply pulled.msg.action (err what))
      | none ↦
          let o = obey pulled.msg.action pulled.msg.payload pool in
          (o.pool, reply pulled.msg.action o.result)
    ]

    -- `comply(request)`: the answer takes the request's place in the buffer
    unfoldable pub comply : Text → Pool → Pool × Text
    unfolding serve
    comply text pool =
        let (pool', res) = serve (pull_message lib text (make naught)) pool in
        (pool', push_message lib res)
