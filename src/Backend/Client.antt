-- ===== src/Backend/Client.antt =====
-- `client_impl` of src/backend/client.cpp: what the user interface asks of the backend. The socket is
-- a function that answers a text with a text, or fails with an error of the socket.
pub mod Answers
pub mod Connecting
use webpier.Base.{
  String, ◌<>◌, Bool, true, false, Option, none, some, List, Result, ok, err, or_throw, ◌>>=◌, ◌>>◌,
  if◌then◌else◌,
}
use webpier.Ptree.{PropertyTree}
use webpier.Backend.Message.{
  Handle, Health, Report, Command, naught, unplug, engage, adjust, status, review, Content, error,
  handle, health, report, healths, reports, Message, make, is_ok,
}
use webpier.Backend.Message.Codec.{Pulled, pull_message, push_message}

abbrev pub bad_variant : String
bad_variant = "bad_variant_access"

-- `std::get<result>`
abbrev pub get_text : Content → Option String
get_text (error e) = some e
get_text _ = none

abbrev pub get_health : Content → Option Health
get_health (health h) = some h
get_health _ = none

abbrev pub get_report : Content → Option Report
get_report (report r) = some r
get_report _ = none

abbrev pub get_healths : Content → Option (List Health)
get_healths (healths hs) = some hs
get_healths _ = none

abbrev pub get_reports : Content → Option (List Report)
get_reports (reports rs) = some rs
get_reports _ = none

abbrev pub server_error : String → String
server_error e = "The server reported the error '" <> e <> "'"

-- the end of `perform`, with the response that was read
unfoldable pub take {ℓ} : {A : Type ℓ} → (Content → Option A) → Message → Result A
take get m =
    if is_ok m
    then or_throw (get m.payload) bad_variant
    else (do e ← or_throw (get_text m.payload) bad_variant; err (server_error e))

module _ (lib : PropertyTree) (exchange : lib.Text → Result (lib.Text)) where
  -- The response, which is `message{}` before. What the coroutine throws is discarded with it: the
  -- response stays as it is then.
  unfoldable pub receive : Result (lib.Text) → Message
  receive (err what) = make naught
  receive (ok text) = (pull_message lib text (make naught)).msg

  unfoldable pub perform {ℓ} : {A : Type ℓ} → (Content → Option A) → Message → Result A
  perform get request = take get (receive (exchange (push_message lib request)))

  -- the calls without a service
  unfoldable pub call_all : Command → Result (Unit {0})
  call_all command = do answer ← perform get_text (make command); ok tt

  unfoldable pub status_every : Result (List Health)
  status_every = perform get_healths (make status)

  unfoldable pub review_every : Result (List Report)
  review_every = perform get_reports (make review)

  -- the calls for a service
  unfoldable pub call_for : Command → Handle → Result (Unit {0})
  call_for command id = do
    answer ← perform get_text (record { action = command; payload = handle id })
    ok tt

  unfoldable pub status_for : Handle → Result Health
  status_for id = perform get_health (record { action = status; payload = handle id })

  unfoldable pub review_for : Handle → Result Report
  review_for id = perform get_report (record { action = review; payload = handle id })
