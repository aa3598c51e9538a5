-- ===== src/Backend/Tests/Clients.antt =====
-- The theorems about the clients of the backend: one comes, asks for the states, and is answered.
use webpier.Base.{
  ℕ, Option, Bool, true, false, some, [], ◌≡◌, refl, Result, ok, err, same, if◌then◌else◌,
}
use webpier.Slots.{get_elem?, set, count}
use webpier.Ptree.Sample.{sample}
use webpier.Backend.Message.{error, status}
use webpier.Backend.Message.Codec.{push_message}
use webpier.Map.{find, update, emplace, insert}
use webpier.Store.Types.{Service}
use webpier.Backend.Engine.{
  engage_all, reload, reload_all, reload_one, load_all, handles, of_pier, engage_known, start,
}
use webpier.Backend.Engine.Comply.{comply}
use webpier.Backend.Server.{
  Server, Phase, closed, stopped, idle, on_accept, on_read, on_written, on_event, happen_at,
  cleanup, employ,
}
use webpier.Backend.Server.Moves.{Reach, after, at_start, accepts, happens, reads, writes}
use webpier.Backend.Server.Score.{IsCounted, is_open, Reach-score}
use webpier.Backend.Tests.{words, home, config, ssh, ssh_id}
use webpier.Backend.Controller
use webpier.Backend.Connector
use webpier.Backend.Controller.{Controller}
use webpier.Backend.Connector.{Connector, Posted, Event, posts, fallback, fresh, happen}
open sample use {Text}

-- plexus may end its calls as it likes
abbrev AnyEnd : Bool → Option Posted → Type 0
AnyEnd is_export last = Unit

abbrev question : Text
question = push_message sample (record { action = status; payload = error "" })

abbrev started : Server Text
started = (employ words home idle).0

abbrev come : Server Text
come = on_accept started

abbrev engaged : Controller
engaged = Controller.restart words config ssh []

abbrev running_ssh : Connector
running_ssh =
    let alone : Service = record ssh { pier = "earth/eve" } in
    Connector.restart config alone (fresh config alone)

-- a connector of the engaged service is told an error
abbrev trouble : Event
trouble = posts (fallback "timed out")

abbrev troubled : Server Text
troubled = on_event ssh_id "earth/eve" trouble come

abbrev asking : Server Text
asking = on_read words sample home 0 question troubled

abbrev reply : Text
reply = (comply words home sample question troubled.pool).1

abbrev served : Server Text
served = on_written 0 reply asking

served-Reach : Reach words sample AnyEnd started served
unfolding employ on_accept on_read on_event happen_at happen engage_all reload reload_all reload_one
    load_all handles of_pier engage_known start find update emplace insert Controller.restart
    Controller.restart_all Controller.restart_pier Controller.drop_others Controller.to_set
    Connector.restart words
served-Reach =
    after
      (after
        (after (after at_start (accepts refl refl))
          (happens ssh_id "earth/eve" trouble engaged running_ssh refl refl refl refl refl))
        (reads home 0 question refl refl refl))
      (writes 0 reply refl refl refl)

Reach-score_example :
    IsCounted served
    × ((autostart : Result Bool) (id : ℕ) (phase : Phase Text)
        → get_elem? served.clients id ≡ some phase
        → is_open phase ≡ true
        → (cleanup autostart id served).loop ≡ (
            if same (count is_open (set served.clients id closed)) 0
            then (elim autostart [
              | ok found ↦ if found then served.loop else stopped
              | err what ↦ served.loop
            ])
            else served.loop))
Reach-score_example = Reach-score words sample AnyEnd home served-Reach

-- the only client leaves, and nothing starts the backend by itself
last_leaves : (cleanup (ok false) 0 served).loop ≡ stopped
unfolding employ on_accept on_read on_written on_event happen_at happen engage_all reload reload_all
    reload_one load_all handles of_pier engage_known start find update emplace insert
    Controller.restart Controller.restart_all Controller.restart_pier Controller.drop_others
    Controller.to_set Connector.restart words cleanup
last_leaves = refl
