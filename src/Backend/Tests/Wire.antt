-- ===== src/Backend/Tests/Wire.antt =====
-- The theorems about messages at concrete ones.
use webpier.Base.{not, ok, none, some, [], ◌∷◌, ◌≡◌, refl, arith}
use webpier.Ptree.Sample.{sample}
use webpier.Backend.Message.{
  Report, Tunnel, error, handle, report, Message, make, naught, status, review,
}
use webpier.Backend.Message.Codec.{pull_message, push_message}
use webpier.Backend.Message.RoundTrip.{pull-push_message}
use webpier.Backend.Message.LargePid.{pull-push_large_pid}
use webpier.Backend.Engine.Comply.{obey, reply, comply}
use webpier.Backend.Engine.Wire.{Fits, comply-wire}
use webpier.Backend.Message.{engage, adjust, unplug}
use webpier.Backend.Engine.{
  engage_one, adjust_one, unplug_one, status_all, report_all, status_one, report_one,
}
use webpier.Backend.Engine.Wire.{FitsInt}
use webpier.Backend.Client.{call_for, status_every, review_every, status_for, review_for}
use webpier.Backend.Client.Answers.{backend, called, reported, call_for-comply, status-comply}
use webpier.Base.{ℕ, ◌≤◌, ltb, if◌then◌else◌}
use webpier.Backend.Client.Connecting.{
  ErrorCode, success, no_such_file, is_failure, connect_all, open_client,
}
use webpier.Backend.Client.Connecting.Attempts.{last_answer, total, connect_all-ends}
use webpier.Backend.Tests.{words, home, controller, pool, web_id, ssh_id, message, sample_report}

pull-push_message_example :
    pull_message sample (push_message sample message) (make naught)
    ≡ record { msg = message; thrown = none }
pull-push_message_example =
    pull-push_message sample message (make naught) (tt, (tt, (omega arith, (omega arith, tt))))

abbrev request : Message
request = record { action = status; payload = handle web_id }

controller-Fits : Fits controller
controller-Fits = ((omega arith, (omega arith, tt)), (tt, tt))

comply-wire_example :
    let o = obey words home request.action request.payload pool in
    let both = comply words home sample (push_message sample request) pool in
    (both.0 ≡ o.pool)
    × (pull_message sample both.1 (make naught)
        ≡ record { msg = reply words home request.action o.result; thrown = none })
comply-wire_example =
    comply-wire words home sample request (make naught) pool (tt, tt)
      (controller-Fits, (controller-Fits, tt))

abbrev wrapped : Tunnel
wrapped = record { pier = "earth/eve"; pid = 4294967295 }

abbrev large : Report
large = record sample_report { tunnels = wrapped ∷ [] }

pull-push_large_pid_example :
    pull_message sample
      (push_message sample (record { action = review; payload = report large }))
      (make naught)
    ≡ record {
      msg = record { action = review; payload = error "" };
      thrown = some "conversion of data failed";
    }
pull-push_large_pid_example =
    pull-push_large_pid sample review large [] [] wrapped (make naught) tt tt refl (omega arith)

pool-FitsInt : FitsInt pool
pool-FitsInt = (controller-Fits, (controller-Fits, tt))

call_for-comply_example :
    (call_for sample (backend words home sample pool) engage web_id
      ≡ called (engage_one words home web_id pool).result)
    × (call_for sample (backend words home sample pool) adjust web_id
        ≡ called (adjust_one words home web_id pool).result)
    × (call_for sample (backend words home sample pool) unplug web_id
        ≡ called (unplug_one home web_id pool).result)
call_for-comply_example = call_for-comply words home sample pool web_id

status-comply_example :
    (status_every sample (backend words home sample pool) ≡ ok (status_all pool))
    × (review_every sample (backend words home sample pool) ≡ ok (report_all pool))
    × (status_for sample (backend words home sample pool) ssh_id
        ≡ reported (status_one ssh_id pool))
    × (review_for sample (backend words home sample pool) ssh_id
        ≡ reported (report_one ssh_id pool))
status-comply_example = status-comply words home sample pool ssh_id pool-FitsInt

-- the backend is up after the second attempt
abbrev answers : ℕ → ErrorCode
answers n = if ltb n 2 then no_such_file else success

abbrev waits : ℕ → ErrorCode
waits n = success

connect_all-ends_example :
    let final = last_answer answers 5 0 success in
    ((connect_all answers waits).calls ≤ 5)
    × (total (connect_all answers waits).delays ≤ 5000)
    × (open_client answers waits ≡ not (is_failure final))
connect_all-ends_example = connect_all-ends answers waits (λ n. refl)
