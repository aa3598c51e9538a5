-- ===== src/Backend/Tests/Links.antt =====
-- The theorems about connectors and controllers at concrete ones.
use webpier.Base.{
  ℕ, String, Bool, Option, Result, ok, ◌≢◌, ◌⊎◌, true, false, none, some, [], ◌∷◌, ◌≡◌, refl,
  if◌then◌else◌,
}
use webpier.Map.{find, contains, string_key}
use webpier.Backend.Connector
use webpier.Backend.Connector.{
  Connector, Posted, connect, fallback, Event, ends, runs, expires, exits, happen, CanBe,
  on_fallback, run_posted, is_broken, fresh,
}
use webpier.Backend.Connector.Liveness.{
  Reach, at_start, after, Step, happens, IsHeard, IsAlive, IsExplained, Reach-IsAlive,
  broken_recovers,
}
use webpier.Backend.Controller.{restart, to_set}
use webpier.Backend.Controller.Restart.{restarted, find-restart}
use webpier.Backend.Tests.{words, config, ssh, controller}

abbrev started : Connector
started = Connector.restart config ssh (fresh config ssh)

abbrev lost : Connector
lost = record started { active = false; posted = fallback "timed out" ∷ [] }

abbrev down : Connector
down = on_fallback "timed out" (record lost { posted = [] })

-- a thread that ends with an error
data Fails : Bool → Option Posted → Type 0 where
  failed : {is_export : Bool} (error : String) → Fails is_export (some (fallback error))

Fails-calls : {is_export : Bool} {last : Option Posted} → Fails is_export last → last ≢ none
Fails-calls (failed error) e = cc

Fails-goes_on :
    {is_export : Bool} {last : Option Posted}
    → Fails is_export last
    → (started : Result ℕ) → last ≢ some (connect started)
Fails-goes_on (failed error) started e = cc

Fails-IsHeard : IsHeard Fails
Fails-IsHeard = record {
  calls = λ b f. Fails-calls f refl;
  goes_on = λ r f. Fails-goes_on f r refl;
}

lost-Step : Step Fails started lost
unfolding Connector.restart happen
lost-Step = happens (ends (some (fallback "timed out"))) (refl, failed "timed out") refl

down-Step : Step Fails lost down
unfolding run_posted happen
down-Step = happens runs (fallback "timed out", [], refl) refl

down-Reach : Reach Fails started down
down-Reach = after (after at_start lost-Step) down-Step

down_broken : is_broken down ≡ true
unfolding is_broken on_fallback
down_broken = refl

Reach-IsAlive_example : IsAlive down × IsExplained down
Reach-IsAlive_example = Reach-IsAlive Fails config ssh (fresh config ssh) Fails-IsHeard down-Reach

broken_recovers_example :
    (event : Event) × ((event ≡ expires) ⊎ ((pid : ℕ) × (event ≡ exits pid)))
    × CanBe Fails event down
    × (e : Connector) × (happen event down ≡ ok e)
    × (e.active ≡ true)
    × (e.error ≡ "")
broken_recovers_example = broken_recovers Fails config ssh (fresh config ssh) down-Reach down_broken

find-restart_example : find "earth/eve" (restart words config ssh controller) ≡ (
    if contains "earth/eve" (to_set (words ssh.pier))
    then some (restarted config ssh "earth/eve" (find "earth/eve" controller))
    else none)
find-restart_example = find-restart words config ssh controller "earth/eve"
