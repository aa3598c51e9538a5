-- ===== src/Backend/Tests/Commands.antt =====
-- The theorems about the engine's commands on a pool of two services.
use webpier.Base.{
  ◌<>◌, true, false, none, some, List, [], ◌∷◌, ◌≡◌, ◌↔◌, refl, ok, not, if◌then◌else◌,
}
use webpier.Map.{find}
use webpier.Map.Distinct.{IsDistinct}
use webpier.Store.Types.{Service}
use webpier.Backend.Message.{Handle, handle_key, asleep}
use webpier.Backend.Controller.{Controller, state, restart}
use webpier.Backend.Engine.{
  Pool, handles, of_pier, load_all, load_one, engage_all, adjust_all, unplug_all, engage_one,
  adjust_one, unplug_one, sleeps, absent,
}
use webpier.Backend.Engine.Commands.{engage_all-wakes, adjust_all-keeps, unplug_all-sleeps}
use webpier.Backend.Engine.Single.{one-frame, one-states}
use webpier.Backend.Engine.Collisions.{engage_one-collides}
use webpier.Backend.Tests.{
  words, words-ne, config, ssh, web, ssh_id, web_id, old_id, controller, home, pool,
}

abbrev items : List (Handle × Service)
items = (ssh_id, ssh) ∷ (web_id, web) ∷ []

items-IsDistinct : IsDistinct items
unfolding find
items-IsDistinct = (refl, (refl, tt))

loaded : load_all home ≡ ok (config, items)
unfolding load_all handles of_pier
loaded = refl

found_ssh : find ssh_id items ≡ some ssh
unfolding find
found_ssh = refl

found_web : find web_id items ≡ some web
unfolding find
found_web = refl

not_found : find old_id items ≡ none
unfolding find
not_found = refl

engage_all-wakes_example :
    (c : Controller) × (find ssh_id (engage_all words home pool).pool ≡ some c)
    × ((state c ≡ asleep) ↔ (ssh.autostart ≡ false))
engage_all-wakes_example =
    engage_all-wakes home pool config items loaded items-IsDistinct words ssh_id ssh words-ne
      found_ssh

adjust_all-keeps_example :
    (c : Controller) × (find web_id (adjust_all words home pool).pool ≡ some c)
    × ((state c ≡ asleep) ↔ (elim (find web_id pool) [
      | none ↦ web.autostart ≡ false
      | some old ↦ state old ≡ asleep
    ]))
adjust_all-keeps_example =
    adjust_all-keeps home pool config items loaded items-IsDistinct words web_id web words-ne
      found_web

unplug_all-sleeps_example :
    (c : Controller) × (find web_id (unplug_all home pool).pool ≡ some c) × (state c ≡ asleep)
unplug_all-sleeps_example =
    unplug_all-sleeps home pool config items loaded items-IsDistinct web_id web found_web

one-frame_example :
    (find web_id (engage_one words home ssh_id pool).pool ≡ find web_id pool)
    × (find web_id (adjust_one words home ssh_id pool).pool ≡ find web_id pool)
    × (find web_id (unplug_one home ssh_id pool).pool ≡ find web_id pool)
one-frame_example = one-frame words home ssh_id pool web_id refl

one_loaded : load_one home ssh_id ≡ ok (config, ssh)
unfolding load_one
one_loaded = refl

one-states_example :
    (find ssh_id (engage_one words home ssh_id pool).pool
      ≡ some (restart words config ssh (elim (find ssh_id pool) [ none ↦ [] | some c ↦ c ])))
    × (sleeps ssh_id (engage_one words home ssh_id pool).pool ≡ false)
    × (sleeps ssh_id (unplug_one home ssh_id pool).pool ≡ true)
    × (sleeps ssh_id (adjust_one words home ssh_id pool).pool
        ≡ (if absent ssh_id pool then not ssh.autostart else sleeps ssh_id pool))
one-states_example = one-states words home ssh_id pool config ssh words-ne one_loaded refl

-- "ab" with "c", and "a" with "bc"
abbrev first_id : Handle
first_id = record { pier = "a" <> "b"; service = "c" }

abbrev second_id : Handle
second_id = record { pier = "a"; service = "b" <> "c" }

abbrev shared : Pool
shared = (first_id, controller) ∷ []

shared_found : find first_id shared ≡ some controller
unfolding find
shared_found = refl

second_loaded : load_one home second_id ≡ ok (config, ssh)
unfolding load_one
second_loaded = refl

engage_one-collides_example :
    find first_id (engage_one words home second_id shared).pool
    ≡ some (restart words config ssh controller)
engage_one-collides_example =
    engage_one-collides words home "a" "b" "c" shared controller config ssh shared_found
      second_loaded refl
