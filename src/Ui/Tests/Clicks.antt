-- ===== src/Ui/Tests/Clicks.antt =====
-- The theorems about the main window at a list of two imported services.
use webpier.Base.{String, not, false, some, List, [], ◌∷◌, ◌≡◌, refl, ok}
use webpier.Ptree.Sample.{sample}
use webpier.Map.{find}
use webpier.Backend.Message.{handle_key, burden, lonely, Health}
use webpier.Backend.Controller
use webpier.Backend.Controller.{Controller}
use webpier.Backend.Engine.{load_one, sleeps, health_of}
use webpier.Backend.Tests.{words, words-ne, config, ssh, home, ssh_id, web_id, pool, controller}
use webpier.Ui.Window.{Window, Row, blank, status_bitmap}
use webpier.Ui.Window.Actions.{is_active, toggle}
use webpier.Ui.Window.Toggle.{over_socket, image_of, toggle-switches}
use webpier.Ui.Tray.{check_of, on_check}
use webpier.Ui.Tray.Clicks.{on_check-switches}

abbrev row_of : String → Row
row_of name = record {
  icon = blank;
  name = name;
  pier = "venus/bob";
  address = "127.0.0.1:22";
  rendezvous = "DHT";
  tunnel = "TCP";
  route = "Direct";
  autostart = "Yes";
}

abbrev window : Window
window = record {
  own = "mars/amy";
  exporting = false;
  exports = [];
  imports = [];
  status = record { handle = web_id; state = burden; message = "" } ∷ [];
  rows = row_of "ssh" ∷ row_of "web" ∷ [];
  selected = some 1;
  bar = record { state = ""; message = "" };
  notices = [];
}

abbrev answer : List Health
answer =
    record { handle = ssh_id; state = lonely; message = "" }
    ∷ record { handle = web_id; state = burden; message = "" }
    ∷ []

web_loaded : load_one home web_id ≡ ok (config, ssh)
unfolding load_one
web_loaded = refl

web_running : find web_id pool ≡ some controller
unfolding find
web_running = refl

toggle-switches_example :
    let r = toggle (over_socket words home sample) (row_of "web") window pool in
    (sleeps web_id r.1 ≡ is_active web_id window.status)
    × ((after : Controller) × (find web_id r.1 ≡ some after)
        × (image_of web_id r.0 r.0.rows ≡ some (status_bitmap (Controller.state after))))
toggle-switches_example =
    toggle-switches words home sample (row_of "web") window pool config ssh controller blank
      words-ne web_loaded refl web_running refl

on_check-switches_example :
    let check = check_of (health_of web_id controller) in
    (check.is_checked ≡ not (sleeps web_id pool))
    × (sleeps web_id (on_check (over_socket words home sample) check window pool).1
        ≡ not (sleeps web_id pool))
on_check-switches_example =
    on_check-switches words home sample web_id window pool config ssh controller words-ne web_loaded
      refl web_running
