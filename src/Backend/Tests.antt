-- ===== src/Backend/Tests.antt =====
-- The data on which the theorems about the backend are tried.
pub mod Servers
pub mod Clients
pub mod Wire
pub mod Commands
pub mod Links
pub mod Carriers
use Prim.Native.Char.{Char, code}
use webpier.Base.{
  ℕ, ℤ, pos, String, Bool, true, false, List, [], ◌∷◌, ◌≢◌, Result, ok, same, if◌then◌else◌,
}
use webpier.Store.Types.{Config, Service, Journal, Puncher, DhtNode, Emailer, Ricochet}
use webpier.Backend.Message.{
  Handle, Status, burden, broken, Health, Report, Command, Content, report, Message, review,
}
use webpier.Backend.Connector.{Connector, fresh}
use webpier.Backend.Controller.{Controller}
use webpier.Backend.Engine.{Home, Pool}

abbrev pub prefixed : Char → List String → List String
prefixed c [] = String.◌∷◌ c "" ∷ []
prefixed c (w ∷ ws) = String.◌∷◌ c w ∷ ws

-- `boost::split` by blanks
unfoldable pub words : String → List String
words String.[] = "" ∷ []
words (String.◌∷◌ c s) = if same (code c) b' ' then "" ∷ words s else prefixed c (words s)

prefixed-ne : (c : Char) (ws : List String) → prefixed c ws ≢ []
prefixed-ne c [] e = cc
prefixed-ne c (w ∷ ws) e = cc

branch-ne : (b : Bool) (c : Char) (ws : List String) → (if b then "" ∷ ws else prefixed c ws) ≢ []
branch-ne true c ws e = cc
branch-ne false c ws e = prefixed-ne c ws e

pub words-ne : (s : String) → words s ≢ []
unfolding words
words-ne String.[] e = cc
words-ne (String.◌∷◌ c s) e = branch-ne (same (code c) b' ') c (words s) e

abbrev pub config : Config
config = record {
  pier = "mars/amy";
  repo = "/home/amy";
  log = record { folder = "/tmp"; level = pos 3 };
  nat = record {
    udp_stun = "stun.example.org";
    tcp_stun = "stun.example.org";
    test = pos 0;
    hops = 7;
  };
  dht = record { bootstrap = "dht.example.org:4222"; port = 4222; network = 0 };
  email = record { smtp = ""; imap = ""; login = ""; password = ""; cert = ""; key = ""; ca = "" };
  relay = record { server = ""; cert = ""; key = ""; ca = "" };
}

abbrev pub ssh : Service
ssh = record {
  local = false;
  name = "ssh";
  pier = "venus/bob earth/eve";
  address = "127.0.0.1:22";
  gateway = "";
  rendezvous = "";
  proto = pos 0;
  role = pos 1;
  route = pos 1;
  autostart = true;
  obscure = false;
}

abbrev pub web : Service
web = record ssh { local = true; name = "web"; pier = "venus/bob"; autostart = false }

abbrev pub ssh_id : Handle
ssh_id = record { pier = "venus/bob"; service = "ssh" }

abbrev pub web_id : Handle
web_id = record { pier = "venus/bob"; service = "web" }

abbrev pub old_id : Handle
old_id = record { pier = "venus/bob"; service = "ftp" }

abbrev pub busy : Connector
busy = record (fresh config ssh) { tunnels = 31 ∷ 32 ∷ [] }

abbrev pub failed : Connector
failed = record (fresh config ssh) { error = "timed out"; waiting = true }

abbrev pub controller : Controller
controller = ("earth/eve", busy) ∷ ("pluto/pam", failed) ∷ []

abbrev pub pool : Pool
pool = (old_id, controller) ∷ (web_id, controller) ∷ []

abbrev pub home : Home
home = record {
  lock = ok tt;
  conf = ok config;
  services = λ repo. ok (("venus/bob", ssh ∷ web ∷ []) ∷ []);
  service = λ repo id. ok ssh;
}

-- the disk has no such service
abbrev pub lost_home : Home
lost_home = record home { service = λ repo id. ok (record ssh { name = "" }) }

abbrev pub sample_report : Report
sample_report = record {
  health = record { handle = ssh_id; state = burden; message = "" };
  tunnels = record { pier = "earth/eve"; pid = 31 } ∷ record { pier = "earth/eve"; pid = 32 } ∷ [];
}

abbrev pub message : Message
message = record { action = review; payload = report sample_report }
