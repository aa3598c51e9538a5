-- ===== src/Store/Types.antt =====
-- src/store/context.h: the settings and the services. The enumerations of plexus and wormhole are
-- not part of this repository: such a field holds the `int` that the enumerator stands for.
use webpier.Base.{ℕ, ℤ, String, Bool, Option}

pub record Journal : Type 0 where
  pub folder : String
  pub level : ℤ

pub record Puncher : Type 0 where
  pub udp_stun : String
  pub tcp_stun : String
  pub test : ℤ
  pub hops : ℕ

pub record DhtNode : Type 0 where
  pub bootstrap : String
  pub port : ℕ
  pub network : ℕ

pub record Emailer : Type 0 where
  pub smtp : String
  pub imap : String
  pub login : String
  pub password : String
  pub cert : String
  pub key : String
  pub ca : String

pub record Ricochet : Type 0 where
  pub server : String
  pub cert : String
  pub key : String
  pub ca : String

pub record Config : Type 0 where
  pub pier : String
  pub repo : String
  pub log : Journal
  pub nat : Puncher
  pub dht : DhtNode
  pub email : Emailer
  pub relay : Ricochet

pub record Service : Type 0 where
  pub local : Bool
  pub name : String
  pub pier : String
  pub address : String
  pub gateway : String
  pub rendezvous : String
  pub proto : ℤ
  pub role : ℤ
  pub route : ℤ
  pub autostart : Bool
  pub obscure : Bool

-- What the code uses of the enumerations of plexus and wormhole: some values, and the stream
-- operators for `checkup` and `severity`.
pub record Enums : Type 0 where
  pub info : ℤ
  pub strict : ℤ
  pub any : ℤ
  pub udp : ℤ
  pub either : ℤ
  pub server : ℤ
  pub client : ℤ
  pub direct : ℤ
  pub of_checkup : ℤ → String
  pub to_checkup? : String → Option ℤ
  pub to_severity? : String → Option ℤ
