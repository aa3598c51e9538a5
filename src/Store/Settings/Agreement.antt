-- ===== src/Store/Settings/Agreement.antt =====
-- What is saved as the settings is what both programs load.
use webpier.Base.{ℕ, ℤ, pos, String, Option, none, some, ◌≡◌, refl, ok, true, leb, ◌≤◌, arith}
use webpier.Ptree.{PropertyTree}
use webpier.Ptree.Fields.{
  get_last, value-put_all, string_or, uint_or, string_or-value, uint_or-of_int,
}
use webpier.Store.Types.{Config, Enums}
use webpier.Store.Settings.{config_fields, of_config, enum_or, to_config_with}

module _ (lib : PropertyTree) (enums : Enums) where
  open lib use {Tree, value?, of_int}

  saved :
      (c : Config) (j w : String)
      → get_last j (config_fields lib enums c) none ≡ some w
      → value? j (of_config lib enums c) ≡ some w
  unfolding of_config
  saved c j w h = value-put_all lib (config_fields lib enums c) j w h

  text :
      (c : Config) (j d w : String)
      → get_last j (config_fields lib enums c) none ≡ some w
      → string_or lib j d (of_config lib enums c) ≡ w
  text c j d w h = string_or-value lib j d w (of_config lib enums c) (saved c j w h)

  count :
      (c : Config) (most : ℕ) (j : String) (d n : ℕ)
      → leb n most ≡ true
      → get_last j (config_fields lib enums c) none ≡ some (of_int (pos n))
      → uint_or lib most j d (of_config lib enums c) ≡ n
  count c most j d n i h = uint_or-of_int lib most j d n (of_config lib enums c) i (saved c j _ h)

  choice :
      (c : Config) (read : String → Option ℤ) (j v : String) (d z : ℤ)
      → read v ≡ some z
      → get_last j (config_fields lib enums c) none ≡ some v
      → enum_or lib enums read j d (of_config lib enums c) ≡ z
  choice c read j v d z i h = rw (saved c j v h, i, enum_or) refl

  -- Settings that are saved are loaded as they were, but for the network, which is not saved; the
  -- default of the bootstrap node is not used. The hops fit a byte, the port 16 bits, and the stream
  -- operators of the two enumerations read what is written for them.
  pub to_config-of_config :
      (node : String) (old c : Config)
      → enums.to_severity? (of_int c.log.level) ≡ some c.log.level
      → enums.to_checkup? (enums.of_checkup c.nat.test) ≡ some c.nat.test
      → c.nat.hops ≤ 255
      → c.dht.port ≤ 65535
      → to_config_with lib enums node old (of_config lib enums c)
        ≡ ok (record c { dht = record c.dht { network = old.dht.network } })
  unfolding to_config_with config_fields
  to_config-of_config node old c l t h p = simp (
    saved c "pier" c.pier refl,
    saved c "repo" c.repo refl,
    text c "log.folder" "" c.log.folder refl,
    choice c enums.to_severity? "log.level" _ enums.info c.log.level l refl,
    text c "nat.stun.udp" _ c.nat.udp_stun refl,
    text c "nat.stun.tcp" _ c.nat.tcp_stun refl,
    choice c enums.to_checkup? "nat.test" _ enums.strict c.nat.test t refl,
    count c 255 "nat.hops" 7 c.nat.hops (ground arith) refl,
    text c "dht.bootstrap" node c.dht.bootstrap refl,
    count c 65535 "dht.port" 0 c.dht.port (ground arith) refl,
    text c "email.smtp" "" c.email.smtp refl,
    text c "email.imap" "" c.email.imap refl,
    text c "email.login" "" c.email.login refl,
    text c "email.password" "" c.email.password refl,
    text c "email.cert" "" c.email.cert refl,
    text c "email.key" "" c.email.key refl,
    text c "email.ca" "" c.email.ca refl,
    text c "relay.server" "" c.relay.server refl,
    text c "relay.cert" "" c.relay.cert refl,
    text c "relay.key" "" c.relay.key refl,
    text c "relay.ca" "" c.relay.ca refl,
  )
