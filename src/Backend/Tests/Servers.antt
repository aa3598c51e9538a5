-- ===== src/Backend/Tests/Servers.antt =====
-- The theorem about the options of a service at a gateway of v6 and a STUN server `name:port`.
use webpier.Base.{String, ◌||◌, ◌≡◌, refl, Result, ok, err, ◌==◌, if◌then◌else◌}
use webpier.Store.Types.{Config, Service}
use webpier.Store.Resolve.{
  cannot_resolve, resolve_endpoint, resolve_some, match_bracketed, host_port, bracketed,
  before_bracket, all_digits,
}
use webpier.Backend.Options.{Network, Resolvers, Location, make_bind, make_options}
use webpier.Backend.Options.Names.{make_options-v6_name}
use webpier.Backend.Tests.{config, ssh}

abbrev Address : Type 0
Address = String × String

-- knows one name and one address
abbrev answer : String → String → Result Address
answer host port =
    if (host == "venus.net") || (host == "::1") then ok (host, port) else err "Host not found"

abbrev resolvers : Resolvers Address
resolvers = record { resolve = answer; resolve_of = λ v6. answer }

abbrev net : Network Address
net = record {
  unset = ("", "");
  any = λ v6. ("", "");
  is_v6 = λ e. e.0 == "::1";
  udp = resolvers;
  tcp = resolvers;
}

abbrev with_stun : Config
with_stun = record config { nat = record config.nat { udp_stun = "venus.net:3478" } }

abbrev over_v6 : Service
over_v6 = record ssh { gateway = "[::1]:0" }

abbrev bound : Location Address
bound = record { udp = ("::1", "0"); tcp = ("::1", "0") }

gateway_resolves : make_bind net over_v6 ≡ ok bound
unfolding make_bind resolve_endpoint resolve_some match_bracketed host_port bracketed before_bracket
    all_digits
gateway_resolves = refl

make_options-v6_name_example :
    make_options net with_stun over_v6 ≡ err (cannot_resolve "venus.net:3478" "Host not found")
unfolding bracketed all_digits
make_options-v6_name_example =
    make_options-v6_name net "venus.net" "3478" with_stun over_v6 bound "Host not found"
      gateway_resolves refl refl refl refl refl refl
