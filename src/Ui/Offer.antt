-- ===== src/Ui/Offer.antt =====
-- The offers that the owners of two piers exchange as files: `WriteOffer` and `ReadOffer` of
-- src/ui/context.cpp. The list of services is in the order in which the hash map is visited. The
-- resolvers are asio's: whether an address is of version 6, or nothing when they throw.
pub mod Exchange
use webpier.Base.{
  ℤ, pos, String, Bool, true, false, Option, none, some, List, [], ◌∷◌, map, Result, ok, each,
  ◌>>=◌, if◌then◌else◌,
}
use webpier.Ptree.{PropertyTree}
use webpier.Ptree.Fields.{Fields, put_all, string_or, int_or, get_bool}
use webpier.Store.Types.{Service, Enums}
use webpier.Store.Services.{items, nameless, any_gateway}
use webpier.Backend.Message.{int_eq}
use webpier.Ui.Services.{Form}
use webpier.Backend.Message.Codec.{get_string, push_all}

pub record Offer : Type 0 where
  pub pier : String
  pub certificate : String
  pub services : List Service

-- `Service::Schema`, `Service::Protocol` and `Service::Routing`
abbrev pub client : ℤ
client = pos 1

abbrev pub server : ℤ
server = pos 2

abbrev pub udp : ℤ
udp = pos 1

abbrev pub direct : ℤ
direct = pos 0

-- the role of the other side
abbrev pub other_side : ℤ → ℤ
other_side role = if int_eq role client then server else if int_eq role server then client else role

abbrev pub any_gateway6 : String
any_gateway6 = "[::]:0"

-- `IsIPv6`, by the protocol that the service was made with. It is `noexcept`, so the program ends when
-- the resolver throws.
unfoldable pub is_ip6 : Enums → (udp6 tcp6 : String → Option Bool) → Form → Option Bool
is_ip6 enums udp6 tcp6 form =
    if int_eq form.origin.proto enums.udp then udp6 form.shown.gateway else tcp6 form.shown.gateway

-- The services of an offer with their versions, as they are looked up one by one.
unfoldable pub with_versions : (Form → Option Bool) → List Form → Option (List (Bool × Service))
with_versions version [] = some []
with_versions version (form ∷ forms) =
    let rest = with_versions version forms in
    elim (version form) [
      | none ↦ none
      | some v6 ↦ elim rest [ none ↦ none | some all ↦ some ((v6, form.shown) ∷ all) ]
    ]

module _ (lib : PropertyTree) (enums : Enums) where
  open lib use {Tree, empty, put, put_child, of_int, of_bool}

  unfoldable pub offer_fields : Bool × Service → Fields
  offer_fields (v6, s) =
      ("name", s.name)
      ∷ ("obscure", of_bool s.obscure)
      ∷ ("rendezvous", s.rendezvous)
      ∷ ("ip", of_int (if v6 then pos 6 else pos 4))
      ∷ ("proto", of_int s.proto)
      ∷ ("role", of_int (other_side s.role))
      ∷ ("route", of_int s.route)
      ∷ []

  unfoldable pub of_item : Bool × Service → Tree
  of_item s = put_all lib (offer_fields s) empty

  unfoldable pub document : (pier certificate : String) → List (Bool × Service) → Tree
  document pier certificate services =
      put_child "services" (push_all lib (map of_item services) empty)
        (put_all lib (("pier", pier) ∷ ("certificate", certificate) ∷ []) empty)

  -- the document of `WriteOffer`, unless the program ends
  unfoldable pub write_offer :
      (udp6 tcp6 : String → Option Bool) (pier certificate : String) → List Form → Option Tree
  write_offer udp6 tcp6 pier certificate forms =
      elim (with_versions (is_ip6 enums udp6 tcp6) forms) [
        | none ↦ none
        | some services ↦ some (document pier certificate services)
      ]

  -- a round of the loop of `ReadOffer`
  unfoldable pub to_item : String → Tree → Result Service
  to_item pier item = do
    name ← get_string lib "name" item
    obscure ← get_bool lib "obscure" item
    ok (record (nameless lib enums) {
      name = name;
      pier = pier;
      obscure = obscure;
      rendezvous = string_or lib "rendezvous" "" item;
      gateway = if int_eq (int_or lib "ip" (pos 4) item) (pos 4) then any_gateway else any_gateway6;
      proto = int_or lib "proto" udp item;
      role = int_or lib "role" server item;
      route = int_or lib "route" direct item;
    })

  -- `ReadOffer`, on the document that was read
  unfoldable pub read_offer : Tree → Result Offer
  read_offer doc = do
    services ← each (to_item (string_or lib "pier" "" doc)) (items lib enums doc)
    ok (record {
      pier = string_or lib "pier" "" doc;
      certificate = string_or lib "certificate" "" doc;
      services = services;
    })
