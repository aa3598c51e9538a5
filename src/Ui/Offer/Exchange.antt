-- ===== src/Ui/Offer/Exchange.antt =====
-- What the other side reads from an offer (src/ui/context.cpp).
use webpier.Base.{
  ℤ, pos, String, Bool, true, false, none, some, List, [], ◌∷◌, map, ◌≡◌, ◌==◌, refl, ap, ◌∙◌, ok,
  All, each, in_int, if◌then◌else◌, arith, Bool-cases, Option-cases, Option, inl, inr,
}
use webpier.Ptree.{PropertyTree, is_plain}
use webpier.Ptree.Fields.{
  get_last, put_all, value-put_all, string_or, int_or, string_or-value, int_or-of_int,
  get_bool-of_bool,
}
use webpier.Store.Types.{Service, Enums}
use webpier.Store.Services.{items, nameless, any_gateway}
use webpier.Backend.Message.{int_eq}
use webpier.Backend.Message.Codec.{push_all}
use webpier.Backend.Message.RoundTrip.{get_child_or-put_child, children-push_all_empty}
use webpier.Ui.Services.{Form}
use webpier.Ui.Offer.{
  other_side, udp, server, client, direct, any_gateway6, offer_fields, of_item, write_offer,
  document, is_ip6, with_versions, to_item, read_offer,
}

-- The enumerators of a service are values of an `int`.
abbrev pub IsOffered : Service → Type 0
IsOffered s = (in_int s.proto ≡ true) × (in_int s.role ≡ true) × (in_int s.route ≡ true)

in_int-other_side : (z : ℤ) → in_int z ≡ true → in_int (other_side z) ≡ true
in_int-other_side z h = elim (Bool-cases (int_eq z client)) [
  | inl t ↦ rw (t, other_side) refl
  | inr f ↦ elim (Bool-cases (int_eq z server)) [
    | inl t ↦ rw (f, t, other_side) refl
    | inr g ↦ rw (f, g, other_side) h
  ]
]

module _ (lib : PropertyTree) (enums : Enums) where
  open lib use {Tree, empty, value?, children, of_int, value-put_child_ne}

  -- What the other side makes of a service: an import from the pier, with the other role, and with any
  -- gateway of the same version.
  abbrev pub imported : String → Bool × Service → Service
  imported pier (v6, s) = record (nameless lib enums) {
    name = s.name;
    pier = pier;
    obscure = s.obscure;
    rendezvous = s.rendezvous;
    gateway = if v6 then any_gateway6 else any_gateway;
    proto = s.proto;
    role = other_side s.role;
    route = s.route;
  }

  saved :
      (s : Bool × Service) (j w : String)
      → get_last j (offer_fields lib enums s) none ≡ some w
      → value? j (of_item lib enums s) ≡ some w
  unfolding of_item
  saved s j w h = value-put_all lib (offer_fields lib enums s) j w h

  number :
      (s : Bool × Service) (j : String) (d z : ℤ)
      → in_int z ≡ true
      → get_last j (offer_fields lib enums s) none ≡ some (of_int z)
      → int_or lib j d (of_item lib enums s) ≡ z
  number s j d z i h = int_or-of_int lib j d z (of_item lib enums s) i (saved s j _ h)

  version :
      (s : Bool × Service)
      → (if int_eq (int_or lib "ip" (pos 4) (of_item lib enums s)) (pos 4)
          then any_gateway
          else any_gateway6)
        ≡ (if s.0 then any_gateway6 else any_gateway)
  unfolding offer_fields
  version s =
      let written : ℤ = if s.0 then pos 6 else pos 4 in
      let small : in_int written ≡ true = ground arith in
      let ip : int_or lib "ip" (pos 4) (of_item lib enums s) ≡ written =
        number s "ip" (pos 4) written small refl in
      elim (Bool-cases s.0) [ inl t ↦ rw (ip, t) refl | inr f ↦ rw (ip, f) refl ]

  to_item-of_item :
      (pier : String) (s : Bool × Service)
      → IsOffered s.1
      → to_item lib enums pier (of_item lib enums s) ≡ ok (imported pier s)
  unfolding to_item offer_fields
  to_item-of_item pier s (p, r, t) = simp (
    saved s "name" s.1.name refl,
    get_bool-of_bool lib "obscure" s.1.obscure (of_item lib enums s) (saved s "obscure" _ refl),
    string_or-value lib "rendezvous" "" s.1.rendezvous (of_item lib enums s)
        (saved s "rendezvous" _ refl),
    version s,
    number s "proto" udp s.1.proto p refl,
    number s "role" server (other_side s.1.role) (in_int-other_side s.1.role r) refl,
    number s "route" direct s.1.route t refl,
  )

  each_item :
      (pier : String) (ss : List (Bool × Service))
      → All (λ s. IsOffered s.1) ss
      → each (to_item lib enums pier) (map (of_item lib enums) ss) ≡ ok (map (imported pier) ss)
  unfolding each
  each_item pier [] h = refl
  each_item pier (s ∷ ss) h = rw (to_item-of_item pier s h.0, each_item pier ss h.1)

  head :
      (pier certificate : String) (ss : List (Bool × Service)) (j w : String)
      → get_last j (("pier", pier) ∷ ("certificate", certificate) ∷ []) none ≡ some w
      → is_plain j ≡ true
      → ("services" == j) ≡ false
      → string_or lib j "" (document lib enums pier certificate ss) ≡ w
  unfolding document
  head pier certificate ss j w h p n =
      let fields = ("pier", pier) ∷ ("certificate", certificate) ∷ [] in
      string_or-value lib j "" w _ (
        value-put_child_ne "services" j w _ (put_all lib fields empty) refl p n
          (value-put_all lib fields j w h))

  items-document :
      (pier certificate : String) (ss : List (Bool × Service))
      → items lib enums (document lib enums pier certificate ss) ≡ map (of_item lib enums) ss
  unfolding document
  items-document pier certificate ss =
      let trees = map (of_item lib enums) ss in
      ap children (get_child_or-put_child lib "services" (push_all lib trees empty) empty _ refl)
      ∙ children-push_all_empty lib trees

  with_versions-IsOffered :
      (version : Form → Option Bool) (forms : List Form) (ss : List (Bool × Service))
      → with_versions version forms ≡ some ss
      → All (λ (form : Form). IsOffered form.shown) forms
      → All (λ s. IsOffered s.1) ss
  unfolding with_versions
  with_versions-IsOffered version [] ss e h =
      let none_made : List (Bool × Service) = [] in let same : none_made ≡ ss = cc in rw (← same) tt
  with_versions-IsOffered version (form ∷ forms) ss e h =
      let whole = with_versions version (form ∷ forms) in
      elim (Option-cases (version form)) [
        | inl n ↦
            let gone : whole ≡ none = rw (n, with_versions) refl in let no : ⊥ = cc in absurd no
        | inr (v6, v) ↦ elim (Option-cases (with_versions version forms)) [
          | inl n ↦
              let gone : whole ≡ none = rw (v, n, with_versions) refl in
              let no : ⊥ = cc in absurd no
          | inr (all, w) ↦
              let made : whole ≡ some ((v6, form.shown) ∷ all) = rw (v, w, with_versions) refl in
              let same : (v6, form.shown) ∷ all ≡ ss = cc in
              rw (← same) (h.0, with_versions-IsOffered version forms all w h.1)
        ]
      ]

  -- An offer whose gateways can all be resolved, by the protocol that each service was made with, is
  -- written, and read as it was, but every service has become an import from the pier of the offer: its
  -- role is the other one, the gateway is any of the same version, and what an offer does not say is
  -- the default. With a gateway that can not be resolved the program ends. The enumerators of the
  -- services are values of an `int`.
  pub read_offer-write_offer :
      (udp6 tcp6 : String → Option Bool) (pier certificate : String) (forms : List Form)
      → All (λ (form : Form). IsOffered form.shown) forms
      → let versions = with_versions (is_ip6 enums udp6 tcp6) forms in
        ((ss : List (Bool × Service))
          → versions ≡ some ss
          → (doc : Tree) × (write_offer lib enums udp6 tcp6 pier certificate forms ≡ some doc)
            × (read_offer lib enums doc
                ≡ ok (record {
                  pier = pier;
                  certificate = certificate;
                  services = map (imported pier) ss;
                })))
        × (versions ≡ none → write_offer lib enums udp6 tcp6 pier certificate forms ≡ none)
  unfolding read_offer write_offer
  read_offer-write_offer udp6 tcp6 pier certificate forms h = (
    λ ss e. (
      document lib enums pier certificate ss,
      rw (e, write_offer) refl,
      simp (
        head pier certificate ss "pier" pier refl refl refl,
        head pier certificate ss "certificate" certificate refl refl refl,
        items-document pier certificate ss,
        each_item pier ss (with_versions-IsOffered (is_ip6 enums udp6 tcp6) forms ss e h),
      ),
    ),
    λ e. rw (e, write_offer) refl,
  )
