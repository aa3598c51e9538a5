-- ===== src/Store/Services/Agreement.antt =====
-- What is saved as the services of a pier is what both programs load.
use webpier.Base.{
  ℤ, String, Bool, true, false, none, some, [], ◌∷◌, map, ◌≡◌, refl, ap, ◌∙◌, inl, inr, ok, All,
  in_int, arith, each-map, if◌then◌else◌, ◌==◌, eq_iff, Bool-cases,
}
use webpier.Ptree.{PropertyTree}
use webpier.Ptree.Fields.{
  get_last, value-put_all, put_all-IsObject, string_or, int_or, bool_or, string_or-value,
  int_or-of_int, bool_or-of_bool, get_bool-of_bool,
}
use webpier.Map.{string_key, find, emplace, contains, find-emplace}
use webpier.Store.Types.{Service, Enums}
use webpier.Store.Services.{
  Services, values, service_fields, of_service, of_services, items, to_service, emplace_all,
  load_services, to_loaded, load_every, nameless, pick, load_named,
}
use webpier.Backend.Message.RoundTrip.{
  get_child_or-put_child, children-push_all_empty, push_all-IsArray, map-IsObject,
}
use webpier.Backend.Message.Codec.{push_all}

-- A service that can be saved: it stands under its own name, and its enumerators are values of an `int`.
abbrev pub IsEntry : String × Service → Type 0
IsEntry (k, s) =
    (s.name ≡ k) × (in_int s.proto ≡ true) × (in_int s.role ≡ true) × (in_int s.route ≡ true)

module _ (lib : PropertyTree) (enums : Enums) where
  open lib use {
    Tree, empty, value?, children, of_int, of_bool, IsObject, put_child-IsObject, has-empty,
    empty-IsArray, empty-IsObject, IsArray,
  }

  saved :
      (s : Service) (j w : String)
      → get_last j (service_fields lib enums s) none ≡ some w
      → value? j (of_service lib enums s) ≡ some w
  unfolding of_service
  saved s j w h = value-put_all lib (service_fields lib enums s) j w h

  text :
      (s : Service) (j d w : String)
      → get_last j (service_fields lib enums s) none ≡ some w
      → string_or lib j d (of_service lib enums s) ≡ w
  text s j d w h = string_or-value lib j d w (of_service lib enums s) (saved s j w h)

  number :
      (s : Service) (j : String) (d z : ℤ)
      → in_int z ≡ true
      → get_last j (service_fields lib enums s) none ≡ some (of_int z)
      → int_or lib j d (of_service lib enums s) ≡ z
  number s j d z i h = int_or-of_int lib j d z (of_service lib enums s) i (saved s j _ h)

  flag :
      (s : Service) (j : String) (d b : Bool)
      → get_last j (service_fields lib enums s) none ≡ some (of_bool b)
      → bool_or lib j d (of_service lib enums s) ≡ b
  flag s j d b h = bool_or-of_bool lib j d b (of_service lib enums s) (saved s j _ h)

  to_service-of_service :
      (own : Bool) (k : String) (s : Service)
      → IsEntry (k, s)
      → to_service lib enums own (of_service lib enums s) ≡ s
  unfolding to_service service_fields
  to_service-of_service own k s (n, p, r, t) = simp (
    flag s "local" own s.local refl,
    text s "name" "" s.name refl,
    text s "pier" "" s.pier refl,
    text s "address" "" s.address refl,
    text s "gateway" _ s.gateway refl,
    text s "rendezvous" "" s.rendezvous refl,
    number s "proto" enums.udp s.proto p refl,
    number s "role" enums.either s.role r refl,
    number s "route" enums.direct s.route t refl,
    flag s "autostart" false s.autostart refl,
    flag s "obscure" true s.obscure refl,
  )

  to_loaded-of_service :
      (role : Bool → ℤ) (k : String) (s : Service)
      → IsEntry (k, s)
      → to_loaded lib enums role (of_service lib enums s) ≡ ok s
  unfolding to_loaded service_fields
  to_loaded-of_service role k s (n, p, r, t) = simp (
    get_bool-of_bool lib "local" s.local (of_service lib enums s) (saved s "local" _ refl),
    saved s "name" s.name refl,
    saved s "pier" s.pier refl,
    saved s "address" s.address refl,
    text s "gateway" _ s.gateway refl,
    text s "rendezvous" "" s.rendezvous refl,
    number s "proto" enums.udp s.proto p refl,
    number s "role" (role s.local) s.role r refl,
    number s "route" enums.direct s.route t refl,
    flag s "autostart" false s.autostart refl,
    flag s "obscure" true s.obscure refl,
  )

  items-of_services :
      (m : Services)
      → items lib enums (of_services lib enums m) ≡ map (of_service lib enums) (values m)
  unfolding of_services
  items-of_services m =
      let trees = map (of_service lib enums) (values m) in
      ap children
        (get_child_or-put_child lib "services" (push_all lib trees empty) empty empty refl)
      ∙ children-push_all_empty lib trees

  All-loaded :
      (role : Bool → ℤ) (m : Services)
      → All IsEntry m
      → All (λ s. to_loaded lib enums role (of_service lib enums s) ≡ ok s) (values m)
  All-loaded role [] h = tt
  All-loaded role ((k, s) ∷ m) h = (to_loaded-of_service role k s h.0, All-loaded role m h.1)

  -- The backend, when it loads all services, gets those that were saved for the pier, in their order.
  -- Each of them stands under its own name, and its enumerators are values of an `int`.
  load_every-of_services :
      (m : Services)
      → All IsEntry m
      → load_every lib enums (of_services lib enums m) ≡ ok (values m)
  unfolding load_every
  load_every-of_services m h = rw (
    items-of_services m,
    each-map (to_loaded lib enums (λ local. if local then enums.server else enums.client))
        (of_service lib enums) (values m)
        (All-loaded (λ local. if local then enums.server else enums.client) m h),
  )

  pick-of_services :
      (k : String) (m : Services)
      → All IsEntry m
      → pick lib enums k (map (of_service lib enums) (values m))
        ≡ ok (elim (find k m) [ none ↦ nameless lib enums | some s ↦ s ])
  unfolding pick find service_fields
  pick-of_services k [] h = refl
  pick-of_services k ((j, s) ∷ m) h =
      let name = saved s "name" s.name refl in
      elim (Bool-cases (j == k)) [
        | inl t ↦
            rw
              (
                name,
                ap (λ x. x == k) h.0.0 ∙ t,
                t,
                to_loaded-of_service (λ local. enums.either) j s h.0,
              )
              refl
        | inr f ↦ rw (name, ap (λ x. x == k) h.0.0 ∙ f, f) (pick-of_services k m h.1)
      ]

  -- The backend, when it loads one service, gets the one that was saved under the name, or a
  -- nameless one. Each service stands under its own name, and its enumerators are values of an `int`.
  pub load_named-of_services :
      (k : String) (m : Services)
      → All IsEntry m
      → load_named lib enums k (of_services lib enums m)
        ≡ ok (elim (find k m) [ none ↦ nameless lib enums | some s ↦ s ])
  unfolding load_named
  load_named-of_services k m h = rw (items-of_services m) (pick-of_services k m h)

  back :
      (own : Bool) (m : Services)
      → All IsEntry m
      → map (to_service lib enums own) (map (of_service lib enums) (values m)) ≡ values m
  back own [] h = refl
  back own ((k, s) ∷ m) h = rw (to_service-of_service own k s h.0, back own m h.1)

  find-emplace_all :
      (k : String) (m acc : Services)
      → All IsEntry m
      → find k (emplace_all lib enums (values m) acc)
        ≡ (if contains k acc then find k acc else find k m)
  unfolding emplace_all find
  find-emplace_all k [] acc h = ground arith
  find-emplace_all k ((j, s) ∷ m) acc h = ground (
    arith,
    find-emplace_all k m (emplace s.name s acc) h.1,
    find-emplace s.name k s acc,
    eq_iff j k,
  )

  -- The context, when it is opened again, finds under each name the service that was saved under it.
  -- Each service stands under its own name, and its enumerators are values of an `int`.
  pub find-load_services :
      (own : Bool) (k : String) (m : Services)
      → All IsEntry m
      → find k (load_services lib enums own (of_services lib enums m) []) ≡ find k m
  unfolding load_services find
  find-load_services own k m h = rw (items-of_services m, back own m h, find-emplace_all k m [] h)

  -- What is saved is an object, which JSON represents.
  pub of_services-IsObject : (m : Services) → IsObject (of_services lib enums m)
  unfolding of_services of_service service_fields
  of_services-IsObject m =
      put_child-IsObject "services" _ empty refl (has-empty "services")
        (inr (
          push_all-IsArray lib _ empty
            (map-IsObject lib (of_service lib enums)
              (λ s. put_all-IsObject lib (service_fields lib enums s) refl) (values m))
            empty-IsArray))
        empty-IsObject
