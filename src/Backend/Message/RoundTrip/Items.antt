-- ===== src/Backend/Message/RoundTrip/Items.antt =====
-- Each converter of src/backend/message.cpp reads back what its counterpart wrote.
use mathlib.Core.List.{append-nil}
use webpier.Base.{
  ℕ, ℤ, pos, String, true, some, List, [], ◌∷◌, map, ◌≡◌, refl, ok, each, each-map, All, in_int,
  ◌<◌, ◌^◌, ◌%◌, ◌++◌, arith,
}
use webpier.Ptree.{PropertyTree, is_name}
use webpier.Backend.Message.{
  Handle, Status, other, of_status, Health, Tunnel, Report, Command, unknown, Content, health,
  report, healths, reports,
}
use webpier.Backend.Message.Codec.{
  to_status, of_command, to_command, of_handle, to_handle, of_health, to_health, of_tunnel,
  to_tunnel, of_report, to_report, push_all, get_child_or,
}

-- Values that the enumerations declare.
abbrev pub IsStatus : Status → Type 0
IsStatus (other z) = ⊥
IsStatus _ = Unit

abbrev pub IsCommand : Command → Type 0
IsCommand (unknown z) = ⊥
IsCommand _ = Unit

to_status-of_status : (s : Status) → IsStatus s → to_status (of_status s) ≡ s
to_status-of_status (other z) h = absurd h
to_status-of_status _ h = refl

in_int-of_status : (s : Status) → IsStatus s → in_int (of_status s) ≡ true
in_int-of_status (other z) h = absurd h
in_int-of_status _ h = refl

pub to_command-of_command : (c : Command) → IsCommand c → to_command (of_command c) ≡ c
to_command-of_command (unknown z) h = absurd h
to_command-of_command _ h = refl

pub in_int-of_command : (c : Command) → IsCommand c → in_int (of_command c) ≡ true
in_int-of_command (unknown z) h = absurd h
in_int-of_command _ h = refl

-- The messages that survive: enumerators, and process ids that an `int` holds.
abbrev pub IsHealth : Health → Type 0
IsHealth h = IsStatus h.state

abbrev pub IsReport : Report → Type 0
IsReport r = IsHealth r.health × All (λ (t : Tunnel). t.pid < 2147483648) r.tunnels

abbrev pub IsContent : Content → Type 0
IsContent (health h) = IsHealth h
IsContent (report r) = IsReport r
IsContent (healths hs) = All IsHealth hs
IsContent (reports rs) = All IsReport rs
IsContent _ = Unit

All-map {ℓ κ μ} :
    {A : Type ℓ} (P : A → Type κ) (Q : A → Type μ)
    → ((a : A) → P a → Q a)
    → (xs : List A) → All P xs
    → All Q xs
All-map P Q f [] h = tt
All-map P Q f (x ∷ xs) h = (f x h.0, All-map P Q f xs h.1)

wraps : (n : ℕ) → n < 2147483648 → n % 2 ^ 32 ≡ n
wraps n h = omega arith

append_one {ℓ} :
    {A : Type ℓ} (xs : List A) (y : A) (ys : List A) → (xs ++ y ∷ []) ++ ys ≡ xs ++ y ∷ ys
append_one [] y ys = refl
append_one (x ∷ xs) y ys = rw (append_one xs y ys)

module _ (lib : PropertyTree) where
  open lib use {
    Tree, empty, put, put_child, push_back, value?, child?, children, has, has-put, has-put_child,
    has-push_back, children-put, children-put_child, has-empty, of_int, to_int?, write, value-put,
    value-put_child_ne, child-put_child, children-empty, children-push_back, to_int-of_int,
  }

  pub got_int : (z : ℤ) → in_int z ≡ true → to_int? (of_int z) ≡ some z
  got_int z h = rw (to_int-of_int z, h)

  pub to_handle-of_handle : (h : Handle) → to_handle lib (of_handle lib h) ≡ ok h
  unfolding to_handle of_handle
  to_handle-of_handle h = simp (
    value-put "service" "pier" h.service _ refl refl,
    value-put "pier" "pier" h.pier empty refl refl,
    value-put "service" "service" h.service _ refl refl,
  )

  -- The four values that `convert_health` reads.
  abbrev pub HasHealth : Tree → Health → Type 0
  HasHealth doc h =
      (value? "pier" doc ≡ some h.pier)
      × (value? "service" doc ≡ some h.service)
      × (value? "state" doc ≡ some (of_int (of_status h.state)))
      × (value? "message" doc ≡ some h.message)

  pub of_health-HasHealth : (h : Health) → HasHealth (of_health lib h) h
  unfolding of_health
  of_health-HasHealth h = (
    simp (
      value-put "message" "pier" h.message _ refl refl,
      value-put "state" "pier" _ _ refl refl,
      value-put "service" "pier" h.service _ refl refl,
      value-put "pier" "pier" h.pier _ refl refl,
    ),
    simp (
      value-put "message" "service" h.message _ refl refl,
      value-put "state" "service" _ _ refl refl,
      value-put "service" "service" h.service _ refl refl,
    ),
    simp (
      value-put "message" "state" h.message _ refl refl,
      value-put "state" "state" _ _ refl refl,
    ),
    value-put "message" "message" h.message _ refl refl,
  )

  pub tunnels-HasHealth :
      (h : Health) (c doc : Tree) → HasHealth doc h → HasHealth (put_child "tunnels" c doc) h
  tunnels-HasHealth h c doc v = (
    value-put_child_ne "tunnels" "pier" h.pier c doc refl refl refl v.0,
    value-put_child_ne "tunnels" "service" h.service c doc refl refl refl v.1,
    value-put_child_ne "tunnels" "state" _ c doc refl refl refl v.2,
    value-put_child_ne "tunnels" "message" h.message c doc refl refl refl v.3,
  )

  pub to_health-HasHealth :
      (doc : Tree) (h : Health) → HasHealth doc h → IsHealth h → to_health lib doc ≡ ok h
  unfolding to_health
  to_health-HasHealth doc h v e = simp (
    v.0,
    v.1,
    v.2,
    v.3,
    got_int (of_status h.state) (in_int-of_status h.state e),
    to_status-of_status h.state e,
  )

  pub to_tunnel-of_tunnel :
      (t : Tunnel) → t.pid < 2147483648 → to_tunnel lib (of_tunnel lib t) ≡ ok t
  unfolding to_tunnel of_tunnel
  to_tunnel-of_tunnel t v = simp (
    value-put "pier" "pid" t.pier _ refl refl,
    value-put "pid" "pid" (of_int (pos t.pid)) empty refl refl,
    value-put "pier" "pier" t.pier _ refl refl,
    got_int (pos t.pid) (ground arith),
    wraps t.pid v,
  )

  children-push_all : (cs : List Tree) (t : Tree) → children (push_all lib cs t) ≡ children t ++ cs
  children-push_all [] t = rw append-nil
  children-push_all (c ∷ cs) t =
      rw (children-push_all cs (push_back c t), children-push_back c t)
        (append_one (children t) c cs)

  pub children-push_all_empty : (cs : List Tree) → children (push_all lib cs empty) ≡ cs
  children-push_all_empty cs = rw (children-push_all cs empty, children-empty)

  tunnels_back :
      (ts : List Tunnel)
      → All (λ (t : Tunnel). t.pid < 2147483648) ts
      → each (to_tunnel lib) (map (of_tunnel lib) ts) ≡ ok ts
  tunnels_back ts v =
      each-map (to_tunnel lib) (of_tunnel lib) ts (All-map _ _ to_tunnel-of_tunnel ts v)

  pub healths_back :
      (hs : List Health) → All IsHealth hs → each (to_health lib) (map (of_health lib) hs) ≡ ok hs
  healths_back hs v =
      each-map (to_health lib) (of_health lib) hs
        (All-map _ _ (λ h. to_health-HasHealth (of_health lib h) h (of_health-HasHealth h)) hs v)

  -- A child that was put under a key, read back with any default.
  pub get_child_or-put_child :
      (k : String) (c d t : Tree) → is_name k ≡ true → get_child_or lib k d (put_child k c t) ≡ c
  get_child_or-put_child k c d t n = rw (child-put_child k c t n, get_child_or)

  pub to_report-of_report : (r : Report) → IsReport r → to_report lib (of_report lib r) ≡ ok r
  unfolding to_report of_report
  to_report-of_report r v =
      let items = map (of_tunnel lib) r.tunnels in
      let list = push_all lib items empty in
      let top = of_health lib r.health in
      simp (
        to_health-HasHealth (put_child "tunnels" list top) r.health
            (tunnels-HasHealth r.health list top (of_health-HasHealth r.health)) v.0,
        get_child_or-put_child "tunnels" list empty top refl,
        children-push_all_empty items,
        tunnels_back r.tunnels v.1,
      )

  pub reports_back :
      (rs : List Report) → All IsReport rs → each (to_report lib) (map (of_report lib) rs) ≡ ok rs
  reports_back rs v =
      each-map (to_report lib) (of_report lib) rs (All-map _ _ to_report-of_report rs v)
