-- ===== src/Backend/Message/LargePid.antt =====
-- The process ids of a report: written from a `uint32_t`, read as an `int` (src/backend/message.cpp).
use webpier.Base.{
  ℕ, pos, List, [], ◌∷◌, ◌++◌, map, ◌≡◌, ◌≤◌, refl, some, leb, Bool-cases, inl, inr, err, each,
  arith, none,
}
use webpier.Ptree.{PropertyTree}
use webpier.Backend.Message.{Tunnel, Report, Command, Message, error, report}
use webpier.Backend.Message.Codec.{
  of_tunnel, of_command, of_health, to_tunnel, of_report, to_report, of_message, push_all,
  push_message, pull_message, pull_content,
}
use webpier.Backend.Message.RoundTrip.{
  IsHealth, IsCommand, pull-action, to_tunnel-of_tunnel, of_health-HasHealth, tunnels-HasHealth,
  to_health-HasHealth, get_child_or-put_child, children-push_all_empty, to_content-put_report,
}

module _ (lib : PropertyTree) where
  open lib use {empty, put, put_child, of_int, to_int?, bad_data, value-put, to_int-of_int}

  lost_int : (n : ℕ) → 2147483648 ≤ n → to_int? (of_int (pos n)) ≡ none
  lost_int n h = rw (to_int-of_int (pos n)) (ground arith)

  to_tunnel-large :
      (t : Tunnel) → 2147483648 ≤ t.pid → to_tunnel lib (of_tunnel lib t) ≡ err (bad_data "pid")
  unfolding to_tunnel of_tunnel
  to_tunnel-large t h = simp (
    value-put "pier" "pid" t.pier _ refl refl,
    value-put "pid" "pid" (of_int (pos t.pid)) empty refl refl,
    lost_int t.pid h,
  )

  -- Whatever stands before it, an item that cannot be read ends the loop.
  each-large :
      (xs ys : List Tunnel) (t : Tunnel)
      → 2147483648 ≤ t.pid
      → each (to_tunnel lib) (map (of_tunnel lib) (xs ++ t ∷ ys)) ≡ err (bad_data "pid")
  unfolding each
  each-large [] ys t h = rw (to_tunnel-large t h)
  each-large (x ∷ xs) ys t h = elim (Bool-cases (leb 2147483648 x.pid)) [
    | inl large ↦ rw (to_tunnel-large x (ground arith))
    | inr fits ↦ rw (to_tunnel-of_tunnel lib x (ground arith), each-large xs ys t h)
  ]

  to_report-large :
      (r : Report) (xs ys : List Tunnel) (t : Tunnel)
      → IsHealth r.health
      → r.tunnels ≡ xs ++ t ∷ ys
      → 2147483648 ≤ t.pid
      → to_report lib (of_report lib r) ≡ err (bad_data "pid")
  unfolding to_report of_report
  to_report-large r xs ys t v e h =
      let items = map (of_tunnel lib) r.tunnels in
      let list = push_all lib items empty in
      let top = of_health lib r.health in
      simp (
        to_health-HasHealth lib (put_child "tunnels" list top) r.health
            (tunnels-HasHealth lib r.health list top (of_health-HasHealth lib r.health)) v,
        get_child_or-put_child lib "tunnels" list empty top refl,
        children-push_all_empty lib (map (of_tunnel lib) (xs ++ t ∷ ys)),
        e,
        each-large xs ys t h,
      )

  -- A report with a process id of 2 ^ 31 or more anywhere among its tunnels is pushed without
  -- complaint, but reading it back throws, and leaves an empty payload.
  pub pull-push_large_pid :
      (action : Command) (r : Report) (xs ys : List Tunnel) (t : Tunnel) (old : Message)
      → IsCommand action
      → IsHealth r.health
      → r.tunnels ≡ xs ++ t ∷ ys
      → 2147483648 ≤ t.pid
      → pull_message lib (push_message lib (record { action = action; payload = report r })) old
        ≡ record {
          msg = record { action = action; payload = error "" };
          thrown = some (bad_data "pid");
        }
  unfolding pull_content of_message
  pull-push_large_pid action r xs ys t old c v e h = rw (
    pull-action lib (record { action = action; payload = report r }) old c,
    to_content-put_report lib r (of_int (of_command action)),
    to_report-large r xs ys t v e h,
  )
