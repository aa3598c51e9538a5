-- ===== src/Backend/Message/RoundTrip.antt =====
-- What `push_message` writes, `pull_message` reads back (src/backend/message.cpp).
mod Items
mod Payload
mod Document
pub use Items.{IsStatus, IsCommand, IsHealth, IsReport, IsContent}
pub use Items.{
  to_tunnel-of_tunnel, of_health-HasHealth, tunnels-HasHealth, to_health-HasHealth,
  get_child_or-put_child, children-push_all_empty,
}
pub use Payload.{to_content-put_report}
use Items.{to_command-of_command, in_int-of_command, got_int}
use Payload.{to_content-put_content}
pub use Document.{push_all-IsArray, map-IsObject}
use Document.{of_message-IsObject}
use mathlib.Core.List.{append-nil}
use webpier.Base.{
  eq_iff, Bool-cases, is_empty, ◌≢◌, eq_refl, ◌==◌, ℕ, ℤ, pos, zero, suc, String, Bool, true, false,
  Option, none, some, List, [], ◌∷◌, map, ◌≡◌, refl, Result, ok, err, ◌>>=◌, or_throw, each,
  each-map, All, in_int, ltb, ◌<◌, ◌^◌, ◌%◌, ◌++◌, ◌⊎◌, inl, inr, ap, arith, if◌then◌else◌,
}
use webpier.Ptree.{PropertyTree, is_name, is_plain}
use webpier.Backend.Message.{
  Handle, Status, other, of_status, Health, Tunnel, Report, Command, unknown, Content, error,
  handle, health, report, healths, reports, Message,
}
use webpier.Backend.Message.Codec.{
  to_status, of_command, to_command, of_handle, to_handle, of_health, to_health, of_tunnel,
  to_tunnel, of_report, to_report, push_all, get_child_or, put_content, of_message, push_message,
  to_content, is_list, pull_message, pull_content,
}

-- Messages that survive the wire.
abbrev pub IsMessage : Message → Type 0
IsMessage m = IsCommand m.action × IsContent m.payload

module _ (lib : PropertyTree) where
  open lib use {
    Tree, Text, empty, put, put_child, value?, of_int, write, read, ends_line, add_line_end,
    value-put, value-put_child_ne, value-put_self, read-write, read-add_line_end, ends-add_line_end,
  }

  -- What is pushed can be read back as a tree.
  read-push_message : (m : Message) → read (push_message lib m) ≡ some (of_message lib m)
  unfolding push_message
  read-push_message m = elim (Bool-cases (ends_line (write (of_message lib m)))) [
    | inl t ↦ rw t (read-write (of_message lib m) (of_message-IsObject lib m))
    | inr f ↦ rw f (read-add_line_end (of_message lib m) (of_message-IsObject lib m))
  ]

  value-put_content :
      (c : Content) (v : String)
      → value? "action" (put_content lib c (put "action" v empty)) ≡ some v
  unfolding put_content
  value-put_content (error e) v = elim (Bool-cases (is_empty e)) [
    | inl t ↦ rw t (value-put_self "action" v empty)
    | inr f ↦ rw f (
        rw (value-put "error" "action" e (put "action" v empty) refl refl)
          (value-put_self "action" v empty))
  ]
  value-put_content (handle x) v =
      value-put_child_ne "handle" "action" v _ _ refl refl refl (value-put_self "action" v empty)
  value-put_content (health x) v =
      value-put_child_ne "health" "action" v _ _ refl refl refl (value-put_self "action" v empty)
  value-put_content (report x) v =
      value-put_child_ne "report" "action" v _ _ refl refl refl (value-put_self "action" v empty)
  value-put_content (healths xs) v =
      value-put_child_ne "health" "action" v _ _ refl refl refl (value-put_self "action" v empty)
  value-put_content (reports xs) v =
      value-put_child_ne "report" "action" v _ _ refl refl refl (value-put_self "action" v empty)

  -- The command comes through first, whatever becomes of the payload.
  pub pull-action :
      (m old : Message)
      → IsCommand m.action
      → pull_message lib (push_message lib m) old
        ≡ pull_content lib m.action (to_content lib (of_message lib m))
  unfolding pull_message of_message
  pull-action m old h = simp (
    read-push_message m,
    value-put_content m.payload (of_int (of_command m.action)),
    got_int lib (of_command m.action) (in_int-of_command m.action h),
    to_command-of_command m.action h,
  )

  -- A message made of declared commands and states, with process ids below 2 ^ 31, is read back
  -- as it was, whatever stood in the message that is read into, and nothing is thrown.
  pub pull-push_message :
      (m old : Message)
      → IsMessage m
      → pull_message lib (push_message lib m) old ≡ record { msg = m; thrown = none }
  unfolding of_message pull_content
  pull-push_message m old h = rw (
    pull-action m old h.0,
    to_content-put_content lib m.payload (of_int (of_command m.action)) h.1,
  )

  -- Every pushed message ends its line, as the reader on the other side waits for.
  pub ends-push_message : (m : Message) → ends_line (push_message lib m) ≡ true
  unfolding push_message
  ends-push_message m = elim (Bool-cases (ends_line (write (of_message lib m)))) [
    | inl t ↦ rw (t, t)
    | inr f ↦ rw f (ends-add_line_end (write (of_message lib m)))
  ]
