-- ===== src/Backend/Message/Orders.antt =====
-- The comparisons of src/backend/message.h.
use webpier.Base.{String, ◌<>◌, true, List, ◌≡◌, eq_refl, arith}
use webpier.Map.{same_key}
use text.Mathlib.TextLemmas.{append_assoc}
use webpier.Backend.Message.{
  Handle, handle_key, Health, health_lt, health_eq, int_lt, of_status, text_lt, Tunnel, Report,
  report_eq,
}

-- Two handles are one key of the pool whenever their names run together to one text: a part of the
-- text may stand at the end of the pier or at the start of the service.
pub same_key_shift :
    (pier shift service : String)
    → same_key {K = Handle}
        (record { pier = pier <> shift; service = service })
        (record { pier = pier; service = shift <> service })
      ≡ true
same_key_shift pier shift service =
    rw (append_assoc pier shift service) (eq_refl (pier <> (shift <> service)))

-- `report::operator==` compares everything but the tunnels.
report_eq-ignores_tunnels :
    (a b : Report) (s t : List Tunnel)
    → report_eq (record a { tunnels = s }) (record b { tunnels = t }) ≡ health_eq a.health b.health
unfolding report_eq
report_eq-ignores_tunnels a b s t = ground arith

-- `health::operator<` is no order: two records with an earlier state and a later message are each
-- less than the other.
health_lt_both :
    (a b : Health)
    → int_lt (of_status a.state) (of_status b.state) ≡ true
    → text_lt b.message a.message ≡ true
    → (health_lt a b ≡ true) × (health_lt b a ≡ true)
unfolding health_lt
health_lt_both a b s m = (ground arith, ground arith)
