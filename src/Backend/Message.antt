-- ===== src/Backend/Message.antt =====
-- src/backend/message.h: the messages between the user interface and the backend.
pub mod Codec
pub mod RoundTrip
pub mod LargePid
pub mod Orders
use Prim.Native.Nat.{Ordering}
use Prim.Native.String.{compare}
use webpier.Base.{
  ℕ, ℤ, pos, String, ◌<>◌, Bool, true, false, List, ◌==◌, ◌&&◌, ◌||◌, not, is_empty, ltb, same, ◌≡◌,
  refl, arith,
}
use webpier.Map.{Key}

pub record Handle : Type 0 where
  pub pier : String
  pub service : String

-- `health::status`; a value that was cast from an `int` may be no enumerator
pub data Status : Type 0 where
  asleep broken lonely burden : Status
  other : ℤ → Status

pub record Health : Type 0 where
  pub handle : Handle
  pub open handle use *
  pub state : Status
  pub message : String

pub record Tunnel : Type 0 where
  pub pier : String
  pub pid : ℕ

pub record Report : Type 0 where
  pub health : Health
  pub open health use *
  pub tunnels : List Tunnel

-- `message::command`, with the same remark
pub data Command : Type 0 where
  naught unplug engage adjust status review : Command
  unknown : ℤ → Command

-- `message::content`, in the order of the variant's indices
pub data Content : Type 0 where
  error : String → Content
  handle : Handle → Content
  health : Health → Content
  report : Report → Content
  healths : List Health → Content
  reports : List Report → Content

pub record Message : Type 0 where
  pub action : Command
  pub payload : Content

-- `message::make(action)`
abbrev pub make : Command → Message
make action = record { action = action; payload = error "" }

-- `message::ok`
abbrev pub is_naught : Command → Bool
is_naught naught = true
is_naught _ = false

abbrev pub is_ok_content : Content → Bool
is_ok_content (error e) = is_empty e
is_ok_content _ = true

abbrev pub is_ok : Message → Bool
is_ok m = not (is_naught m.action) && is_ok_content m.payload

-- `handle::operator<` compares the two names run together
instance abbrev pub handle_key : Key Handle
handle_key = record { text = λ h. h.pier <> h.service }

abbrev pub text_lt : String → String → Bool
text_lt s t = elim (compare s t) [ Ordering.lt ↦ true | _ ↦ false ]

unfoldable pub handle_lt : Handle → Handle → Bool
handle_lt a b = text_lt (a.pier <> a.service) (b.pier <> b.service)

unfoldable pub handle_eq : Handle → Handle → Bool
handle_eq a b = a.pier == b.pier && a.service == b.service

-- the value behind an enumerator
abbrev pub of_status : Status → ℤ
of_status asleep = pos 0
of_status broken = pos 1
of_status lonely = pos 2
of_status burden = pos 3
of_status (other z) = z

abbrev pub int_eq : ℤ → ℤ → Bool
int_eq (pos m) (pos n) = same m n
int_eq (ℤ.negsuc m) (ℤ.negsuc n) = same m n
int_eq _ _ = false

pub int_eq_refl : (z : ℤ) → int_eq z z ≡ true
int_eq_refl (pos n) = ground arith
int_eq_refl (ℤ.negsuc n) = ground arith

abbrev pub int_lt : ℤ → ℤ → Bool
int_lt (pos m) (pos n) = ltb m n
int_lt (ℤ.negsuc m) (ℤ.negsuc n) = ltb n m
int_lt (ℤ.negsuc _) (pos _) = true
int_lt (pos _) (ℤ.negsuc _) = false

-- `health::operator<` and `health::operator==`
unfoldable pub health_lt : Health → Health → Bool
unfolding handle_lt
health_lt a b =
    handle_lt a.handle b.handle
    || int_lt (of_status a.state) (of_status b.state)
    || text_lt a.message b.message

unfoldable pub health_eq : Health → Health → Bool
unfolding handle_eq
health_eq a b =
    handle_eq a.handle b.handle
    && int_eq (of_status a.state) (of_status b.state)
    && a.message == b.message

-- `report::operator<` and `report::operator==`: `burden` there is the enumerator of `status`
unfoldable pub report_lt : Report → Report → Bool
unfolding health_lt
report_lt a b = health_lt a.health b.health || int_lt (of_status burden) (of_status burden)

unfoldable pub report_eq : Report → Report → Bool
unfolding health_eq
report_eq a b = health_eq a.health b.health && int_eq (of_status burden) (of_status burden)
