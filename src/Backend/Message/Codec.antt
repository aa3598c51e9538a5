-- ===== src/Backend/Message/Codec.antt =====
-- src/backend/message.cpp: messages as property trees, and as lines of JSON. The names are kept in
-- UTF-8, so that `locale_to_utf8` and `utf8_to_locale` are the identity, as they are off Windows.
use webpier.Base.{
  ℤ, pos, zero, suc, String, Bool, true, Option, map, none, some, List, [], ◌∷◌, Result, ok, err,
  ◌>>=◌, or_throw, each, to_uint32, is_empty, if◌then◌else◌,
}
use webpier.Ptree.{PropertyTree}
use webpier.Backend.Message.{
  Handle, Status, asleep, broken, lonely, burden, other, of_status, Health, Tunnel, Report, Command,
  naught, unplug, engage, adjust, status, review, unknown, Content, error, handle, health, report,
  healths, reports, Message,
}

-- `static_cast<health::status>` of an `int`
abbrev pub to_status : ℤ → Status
to_status (pos zero) = asleep
to_status (pos (suc zero)) = broken
to_status (pos (suc (suc zero))) = lonely
to_status (pos (suc (suc (suc zero)))) = burden
to_status z = other z

abbrev pub of_command : Command → ℤ
of_command naught = pos 0
of_command unplug = pos 1
of_command engage = pos 2
of_command adjust = pos 3
of_command status = pos 4
of_command review = pos 5
of_command (unknown z) = z

-- `static_cast<message::command>` of an `int`
abbrev pub to_command : ℤ → Command
to_command (pos zero) = naught
to_command (pos (suc zero)) = unplug
to_command (pos (suc (suc zero))) = engage
to_command (pos (suc (suc (suc zero)))) = adjust
to_command (pos (suc (suc (suc (suc zero))))) = status
to_command (pos (suc (suc (suc (suc (suc zero)))))) = review
to_command z = unknown z

-- What is left in `msg` when a call returns or throws.
pub record Pulled : Type 0 where
  pub msg : Message
  pub thrown : Option String

module _ (lib : PropertyTree) where
  open lib use {
    Tree, Text, empty, put, put_child, push_back, value?, child?, children, has, of_int, to_int?,
    write, read, ends_line, add_line_end, bad_path, bad_data, bad_text,
  }

  -- `get<std::string>(key)`
  abbrev pub get_string : String → Tree → Result String
  get_string k t = or_throw (value? k t) (bad_path k)

  -- `get<int>(key)`
  abbrev pub get_int : String → Tree → Result ℤ
  get_int k t = do v ← get_string k t; or_throw (to_int? v) (bad_data k)

  -- `get_child(key)`
  abbrev pub get_child : String → Tree → Result Tree
  get_child k t = or_throw (child? k t) (bad_path k)

  -- `get_child(key, default)`
  abbrev pub get_child_or : String → Tree → Tree → Tree
  get_child_or k d t = elim (child? k t) [ none ↦ d | some c ↦ c ]

  -- a loop of `push_back`
  abbrev pub push_all : List Tree → Tree → Tree
  push_all [] t = t
  push_all (c ∷ cs) t = push_all cs (push_back c t)

  unfoldable pub of_handle : Handle → Tree
  of_handle obj = put "service" obj.service (put "pier" obj.pier empty)

  unfoldable pub to_handle : Tree → Result Handle
  to_handle doc = do
    pier ← get_string "pier" doc
    service ← get_string "service" doc
    ok (record { pier = pier; service = service })

  unfoldable pub of_health : Health → Tree
  of_health obj = put "message" obj.message (
      put "state" (of_int (of_status obj.state))
        (put "service" obj.service (put "pier" obj.pier empty)))

  unfoldable pub to_health : Tree → Result Health
  to_health doc = do
    pier ← get_string "pier" doc
    service ← get_string "service" doc
    state ← get_int "state" doc
    message ← get_string "message" doc
    ok (record {
      handle = record { pier = pier; service = service };
      state = to_status state;
      message = message;
    })

  unfoldable pub of_tunnel : Tunnel → Tree
  of_tunnel link = put "pier" link.pier (put "pid" (of_int (pos link.pid)) empty)

  unfoldable pub to_tunnel : Tree → Result Tunnel
  to_tunnel item = do
    pid ← get_int "pid" item
    pier ← get_string "pier" item
    ok (record { pier = pier; pid = to_uint32 pid })

  unfoldable pub of_report : Report → Tree
  unfolding of_health
  of_report obj =
      put_child "tunnels" (push_all (map of_tunnel obj.tunnels) empty) (of_health obj.health)

  unfoldable pub to_report : Tree → Result Report
  unfolding to_health
  to_report doc = do
    summary ← to_health doc
    tunnels ← each to_tunnel (children (get_child_or "tunnels" empty doc))
    ok (record { health = summary; tunnels = tunnels })

  -- the `switch` of `push_message`
  unfoldable pub put_content : Content → Tree → Tree
  put_content (error e) doc = if is_empty e then doc else put "error" e doc
  put_content (handle h) doc = put_child "handle" (of_handle h) doc
  put_content (health h) doc = put_child "health" (of_health h) doc
  put_content (report r) doc = put_child "report" (of_report r) doc
  put_content (healths hs) doc = put_child "health" (push_all (map of_health hs) empty) doc
  put_content (reports rs) doc = put_child "report" (push_all (map of_report rs) empty) doc

  unfoldable pub of_message : Message → Tree
  unfolding put_content
  of_message msg = put_content msg.payload (put "action" (of_int (of_command msg.action)) empty)

  unfoldable pub push_message : Message → Text
  push_message msg =
      let text = write (of_message msg) in if ends_line text then text else add_line_end text

  -- `count("") || empty()`: the tree is an array
  abbrev pub is_list : Tree → Bool
  is_list t = elim (children t) [ [] ↦ true | _ ↦ has "" t ]

  unfoldable pub to_content : Tree → Result Content
  to_content doc =
      if has "error" doc
      then (do e ← get_string "error" doc; ok (error e))
      else if has "handle" doc
      then (do c ← get_child "handle" doc; h ← to_handle c; ok (handle h))
      else if has "health" doc
      then (let c = get_child_or "health" empty doc in
          if is_list c
          then (do hs ← each to_health (children c); ok (healths hs))
          else (do h ← to_health c; ok (health h)))
      else if has "report" doc
      then (let c = get_child_or "report" empty doc in
          if is_list c
          then (do rs ← each to_report (children c); ok (reports rs))
          else (do r ← to_report c; ok (report r)))
      else ok (error "")

  unfoldable pub pull_content : Command → Result Content → Pulled
  pull_content action (ok c) = record {
    msg = record { action = action; payload = c };
    thrown = none;
  }
  pull_content action (err e) = record {
    msg = record { action = action; payload = error "" };
    thrown = some e;
  }

  pub pull_action : Message → Tree → Result ℤ → Pulled
  unfolding pull_content
  pull_action msg doc (ok z) = pull_content (to_command z) (to_content doc)
  pull_action msg doc (err e) = record { msg = msg; thrown = some e }

  pub pull_tree : Message → Text → Option Tree → Pulled
  unfolding pull_action
  pull_tree msg text (some doc) = pull_action msg doc (get_int "action" doc)
  pull_tree msg text none = record { msg = msg; thrown = some (bad_text text) }

  -- `pull_message(buffer, msg)`
  unfoldable pub pull_message : Text → Message → Pulled
  unfolding pull_tree
  pull_message text msg = pull_tree msg text (read text)
