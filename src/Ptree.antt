-- ===== src/Ptree.antt =====
-- The interface to `boost::property_tree`, which is not part of this repository: the calls that
-- src/store/context.cpp, src/backend/message.cpp and src/backend/server.cpp make, and the documented
-- behaviour that they rely on. A law that holds only away from nested paths asks for plain keys.
pub mod Sample
pub mod Fields
use Prim.Native.Char.{code}
use webpier.Base.{
  ℕ, ℤ, pos, leb, String, Bool, true, false, Option, none, some, List, [], ◌∷◌, ◌++◌, ◌≡◌, ◌≢◌, ◌⊎◌,
  ◌==◌, ◌&&◌, not, same, in_int, if◌then◌else◌,
}

-- A key with no dot in it, which names a direct child.
abbrev pub is_plain : String → Bool
is_plain String.[] = true
is_plain (String.◌∷◌ c s) = not (same (code c) b'.') && is_plain s

-- A plain key that is not the path of the tree itself.
abbrev pub is_name : String → Bool
is_name k = not (k == "") && is_plain k

pub record PropertyTree : Type 1 where
  pub Tree : Type 0
  pub Text : Type 0
  -- the tree: `ptree()`, `put(path, text)`, `put_child`, `push_back({"", child})`
  pub empty : Tree
  pub put : String → String → Tree → Tree
  pub put_child : String → Tree → Tree → Tree
  pub push_back : Tree → Tree → Tree
  -- `get_optional<std::string>`, `get_child_optional`, the children in order, `count(key) != 0`
  pub value? : String → Tree → Option String
  pub child? : String → Tree → Option Tree
  pub children : Tree → List Tree
  pub has : String → Tree → Bool
  -- the stream translators of `int` (and of the wider unsigned types, when written) and `bool`
  pub of_int : ℤ → String
  pub to_int? : String → Option ℤ
  -- an unsigned type whose greatest value is the first argument
  pub to_uint? : ℕ → String → Option ℕ
  pub of_bool : Bool → String
  pub to_bool? : String → Option Bool
  -- `write_json`, `read_json`, and the line end after a written text
  pub write : Tree → Text
  pub read : Text → Option Tree
  -- `file_size` is 0
  pub is_blank : Text → Bool
  pub ends_line : Text → Bool
  pub add_line_end : Text → Text
  -- `what()` of the exceptions
  pub bad_path : String → String
  pub bad_data : String → String
  pub bad_text : Text → String
  -- laws of the tree
  pub value-put_self : (k v : String) (t : Tree) → value? k (put k v t) ≡ some v
  pub value-put_ne :
      (k j v w : String) (t : Tree)
      → (k == j) ≡ false
      → value? j t ≡ some w
      → value? j (put k v t) ≡ some w
  pub value-put :
      (k j v : String) (t : Tree)
      → is_name k ≡ true
      → is_plain j ≡ true
      → value? j (put k v t) ≡ (if k == j then some v else value? j t)
  pub value-put_child_ne :
      (k j w : String) (c t : Tree)
      → is_name k ≡ true
      → is_plain j ≡ true
      → (k == j) ≡ false
      → value? j t ≡ some w
      → value? j (put_child k c t) ≡ some w
  pub child-put_child :
      (k : String) (c t : Tree) → is_name k ≡ true → child? k (put_child k c t) ≡ some c
  pub children-empty : children empty ≡ []
  pub children-push_back : (c t : Tree) → children (push_back c t) ≡ children t ++ c ∷ []
  pub children-put : (k v : String) (t : Tree) → is_name k ≡ true → children (put k v t) ≢ []
  pub children-put_child :
      (k : String) (c t : Tree) → is_name k ≡ true → children (put_child k c t) ≢ []
  pub has-empty : (k : String) → has k empty ≡ false
  pub has-put :
      (k j v : String) (t : Tree)
      → is_name k ≡ true
      → is_plain j ≡ true
      → has j (put k v t) ≡ (if k == j then true else has j t)
  pub has-put_child :
      (k j : String) (c t : Tree)
      → is_name k ≡ true
      → is_plain j ≡ true
      → has j (put_child k c t) ≡ (if k == j then true else has j t)
  pub has-push_back : (c t : Tree) → has "" (push_back c t) ≡ true
  -- laws of the translators
  pub to_int-of_int : (z : ℤ) → to_int? (of_int z) ≡ (if in_int z then some z else none)
  pub to_uint-of_int :
      (most n : ℕ) → to_uint? most (of_int (pos n)) ≡ (if leb n most then some n else none)
  pub to_bool-of_bool : (b : Bool) → to_bool? (of_bool b) ≡ some b
  -- the trees that JSON represents, and the round trip over them
  pub IsObject : Tree → Type 0
  pub IsArray : Tree → Type 0
  pub empty-IsObject : IsObject empty
  pub empty-IsArray : IsArray empty
  pub put-IsObject :
      (k v : String) (t : Tree)
      → is_name k ≡ true
      → has k t ≡ false
      → IsObject t
      → IsObject (put k v t)
  pub put_child-IsObject :
      (k : String) (c t : Tree)
      → is_name k ≡ true
      → has k t ≡ false
      → IsObject c ⊎ IsArray c
      → IsObject t
      → IsObject (put_child k c t)
  pub push_back-IsArray : (c t : Tree) → IsObject c → IsArray t → IsArray (push_back c t)
  pub read-write : (t : Tree) → IsObject t → read (write t) ≡ some t
  pub read-add_line_end : (t : Tree) → IsObject t → read (add_line_end (write t)) ≡ some t
  pub is_blank-write : (t : Tree) → is_blank (write t) ≡ false
  pub ends-add_line_end : (x : Text) → ends_line (add_line_end x) ≡ true
  -- an exception says something
  pub bad_path-ne : (k : String) → (bad_path k == "") ≡ false
  pub bad_data-ne : (k : String) → (bad_data k == "") ≡ false
  pub bad_text-ne : (x : Text) → (bad_text x == "") ≡ false
