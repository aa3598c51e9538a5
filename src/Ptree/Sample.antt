-- ===== src/Ptree/Sample.antt =====
-- A property tree by hand, on which the theorems about messages and settings are tried: a tree is
-- the list of the changes that made it, a text is a tree with a mark for the line end, and a number
-- is written in binary, the lowest digit first.
use Prim.Native.Char.{Char, code}
use webpier.Base.{
  ℕ, zero, suc, ℤ, pos, negsuc, String, Bool, true, false, Option, none, some, List, [], ◌∷◌, ◌++◌,
  ◌≡◌, ◌≢◌, ◌<◌, ◌+◌, ◌*◌, ◌/◌, ◌%◌, refl, arith, same, in_int, leb, if◌then◌else◌, ◌==◌, eq_refl,
}
use webpier.Ptree.{PropertyTree}

pub data Node : Type 0 where
  empty : Node
  put : String → String → Node → Node
  put_child push_back_to : String → Node → Node → Node

abbrev pub value? : String → Node → Option String
value? k empty = none
value? k (put j v t) = if j == k then some v else value? k t
value? k (put_child j c t) = value? k t
value? k (push_back_to j c t) = value? k t

abbrev pub child? : String → Node → Option Node
child? k empty = none
child? k (put j v t) = child? k t
child? k (put_child j c t) = if j == k then some c else child? k t
child? k (push_back_to j c t) = child? k t

abbrev pub children : Node → List Node
children empty = []
children (put j v t) = children t ++ put "" v empty ∷ []
children (put_child j c t) = children t ++ c ∷ []
children (push_back_to j c t) = children t ++ c ∷ []

abbrev pub has : String → Node → Bool
has k empty = false
has k (put j v t) = if j == k then true else has k t
has k (put_child j c t) = if j == k then true else has k t
has k (push_back_to j c t) = if j == k then true else has k t

abbrev pub bit : ℕ → Char
bit zero = "0"
bit (suc n) = "1"

unfoldable pub bits : ℕ → ℕ → String
bits zero n = ""
bits (suc fuel) zero = ""
bits (suc fuel) (suc n) = String.◌∷◌ (bit (suc n % 2)) (bits fuel (suc n / 2))

unfoldable pub number : String → ℕ
number String.[] = 0
number (String.◌∷◌ c s) = (if same (code c) b'1' then 1 else 0) + 2 * number s

digit : (b : ℕ) → b < 2 → (if same (code (bit b)) b'1' then 1 else 0) ≡ b
digit zero h = refl
digit (suc zero) h = refl
digit (suc (suc b)) h = omega arith

pub number-bits : (fuel n : ℕ) → n < fuel → number (bits fuel n) ≡ n
unfolding number bits
number-bits zero n h = omega arith
number-bits (suc fuel) zero h = refl
number-bits (suc fuel) (suc n) h =
    rw (digit (suc n % 2) (omega arith), number-bits fuel (suc n / 2) (omega arith)) (omega arith)

abbrev pub of_int : ℤ → String
of_int (pos n) = String.◌∷◌ "+" (bits (suc n) n)
of_int (negsuc n) = String.◌∷◌ "-" (bits (suc n) n)

abbrev pub signed : Char → ℕ → ℤ
signed c n = if same (code c) b'-' then negsuc n else pos n

abbrev pub to_int? : String → Option ℤ
to_int? String.[] = none
to_int? (String.◌∷◌ c s) = if in_int (signed c (number s)) then some (signed c (number s)) else none

pub to_int-of_int : (z : ℤ) → to_int? (of_int z) ≡ (if in_int z then some z else none)
to_int-of_int (pos n) = rw (number-bits (suc n) n (omega arith)) refl
to_int-of_int (negsuc n) = rw (number-bits (suc n) n (omega arith)) refl

abbrev pub to_uint? : ℕ → String → Option ℕ
to_uint? most String.[] = none
to_uint? most (String.◌∷◌ c s) = if leb (number s) most then some (number s) else none

pub to_uint-of_int :
    (most n : ℕ) → to_uint? most (of_int (pos n)) ≡ (if leb n most then some n else none)
to_uint-of_int most n = rw (number-bits (suc n) n (omega arith)) refl

abbrev pub of_bool : Bool → String
of_bool true = "true"
of_bool false = "false"

abbrev pub to_bool? : String → Option Bool
to_bool? s = if s == "true" then some true else if s == "false" then some false else none

pub to_bool-of_bool : (b : Bool) → to_bool? (of_bool b) ≡ some b
to_bool-of_bool true = refl
to_bool-of_bool false = refl

pub append-ne : (xs : List Node) (x : Node) → xs ++ x ∷ [] ≢ []
append-ne [] x e = cc
append-ne (y ∷ xs) x e = cc

pub value-put_ne :
    (k j v w : String) (t : Node)
    → (k == j) ≡ false
    → value? j t ≡ some w
    → value? j (put k v t) ≡ some w
value-put_ne k j v w t f h = rw f h

pub value-put_self : (k v : String) (t : Node) → value? k (put k v t) ≡ some v
value-put_self k v t = rw (eq_refl k) refl

pub child-put_child : (k : String) (c t : Node) → child? k (put_child k c t) ≡ some c
child-put_child k c t = rw (eq_refl k) refl

abbrev pub sample : PropertyTree
sample = record {
  Tree = Node;
  Text = Node × Bool;
  empty = empty;
  put = put;
  put_child = put_child;
  push_back = push_back_to "";
  value? = value?;
  child? = child?;
  children = children;
  has = has;
  of_int = of_int;
  to_int? = to_int?;
  to_uint? = to_uint?;
  of_bool = of_bool;
  to_bool? = to_bool?;
  write = λ t. (t, false);
  read = λ (x : Node × Bool). some x.0;
  is_blank = λ (x : Node × Bool). false;
  is_blank-write = λ t. refl;
  ends_line = λ (x : Node × Bool). x.1;
  add_line_end = λ (x : Node × Bool). (x.0, true);
  bad_path = λ k. "No such node";
  bad_data = λ k. "conversion of data failed";
  bad_text = λ x. "expected value";
  value-put_self = value-put_self;
  value-put_ne = value-put_ne;
  value-put = λ k j v t n p. refl;
  value-put_child_ne = λ k j w c t n p f h. h;
  child-put_child = λ k c t n. child-put_child k c t;
  children-empty = refl;
  children-push_back = λ c t. refl;
  children-put = λ k v t n. append-ne (children t) (put "" v empty);
  children-put_child = λ k c t n. append-ne (children t) c;
  has-empty = λ k. refl;
  has-put = λ k j v t n p. refl;
  has-put_child = λ k j c t n p. refl;
  has-push_back = λ c t. refl;
  to_int-of_int = to_int-of_int;
  to_uint-of_int = to_uint-of_int;
  to_bool-of_bool = to_bool-of_bool;
  IsObject = λ t. Unit;
  IsArray = λ t. Unit;
  empty-IsObject = tt;
  empty-IsArray = tt;
  put-IsObject = λ k v t n f h. tt;
  put_child-IsObject = λ k c t n f h g. tt;
  push_back-IsArray = λ c t h g. tt;
  read-write = λ t h. refl;
  read-add_line_end = λ t h. refl;
  ends-add_line_end = λ x. refl;
  bad_path-ne = λ k. refl;
  bad_data-ne = λ k. refl;
  bad_text-ne = λ x. refl;
}
