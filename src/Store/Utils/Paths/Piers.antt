-- ===== src/Store/Utils/Paths/Piers.antt =====
-- The directory of a pier (src/store): its two parts one by one, or the whole name at once.
use text.Mathlib.TextLemmas.{nil-append, cons-append, append_assoc}
use Prim.Native.Char.{Char, code}
use text.Mathlib.TextEquality.{Char-path}
use Prim.Native.String.compare
use webpier.Base.{
  String, ◌<>◌, true, false, some, ◌≡◌, refl, sym, ap, ◌∙◌, arith, same, is_empty, ◌||◌, inl, inr,
  Bool-cases, if◌then◌else◌,
}
use webpier.Texts.{is_empty-append}
use webpier.Store.Utils.Paths.{
  starts_with_slash, ends_with_slash, append_path, make_path, pier_file, before_slash, after_slash,
}

before-slash :
    (c : Char) (s : String) → same (code c) b'/' ≡ true → before_slash (String.◌∷◌ c s) ≡ ""
unfolding before_slash
before-slash c s t = rw t refl

before-other :
    (c : Char) (s : String)
    → same (code c) b'/' ≡ false
    → before_slash (String.◌∷◌ c s) ≡ String.◌∷◌ c (before_slash s)
unfolding before_slash
before-other c s t = rw t refl

starts-before :
    (p : String)
    → is_empty (before_slash p) ≡ false
    → (starts_with_slash p ≡ false) × (starts_with_slash (before_slash p) ≡ false)
unfolding starts_with_slash before_slash
starts-before String.[] h = (refl, refl)
starts-before (String.◌∷◌ c s) h = elim (Bool-cases (same (code c) b'/')) [
  | inl t ↦
      let gone : is_empty (before_slash (String.◌∷◌ c s)) ≡ true = rw (before-slash c s t) refl in
      let no : ⊥ = ground (arith, gone, h) in absurd no
  | inr t ↦ (t, rw (before-other c s t) t)
]

ends-before : (p : String) → ends_with_slash (before_slash p) ≡ false
unfolding ends_with_slash before_slash
ends-before String.[] = refl
ends-before (String.◌∷◌ c s) = elim (Bool-cases (same (code c) b'/')) [
  | inl t ↦ rw (before-slash c s t) refl
  | inr t ↦
      rw (before-other c s t, ends-before s, t)
        (elim (Bool-cases (is_empty (before_slash s))) [ inl e ↦ rw e refl | inr e ↦ rw e refl ])
]

is_empty-append_right : (s t : String) → is_empty t ≡ false → is_empty (s <> t) ≡ false
is_empty-append_right String.[] t h = rw (nil-append t) h
is_empty-append_right (String.◌∷◌ c s) t h =
    is_empty-append (String.◌∷◌ c s) t (rw (compare.cons-nil c s) refl)

ends-append : (s t : String) → is_empty t ≡ false → ends_with_slash (s <> t) ≡ ends_with_slash t
unfolding ends_with_slash
ends-append String.[] t h = rw (nil-append t) refl
ends-append (String.◌∷◌ c s) t h =
    rw (cons-append c s t, ends-append s t h, is_empty-append_right s t h) refl

-- a name with a slash is what is before it, the slash, and what is after it
parts : (p pin : String) → after_slash p ≡ some pin → p ≡ before_slash p <> ("/" <> pin)
unfolding after_slash
parts String.[] pin h = let no : ⊥ = ground (arith, h) in absurd no
parts (String.◌∷◌ c s) pin h = elim (Bool-cases (same (code c) b'/')) [
  | inl t ↦
      let slash : c ≡ "/" = Char-path c "/" (ground arith) in
      let rest : s ≡ pin = ground (arith, h, t) in
      rw (before-slash c s t, nil-append ("/" <> pin), cons-append "/" "" pin, nil-append pin)
        (ap (λ d. String.◌∷◌ d s) slash ∙ ap (String.◌∷◌ "/") rest)
  | inr t ↦
      let rest : after_slash s ≡ some pin = ground (arith, h, t) in
      rw (before-other c s t, cons-append c (before_slash s) ("/" <> pin))
        (ap (String.◌∷◌ c) (parts s pin rest))
]

-- a part after one that neither is empty nor ends with a slash
after_part :
    (repo owner pin : String)
    → is_empty owner ≡ false
    → ends_with_slash owner ≡ false
    → starts_with_slash pin ≡ false
    → append_path (repo <> owner) pin ≡ repo <> (owner <> ("/" <> pin))
unfolding append_path
after_part repo owner pin o e f =
    rw (f, is_empty-append_right repo owner o, ends-append repo owner o, e)
      (append_assoc repo owner ("/" <> pin))

append_path-eq :
    (full part : String)
    → starts_with_slash part ≡ false
    → append_path full part
      ≡ (if is_empty full || ends_with_slash full then full <> part else full <> ("/" <> part))
unfolding append_path
append_path-eq full part f = rw f refl

append_path-parts :
    (repo p pin : String)
    → after_slash p ≡ some pin
    → is_empty (before_slash p) ≡ false
    → starts_with_slash pin ≡ false
    → append_path (append_path repo (before_slash p)) pin ≡ append_path repo p
append_path-parts repo p pin h b f =
    let owner = before_slash p in
    let starts = starts-before p b in
    let whole = ap (λ q. repo <> q) (sym (parts p pin h)) in
    let step = append_path-eq repo owner starts.1 in
    let once = append_path-eq repo p starts.0 in
    elim (Bool-cases (is_empty repo || ends_with_slash repo)) [
      | inl t ↦ rw (step, once, t) (after_part repo owner pin b (ends-before p) f ∙ whole)
      | inr t ↦
          rw (step, once, t)
            (ap (λ full. append_path full pin) (sym (append_assoc repo "/" owner))
              ∙ after_part (repo <> "/") owner pin b (ends-before p) f
              ∙ ap (λ q. (repo <> "/") <> q) (sym (parts p pin h))
              ∙ append_assoc repo "/" p)
    ]

-- A name of a pier: two parts that are not empty, and the second does not start with a slash.
abbrev pub IsPier : String → Type 0
IsPier p =
    (pin : String) × (after_slash p ≡ some pin)
    × (is_empty (before_slash p) ≡ false)
    × (is_empty pin ≡ false)
    × (starts_with_slash pin ≡ false)

-- The file of a pier, by the two parts of its name or by the name: the path is one.
pub make_path-pier_file :
    (repo p file : String) (h : IsPier p)
    → is_empty file ≡ false
    → make_path repo (before_slash p) h.0 file ≡ pier_file repo p file
unfolding make_path pier_file
make_path-pier_file repo p file (pin, h, b, n, f) named =
    rw (b, n, named, append_path-parts repo p pin h b f) refl
