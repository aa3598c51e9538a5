-- ===== src/Store/Utils/Laws.antt =====
-- What `hexify` keeps, and what `is_utf8` overlooks.
use Prim.Native.Char.{Char, code}
use Prim.Native.Nat.{bit_xor}
use mathlib.Core.Path.{subst}
use native.Mathlib.Nat.{pow-suc}
use webpier.Base.{
  ℕ, zero, suc, ◌+◌, ◌-◌, ◌*◌, ◌/◌, ◌%◌, ◌^◌, ◌<◌, ◌≤◌, String, some, List, [], ◌∷◌, ◌≡◌, refl, ◌∙◌,
  ap, arith, same, ltb, length, if◌then◌else◌, Option-cases, Bool-cases, inl, inr,
}
use webpier.Store.Utils.{
  width, continued, step, is_utf8_from, is_utf8, hex_digit, hex, hexify, fnv, make_text_hash,
  fnv_offset_basis,
}

-- The number that a digit stands for.
abbrev pub digit_value : Char → ℕ
digit_value c = if ltb (code c) 58 then code c - 48 else code c - 55

-- The number that a text in digits stands for, after the digits that were read.
unfoldable pub unhex : ℕ → String → ℕ
unhex n String.[] = n
unhex n (String.◌∷◌ c s) = unhex (n * 16 + digit_value c) s

unfoldable pub count : String → ℕ
count String.[] = 0
count (String.◌∷◌ c s) = suc (count s)

value-digit : (d : ℕ) → d < 16 → digit_value (hex_digit d) ≡ d
value-digit zero h = refl
value-digit (suc zero) h = refl
value-digit (suc (suc zero)) h = refl
value-digit (suc (suc (suc zero))) h = refl
value-digit (suc (suc (suc (suc zero)))) h = refl
value-digit (suc (suc (suc (suc (suc zero))))) h = refl
value-digit (suc (suc (suc (suc (suc (suc zero)))))) h = refl
value-digit (suc (suc (suc (suc (suc (suc (suc zero))))))) h = refl
value-digit (suc (suc (suc (suc (suc (suc (suc (suc zero)))))))) h = refl
value-digit (suc (suc (suc (suc (suc (suc (suc (suc (suc zero))))))))) h = refl
value-digit (suc (suc (suc (suc (suc (suc (suc (suc (suc (suc zero)))))))))) h = refl
value-digit (suc (suc (suc (suc (suc (suc (suc (suc (suc (suc (suc zero))))))))))) h = refl
value-digit (suc (suc (suc (suc (suc (suc (suc (suc (suc (suc (suc (suc zero)))))))))))) h = refl
value-digit (suc (suc (suc (suc (suc (suc (suc (suc (suc (suc (suc (suc (suc zero))))))))))))) h =
    refl
value-digit (suc (suc (suc (suc (suc (suc (suc (suc (suc (suc (suc (suc (suc (suc zero))))))))))))))
      h =
    refl
value-digit
      (suc (suc (suc (suc (suc (suc (suc (suc (suc (suc (suc (suc (suc (suc (suc zero)))))))))))))))
      h =
    refl
value-digit
      (suc
        (suc (suc (suc (suc (suc (suc (suc (suc (suc (suc (suc (suc (suc (suc (suc d))))))))))))))))
      h =
    omega arith

unhex-hex : (n v : ℕ) (s : String) → v < 16 ^ n → unhex 0 (hex n v s) ≡ unhex v s
unfolding unhex hex
unhex-hex zero v s h = let none_left : v ≡ 0 = omega arith in rw none_left refl
unhex-hex (suc n) v s h =
    let digit : digit_value (hex_digit (v % 16)) ≡ v % 16 = value-digit (v % 16) (omega arith) in
    let whole : v / 16 * 16 + v % 16 ≡ v = omega arith in
    let wide : v < 16 ^ n * 16 = subst (λ x. v < x) (pow-suc 16 n) h in
    unhex-hex n (v / 16) (String.◌∷◌ (hex_digit (v % 16)) s) (omega arith)
    ∙ ap (λ x. unhex (v / 16 * 16 + x) s) digit
    ∙ ap (λ x. unhex x s) whole

count-hex : (n v : ℕ) (s : String) → count (hex n v s) ≡ n + count s
unfolding count hex
count-hex zero v s = omega arith
count-hex (suc n) v s = count-hex n (v / 16) (String.◌∷◌ (hex_digit (v % 16)) s) ∙ omega arith

fnv-lt : (text : List ℕ) (h : ℕ) → h < 2 ^ 64 → fnv h text < 2 ^ 64
unfolding fnv
fnv-lt [] h b = b
fnv-lt (c ∷ text) h b = fnv-lt text (bit_xor h c * 1099511628211 % 2 ^ 64) (omega arith)

-- A hash has sixteen digits, which read as the number that was computed, below 2 ^ 64.
unhex-make_text_hash :
    (text : List ℕ)
    → (count (make_text_hash text) ≡ 16)
      × (unhex 0 (make_text_hash text) ≡ fnv fnv_offset_basis text)
      × (fnv fnv_offset_basis text < 2 ^ 64)
unfolding make_text_hash hexify unhex count
unhex-make_text_hash text =
    let small = fnv-lt text fnv_offset_basis (omega arith) in
    (
      count-hex 16 (fnv fnv_offset_basis text) "",
      unhex-hex 16 (fnv fnv_offset_basis text) "" small,
      small,
    )

length-continued :
    (n : ℕ) (bytes rest : List ℕ) → continued n bytes ≡ some rest → length rest ≤ length bytes
unfolding continued
length-continued zero bytes rest h = let all_left : bytes ≡ rest = cc in rw all_left (omega arith)
length-continued (suc n) [] rest h = cc
length-continued (suc n) (b ∷ bytes) rest h = elim (Bool-cases (same (b / 64) 2)) [
  | inl t ↦ ground (arith, length-continued n bytes rest)
  | inr f ↦ ground arith
]

length-step : (bytes : List ℕ) → length (step bytes) ≤ length bytes
length-step [] = omega arith
length-step (b ∷ bytes) = omega arith

-- More fuel than the length of the text changes nothing.
is_utf8_from-more :
    (fuel more : ℕ) (bytes : List ℕ)
    → length bytes ≤ fuel
    → fuel ≤ more
    → is_utf8_from more bytes ≡ is_utf8_from fuel bytes
unfolding is_utf8_from
is_utf8_from-more fuel more [] h k = refl
is_utf8_from-more zero more (b ∷ bytes) h k = let no : ⊥ = omega arith in absurd no
is_utf8_from-more (suc fuel) zero (b ∷ bytes) h k = let no : ⊥ = omega arith in absurd no
is_utf8_from-more (suc fuel) (suc more) (b ∷ bytes) h k = elim (Option-cases (width b)) [
  | inl w ↦ rw (w, is_utf8_from) refl
  | inr (n, w) ↦ elim (Option-cases (continued (n - 1) bytes)) [
    | inl r ↦ rw (w, r, is_utf8_from) refl
    | inr (rest, r) ↦
        let shorter = length-continued (n - 1) bytes rest r in
        let still = length-step rest in
        rw (w, r, is_utf8_from)
          (is_utf8_from-more fuel more (step rest) (omega arith) (omega arith))
  ]
]

-- The byte after a character of one byte is not looked at: whatever it is, the answer is that for
-- the text behind it.
is_utf8-skips : (c b : ℕ) (bytes : List ℕ) → c < 128 → is_utf8 (c ∷ b ∷ bytes) ≡ is_utf8 bytes
unfolding is_utf8 is_utf8_from continued
is_utf8-skips c b bytes h =
    let one : width c ≡ some 1 = ground arith in
    rw (one, is_utf8_from)
      (is_utf8_from-more (length bytes) (suc (length bytes)) bytes (omega arith) (omega arith))
