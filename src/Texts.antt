-- ===== src/Texts.antt =====
-- Lemmas on texts that the components share. It models no code of its own.
use text.Mathlib.TextLemmas.{cons-append}
use Prim.Native.String.compare
use webpier.Base.{String, ◌<>◌, false, ◌≡◌, refl, arith, is_empty}

pub is_empty-append : (s t : String) → is_empty s ≡ false → is_empty (s <> t) ≡ false
is_empty-append String.[] t h = ground arith
is_empty-append (String.◌∷◌ c s) t h = rw (cons-append c s t, compare.cons-nil c (s <> t)) refl
