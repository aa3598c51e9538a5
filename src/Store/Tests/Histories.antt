-- ===== src/Store/Tests/Histories.antt =====
-- The theorem about a history of calls, at one of four calls.
use webpier.Base.{List, [], ◌∷◌, arith}
use webpier.Ptree.Sample.{sample}
use webpier.Map.{string_key, find}
use webpier.Store.Context.{Context}
use webpier.Store.Context.Placing.{ArePlaced}
use webpier.Store.Context.Histories.{
  Call, adds_export, adds_import, others_write, dels_export, run_all, run_all-ArePlaced,
}
use webpier.Base.{Bool-cases, inl, inr}
use webpier.Backend.Tests.{ssh}
use webpier.Base.{◌==◌}
use webpier.Store.Tests.{enums, context, disk, mail}
open sample use {Text, write}

-- the context when it knows two piers and no service
abbrev blank : Context
blank = record context { bundle = ("mars/amy", []) ∷ ("venus/bob", []) ∷ [] }

blank-ArePlaced : ArePlaced blank
unfolding find
blank-ArePlaced q k s h = elim (Bool-cases ("mars/amy" == q)) [
  | inl t ↦ let no : ⊥ = ground arith in absurd no
  | inr t ↦ elim (Bool-cases ("venus/bob" == q)) [
    | inl u ↦ let no : ⊥ = ground arith in absurd no
    | inr u ↦ let no : ⊥ = ground arith in absurd no
  ]
]

-- the last call is refused, since the files have been written
abbrev calls : List (Call sample enums "no file")
calls =
    adds_export 8 mail
    ∷ adds_import 9 (record ssh { pier = "venus/bob" })
    ∷ others_write (record disk { stamp = 10 })
    ∷ dels_export 11 "mail"
    ∷ []

run_all-ArePlaced_example : ArePlaced (run_all sample enums "no file" calls blank disk)
run_all-ArePlaced_example =
    run_all-ArePlaced sample enums "no file" calls blank disk blank-ArePlaced
