-- ===== src/Parser/Printer.antt =====
-- The prefix form of an expression, as the comments and tests of the parser describe it: what a
-- client sends. It is no code of the server.
use goed2k_server.Base.{ℕ, ◌≤◌, ◌<◌, ◌≡◌, ◌≢◌, [], ◌∷◌, ◌++◌, length, ltb, if◌then◌else◌}
use goed2k_server.Base.Text.{Bytes, trim_space}
use goed2k_server.Protocol.{TagIds}
use goed2k_server.Wire.{Wire}
use goed2k_server.Search.{SearchExpr, compound, keyword, string_tag, numeric, match_all, match_none}
use goed2k_server.Parser.Supported.{IsStringTag, IsNumericTag}

module _ (wire : Wire) where
  unfoldable pub write_string : Bytes → Bytes
  write_string s = wire.write_uint16 (length s) ++ s

  unfoldable pub write_operator : ℕ → ℕ → Bytes
  unfolding write_string
  write_operator operator tag = operator ∷ write_string (tag ∷ [])

  unfoldable pub print_numeric : ℕ → ℕ → ℕ → Bytes
  unfolding write_operator
  print_numeric tag operator value =
      if ltb value 4294967296
      then 3 ∷ (wire.write_uint32 value ++ write_operator operator tag)
      else 8 ∷ (wire.write_uint64 value ++ write_operator operator tag)

  unfoldable pub print : SearchExpr → Bytes
  unfolding write_string
  print (compound operator l r) = 0 ∷ operator ∷ (print l ++ print r)
  print (keyword value) = 1 ∷ write_string value
  print (string_tag tag value) = 2 ∷ (write_string value ++ write_string (tag ∷ []))
  print (numeric tag operator value) = print_numeric tag operator value
  print match_all = 1 ∷ write_string []
  print match_none = []

-- A text that the form can carry: no spaces at its ends, and no longer than 16 bits count.
abbrev pub IsTrimmed : Bytes → Type 0
IsTrimmed s = (trim_space s ≡ s) × (s ≢ []) × (length s < 65536)

-- The expressions that the prefix form can carry.
abbrev pub IsPrintable : TagIds → SearchExpr → Type 0
IsPrintable ft (compound operator l r) = (operator ≤ 4) × IsPrintable ft l × IsPrintable ft r
IsPrintable ft (keyword value) = IsTrimmed value
IsPrintable ft (string_tag tag value) =
    IsStringTag ft tag × (trim_space (tag ∷ []) ≡ tag ∷ []) × IsTrimmed value
IsPrintable ft (numeric tag operator value) =
    IsNumericTag ft tag
    × (trim_space (tag ∷ []) ≡ tag ∷ [])
    × (operator ≤ 5)
    × (value < 18446744073709551616)
IsPrintable ft match_all = Unit
IsPrintable ft match_none = ⊥
