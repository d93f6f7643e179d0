-- ===== src/Parser/Legacy.antt =====
-- The legacy linear form: parseLegacySearchRequest, parseLegacySearchTerm and
-- parseLegacyNumericExpr.
use goed2k_server.Base.{
  ℕ, zero, suc, not, [], ◌∷◌, Option, none, some, length, ◌==◌, ltb, if◌then◌else◌,
}
use goed2k_server.Base.Int.{ℤ}
use goed2k_server.Base.Text.{Bytes, CaseTables}
use goed2k_server.Protocol.{TagIds}
use goed2k_server.Wire.{Wire, read_byte}
use goed2k_server.Search.{SearchExpr, compound, search_bool_not_and, search_op_not_equal}
use goed2k_server.Parser.{
  Parsed, ok, err, ◌>>=◌, ◌>>◌, reject_if, reading, unsupported_operator, unsupported_term,
  unsupported_marker, out_of_rounds,
}
use goed2k_server.Parser.Terms.{
  by_id, read_search_string, read_legacy_search_tag_id, make_numeric_tag_expr, make_string_tag_expr,
}
use goed2k_server.Parser.Prefix.{
  search_type_bool, search_type_string, search_type_str_tag, search_type_uint32, search_type_uint64,
  parse_string_term,
}

module _ (ft : TagIds) (u : CaseTables) (wire : Wire) (atoi : Bytes → Option ℤ) where
  unfoldable pub parse_legacy_numeric_expr : ℕ → Bytes → Parsed (SearchExpr × Bytes)
  unfolding read_byte
  parse_legacy_numeric_expr value src = do
    (operator, src1) ← reading (read_byte src)
    reject_if (ltb search_op_not_equal operator) (unsupported_operator operator)
    (tag_id, src2) ← read_legacy_search_tag_id wire src1
    expr ← make_numeric_tag_expr ft u value operator (by_id tag_id)
    ok (expr, src2)

  unfoldable pub parse_legacy_str_tag_term : Bytes → Parsed (SearchExpr × Bytes)
  parse_legacy_str_tag_term src = do
    (value, src1) ← read_search_string wire src
    (tag_id, src2) ← read_legacy_search_tag_id wire src1
    expr ← make_string_tag_expr ft u atoi value (by_id tag_id)
    ok (expr, src2)

  unfoldable pub parse_legacy_uint32_term : Bytes → Parsed (SearchExpr × Bytes)
  parse_legacy_uint32_term src = do
    (value, src1) ← reading (wire.read_uint32 src)
    parse_legacy_numeric_expr value src1

  unfoldable pub parse_legacy_uint64_term : Bytes → Parsed (SearchExpr × Bytes)
  parse_legacy_uint64_term src = do
    (value, src1) ← reading (wire.read_uint64 src)
    parse_legacy_numeric_expr value src1

  -- The switch on the type of the term.
  unfoldable pub parse_legacy_typed : ℕ → Bytes → Parsed (SearchExpr × Bytes)
  parse_legacy_typed term_type src =
      if term_type == search_type_string
      then parse_string_term ft u wire atoi src
      else if term_type == search_type_str_tag
      then parse_legacy_str_tag_term src
      else if term_type == search_type_uint32
      then parse_legacy_uint32_term src
      else if term_type == search_type_uint64
      then parse_legacy_uint64_term src
      else err (unsupported_term term_type)

  unfoldable pub parse_legacy_search_term : Bytes → Parsed (SearchExpr × Bytes)
  unfolding read_byte parse_legacy_typed
  parse_legacy_search_term src = do
    (term_type, src1) ← reading (read_byte src)
    parse_legacy_typed term_type src1

  -- One round of the loop: an operator and the next term.
  unfoldable pub parse_legacy_round : SearchExpr → Bytes → Parsed (SearchExpr × Bytes)
  unfolding read_byte
  parse_legacy_round root src = do
    (marker, src1) ← reading (read_byte src)
    reject_if (not (marker == search_type_bool)) (unsupported_marker marker)
    (operator, src2) ← reading (read_byte src1)
    reject_if (ltb search_bool_not_and operator) (unsupported_operator operator)
    (next, src3) ← parse_legacy_search_term src2
    ok (compound operator root next, src3)

  -- The loop while bytes are left. `rounds` bounds it, and `none` is that the bound was too small;
  -- a round takes two bytes at least.
  unfoldable pub parse_legacy_rounds : ℕ → SearchExpr → Bytes → Option (Parsed SearchExpr)
  parse_legacy_rounds rounds root [] = some (ok root)
  parse_legacy_rounds zero root (b ∷ src) = none
  parse_legacy_rounds (suc rounds) root (b ∷ src) = elim (parse_legacy_round root (b ∷ src)) [
    | ok (grown, rest) ↦ parse_legacy_rounds rounds grown rest
    | err e ↦ some (err e)
  ]

  unfoldable pub in_rounds : Option (Parsed SearchExpr) → Parsed SearchExpr
  in_rounds none = err out_of_rounds
  in_rounds (some result) = result

  unfoldable pub parse_legacy_root : Bytes → Parsed SearchExpr
  unfolding parse_legacy_rounds in_rounds
  parse_legacy_root body = do
    (root, src) ← parse_legacy_search_term body
    in_rounds (parse_legacy_rounds (length src) root src)
