-- ===== src/Parser/Prefix.antt =====
-- The recursive-prefix form: parseRecursiveSearchExpr and parseRecursiveNumericExpr.
use goed2k_server.Base.{ℕ, zero, suc, Option, ◌==◌, ltb, if◌then◌else◌}
use goed2k_server.Base.Int.{ℤ}
use goed2k_server.Base.Text.{Bytes, CaseTables}
use goed2k_server.Protocol.{TagIds}
use goed2k_server.Wire.{Wire, read_byte}
use goed2k_server.Search.{SearchExpr, compound, search_bool_not_and, search_op_not_equal}
use goed2k_server.Parser.{
  Parsed, ok, err, ◌>>=◌, ◌>>◌, reject_if, reading, too_deep, unsupported_operator,
  unsupported_term,
}
use goed2k_server.Parser.Terms.{
  read_search_string, read_search_tag_ref, make_keyword_expr, make_numeric_tag_expr,
  make_string_tag_expr,
}

abbrev pub search_type_bool : ℕ
search_type_bool = 0x00

abbrev pub search_type_string : ℕ
search_type_string = 0x01

abbrev pub search_type_str_tag : ℕ
search_type_str_tag = 0x02

abbrev pub search_type_uint32 : ℕ
search_type_uint32 = 0x03

abbrev pub search_type_uint64 : ℕ
search_type_uint64 = 0x08

module _ (ft : TagIds) (u : CaseTables) (wire : Wire) (atoi : Bytes → Option ℤ) where
  unfoldable pub parse_recursive_numeric_expr : ℕ → Bytes → Parsed (SearchExpr × Bytes)
  unfolding read_byte
  parse_recursive_numeric_expr value src = do
    (operator, src1) ← reading (read_byte src)
    reject_if (ltb search_op_not_equal operator) (unsupported_operator operator)
    (tag, src2) ← read_search_tag_ref wire src1
    expr ← make_numeric_tag_expr ft u value operator tag
    ok (expr, src2)

  unfoldable pub parse_string_term : Bytes → Parsed (SearchExpr × Bytes)
  parse_string_term src = do
    (value, src1) ← read_search_string wire src
    expr ← make_keyword_expr value
    ok (expr, src1)

  unfoldable pub parse_str_tag_term : Bytes → Parsed (SearchExpr × Bytes)
  parse_str_tag_term src = do
    (value, src1) ← read_search_string wire src
    (tag, src2) ← read_search_tag_ref wire src1
    expr ← make_string_tag_expr ft u atoi value tag
    ok (expr, src2)

  unfoldable pub parse_uint32_term : Bytes → Parsed (SearchExpr × Bytes)
  parse_uint32_term src = do
    (value, src1) ← reading (wire.read_uint32 src)
    parse_recursive_numeric_expr value src1

  unfoldable pub parse_uint64_term : Bytes → Parsed (SearchExpr × Bytes)
  parse_uint64_term src = do
    (value, src1) ← reading (wire.read_uint64 src)
    parse_recursive_numeric_expr value src1

  -- The terms other than the Boolean one, which nest no further.
  unfoldable pub parse_leaf : ℕ → Bytes → Parsed (SearchExpr × Bytes)
  parse_leaf term_type src =
      if term_type == search_type_string
      then parse_string_term src
      else if term_type == search_type_str_tag
      then parse_str_tag_term src
      else if term_type == search_type_uint32
      then parse_uint32_term src
      else if term_type == search_type_uint64
      then parse_uint64_term src
      else err (unsupported_term term_type)

  -- `left` is maxDepth + 1 - depth: the code's test `depth > maxDepth` is that nothing is left.
  unfoldable pub parse_recursive_search_expr : ℕ → Bytes → Parsed (SearchExpr × Bytes)
  unfolding parse_leaf read_byte
  parse_recursive_search_expr zero src = err too_deep
  parse_recursive_search_expr (suc left) src = do
    (term_type, src1) ← reading (read_byte src)
    let nested = do
      (operator, src2) ← reading (read_byte src1)
      reject_if (ltb search_bool_not_and operator) (unsupported_operator operator)
      (lhs, src3) ← parse_recursive_search_expr left src2
      (rhs, src4) ← parse_recursive_search_expr left src3
      ok (compound operator lhs rhs, src4)
    if term_type == search_type_bool then nested else parse_leaf term_type src1
