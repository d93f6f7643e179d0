-- ===== src/Parser/Supported/Legacy.antt =====
-- What the legacy form gives.
use goed2k_server.Base.{ℕ, zero, suc, not, [], ◌∷◌, Option, some, length, ◌==◌, ltb}
use goed2k_server.Base.Int.{ℤ}
use goed2k_server.Base.Tests.{nat_eq, ltb→ge}
use goed2k_server.Base.Text.{Bytes, CaseTables}
use goed2k_server.Protocol.{TagIds}
use goed2k_server.Wire.{Wire, read_byte}
use goed2k_server.Search.{SearchExpr, search_op_not_equal, search_bool_not_and}
use goed2k_server.Parser.{
  Parsed, ok, err, reading, Ensures, holds, rejected, Ensures-if, Ensures-weaken, Ensures-bind,
  Ensures-reject, Ensures-any,
}
use goed2k_server.Parser.Terms.{by_id, read_search_string, read_legacy_search_tag_id}
use goed2k_server.Parser.Prefix.{
  search_type_bool, search_type_string, search_type_str_tag, search_type_uint32, search_type_uint64,
}
use goed2k_server.Parser.Supported.{
  IsSupported, Good, make_numeric_tag_expr-IsLeaf, make_string_tag_expr-IsLeaf,
}
use goed2k_server.Parser.Legacy.{
  parse_legacy_numeric_expr, parse_legacy_str_tag_term, parse_legacy_uint32_term,
  parse_legacy_uint64_term, parse_legacy_typed, parse_legacy_search_term, parse_legacy_round,
  parse_legacy_rounds, in_rounds, parse_legacy_root,
}
use goed2k_server.Parser.Supported.Prefix.{parse_string_term-Good, leaf-IsSupported}

module _ (ft : TagIds) (u : CaseTables) (atoi : Bytes → Option ℤ) (wire : Wire) where
  parse_legacy_numeric_expr-Good :
      (value : ℕ) (src : Bytes)
      → Ensures (Good ft) (parse_legacy_numeric_expr ft u wire atoi value src)
  unfolding parse_legacy_numeric_expr
  parse_legacy_numeric_expr-Good value src =
      Ensures-bind (Ensures-any (reading (read_byte src))) λ (operator, src1) any.
        Ensures-reject (ltb search_op_not_equal operator) _ λ small.
          Ensures-bind (Ensures-any (read_legacy_search_tag_id wire src1)) λ (tag, src2) any.
            Ensures-bind
              (make_numeric_tag_expr-IsLeaf ft u value operator (by_id tag)
                (ltb→ge 5 operator small))
              λ expr leaf. holds leaf

  parse_legacy_str_tag_term-Good :
      (src : Bytes) → Ensures (Good ft) (parse_legacy_str_tag_term ft u wire atoi src)
  unfolding parse_legacy_str_tag_term
  parse_legacy_str_tag_term-Good src =
      Ensures-bind (Ensures-any (read_search_string wire src)) λ (value, src1) any.
        Ensures-bind (Ensures-any (read_legacy_search_tag_id wire src1)) λ (tag, src2) any.
          Ensures-bind (make_string_tag_expr-IsLeaf ft u atoi value (by_id tag))
            λ expr leaf. holds leaf

  parse_legacy_typed-Good :
      (term_type : ℕ) (src : Bytes)
      → Ensures (Good ft) (parse_legacy_typed ft u wire atoi term_type src)
  unfolding parse_legacy_typed parse_legacy_uint32_term parse_legacy_uint64_term
  parse_legacy_typed-Good term_type src =
      Ensures-if (term_type == search_type_string) (λ e. parse_string_term-Good ft u atoi wire src)
        (λ e.
          Ensures-if (term_type == search_type_str_tag) (λ e. parse_legacy_str_tag_term-Good src)
            (λ e.
              Ensures-if (term_type == search_type_uint32)
                (λ e.
                  Ensures-bind (Ensures-any (reading (wire.read_uint32 src)))
                    λ (value, src1) any. parse_legacy_numeric_expr-Good value src1)
                (λ e.
                  Ensures-if (term_type == search_type_uint64)
                    (λ e.
                      Ensures-bind (Ensures-any (reading (wire.read_uint64 src)))
                        λ (value, src1) any. parse_legacy_numeric_expr-Good value src1)
                    (λ e. rejected))))

  abbrev First : SearchExpr × Bytes → Type 0
  First r = IsSupported ft r.0

  parse_legacy_search_term-First :
      (src : Bytes) → Ensures First (parse_legacy_search_term ft u wire atoi src)
  unfolding parse_legacy_search_term
  parse_legacy_search_term-First src =
      Ensures-bind (Ensures-any (reading (read_byte src))) λ (term_type, src1) any.
        Ensures-weaken (λ r leaf. (leaf-IsSupported ft u atoi wire r.0 0 leaf).0)
          (parse_legacy_typed-Good term_type src1)

  parse_legacy_round-First :
      (root : SearchExpr) (src : Bytes)
      → IsSupported ft root
      → Ensures First (parse_legacy_round ft u wire atoi root src)
  unfolding parse_legacy_round
  parse_legacy_round-First root src h =
      Ensures-bind (Ensures-any (reading (read_byte src))) λ (marker, src1) any.
        Ensures-reject (not (marker == search_type_bool)) _ λ same.
          Ensures-bind (Ensures-any (reading (read_byte src1))) λ (operator, src2) any.
            Ensures-reject (ltb search_bool_not_and operator) _ λ small.
              Ensures-bind (parse_legacy_search_term-First src2)
                λ (next, src3) supported. holds (ltb→ge 4 operator small, h, supported)

  continue-IsSupported :
      (rounds : ℕ) (m : Parsed (SearchExpr × Bytes))
      → Ensures First m
      → ((r : SearchExpr × Bytes)
          → First r
          → Ensures
              (IsSupported ft)
              (in_rounds ft u wire atoi (parse_legacy_rounds ft u wire atoi rounds r.0 r.1)))
      → Ensures (IsSupported ft) (
          in_rounds ft u wire atoi (elim m [
            | ok (grown, rest) ↦ parse_legacy_rounds ft u wire atoi rounds grown rest
            | err e ↦ some (err e)
          ]))
  unfolding in_rounds
  continue-IsSupported rounds (ok r) (holds h) k = k r h
  continue-IsSupported rounds (err e) rejected k = rejected

  parse_legacy_rounds-IsSupported :
      (rounds : ℕ) (root : SearchExpr) (src : Bytes)
      → IsSupported ft root
      → Ensures
          (IsSupported ft)
          (in_rounds ft u wire atoi (parse_legacy_rounds ft u wire atoi rounds root src))
  unfolding parse_legacy_rounds in_rounds
  parse_legacy_rounds-IsSupported rounds root [] h = holds h
  parse_legacy_rounds-IsSupported zero root (b ∷ src) h = rejected
  parse_legacy_rounds-IsSupported (suc rounds) root (b ∷ src) h =
      continue-IsSupported rounds (parse_legacy_round ft u wire atoi root (b ∷ src))
        (parse_legacy_round-First root (b ∷ src) h)
        (λ r g. parse_legacy_rounds-IsSupported rounds r.0 r.1 g)

  pub parse_legacy_root-IsSupported :
      (body : Bytes) → Ensures (IsSupported ft) (parse_legacy_root ft u wire atoi body)
  unfolding parse_legacy_root
  parse_legacy_root-IsSupported body =
      Ensures-bind (parse_legacy_search_term-First body)
        λ (root, src) h. parse_legacy_rounds-IsSupported (length src) root src h
