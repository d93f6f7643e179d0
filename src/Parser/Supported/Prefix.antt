-- ===== src/Parser/Supported/Prefix.antt =====
-- What the prefix form gives.
use goed2k_server.Base.{ℕ, zero, suc, ◌≤◌, Option, ◌==◌, ltb}
use goed2k_server.Base.Int.{ℤ}
use goed2k_server.Base.Tests.{nat_eq, ltb→ge}
use goed2k_server.Base.Text.{Bytes, CaseTables}
use goed2k_server.Protocol.{TagIds}
use goed2k_server.Wire.{Wire, read_byte}
use goed2k_server.Search.{
  SearchExpr, compound, keyword, string_tag, numeric, match_all, match_none, search_op_not_equal,
  search_bool_not_and,
}
use goed2k_server.Parser.{
  reading, Ensures, holds, rejected, Ensures-if, Ensures-weaken, Ensures-bind, Ensures-reject,
  Ensures-any,
}
use goed2k_server.Parser.Terms.{read_search_string, read_search_tag_ref}
use goed2k_server.Parser.Prefix.{
  parse_recursive_numeric_expr, parse_string_term, parse_str_tag_term, parse_uint32_term,
  parse_uint64_term, parse_leaf, parse_recursive_search_expr, search_type_bool, search_type_string,
  search_type_str_tag, search_type_uint32, search_type_uint64,
}
use goed2k_server.Parser.Supported.{
  IsSupported, IsWithin, IsLeaf, Good, make_keyword_expr-IsLeaf, make_numeric_tag_expr-IsLeaf,
  make_string_tag_expr-IsLeaf,
}

module _ (ft : TagIds) (u : CaseTables) (atoi : Bytes → Option ℤ) (wire : Wire) where
  parse_recursive_numeric_expr-Good :
      (value : ℕ) (src : Bytes)
      → Ensures (Good ft) (parse_recursive_numeric_expr ft u wire atoi value src)
  unfolding parse_recursive_numeric_expr
  parse_recursive_numeric_expr-Good value src =
      Ensures-bind (Ensures-any (reading (read_byte src))) λ (operator, src1) any.
        Ensures-reject (ltb search_op_not_equal operator) _ λ small.
          Ensures-bind (Ensures-any (read_search_tag_ref wire src1)) λ (tag, src2) any.
            Ensures-bind
              (make_numeric_tag_expr-IsLeaf ft u value operator tag (ltb→ge 5 operator small))
              λ expr leaf. holds leaf

  pub parse_string_term-Good :
      (src : Bytes) → Ensures (Good ft) (parse_string_term ft u wire atoi src)
  unfolding parse_string_term
  parse_string_term-Good src =
      Ensures-bind (Ensures-any (read_search_string wire src)) λ (value, src1) any.
        Ensures-bind (make_keyword_expr-IsLeaf ft value) λ expr leaf. holds leaf

  parse_str_tag_term-Good :
      (src : Bytes) → Ensures (Good ft) (parse_str_tag_term ft u wire atoi src)
  unfolding parse_str_tag_term
  parse_str_tag_term-Good src =
      Ensures-bind (Ensures-any (read_search_string wire src)) λ (value, src1) any.
        Ensures-bind (Ensures-any (read_search_tag_ref wire src1)) λ (tag, src2) any.
          Ensures-bind (make_string_tag_expr-IsLeaf ft u atoi value tag) λ expr leaf. holds leaf

  parse_leaf-Good :
      (term_type : ℕ) (src : Bytes) → Ensures (Good ft) (parse_leaf ft u wire atoi term_type src)
  unfolding parse_leaf parse_uint32_term parse_uint64_term
  parse_leaf-Good term_type src =
      Ensures-if (term_type == search_type_string) (λ e. parse_string_term-Good src)
        (λ e.
          Ensures-if (term_type == search_type_str_tag) (λ e. parse_str_tag_term-Good src)
            (λ e.
              Ensures-if (term_type == search_type_uint32)
                (λ e.
                  Ensures-bind (Ensures-any (reading (wire.read_uint32 src)))
                    λ (value, src1) any. parse_recursive_numeric_expr-Good value src1)
                (λ e.
                  Ensures-if (term_type == search_type_uint64)
                    (λ e.
                      Ensures-bind (Ensures-any (reading (wire.read_uint64 src)))
                        λ (value, src1) any. parse_recursive_numeric_expr-Good value src1)
                    (λ e. rejected))))

  pub leaf-IsSupported :
      (e : SearchExpr) (n : ℕ) → IsLeaf ft e → IsSupported ft e × IsWithin ft (suc n) e
  leaf-IsSupported (compound operator l r) n h = absurd h
  leaf-IsSupported (keyword value) n h = (h, tt)
  leaf-IsSupported (string_tag tag value) n h = (h, tt)
  leaf-IsSupported (numeric tag operator value) n h = (h, tt)
  leaf-IsSupported match_all n h = (tt, tt)
  leaf-IsSupported match_none n h = absurd h

  abbrev pub Fits : ℕ → SearchExpr × Bytes → Type 0
  Fits n r = IsSupported ft r.0 × IsWithin ft n r.0

  compound-Fits :
      (n operator : ℕ) (l r : SearchExpr)
      → operator ≤ 4
      → IsSupported ft l × IsWithin ft n l
      → IsSupported ft r × IsWithin ft n r
      → IsSupported ft (compound operator l r) × IsWithin ft (suc n) (compound operator l r)
  compound-Fits n operator l r small (sl, wl) (sr, wr) = ((small, sl, sr), (wl, wr))

  -- What the prefix form gives is supported, and at most as deep as allowed.
  pub parse_recursive_search_expr-Fits :
      (left : ℕ) (src : Bytes)
      → Ensures (Fits left) (parse_recursive_search_expr ft u wire atoi left src)
  unfolding parse_recursive_search_expr
  parse_recursive_search_expr-Fits zero src = rejected
  parse_recursive_search_expr-Fits (suc left) src =
      Ensures-bind (Ensures-any (reading (read_byte src))) λ (term_type, src1) any.
        Ensures-if (term_type == search_type_bool)
          (λ e. Ensures-bind (Ensures-any (reading (read_byte src1))) λ (operator, src2) any.
            Ensures-reject (ltb search_bool_not_and operator) _ λ small.
              Ensures-bind (parse_recursive_search_expr-Fits left src2) λ (lhs, src3) l.
                Ensures-bind (parse_recursive_search_expr-Fits left src3) λ (rhs, src4) r.
                  holds (compound-Fits left operator lhs rhs (ltb→ge 4 operator small) l r))
          (λ e.
            Ensures-weaken (λ r leaf. leaf-IsSupported r.0 left leaf)
              (parse_leaf-Good term_type src1))
