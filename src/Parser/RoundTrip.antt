-- ===== src/Parser/RoundTrip.antt =====
-- What is printed in the prefix form parses back.
pub mod Request
pub mod Legacy
use goed2k_server.Base.{
  ℕ, zero, suc, ◌+◌, ◌≤◌, ◌<◌, ◌≡◌, ◌≢◌, ◌⊎◌, inl, inr, refl, sym, ap, ◌∙◌, Bool, true, false, ◌||◌,
  List, [], ◌∷◌, ◌++◌, Option, none, some, length, ◌==◌, ltb, if◌then◌else◌, arith, Bool-cases,
  append_assoc, append_nil,
}
use goed2k_server.Base.Int.{ℤ, pos, negsuc}
use goed2k_server.Base.Tests.{
  list_beq_iff, nat_eq, ltb→ge, ge→ltb, ltb→lt, if_true, if_false, ==_refl, ne→beq, text_eq,
}
use goed2k_server.Base.Text.{Bytes, text, ◌=text◌, trim_space, CaseTables}
use goed2k_server.Protocol.{Protocol, TagIds}
use goed2k_server.Wire.{Wire, WireLaws, read_byte}
use goed2k_server.Search.{
  SearchExpr, SearchQuery, compound, keyword, string_tag, numeric, match_all, match_none,
  search_op_equal, search_op_not_equal, search_bool_not_and,
}
use goed2k_server.Search.Summary.{make_search_query}
use goed2k_server.Parser.{Parsed, ok, err, ◌>>=◌, ◌>>◌, reading, reject_if}
use goed2k_server.Parser.Terms.{
  by_id, read_search_string, read_search_tag_ref, tag_of_value, make_keyword_expr,
  make_numeric_tag_expr, make_string_tag_expr, matches_id, matches_name,
}
use goed2k_server.Parser.Prefix.{
  parse_recursive_numeric_expr, parse_string_term, parse_str_tag_term, parse_uint32_term,
  parse_uint64_term, parse_leaf, parse_recursive_search_expr,
}
use goed2k_server.Parser.Supported.{IsNumericTag, IsStringTag, IsWithin}
use goed2k_server.Parser.Printer.{
  write_string, write_operator, print_numeric, print, IsTrimmed, IsPrintable,
}

module _ (wire : Wire) (laws : WireLaws wire) where
  read_search_string-write_string :
      (s rest : Bytes)
      → length s < 65536
      → read_search_string wire (write_string wire s ++ rest) ≡ ok (trim_space s, rest)
  unfolding read_search_string write_string
  read_search_string-write_string s rest h =
      rw (append_assoc (wire.write_uint16 (length s)) s rest)
        (rw (laws.read_write16 (length s) (s ++ rest) h) (rw (laws.read_bytes_append s rest) refl))

  read_search_tag_ref-write_string :
      (tag : ℕ) (rest : Bytes)
      → trim_space (tag ∷ []) ≡ tag ∷ []
      → read_search_tag_ref wire (write_string wire (tag ∷ []) ++ rest) ≡ ok (by_id tag, rest)
  unfolding read_search_tag_ref
  read_search_tag_ref-write_string tag rest h =
      rw (read_search_string-write_string (tag ∷ []) rest (omega arith)) (rw h refl)

make_keyword_expr-trimmed : (s : Bytes) → IsTrimmed s → make_keyword_expr s ≡ ok (keyword s)
unfolding make_keyword_expr
make_keyword_expr-trimmed s h = rw h.0 (rw (ne→beq s [] h.1) refl)

module _ (ft : TagIds) (u : CaseTables) where
  make_numeric_tag_expr-by_id :
      (value operator tag : ℕ)
      → IsNumericTag ft tag
      → make_numeric_tag_expr ft u value operator (by_id tag) ≡ ok (numeric tag operator value)
  unfolding make_numeric_tag_expr
  make_numeric_tag_expr-by_id value operator tag h = ground (arith, h)

  make_string_tag_expr-by_id :
      (atoi : Bytes → Option ℤ) (s : Bytes) (tag : ℕ)
      → IsStringTag ft tag
      → IsTrimmed s
      → make_string_tag_expr ft u atoi s (by_id tag) ≡ ok (string_tag tag s)
  unfolding make_string_tag_expr
  make_string_tag_expr-by_id atoi s tag h t = rw (t.0) (rw (ne→beq s [] t.1) (ground (arith, h)))

module _ (ft : TagIds) (u : CaseTables) (atoi : Bytes → Option ℤ) (wire : Wire)
    (laws : WireLaws wire) where
  parse_recursive_numeric_expr-print :
      (value operator tag : ℕ) (rest : Bytes)
      → IsNumericTag ft tag
      → trim_space (tag ∷ []) ≡ tag ∷ []
      → operator ≤ 5
      → parse_recursive_numeric_expr ft u wire atoi value (write_operator wire operator tag ++ rest)
        ≡ ok (numeric tag operator value, rest)
  unfolding parse_recursive_numeric_expr write_operator
  parse_recursive_numeric_expr-print value operator tag rest t trimmed small =
      rw (ge→ltb 5 operator small) (
        rw (read_search_tag_ref-write_string wire laws tag rest trimmed)
          (rw (make_numeric_tag_expr-by_id ft u value operator tag t) refl))

  pub parse_string_term-print :
      (value rest : Bytes)
      → IsTrimmed value
      → parse_string_term ft u wire atoi (write_string wire value ++ rest)
        ≡ ok (keyword value, rest)
  unfolding parse_string_term
  parse_string_term-print value rest t =
      rw (read_search_string-write_string wire laws value rest t.2)
        (rw (t.0) (rw (make_keyword_expr-trimmed value t) refl))

  parse_empty_term-print :
      (rest : Bytes)
      → parse_string_term ft u wire atoi (write_string wire [] ++ rest) ≡ ok (match_all, rest)
  unfolding parse_string_term make_keyword_expr trim_space
  parse_empty_term-print rest =
      rw (read_search_string-write_string wire laws [] rest (omega arith)) refl

  parse_str_tag_term-print :
      (tag : ℕ) (value rest : Bytes)
      → IsStringTag ft tag
      → trim_space (tag ∷ []) ≡ tag ∷ []
      → IsTrimmed value
      → parse_str_tag_term ft u wire atoi
          ((write_string wire value ++ write_string wire (tag ∷ [])) ++ rest)
        ≡ ok (string_tag tag value, rest)
  unfolding parse_str_tag_term
  parse_str_tag_term-print tag value rest s trimmed t =
      rw (append_assoc (write_string wire value) (write_string wire (tag ∷ [])) rest) (
        rw
          (read_search_string-write_string wire laws value (write_string wire (tag ∷ []) ++ rest)
            t.2)
          (rw (read_search_tag_ref-write_string wire laws tag rest trimmed)
            (rw (t.0) (rw (make_string_tag_expr-by_id ft u atoi value tag s t) refl))))

  abbrev pub Reads : SearchExpr → Type 0
  Reads e =
      (left : ℕ) (rest : Bytes)
      → IsPrintable ft e
      → IsWithin ft left e
      → parse_recursive_search_expr ft u wire atoi left (print wire e ++ rest) ≡ ok (e, rest)

  numeric-Reads : (tag operator value : ℕ) → Reads (numeric tag operator value)
  unfolding parse_recursive_search_expr print print_numeric parse_leaf parse_uint32_term
      parse_uint64_term
  numeric-Reads tag operator value zero rest h w = absurd w
  numeric-Reads tag operator value (suc left) rest h w = elim (Bool-cases (ltb value 4294967296)) [
    | inl b ↦ rw b (
        rw (append_assoc (wire.write_uint32 value) (write_operator wire operator tag) rest) (
          rw
            (laws.read_write32 value (write_operator wire operator tag ++ rest)
              (ltb→lt value 4294967296 b))
            (parse_recursive_numeric_expr-print value operator tag rest h.0 h.1 h.2)))
    | inr b ↦ rw b (
        rw (append_assoc (wire.write_uint64 value) (write_operator wire operator tag) rest) (
          rw (laws.read_write64 value (write_operator wire operator tag ++ rest) h.3)
            (parse_recursive_numeric_expr-print value operator tag rest h.0 h.1 h.2)))
  ]

  pub parse_recursive_search_expr-Reads : (e : SearchExpr) → Reads e
  unfolding parse_recursive_search_expr print parse_leaf
  parse_recursive_search_expr-Reads (compound operator l r) zero rest h w = absurd w
  parse_recursive_search_expr-Reads (compound operator l r) (suc left) rest h w =
      rw (ge→ltb 4 operator h.0) (
        rw (append_assoc (print wire l) (print wire r) rest) (
          rw (parse_recursive_search_expr-Reads l left (print wire r ++ rest) h.1 w.0)
            (rw (parse_recursive_search_expr-Reads r left rest h.2 w.1) refl)))
  parse_recursive_search_expr-Reads (keyword value) zero rest h w = absurd w
  parse_recursive_search_expr-Reads (keyword value) (suc left) rest h w =
      parse_string_term-print value rest h
  parse_recursive_search_expr-Reads (string_tag tag value) zero rest h w = absurd w
  parse_recursive_search_expr-Reads (string_tag tag value) (suc left) rest h w =
      parse_str_tag_term-print tag value rest h.0 h.1 h.2
  parse_recursive_search_expr-Reads (numeric tag operator value) left rest h w =
      numeric-Reads tag operator value left rest h w
  parse_recursive_search_expr-Reads match_all zero rest h w = absurd w
  parse_recursive_search_expr-Reads match_all (suc left) rest h w = parse_empty_term-print rest
  parse_recursive_search_expr-Reads match_none left rest h w = absurd h
