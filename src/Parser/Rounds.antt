-- ===== src/Parser/Rounds.antt =====
-- The loop of the legacy form ends: a round takes two bytes at least.
use goed2k_server.Base.{
  ℕ, zero, suc, ◌≤◌, ◌≢◌, not, [], ◌∷◌, Option, none, some, length, ◌==◌, ltb, arith,
}
use goed2k_server.Base.Int.{ℤ}
use goed2k_server.Base.Tests.{nat_eq}
use goed2k_server.Base.Text.{Bytes, CaseTables}
use goed2k_server.Protocol.{TagIds}
use goed2k_server.Wire.{Wire, Consumes, read_byte}
use goed2k_server.Search.{SearchExpr, compound, search_op_not_equal, search_bool_not_and}
use goed2k_server.Parser.{
  Parsed, ok, err, reading, Ensures, holds, rejected, Ensures-if, Ensures-weaken, Ensures-bind,
  Ensures-reject, Ensures-any, Ensures-reading,
}
use goed2k_server.Parser.Terms.{
  by_id, read_search_string, read_legacy_search_tag_id, make_keyword_expr, make_numeric_tag_expr,
  make_string_tag_expr,
}
use goed2k_server.Parser.Prefix.{
  parse_string_term, search_type_bool, search_type_string, search_type_str_tag, search_type_uint32,
  search_type_uint64,
}
use goed2k_server.Parser.Legacy.{
  parse_legacy_numeric_expr, parse_legacy_str_tag_term, parse_legacy_uint32_term,
  parse_legacy_uint64_term, parse_legacy_typed, parse_legacy_search_term, parse_legacy_round,
  parse_legacy_rounds,
}

module _ (ft : TagIds) (u : CaseTables) (atoi : Bytes → Option ℤ) (wire : Wire)
    (c : Consumes wire) where
  -- At most `n` bytes are left.
  abbrev Leaves {ℓ} : {A : Type ℓ} → ℕ → A × Bytes → Type 0
  Leaves n r = length r.1 ≤ n

  read_byte-Leaves :
      (src : Bytes)
      → Ensures (λ (r : ℕ × Bytes). suc (length r.1) ≤ length src) (reading (read_byte src))
  unfolding read_byte
  read_byte-Leaves [] = rejected
  read_byte-Leaves (b ∷ src) = holds (omega arith)

  read_search_string-Leaves :
      (src : Bytes) → Ensures (Leaves (length src)) (read_search_string wire src)
  unfolding read_search_string
  read_search_string-Leaves src =
      Ensures-bind
        (Ensures-reading {P = Leaves (length src)} (wire.read_uint16 src)
          (λ (v, rest) e. c.within16 src rest v e))
        λ (size, src1) l.
          Ensures-bind
            (Ensures-reading {P = Leaves (length src1)} (wire.read_bytes size src1)
              (λ (xs, rest) e. c.within_bytes size src1 xs rest e))
            λ (raw, src2) m. holds (omega arith)

  read_legacy_search_tag_id-Leaves :
      (src : Bytes) → Ensures (Leaves (length src)) (read_legacy_search_tag_id wire src)
  unfolding read_legacy_search_tag_id
  read_legacy_search_tag_id-Leaves src =
      Ensures-bind
        (Ensures-reading {P = Leaves (length src)} (wire.read_uint16 src)
          (λ (v, rest) e. c.within16 src rest v e))
        λ (count, src1) l.
          Ensures-if (not (count == 1)) (λ e. rejected)
            (λ e. Ensures-weaken (λ r m. omega arith) (read_byte-Leaves src1))

  parse_legacy_numeric_expr-Leaves :
      (value : ℕ) (src : Bytes)
      → Ensures (Leaves (length src)) (parse_legacy_numeric_expr ft u wire atoi value src)
  unfolding parse_legacy_numeric_expr
  parse_legacy_numeric_expr-Leaves value src =
      Ensures-bind (read_byte-Leaves src) λ (operator, src1) l.
        Ensures-reject (ltb search_op_not_equal operator) _ λ small.
          Ensures-bind (read_legacy_search_tag_id-Leaves src1) λ (tag, src2) m.
            Ensures-bind (Ensures-any (make_numeric_tag_expr ft u value operator (by_id tag)))
              λ expr any. holds (omega arith)

  parse_string_term-Leaves :
      (src : Bytes) → Ensures (Leaves (length src)) (parse_string_term ft u wire atoi src)
  unfolding parse_string_term
  parse_string_term-Leaves src =
      Ensures-bind (read_search_string-Leaves src)
        λ (value, src1) l. Ensures-bind (Ensures-any (make_keyword_expr value)) λ expr any. holds l

  parse_legacy_str_tag_term-Leaves :
      (src : Bytes) → Ensures (Leaves (length src)) (parse_legacy_str_tag_term ft u wire atoi src)
  unfolding parse_legacy_str_tag_term
  parse_legacy_str_tag_term-Leaves src =
      Ensures-bind (read_search_string-Leaves src) λ (value, src1) l.
        Ensures-bind (read_legacy_search_tag_id-Leaves src1) λ (tag, src2) m.
          Ensures-bind (Ensures-any (make_string_tag_expr ft u atoi value (by_id tag)))
            λ expr any. holds (omega arith)

  parse_legacy_typed-Leaves :
      (term_type : ℕ) (src : Bytes)
      → Ensures (Leaves (length src)) (parse_legacy_typed ft u wire atoi term_type src)
  unfolding parse_legacy_typed parse_legacy_uint32_term parse_legacy_uint64_term
  parse_legacy_typed-Leaves term_type src =
      Ensures-if (term_type == search_type_string) (λ e. parse_string_term-Leaves src)
        (λ e.
          Ensures-if (term_type == search_type_str_tag) (λ e. parse_legacy_str_tag_term-Leaves src)
            (λ e.
              Ensures-if (term_type == search_type_uint32)
                (λ e.
                  Ensures-bind
                    (Ensures-reading {P = Leaves (length src)} (wire.read_uint32 src)
                      (λ (v, rest) q. c.within32 src rest v q))
                    λ (value, src1) l.
                      Ensures-weaken (λ r m. omega arith)
                        (parse_legacy_numeric_expr-Leaves value src1))
                (λ e.
                  Ensures-if (term_type == search_type_uint64)
                    (λ e.
                      Ensures-bind
                        (Ensures-reading {P = Leaves (length src)} (wire.read_uint64 src)
                          (λ (v, rest) q. c.within64 src rest v q))
                        λ (value, src1) l.
                          Ensures-weaken (λ r m. omega arith)
                            (parse_legacy_numeric_expr-Leaves value src1))
                    (λ e. rejected))))

  parse_legacy_search_term-Leaves :
      (src : Bytes) → Ensures (Leaves (length src)) (parse_legacy_search_term ft u wire atoi src)
  unfolding parse_legacy_search_term
  parse_legacy_search_term-Leaves src = Ensures-bind (read_byte-Leaves src) λ (term_type, src1) l.
      Ensures-weaken (λ r m. omega arith) (parse_legacy_typed-Leaves term_type src1)

  parse_legacy_round-Leaves :
      (root : SearchExpr) (src : Bytes)
      → Ensures (λ r. suc (length r.1) ≤ length src) (parse_legacy_round ft u wire atoi root src)
  unfolding parse_legacy_round
  parse_legacy_round-Leaves root src = Ensures-bind (read_byte-Leaves src) λ (marker, src1) l.
      Ensures-reject (not (marker == search_type_bool)) _ λ same.
        Ensures-bind (read_byte-Leaves src1) λ (operator, src2) m.
          Ensures-reject (ltb search_bool_not_and operator) _ λ small.
            Ensures-bind (parse_legacy_search_term-Leaves src2)
              λ (next, src3) n. holds {a = (compound operator root next, src3)} (omega arith)

  continue_ends :
      (rounds n : ℕ) (m : Parsed (SearchExpr × Bytes))
      → Ensures (Leaves n) m
      → ((r : SearchExpr × Bytes)
          → length r.1 ≤ n
          → parse_legacy_rounds ft u wire atoi rounds r.0 r.1 ≢ none)
      → (elim m [
        | ok (grown, rest) ↦ parse_legacy_rounds ft u wire atoi rounds grown rest
        | err e ↦ some (err e)
      ])
        ≢ none
  continue_ends rounds n (ok r) (holds h) k = k r h
  continue_ends rounds n (err e) rejected k = cc

  -- As many rounds as there are bytes left are enough for the loop of the legacy form to end, with
  -- an expression or with an error of the code.
  pub parse_legacy_rounds-total :
      (rounds : ℕ) (root : SearchExpr) (src : Bytes)
      → length src ≤ rounds
      → parse_legacy_rounds ft u wire atoi rounds root src ≢ none
  unfolding parse_legacy_rounds
  parse_legacy_rounds-total rounds root [] l = cc
  parse_legacy_rounds-total zero root (b ∷ src) l = absurd (omega arith)
  parse_legacy_rounds-total (suc rounds) root (b ∷ src) l =
      continue_ends rounds (length src) (parse_legacy_round ft u wire atoi root (b ∷ src))
        (Ensures-weaken (λ r m. omega arith) (parse_legacy_round-Leaves root (b ∷ src)))
        (λ r m. parse_legacy_rounds-total rounds r.0 r.1 (omega arith))
