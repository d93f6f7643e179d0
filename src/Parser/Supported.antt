-- ===== src/Parser/Supported.antt =====
-- What a parsed expression can be: the operators and tags that matching knows, and no deeper than
-- allowed.
pub mod Prefix
pub mod Legacy
pub mod Request
use goed2k_server.Base.{
  ℕ, zero, suc, ◌+◌, ◌≤◌, ◌≡◌, ◌≢◌, ◌⊎◌, inl, inr, refl, sym, ◌∙◌, Bool, true, false, not, ◌||◌,
  List, [], ◌∷◌, Option, none, some, length, ◌==◌, ltb, if◌then◌else◌, arith, Bool-cases,
}
use goed2k_server.Base.Int.{ℤ, pos, negsuc}
use goed2k_server.Base.Tests.{list_beq_iff, nat_eq, ltb→ge}
use goed2k_server.Base.Text.{Bytes, text, ◌=text◌, trim_space, CaseTables}
use goed2k_server.Protocol.{Protocol, TagIds}
use goed2k_server.Wire.{Wire, read_byte}
use goed2k_server.Search.{
  SearchExpr, SearchQuery, compound, keyword, string_tag, numeric, match_all, match_none,
  search_op_equal, search_op_not_equal, query_of_root, search_bool_not_and,
}
use goed2k_server.Search.Summary.{make_search_query, make_search_query-root}
use goed2k_server.Parser.{
  Parsed, ok, err, ◌>>=◌, reading, Ensures, holds, rejected, Ensures-ok, Ensures-if, Ensures-bind,
  Ensures-reject, Ensures-any, Anything,
}
use goed2k_server.Parser.Terms.{
  SearchTagRef, by_id, read_search_string, read_search_tag_ref, read_legacy_search_tag_id,
  make_keyword_expr, make_numeric_tag_expr, make_string_tag_expr, matches_id, matches_name,
  make_length_expr, parse_media_length,
}
use goed2k_server.Parser.Prefix.{
  parse_recursive_numeric_expr, parse_string_term, parse_str_tag_term, parse_uint32_term,
  parse_uint64_term, parse_leaf, parse_recursive_search_expr, search_type_bool, search_type_string,
  search_type_str_tag, search_type_uint32, search_type_uint64,
}

module _ (ft : TagIds) where
  abbrev pub IsNumericTag : ℕ → Type 0
  IsNumericTag tag =
      (tag ≡ ft.file_size)
      ⊎ ((tag ≡ ft.sources)
          ⊎ ((tag ≡ ft.complete_sources) ⊎ ((tag ≡ ft.media_bitrate) ⊎ (tag ≡ ft.media_length))))

  abbrev pub IsStringTag : ℕ → Type 0
  IsStringTag tag = (tag ≡ ft.file_type) ⊎ ((tag ≡ ft.file_format) ⊎ (tag ≡ ft.media_codec))

  -- Operators and tags that matching has a case for, and texts that are not empty.
  abbrev pub IsSupported : SearchExpr → Type 0
  IsSupported (compound operator l r) = (operator ≤ 4) × IsSupported l × IsSupported r
  IsSupported (keyword value) = value ≢ []
  IsSupported (string_tag tag value) = IsStringTag tag × (value ≢ [])
  IsSupported (numeric tag operator value) = IsNumericTag tag × (operator ≤ 5)
  IsSupported match_all = Unit
  IsSupported match_none = ⊥

  -- The tree has at most `n` levels.
  abbrev pub IsWithin : ℕ → SearchExpr → Type 0
  IsWithin zero e = ⊥
  IsWithin (suc n) (compound operator l r) = IsWithin n l × IsWithin n r
  IsWithin (suc n) _ = Unit

  abbrev pub IsLeaf : SearchExpr → Type 0
  IsLeaf (compound operator l r) = ⊥
  IsLeaf e = IsSupported e

  abbrev pub Good : SearchExpr × Bytes → Type 0
  Good r = IsLeaf r.0

  not_empty : (s : Bytes) → (s =text []) ≡ false → s ≢ []
  not_empty s h e = ground (arith, h, e)

  numeric-IsLeaf :
      {tag operator value : ℕ}
      → IsNumericTag tag
      → operator ≤ 5
      → Ensures IsLeaf (ok (numeric tag operator value))
  numeric-IsLeaf t h = holds (t, h)

  string_tag-IsLeaf :
      {tag : ℕ} {value : Bytes}
      → IsStringTag tag
      → value ≢ []
      → Ensures IsLeaf (ok (string_tag tag value))
  string_tag-IsLeaf t h = holds (t, h)

  match_all-IsLeaf : Ensures IsLeaf (ok match_all)
  match_all-IsLeaf = holds tt

  pub make_keyword_expr-IsLeaf : (raw : Bytes) → Ensures IsLeaf (make_keyword_expr raw)
  unfolding make_keyword_expr
  make_keyword_expr-IsLeaf raw =
      Ensures-if (trim_space raw =text []) (λ e. holds tt)
        (λ e. holds (not_empty (trim_space raw) e))

  module _ (u : CaseTables) where
    make_length_expr-IsLeaf :
        (atoi : Bytes → Option ℤ) (value : Bytes)
        → Ensures IsLeaf (make_length_expr ft u atoi value)
    unfolding make_length_expr
    make_length_expr-IsLeaf atoi value =
        Ensures-bind (Ensures-any (parse_media_length atoi value))
          (λ n any. numeric-IsLeaf (inr (inr (inr (inr refl)))) (omega arith))

    pub make_numeric_tag_expr-IsLeaf :
        (value operator : ℕ) (tag : SearchTagRef)
        → operator ≤ 5
        → Ensures IsLeaf (make_numeric_tag_expr ft u value operator tag)
    unfolding make_numeric_tag_expr
    make_numeric_tag_expr-IsLeaf value operator tag h =
        Ensures-if (matches_id tag ft.file_size) (λ e. numeric-IsLeaf (inl refl) h)
          (λ e.
            Ensures-if (matches_id tag ft.sources) (λ e. numeric-IsLeaf (inr (inl refl)) h)
              (λ e.
                Ensures-if (matches_id tag ft.complete_sources)
                  (λ e. numeric-IsLeaf (inr (inr (inl refl))) h)
                  (λ e.
                    Ensures-if
                      (matches_id tag ft.media_bitrate || matches_name ft u tag (text "bitrate"))
                      (λ e. numeric-IsLeaf (inr (inr (inr (inl refl)))) h)
                      (λ e.
                        Ensures-if
                          (matches_id tag ft.media_length || matches_name ft u tag (text "length"))
                          (λ e. numeric-IsLeaf (inr (inr (inr (inr refl)))) h) (λ e. rejected)))))

    module _ (atoi : Bytes → Option ℤ) where
      pub make_string_tag_expr-IsLeaf :
          (raw : Bytes) (tag : SearchTagRef)
          → Ensures IsLeaf (make_string_tag_expr ft u atoi raw tag)
      unfolding make_string_tag_expr make_length_expr
      make_string_tag_expr-IsLeaf raw tag =
          Ensures-if (trim_space raw =text []) (λ e. match_all-IsLeaf)
            (λ full.
              let text_is = not_empty (trim_space raw) full in
              Ensures-if (matches_id tag ft.file_type) (λ e. string_tag-IsLeaf (inl refl) text_is)
                (λ e.
                  Ensures-if (matches_id tag ft.file_format)
                    (λ e. string_tag-IsLeaf (inr (inl refl)) text_is)
                    (λ e.
                      Ensures-if
                        (matches_id tag ft.media_codec || matches_name ft u tag (text "codec"))
                        (λ e. string_tag-IsLeaf (inr (inr refl)) text_is)
                        (λ e.
                          Ensures-if
                            (matches_id tag ft.media_length
                              || matches_name ft u tag (text "length"))
                            (λ e. make_length_expr-IsLeaf atoi (trim_space raw)) (λ e. rejected)))))
