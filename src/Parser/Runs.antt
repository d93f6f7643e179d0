-- ===== src/Parser/Runs.antt =====
-- Runs of the parser on the sample instance.
use goed2k_server.Base.{◌≡◌, ◌≢◌, refl, inl, [], ◌∷◌, ◌++◌, Option, none, arith}
use goed2k_server.Base.Int.{ℤ, pos}
use goed2k_server.Base.Text.{Bytes, text, trim_space}
use goed2k_server.Samples.{sample_protocol, ascii, tag_ids}
use goed2k_server.Wire.Samples.{sample_wire, sample_wire_laws, sample_wire-Consumes}
use goed2k_server.Search.{SearchExpr, compound, keyword, numeric, match_all}
use goed2k_server.Search.Summary.{make_search_query}
use goed2k_server.Parser.{ok}
use goed2k_server.Parser.Terms.{
  read_search_string, read_search_tag_ref, make_keyword_expr, make_numeric_tag_expr,
}
use goed2k_server.Parser.Prefix.{
  parse_recursive_search_expr, parse_string_term, parse_uint32_term, parse_recursive_numeric_expr,
}
use goed2k_server.Parser.Legacy.{parse_legacy_rounds}
use goed2k_server.Parser.Request.{parse_search_request_limited, parse_recursive_root, depth_limit}
use goed2k_server.Parser.Supported.{IsWithin}
use goed2k_server.Parser.Supported.Request.{
  HasRoot, parse_search_request_limited-HasRoot, parse_recursive_root-IsWithin,
}
use goed2k_server.Parser.Rounds.{parse_legacy_rounds-total}
use goed2k_server.Parser.Printer.{print, print_numeric, IsPrintable, IsTrimmed}
use goed2k_server.Parser.RoundTrip.Legacy.{
  print_chain, chain_from, parse_search_request_limited-chain,
}
use goed2k_server.Parser.RoundTrip.Request.{parse_search_request_limited-print}

abbrev no_number : Bytes → Option ℤ
no_number s = none

-- ubuntu AND size > 7
abbrev sample : SearchExpr
sample = compound 0 (keyword (text "ubuntu")) (numeric 2 1 7)

abbrev sample_bytes : Bytes
sample_bytes = 0 ∷ 0 ∷ 1 ∷ 6 ∷ 0 ∷ (text "ubuntu" ++ (3 ∷ 7 ∷ 0 ∷ 0 ∷ 0 ∷ 1 ∷ 1 ∷ 0 ∷ 2 ∷ []))

sample_prints : print sample_wire sample ≡ sample_bytes
unfolding print print_numeric
sample_prints = refl

trimmed_word : trim_space (text "ubuntu") ≡ text "ubuntu"
unfolding trim_space
trimmed_word = refl

trimmed_tag : trim_space (2 ∷ []) ≡ 2 ∷ []
unfolding trim_space
trimmed_tag = refl

sample-IsPrintable : IsPrintable tag_ids sample
sample-IsPrintable = (
  omega arith,
  (trimmed_word, λ e. cc e, omega arith),
  (inl refl, trimmed_tag, omega arith, omega arith),
)

parse_search_request_limited-print_example :
    parse_search_request_limited sample_protocol ascii sample_wire no_number
      (print sample_wire sample)
      (pos 1)
    ≡ ok (make_search_query sample_protocol sample)
unfolding depth_limit
parse_search_request_limited-print_example =
    parse_search_request_limited-print sample_protocol ascii sample_wire no_number sample (pos 1)
      sample_wire_laws sample-IsPrintable (tt, tt)

parse_search_request_limited-HasRoot_example :
    HasRoot sample_protocol ascii no_number sample_wire (make_search_query sample_protocol sample)
unfolding depth_limit
parse_search_request_limited-HasRoot_example =
    parse_search_request_limited-HasRoot sample_protocol ascii no_number sample_wire
      (print sample_wire sample) (pos 1) (make_search_query sample_protocol sample)
      (parse_search_request_limited-print sample_protocol ascii sample_wire no_number sample (pos 1)
        sample_wire_laws sample-IsPrintable (tt, tt))

sample_parses :
    parse_recursive_root sample_protocol ascii sample_wire no_number 1 sample_bytes ≡ ok sample
unfolding parse_recursive_root parse_recursive_search_expr parse_string_term read_search_string
    make_keyword_expr parse_uint32_term parse_recursive_numeric_expr read_search_tag_ref
    make_numeric_tag_expr
sample_parses = refl

parse_recursive_root-IsWithin_example : IsWithin tag_ids 2 sample
parse_recursive_root-IsWithin_example =
    parse_recursive_root-IsWithin sample_protocol ascii no_number sample_wire 1 sample_bytes sample
      sample_parses

parse_legacy_rounds-total_example :
    parse_legacy_rounds tag_ids ascii sample_wire no_number 7 match_all
      (0 ∷ 0 ∷ 1 ∷ 1 ∷ 0 ∷ 97 ∷ [])
    ≢ none
parse_legacy_rounds-total_example =
    parse_legacy_rounds-total tag_ids ascii no_number sample_wire sample_wire-Consumes 7 match_all
      (0 ∷ 0 ∷ 1 ∷ 1 ∷ 0 ∷ 97 ∷ []) (omega arith)

word-IsTrimmed : IsTrimmed (text "ubuntu")
word-IsTrimmed = (trimmed_word, λ e. cc e, omega arith)

parse_search_request_limited-chain_example :
    (parse_search_request_limited sample_protocol ascii sample_wire no_number
        (print_chain sample_wire (text "ubuntu") (text "ubuntu" ∷ text "ubuntu" ∷ []))
        (pos 1)
      ≡ ok (
          make_search_query sample_protocol
            (chain_from (keyword (text "ubuntu")) (text "ubuntu" ∷ text "ubuntu" ∷ []))))
    × (¬ IsWithin tag_ids 2
        (chain_from (keyword (text "ubuntu")) (text "ubuntu" ∷ text "ubuntu" ∷ [])))
parse_search_request_limited-chain_example =
    parse_search_request_limited-chain sample_protocol ascii no_number sample_wire sample_wire_laws
      (pos 1) (text "ubuntu") (text "ubuntu") (text "ubuntu" ∷ []) word-IsTrimmed word-IsTrimmed
      (word-IsTrimmed, tt)
