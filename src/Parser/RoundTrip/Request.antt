-- ===== src/Parser/RoundTrip/Request.antt =====
-- The round trip of a whole request.
use goed2k_server.Base.{
  suc, ◌≡◌, ◌≢◌, refl, sym, ap, ◌∙◌, [], ◌∷◌, Option, ltb, append_nil, Bool-cases, inl, inr,
}
use goed2k_server.Base.Int.{ℤ}
use goed2k_server.Base.Text.{Bytes, CaseTables}
use goed2k_server.Protocol.{Protocol}
use goed2k_server.Wire.{Wire, WireLaws}
use goed2k_server.Search.{
  SearchExpr, SearchQuery, compound, keyword, string_tag, numeric, match_all, match_none,
}
use goed2k_server.Search.Summary.{make_search_query}
use goed2k_server.Parser.{ok}
use goed2k_server.Parser.Prefix.{parse_recursive_search_expr}
use goed2k_server.Parser.Request.{
  depth_limit, all_read, parse_recursive_root, parse_recursive_search_request,
  parse_search_request_limited,
}
use goed2k_server.Parser.Supported.{IsWithin}
use goed2k_server.Parser.Printer.{print, print_numeric, IsPrintable}
use goed2k_server.Parser.RoundTrip.{parse_recursive_search_expr-Reads}

module _ (p : Protocol) (u : CaseTables) (wire : Wire) (atoi : Bytes → Option ℤ) where
  print_ne : (e : SearchExpr) → IsPrintable p.ft e → print wire e ≢ []
  unfolding print print_numeric
  print_ne (compound operator l r) h = cc
  print_ne (keyword value) h = cc
  print_ne (string_tag tag value) h = cc
  print_ne (numeric tag operator value) h = elim (Bool-cases (ltb value 4294967296)) [
    | inl b ↦ rw b (cc)
    | inr b ↦ rw b (cc)
  ]
  print_ne match_all h = cc
  print_ne match_none h = absurd h

  -- Where the prefix form succeeds, the legacy form is not asked.
  prefix_first :
      (body : Bytes) (max_depth : ℤ) (q : SearchQuery)
      → body ≢ []
      → parse_recursive_search_request p u wire atoi (depth_limit max_depth) body ≡ ok q
      → parse_search_request_limited p u wire atoi body max_depth ≡ ok q
  unfolding parse_search_request_limited
  prefix_first [] max_depth q n h = absurd (n refl)
  prefix_first (b ∷ body) max_depth q n h = rw h refl

  -- A request that is written in the prefix form, with at most one level more than the depth limit,
  -- parses to the query of the expression that was written.
  pub parse_search_request_limited-print :
      (e : SearchExpr) (max_depth : ℤ)
      → WireLaws wire
      → IsPrintable p.ft e
      → IsWithin p.ft (suc (depth_limit max_depth)) e
      → parse_search_request_limited p u wire atoi (print wire e) max_depth
        ≡ ok (make_search_query p e)
  unfolding parse_recursive_search_request parse_recursive_root all_read
  parse_search_request_limited-print e max_depth laws h w =
      let whole =
        ap (parse_recursive_search_expr p.ft u wire atoi (suc (depth_limit max_depth)))
          (sym (append_nil (print wire e)))
        ∙ parse_recursive_search_expr-Reads p.ft u atoi wire laws e (suc (depth_limit max_depth)) []
            h w in
      prefix_first (print wire e) max_depth (make_search_query p e) (print_ne e h) (rw whole refl)
