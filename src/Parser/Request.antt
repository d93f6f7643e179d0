-- ===== src/Parser/Request.antt =====
-- A whole request: parseRecursiveSearchRequest, parseLegacySearchRequest, ParseSearchRequestLimited
-- and ParseSearchRequest.
use goed2k_server.Base.{ℕ, zero, suc, [], ◌∷◌, Option, some, length}
use goed2k_server.Base.Int.{ℤ, pos, negsuc}
use goed2k_server.Base.Text.{Bytes, CaseTables}
use goed2k_server.Protocol.{Protocol}
use goed2k_server.Wire.{Wire}
use goed2k_server.Search.{SearchExpr, SearchQuery, match_all, query_of_root}
use goed2k_server.Search.Summary.{make_search_query}
use goed2k_server.Parser.{Parsed, ok, err, ◌>>=◌, trailing, both_failed}
use goed2k_server.Parser.Prefix.{parse_recursive_search_expr}
use goed2k_server.Parser.Legacy.{parse_legacy_root}

abbrev pub default_max_search_depth : ℕ
default_max_search_depth = 64

-- A depth that is not positive gives way to the default.
unfoldable pub depth_limit : ℤ → ℕ
depth_limit (pos zero) = default_max_search_depth
depth_limit (pos (suc n)) = suc n
depth_limit (negsuc n) = default_max_search_depth

-- Nothing may follow the expression.
unfoldable pub all_read : SearchExpr → Bytes → Parsed SearchExpr
all_read root [] = ok root
all_read root (b ∷ rest) = err (trailing (suc (length rest)))

-- The second parser's result, unless both fail.
unfoldable pub or_else {ℓ} : {A : Type ℓ} → Parsed A → Parsed A → Parsed A
or_else (ok a) other = ok a
or_else (err e) (ok b) = ok b
or_else (err e) (err e') = err (both_failed e e')

module _ (p : Protocol) (u : CaseTables) (wire : Wire) (atoi : Bytes → Option ℤ) where
  unfoldable pub parse_recursive_root : ℕ → Bytes → Parsed SearchExpr
  unfolding all_read
  parse_recursive_root max_depth body = do
    (root, rest) ← parse_recursive_search_expr p.ft u wire atoi (suc max_depth) body
    all_read root rest

  unfoldable pub parse_recursive_search_request : ℕ → Bytes → Parsed SearchQuery
  unfolding parse_recursive_root
  parse_recursive_search_request max_depth body = do
    root ← parse_recursive_root max_depth body
    ok (make_search_query p root)

  unfoldable pub parse_legacy_search_request : Bytes → Parsed SearchQuery
  parse_legacy_search_request body = do
    root ← parse_legacy_root p.ft u wire atoi body
    ok (make_search_query p root)

  unfoldable pub parse_search_request_limited : Bytes → ℤ → Parsed SearchQuery
  unfolding query_of_root depth_limit or_else
  parse_search_request_limited [] max_depth = ok (query_of_root (some match_all))
  parse_search_request_limited (b ∷ body) max_depth =
      or_else (parse_recursive_search_request (depth_limit max_depth) (b ∷ body))
        (parse_legacy_search_request (b ∷ body))

  unfoldable pub parse_search_request : Bytes → Parsed SearchQuery
  unfolding parse_search_request_limited
  parse_search_request body = parse_search_request_limited body (pos default_max_search_depth)
