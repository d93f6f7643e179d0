-- ===== src/Parser/Supported/Request.antt =====
-- What a whole request gives.
use goed2k_server.Base.{ℕ, suc, ◌≡◌, refl, [], ◌∷◌, Option, some}
use goed2k_server.Base.Int.{ℤ}
use goed2k_server.Base.Tests.{nat_eq}
use goed2k_server.Base.Text.{Bytes, CaseTables}
use goed2k_server.Protocol.{Protocol}
use goed2k_server.Wire.{Wire}
use goed2k_server.Search.{SearchExpr, SearchQuery, match_all, query_of_root}
use goed2k_server.Search.Summary.{make_search_query-root}
use goed2k_server.Parser.{Parsed, ok, Ensures, holds, rejected, Ensures-ok, Ensures-bind}
use goed2k_server.Parser.Supported.{IsSupported, IsWithin}
use goed2k_server.Parser.Request.{
  parse_recursive_root, parse_recursive_search_request, parse_legacy_search_request,
  parse_search_request_limited, depth_limit, or_else, all_read,
}
use goed2k_server.Parser.Supported.Prefix.{parse_recursive_search_expr-Fits}
use goed2k_server.Parser.Supported.Legacy.{parse_legacy_root-IsSupported}

module _ (p : Protocol) (u : CaseTables) (atoi : Bytes → Option ℤ) (wire : Wire) where
  -- The query has a root, and the root is supported.
  abbrev pub HasRoot : SearchQuery → Type 0
  HasRoot q = (root : SearchExpr) × (q.root ≡ some root) × IsSupported p.ft root

  all_read-keeps :
      (P : SearchExpr → Type 0) (root : SearchExpr) (rest : Bytes)
      → P root
      → Ensures P (all_read root rest)
  unfolding all_read
  all_read-keeps P root [] h = holds h
  all_read-keeps P root (b ∷ rest) h = rejected

  -- An expression in the prefix form is supported and has at most `max_depth + 1` levels.
  pub parse_recursive_root-Fits :
      (max_depth : ℕ) (body : Bytes)
      → Ensures
          (λ e. IsSupported p.ft e × IsWithin p.ft (suc max_depth) e)
          (parse_recursive_root p u wire atoi max_depth body)
  unfolding parse_recursive_root
  parse_recursive_root-Fits max_depth body =
      Ensures-bind (parse_recursive_search_expr-Fits p.ft u atoi wire (suc max_depth) body)
        λ (root, rest) h. all_read-keeps _ root rest h

  prefix-HasRoot :
      (max_depth : ℕ) (body : Bytes)
      → Ensures HasRoot (parse_recursive_search_request p u wire atoi max_depth body)
  unfolding parse_recursive_search_request
  prefix-HasRoot max_depth body =
      Ensures-bind (parse_recursive_root-Fits max_depth body)
        λ root h. holds (root, make_search_query-root p root, h.0)

  legacy-HasRoot : (body : Bytes) → Ensures HasRoot (parse_legacy_search_request p u wire atoi body)
  unfolding parse_legacy_search_request
  legacy-HasRoot body =
      Ensures-bind (parse_legacy_root-IsSupported p.ft u atoi wire body)
        λ root h. holds (root, make_search_query-root p root, h)

  or_else-Ensures :
      {P : SearchQuery → Type 0} {m n : Parsed SearchQuery}
      → Ensures P m
      → Ensures P n
      → Ensures P (or_else m n)
  unfolding or_else
  or_else-Ensures (holds h) k = holds h
  or_else-Ensures rejected (holds k) = holds k
  or_else-Ensures rejected rejected = rejected

  request-HasRoot :
      (body : Bytes) (max_depth : ℤ)
      → Ensures HasRoot (parse_search_request_limited p u wire atoi body max_depth)
  unfolding parse_search_request_limited query_of_root
  request-HasRoot [] max_depth = holds (match_all, refl, tt)
  request-HasRoot (b ∷ body) max_depth =
      or_else-Ensures (prefix-HasRoot (depth_limit max_depth) (b ∷ body))
        (legacy-HasRoot (b ∷ body))

  -- Whatever bytes come in, a query that is parsed has a root whose operators are those that
  -- matching has a case for, whose tags are those of its kind of node, and whose texts are not
  -- empty.
  pub parse_search_request_limited-HasRoot :
      (body : Bytes) (max_depth : ℤ) (q : SearchQuery)
      → parse_search_request_limited p u wire atoi body max_depth ≡ ok q
      → HasRoot q
  parse_search_request_limited-HasRoot body max_depth q h =
      Ensures-ok (request-HasRoot body max_depth) h

  -- An expression that the prefix form gives has at most `max_depth + 1` levels, whatever bytes
  -- come in.
  pub parse_recursive_root-IsWithin :
      (max_depth : ℕ) (body : Bytes) (e : SearchExpr)
      → parse_recursive_root p u wire atoi max_depth body ≡ ok e
      → IsWithin p.ft (suc max_depth) e
  parse_recursive_root-IsWithin max_depth body e h =
      (Ensures-ok (parse_recursive_root-Fits max_depth body) h).1
