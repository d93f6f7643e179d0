-- ===== src/Parser/RoundTrip/Legacy.antt =====
-- A chain of keywords in the legacy form, and the tree that it makes.
use goed2k_server.Base.{
  ℕ, zero, suc, ◌+◌, ◌≤◌, ◌≡◌, refl, List, [], ◌∷◌, ◌++◌, Option, some, length, All, arith,
  length-append, ◌==◌, Bool-cases, inl, inr, ==_iff,
}
use goed2k_server.Base.Int.{ℤ}
use goed2k_server.Base.Text.{Bytes, CaseTables}
use goed2k_server.Protocol.{Protocol}
use goed2k_server.Wire.{Wire, WireLaws}
use goed2k_server.Search.{SearchExpr, compound, keyword}
use goed2k_server.Search.Summary.{make_search_query}
use goed2k_server.Parser.{ParseError, ok, err, trailing}
use goed2k_server.Parser.Prefix.{parse_recursive_search_expr, parse_leaf}
use goed2k_server.Parser.Legacy.{
  parse_legacy_typed, parse_legacy_search_term, parse_legacy_round, parse_legacy_rounds, in_rounds,
  parse_legacy_root,
}
use goed2k_server.Parser.Request.{
  all_read, parse_recursive_root, parse_recursive_search_request, parse_legacy_search_request,
  parse_search_request_limited, depth_limit,
}
use goed2k_server.Parser.Supported.{IsWithin}
use goed2k_server.Parser.Printer.{write_string, IsTrimmed}
use goed2k_server.Parser.RoundTrip.{parse_string_term-print}

module _ (wire : Wire) where
  -- The keywords after the first, each with the operator AND before it.
  pub print_rest : List Bytes → Bytes
  print_rest [] = []
  print_rest (word ∷ words) = 0 ∷ 0 ∷ 1 ∷ (write_string wire word ++ print_rest words)

  -- The chain of the keywords in the legacy form.
  pub print_chain : Bytes → List Bytes → Bytes
  print_chain word words = 1 ∷ (write_string wire word ++ print_rest words)

-- The tree of the chain, which nests to the left.
pub chain_from : SearchExpr → List Bytes → SearchExpr
chain_from root [] = root
chain_from root (word ∷ words) = chain_from (compound 0 root (keyword word)) words

module _ (p : Protocol) (u : CaseTables) (atoi : Bytes → Option ℤ) (wire : Wire)
    (laws : WireLaws wire) where
  parse_legacy_round-print :
      (root : SearchExpr) (word : Bytes) (words : List Bytes)
      → IsTrimmed word
      → parse_legacy_round p.ft u wire atoi root (print_rest wire (word ∷ words))
        ≡ ok (compound 0 root (keyword word), print_rest wire words)
  unfolding parse_legacy_round parse_legacy_search_term parse_legacy_typed print_rest
  parse_legacy_round-print root word words t =
      rw (parse_string_term-print p.ft u atoi wire laws word (print_rest wire words) t) refl

  parse_legacy_rounds-print :
      (rounds : ℕ) (root : SearchExpr) (words : List Bytes)
      → All IsTrimmed words
      → length (print_rest wire words) ≤ rounds
      → parse_legacy_rounds p.ft u wire atoi rounds root (print_rest wire words)
        ≡ some (ok (chain_from root words))
  unfolding parse_legacy_rounds print_rest chain_from
  parse_legacy_rounds-print rounds root [] t l = refl
  parse_legacy_rounds-print zero root (word ∷ words) t l = absurd (omega arith)
  parse_legacy_rounds-print (suc rounds) root (word ∷ words) t l =
      rw (parse_legacy_round-print root word words t.0, parse_legacy_rounds)
        (parse_legacy_rounds-print rounds (compound 0 root (keyword word)) words t.1
          (omega (arith, length-append (write_string wire word) (print_rest wire words))))

  legacy_chain :
      (word : Bytes) (words : List Bytes)
      → IsTrimmed word
      → All IsTrimmed words
      → parse_legacy_search_request p u wire atoi (print_chain wire word words)
        ≡ ok (make_search_query p (chain_from (keyword word) words))
  unfolding parse_legacy_search_request parse_legacy_root parse_legacy_search_term
      parse_legacy_typed print_chain in_rounds
  legacy_chain word words t ts =
      rw (parse_string_term-print p.ft u atoi wire laws word (print_rest wire words) t) (
        rw
          (parse_legacy_rounds-print (length (print_rest wire words)) (keyword word) words ts
            (omega arith))
          refl)

  -- The prefix form reads the first keyword and then fails on what follows.
  prefix_fails :
      (max_depth : ℕ) (word next : Bytes) (words : List Bytes)
      → IsTrimmed word
      → (e : ParseError) × (parse_recursive_search_request p u wire atoi max_depth
            (print_chain wire word (next ∷ words))
          ≡ err e)
  unfolding parse_recursive_search_request parse_recursive_root parse_recursive_search_expr
      parse_leaf all_read print_chain print_rest
  prefix_fails max_depth word next words t = (
    trailing (length (print_rest wire (next ∷ words))),
    rw (parse_string_term-print p.ft u atoi wire laws word (print_rest wire (next ∷ words)) t) refl,
  )

  chain_depth :
      (n : ℕ) (root : SearchExpr) (words : List Bytes)
      → IsWithin p.ft n (chain_from root words)
      → (m : ℕ) × (n ≡ length words + m) × IsWithin p.ft m root
  unfolding chain_from
  chain_depth n root [] w = (n, omega arith, w)
  chain_depth n root (word ∷ words) w =
      level n root word words (chain_depth n (compound 0 root (keyword word)) words w)
    where
      level :
          (n : ℕ) (root : SearchExpr) (word : Bytes) (words : List Bytes)
          → (m : ℕ) × (n ≡ length words + m) × IsWithin p.ft m (compound 0 root (keyword word))
          → (m : ℕ) × (n ≡ suc (length words) + m) × IsWithin p.ft m root
      level n root word words (zero, e, w) = absurd w
      level n root word words (suc m, e, w) = (m, omega (arith, e), w.0)

  chain_is_deep :
      (word : Bytes) (words : List Bytes)
      → ¬ IsWithin p.ft (length words) (chain_from (keyword word) words)
  chain_is_deep word words w =
      let (m, e, inner) = chain_depth (length words) (keyword word) words w in
      elim (Bool-cases (m == 0)) [
        | inl z ↦ no_level m ((==_iff m 0).0 z) inner
        | inr z ↦ ground (arith, e, z)
      ]
    where
      no_level : (m : ℕ) → m ≡ 0 → ¬ IsWithin p.ft m (keyword word)
      no_level zero e h = h
      no_level (suc m) e h = absurd (omega (arith, e))

  -- Two keywords or more in a chain of the legacy form parse to a tree with more levels than the
  -- chain has keywords after the first, whatever the depth limit.
  pub parse_search_request_limited-chain :
      (max_depth : ℤ) (word next : Bytes) (words : List Bytes)
      → IsTrimmed word
      → IsTrimmed next
      → All IsTrimmed words
      → (parse_search_request_limited p u wire atoi (print_chain wire word (next ∷ words)) max_depth
          ≡ ok (make_search_query p (chain_from (keyword word) (next ∷ words))))
        × (¬ IsWithin p.ft (suc (length words)) (chain_from (keyword word) (next ∷ words)))
  unfolding parse_search_request_limited print_chain
  parse_search_request_limited-chain max_depth word next words t n ts =
      let (e, failed) = prefix_fails (depth_limit max_depth) word next words t in
      (
        rw failed (rw (legacy_chain word (next ∷ words) t (n, ts)) refl),
        chain_is_deep word (next ∷ words),
      )
