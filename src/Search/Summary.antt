-- ===== src/Search/Summary.antt =====
-- collectSummary of ed2ksrv/protocol.go: the filters that a query needs, and what they promise.
use goed2k_server.Base.{
  ℕ, ◌≡◌, refl, Bool, true, false, ◌&&◌, ◌||◌, List, [], ◌∷◌, ◌++◌, some, All, All-append, arith,
  ◌==◌, if◌then◌else◌, Bool-cases, inl, inr,
}
use goed2k_server.Base.Int.{ℤ, pos, ltb_ℤ, eqb_ℤ, to_int64}
use goed2k_server.Base.Text.{Bytes, text, trim_prefix, CaseTables}
use goed2k_server.Protocol.{Protocol}
use goed2k_server.Records.{FileRecord}
use goed2k_server.Search.{
  SearchExpr, compound, keyword, string_tag, numeric, match_all, match_none, SearchQuery,
  query_of_root, search_op_equal, search_op_greater, search_op_less, search_op_greater_equal,
  search_op_less_equal, search_bool_and, combine, match_expr, keyword_matches_record,
}

-- applyRangeInt64Summary and applyRangeIntSummary: the new minimum and maximum.
unfoldable pub apply_range_summary : ℤ → ℤ → ℕ → ℤ → ℤ × ℤ
apply_range_summary lo hi operator value =
    if operator == search_op_equal
    then (value, value)
    else if operator == search_op_greater || operator == search_op_greater_equal
    then ((if eqb_ℤ lo (pos 0) || ltb_ℤ lo value then value else lo), hi)
    else if operator == search_op_less || operator == search_op_less_equal
    then (lo, (if eqb_ℤ hi (pos 0) || ltb_ℤ value hi then value else hi))
    else (lo, hi)

unfoldable pub apply_min_summary : ℤ → ℕ → ℤ → ℤ
apply_min_summary lo operator value =
    if operator == search_op_equal
      || operator == search_op_greater
      || operator == search_op_greater_equal
    then (if ltb_ℤ lo value then value else lo)
    else lo

both : (a b : Bool) → (a && b) ≡ true → (a ≡ true) × (b ≡ true)
both true b h = (refl, h)
both false b h = cc

and_matches :
    (operator : ℕ) (a b : Bool)
    → (operator == search_bool_and) ≡ true
    → combine operator a b ≡ true
    → (a && b) ≡ true
unfolding combine
and_matches operator a b e h = rw e at h

module _ (p : Protocol) where
  unfoldable pub summarize_string_tag : ℕ → Bytes → SearchQuery → SearchQuery × Bool
  summarize_string_tag id value q =
      if id == p.ft.file_type
      then (record q { file_type = value }, true)
      else if id == p.ft.file_format
      then (record q { extension = trim_prefix value (text ".") }, true)
      else if id == p.ft.media_codec
      then (record q { media_codec = value }, true)
      else (q, false)

  unfoldable pub summarize_numeric : ℕ → ℕ → ℕ → SearchQuery → SearchQuery × Bool
  unfolding apply_range_summary apply_min_summary
  summarize_numeric id operator v q =
      let value = to_int64 v in
      let size = apply_range_summary q.min_size q.max_size operator value in
      let long = apply_range_summary q.min_media_length q.max_media_length operator value in
      let rate = apply_range_summary q.min_media_bitrate q.max_media_bitrate operator value in
      if id == p.ft.file_size
      then (record q { min_size = size.0; max_size = size.1 }, true)
      else if id == p.ft.sources
      then (record q { min_sources = apply_min_summary q.min_sources operator value }, true)
      else if id == p.ft.complete_sources
      then (
        record q { min_complete_sources = apply_min_summary q.min_complete_sources operator value },
        true,
      )
      else if id == p.ft.media_length
      then (record q { min_media_length = long.0; max_media_length = long.1 }, true)
      else if id == p.ft.media_bitrate
      then (record q { min_media_bitrate = rate.0; max_media_bitrate = rate.1 }, true)
      else (q, false)

  -- The query with the filters of the expression, and whether each of them is required.
  unfoldable pub collect_summary : SearchExpr → SearchQuery → SearchQuery × Bool
  unfolding summarize_string_tag summarize_numeric
  collect_summary (compound operator left right) q =
      let l = collect_summary left q in
      let r = collect_summary right l.0 in
      if operator == search_bool_and then (r.0, l.1 && r.1) else (q, false)
  collect_summary (keyword value) q = (record q { keywords = q.keywords ++ (value ∷ []) }, true)
  collect_summary (string_tag id value) q = summarize_string_tag id value q
  collect_summary (numeric id operator value) q = summarize_numeric id operator value q
  collect_summary match_all q = (q, true)
  collect_summary match_none q = (q, false)

  unfoldable pub make_search_query : SearchExpr → SearchQuery
  unfolding collect_summary query_of_root
  make_search_query root =
      let (q, summarized) = collect_summary root (query_of_root (some root)) in
      record q { summarized = summarized }

  string_tag-keywords :
      (id : ℕ) (v : Bytes) (q : SearchQuery) → (summarize_string_tag id v q).0.keywords ≡ q.keywords
  unfolding summarize_string_tag
  string_tag-keywords id v q = ground arith

  numeric-keywords :
      (id operator v : ℕ) (q : SearchQuery)
      → (summarize_numeric id operator v q).0.keywords ≡ q.keywords
  unfolding summarize_numeric
  numeric-keywords id operator v q = ground arith

  collect_summary-root : (e : SearchExpr) (q : SearchQuery) → (collect_summary e q).0.root ≡ q.root
  unfolding collect_summary summarize_string_tag summarize_numeric
  collect_summary-root (compound operator left right) q =
      ground
        (arith, collect_summary-root left q, collect_summary-root right (collect_summary left q).0)
  collect_summary-root (keyword value) q = refl
  collect_summary-root (string_tag id value) q = ground arith
  collect_summary-root (numeric id operator value) q = ground arith
  collect_summary-root match_all q = refl
  collect_summary-root match_none q = refl

  pub make_search_query-root : (root : SearchExpr) → (make_search_query root).root ≡ some root
  unfolding make_search_query query_of_root
  make_search_query-root root = collect_summary-root root (query_of_root (some root))

  module _ (u : CaseTables) (r : FileRecord) where
    abbrev pub AllMatch : List Bytes → Type 0
    AllMatch ws = All (λ w. keyword_matches_record p u r w ≡ true) ws

    -- The keywords of a summary are its old ones and some that every match of the expression has.
    collect_summary-AllMatch :
        (e : SearchExpr) (q : SearchQuery)
        → (collect_summary e q).1 ≡ true
        → match_expr p u e r ≡ true
        → AllMatch q.keywords
        → AllMatch (collect_summary e q).0.keywords
    unfolding collect_summary match_expr
    collect_summary-AllMatch (compound operator left right) q s m h =
        elim (Bool-cases (operator == search_bool_and)) [
          | inl e ↦
              let (a, b) = both (collect_summary left q).1 _ (rw e at s) in
              let (c, d) =
                both (match_expr p u left r) _
                  (and_matches operator (match_expr p u left r) (match_expr p u right r) e m) in
              rw e (collect_summary-AllMatch right _ b d (collect_summary-AllMatch left q a c h))
          | inr e ↦ rw e h
        ]
    collect_summary-AllMatch (keyword value) q s m h =
        All-append (λ w. keyword_matches_record p u r w ≡ true) q.keywords (value ∷ []) h (m, tt)
    collect_summary-AllMatch (string_tag id value) q s m h = rw string_tag-keywords h
    collect_summary-AllMatch (numeric id operator value) q s m h = rw numeric-keywords h
    collect_summary-AllMatch match_all q s m h = h
    collect_summary-AllMatch match_none q s m h = h

    -- A record that a query matches has every keyword of the query, if the query says that its
    -- keywords are required.
    pub make_search_query-AllMatch :
        (root : SearchExpr)
        → (make_search_query root).summarized ≡ true
        → match_expr p u root r ≡ true
        → AllMatch (make_search_query root).keywords
    unfolding make_search_query query_of_root
    make_search_query-AllMatch root s m =
        collect_summary-AllMatch root (query_of_root (some root)) s m tt
