-- ===== src/Search.antt =====
-- The search expressions of ed2ksrv/protocol.go: what a query is and which records it matches.
-- The dependency's hashes and tag numbers, and the Unicode case tables, are parameters.
pub mod Summary
use goed2k_server.Base.{
  ℕ, ◌≤◌, ◌≡◌, Bool, true, false, not, ◌&&◌, ◌||◌, List, [], ◌∷◌, ◌++◌, Option, none, some, length,
  ltb, leb, ◌==◌, if◌then◌else◌,
}
use goed2k_server.Base.Int.{ℤ, pos, negsuc, ltb_ℤ, eqb_ℤ, is_positive, to_int64}
use goed2k_server.Base.Text.{Bytes, text, ◌=text◌, trim_prefix, contains, trim_space, CaseTables}
use goed2k_server.Protocol.{Protocol}
use goed2k_server.Records.{FileRecord}

-- searchExpr and its implementations. An operator and a tag number are bytes, a value is a uint64.
pub data SearchExpr : Type 0 where
  compound : ℕ → SearchExpr → SearchExpr → SearchExpr
  keyword : Bytes → SearchExpr
  string_tag : ℕ → Bytes → SearchExpr
  numeric : ℕ → ℕ → ℕ → SearchExpr
  match_all : SearchExpr
  match_none : SearchExpr

abbrev pub search_op_equal : ℕ
search_op_equal = 0

abbrev pub search_op_greater : ℕ
search_op_greater = 1

abbrev pub search_op_less : ℕ
search_op_less = 2

abbrev pub search_op_greater_equal : ℕ
search_op_greater_equal = 3

abbrev pub search_op_less_equal : ℕ
search_op_less_equal = 4

abbrev pub search_op_not_equal : ℕ
search_op_not_equal = 5

abbrev pub search_bool_and : ℕ
search_bool_and = 0

abbrev pub search_bool_or : ℕ
search_bool_or = 1

abbrev pub search_bool_and_not : ℕ
search_bool_and_not = 2

abbrev pub search_bool_xor : ℕ
search_bool_xor = 3

abbrev pub search_bool_not_and : ℕ
search_bool_not_and = 4

pub record SearchQuery : Type 0 where
  pub root : Option SearchExpr
  pub summarized : Bool
  pub keywords : List Bytes
  pub min_size : ℤ
  pub max_size : ℤ
  pub min_sources : ℤ
  pub min_complete_sources : ℤ
  pub file_type : Bytes
  pub extension : Bytes
  pub media_codec : Bytes
  pub min_media_length : ℤ
  pub max_media_length : ℤ
  pub min_media_bitrate : ℤ
  pub max_media_bitrate : ℤ

-- SearchQuery{Root: root}
unfoldable pub query_of_root : Option SearchExpr → SearchQuery
query_of_root root = record {
  root = root;
  summarized = false;
  keywords = [];
  min_size = pos 0;
  max_size = pos 0;
  min_sources = pos 0;
  min_complete_sources = pos 0;
  file_type = [];
  extension = [];
  media_codec = [];
  min_media_length = pos 0;
  max_media_length = pos 0;
  min_media_bitrate = pos 0;
  max_media_bitrate = pos 0;
}

-- compareInt64 and compareInt, which are one function at two widths.
unfoldable pub compare_int : ℤ → ℕ → ℤ → Bool
compare_int left operator right =
    if operator == search_op_equal
    then eqb_ℤ left right
    else if operator == search_op_greater
    then ltb_ℤ right left
    else if operator == search_op_less
    then ltb_ℤ left right
    else if operator == search_op_greater_equal
    then not (ltb_ℤ left right)
    else if operator == search_op_less_equal
    then not (ltb_ℤ right left)
    else if operator == search_op_not_equal
    then not (eqb_ℤ left right)
    else false

-- The Boolean operators of searchCompoundExpr.match.
unfoldable pub combine : ℕ → Bool → Bool → Bool
combine operator left right =
    if operator == search_bool_and
    then left && right
    else if operator == search_bool_or
    then left || right
    else if operator == search_bool_and_not
    then left && not right
    else if operator == search_bool_xor
    then (if left then not right else right)
    else if operator == search_bool_not_and
    then not left && right
    else false

unfoldable pub is_lower_hex : Bytes → Bool
is_lower_hex [] = true
is_lower_hex (c ∷ cs) =
    ((leb b'0' c && leb c b'9') || (leb b'a' c && leb c b'f')) && is_lower_hex cs

module _ (p : Protocol) (u : CaseTables) where
  -- strings.ToLower(strings.TrimSpace(keyword))
  unfoldable pub normalize_keyword : Bytes → Bytes
  normalize_keyword word = u.to_lower (trim_space word)

  -- The part of keywordMatchesRecord that compares a keyword to the file's hash.
  unfoldable pub hash_token_matches : FileRecord → Bytes → Bool
  unfolding is_lower_hex
  hash_token_matches r normalized =
      let token = trim_prefix normalized (text "ed2k::") in
      length token == 32 && is_lower_hex token && u.equal_fold (p.hash_string r.hash) token

  unfoldable pub keyword_matches_record : FileRecord → Bytes → Bool
  unfolding normalize_keyword
  keyword_matches_record r word =
      if normalize_keyword word =text []
      then true
      else if contains (u.to_lower r.name) (normalize_keyword word)
      then true
      else hash_token_matches r (normalize_keyword word)

  unfoldable pub match_string_tag : FileRecord → ℕ → Bytes → Bool
  match_string_tag r id value =
      if id == p.ft.file_type
      then u.equal_fold r.file_type value
      else if id == p.ft.file_format
      then u.equal_fold r.extension (trim_prefix value (text "."))
      else if id == p.ft.media_codec
      then u.equal_fold r.media_codec value
      else false

  unfoldable pub match_numeric : FileRecord → ℕ → ℕ → ℕ → Bool
  unfolding compare_int
  match_numeric r id operator value =
      if id == p.ft.file_size
      then compare_int r.size operator (to_int64 value)
      else if id == p.ft.sources
      then compare_int r.sources operator (to_int64 value)
      else if id == p.ft.complete_sources
      then compare_int r.complete_sources operator (to_int64 value)
      else if id == p.ft.media_length
      then compare_int r.media_length operator (to_int64 value)
      else if id == p.ft.media_bitrate
      then compare_int r.media_bitrate operator (to_int64 value)
      else false

  -- The method match of each expression.
  unfoldable pub match_expr : SearchExpr → FileRecord → Bool
  unfolding combine match_string_tag match_numeric keyword_matches_record
  match_expr (compound operator left right) r =
      combine operator (match_expr left r) (match_expr right r)
  match_expr (keyword value) r = keyword_matches_record r value
  match_expr (string_tag id value) r = match_string_tag r id value
  match_expr (numeric id operator value) r = match_numeric r id operator value
  match_expr match_all r = true
  match_expr match_none r = false

  pub all_keywords_match : FileRecord → List Bytes → Bool
  unfolding keyword_matches_record
  all_keywords_match r [] = true
  all_keywords_match r (w ∷ ws) = keyword_matches_record r w && all_keywords_match r ws

  -- The guards of matchesLegacySearch: a field that is set in the query and that the record fails.
  pub text_differs : Bytes → Bytes → Bytes → Bool
  text_differs wanted compared actual = not (wanted =text []) && not (u.equal_fold actual compared)

  abbrev pub below_minimum : ℤ → ℤ → Bool
  below_minimum minimum actual = is_positive minimum && ltb_ℤ actual minimum

  abbrev pub above_maximum : ℤ → ℤ → Bool
  above_maximum maximum actual = is_positive maximum && ltb_ℤ maximum actual

  pub matches_legacy_search : FileRecord → SearchQuery → Bool
  unfolding text_differs all_keywords_match
  matches_legacy_search r q =
      if text_differs q.file_type q.file_type r.file_type
      then false
      else if text_differs q.extension (trim_prefix q.extension (text ".")) r.extension
      then false
      else if text_differs q.media_codec q.media_codec r.media_codec
      then false
      else if below_minimum q.min_size r.size
      then false
      else if above_maximum q.max_size r.size
      then false
      else if below_minimum q.min_sources r.sources
      then false
      else if below_minimum q.min_complete_sources r.complete_sources
      then false
      else if below_minimum q.min_media_length r.media_length
      then false
      else if above_maximum q.max_media_length r.media_length
      then false
      else if below_minimum q.min_media_bitrate r.media_bitrate
      then false
      else if above_maximum q.max_media_bitrate r.media_bitrate
      then false
      else all_keywords_match r q.keywords

  -- SearchQuery.match, and matchesRecord of ed2ksrv/catalog.go.
  unfoldable pub matches_record : FileRecord → SearchQuery → Bool
  unfolding match_expr matches_legacy_search
  matches_record r q = elim q.root [
    | some root ↦ match_expr root r
    | none ↦ matches_legacy_search r q
  ]
