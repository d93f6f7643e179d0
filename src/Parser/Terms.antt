-- ===== src/Parser/Terms.antt =====
-- The parts that the prefix form and the legacy form share: strings, tags, and the expressions that
-- are made of them.
use goed2k_server.Base.{
  ℕ, ◌+◌, ◌*◌, ◌%◌, ◌^◌, Bool, false, not, ◌||◌, List, [], ◌∷◌, Option, none, some, length, ◌==◌,
  ltb, if◌then◌else◌,
}
use goed2k_server.Base.Int.{ℤ, pos, negsuc}
use goed2k_server.Base.Text.{Bytes, text, ◌=text◌, trim_space, contains, CaseTables}
use goed2k_server.Protocol.{TagIds}
use goed2k_server.Wire.{Wire, read_byte}
use goed2k_server.Search.{SearchExpr, keyword, string_tag, numeric, match_all, search_op_equal}
use goed2k_server.Parser.{
  Parsed, ok, err, ◌>>=◌, reading, unsupported_tag, empty_tag, tag_count, bad_length,
}

-- searchTagRef: a number, or a name.
pub data SearchTagRef : Type 0 where
  by_id : ℕ → SearchTagRef
  by_name : Bytes → SearchTagRef

unfoldable pub matches_id : SearchTagRef → ℕ → Bool
matches_id (by_id i) id = i == id
matches_id (by_name n) id = false

abbrev add_to_first : ℕ → List Bytes → List Bytes
add_to_first c [] = (c ∷ []) ∷ []
add_to_first c (part ∷ parts) = (c ∷ part) ∷ parts

-- strings.Split(value, ":")
unfoldable pub split_colon : Bytes → List Bytes
split_colon [] = [] ∷ []
split_colon (c ∷ s) =
    let parts = split_colon s in if c == b':' then [] ∷ parts else add_to_first c parts

-- The number of a part, as the bits of an int; `total` wraps around as the code's int does.
unfoldable pub length_loop : (Bytes → Option ℤ) → List Bytes → ℕ → Parsed ℕ
length_loop atoi [] total = ok total
length_loop atoi (part ∷ parts) total = elim (atoi part) [
  | none ↦ err bad_length
  | some number ↦ elim number [
    | negsuc n ↦ err bad_length
    | pos n ↦ length_loop atoi parts ((total * 60 + n) % 2 ^ 64)
  ]
]

unfoldable pub seconds_of : Option ℤ → Parsed ℕ
seconds_of none = err bad_length
seconds_of (some (negsuc n)) = err bad_length
seconds_of (some (pos n)) = ok n

unfoldable pub parse_media_length : (Bytes → Option ℤ) → Bytes → Parsed ℕ
unfolding trim_space length_loop seconds_of split_colon contains
parse_media_length atoi raw =
    let value = trim_space raw in
    let parts = split_colon value in
    if value =text []
    then err bad_length
    else if not (contains value (text ":"))
    then seconds_of (atoi value)
    else if ltb (length parts) 2 || ltb 3 (length parts)
    then err bad_length
    else length_loop atoi parts 0

module _ (wire : Wire) where
  unfoldable pub read_search_string : Bytes → Parsed (Bytes × Bytes)
  unfolding trim_space
  read_search_string src = do
    (size, src1) ← reading (wire.read_uint16 src)
    (raw, src2) ← reading (wire.read_bytes size src1)
    ok (trim_space raw, src2)

  unfoldable pub tag_of_value : Bytes → Parsed SearchTagRef
  tag_of_value [] = err empty_tag
  tag_of_value (c ∷ []) = ok (by_id c)
  tag_of_value (c ∷ d ∷ rest) = ok (by_name (c ∷ d ∷ rest))

  unfoldable pub read_search_tag_ref : Bytes → Parsed (SearchTagRef × Bytes)
  unfolding read_search_string tag_of_value
  read_search_tag_ref src = do
    (value, src1) ← read_search_string src
    tag ← tag_of_value value
    ok (tag, src1)

  unfoldable pub read_legacy_search_tag_id : Bytes → Parsed (ℕ × Bytes)
  unfolding read_byte
  read_legacy_search_tag_id src = do
    (count, src1) ← reading (wire.read_uint16 src)
    if not (count == 1) then err (tag_count count) else reading (read_byte src1)

unfoldable pub make_keyword_expr : Bytes → Parsed SearchExpr
unfolding trim_space
make_keyword_expr raw =
    let value = trim_space raw in if value =text [] then ok match_all else ok (keyword value)

module _ (ft : TagIds) (u : CaseTables) where
  unfoldable pub matches_name : SearchTagRef → Bytes → Bool
  matches_name (by_id i) name = false
  matches_name (by_name n) name = u.equal_fold n name

  unfoldable pub make_numeric_tag_expr : ℕ → ℕ → SearchTagRef → Parsed SearchExpr
  unfolding matches_id matches_name
  make_numeric_tag_expr value operator tag =
      if matches_id tag ft.file_size
      then ok (numeric ft.file_size operator value)
      else if matches_id tag ft.sources
      then ok (numeric ft.sources operator value)
      else if matches_id tag ft.complete_sources
      then ok (numeric ft.complete_sources operator value)
      else if matches_id tag ft.media_bitrate || matches_name tag (text "bitrate")
      then ok (numeric ft.media_bitrate operator value)
      else if matches_id tag ft.media_length || matches_name tag (text "length")
      then ok (numeric ft.media_length operator value)
      else err unsupported_tag

  module _ (atoi : Bytes → Option ℤ) where
    unfoldable pub make_length_expr : Bytes → Parsed SearchExpr
    unfolding parse_media_length
    make_length_expr value = do
      seconds ← parse_media_length atoi value
      ok (numeric ft.media_length search_op_equal seconds)

    unfoldable pub make_string_tag_expr : Bytes → SearchTagRef → Parsed SearchExpr
    unfolding trim_space matches_id matches_name make_length_expr
    make_string_tag_expr raw tag =
        let value = trim_space raw in
        if value =text []
        then ok match_all
        else if matches_id tag ft.file_type
        then ok (string_tag ft.file_type value)
        else if matches_id tag ft.file_format
        then ok (string_tag ft.file_format value)
        else if matches_id tag ft.media_codec || matches_name tag (text "codec")
        then ok (string_tag ft.media_codec value)
        else if matches_id tag ft.media_length || matches_name tag (text "length")
        then make_length_expr value
        else err unsupported_tag
