-- ===== src/Offering/Display.antt =====
-- ed2ksrv/text.go and the two readers of a login's tags in ed2ksrv/server.go.
use goed2k_server.Base.{
  ℕ, ◌+◌, ◌/◌, ◌%◌, ◌^◌, Bool, List, [], ◌∷◌, Option, none, some, ◌==◌, if◌then◌else◌,
}
use goed2k_server.Base.Text.{Bytes, ◌=text◌, trim_space}
use goed2k_server.Base.Utf8.{valid_string}

-- The fields of the dependency's SimpleTag that a login is read from.
pub record LoginTag : Type 0 where
  pub tag_id : ℕ
  pub string : Bytes
  pub uint64 : ℕ

-- GB18030 is golang.org/x/text's.
module _ (decode_gb18030 : Bytes → Option Bytes) where
  unfoldable pub normalize_display_text : Bytes → Bytes
  normalize_display_text value =
      let trimmed = trim_space value in
      if trimmed =text []
      then []
      else if valid_string trimmed
      then trimmed
      else elim (decode_gb18030 trimmed) [
        | none ↦ trimmed
        | some decoded ↦ if trim_space decoded =text [] then trimmed else trim_space decoded
      ]

  unfoldable pub extract_client_name : List LoginTag → Bytes
  unfolding normalize_display_text
  extract_client_name [] = []
  extract_client_name (tag ∷ tags) =
      let rest = extract_client_name tags in
      if tag.tag_id == 0x01 then normalize_display_text tag.string else rest

-- The bit of number `k` of a word.
abbrev has_bit : ℕ → ℕ → Bool
has_bit flags k = flags / 2 ^ k % 2 == 1

-- Bits 9, 10 and 11 of the flags, as bits 0, 1 and 2.
unfoldable pub connect_options_of : ℕ → ℕ
connect_options_of flags =
    ((if has_bit flags 9 then 0x01 else 0) + (if has_bit flags 10 then 0x02 else 0))
    + (if has_bit flags 11 then 0x04 else 0)

unfoldable pub extract_client_connect_options : List LoginTag → ℕ
unfolding connect_options_of
extract_client_connect_options [] = 0
extract_client_connect_options (tag ∷ tags) =
    let rest = extract_client_connect_options tags in
    if tag.tag_id == 0x20 then connect_options_of (tag.uint64 % 2 ^ 32) else rest
