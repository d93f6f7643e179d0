-- ===== src/Offering.antt =====
-- ed2ksrv/offerfiles.go and handleOfferFiles of ed2ksrv/server.go: the files that a client
-- announces. This file has the record of a file made from an entry of the announcement.
pub mod Origin
pub mod Packet
pub mod Handler
pub mod Display
pub mod Valid
pub mod RoundTrip
pub mod Outcome
pub mod Samples
mod Runs
use goed2k_server.Base.{
  ℕ, zero, suc, ◌+◌, ◌*◌, ◌^◌, ◌≡◌, refl, Bool, true, false, not, ◌||◌, List, [], ◌∷◌, Option, none,
  some, ◌==◌, if◌then◌else◌, ◌⊎◌, inl, inr, ◌≢◌,
}
use mathlib.Core.List.{reverse}
use goed2k_server.Base.Int.{ℤ, pos, is_positive, to_int64}
use goed2k_server.Base.Text.{Bytes, text, ◌=text◌, trim_space, trim_prefix, CaseTables}
use goed2k_server.Catalog.{CatalogError, Result, normalize_file_record}
use goed2k_server.Protocol.{Protocol, SharedFileEntry}
use goed2k_server.Records.{FileRecord}

pub data OfferError : Type 0 where
  login_required name_required size_not_positive : OfferError
  not_normalized : CatalogError → OfferError

pub data Offered {ℓ} (A : Type ℓ) : Type ℓ where
  ok : A → Offered A
  err : OfferError → Offered A

pub Offered-cases {ℓ} :
    {A : Type ℓ} (m : Offered A) → ((a : A) × (m ≡ ok a)) ⊎ ((e : OfferError) × (m ≡ err e))
Offered-cases (ok a) = inl (a, refl)
Offered-cases (err e) = inr (e, refl)

pub ok_injective {ℓ} : {A : Type ℓ} (a b : A) → ok a ≡ ok b → a ≡ b
ok_injective a b e = cc e

pub err_not_ok {ℓ} : {A : Type ℓ} {e : OfferError} {a : A} → err e ≢ ok a
err_not_ok e = cc e

-- The methods of the dependency's SharedFileEntry: StringTag and UIntTag by a tag's number, Get and
-- Put, and BytesCount.
pub record Entries : Type 0 where
  pub string_tag : SharedFileEntry → ℕ → Option Bytes
  pub uint_tag : SharedFileEntry → ℕ → Option ℕ
  pub get : Bytes → Option (SharedFileEntry × Bytes)
  pub put : SharedFileEntry → Bytes
  pub bytes_count : SharedFileEntry → ℕ

-- The loop of filepath.Ext, over the reversed name, with what it has passed: paths have slashes.
unfoldable pub ext_loop : Bytes → Bytes → Bytes
ext_loop [] passed = []
ext_loop (c ∷ s) passed =
    let rest = ext_loop s (c ∷ passed) in
    if c == b'/' then [] else if c == b'.' then c ∷ passed else rest

-- filepath.Ext
unfoldable pub ext : Bytes → Bytes
unfolding ext_loop
ext name = ext_loop (reverse name) []

unfoldable pub ed2k_file_type_name : ℕ → Bytes
ed2k_file_type_name value =
    if value == 1
    then text "Audio"
    else if value == 2
    then text "Video"
    else if value == 3
    then text "Image"
    else if value == 4
    then text "Program"
    else if value == 5
    then text "Document"
    else if value == 6
    then text "Archive"
    else if value == 7
    then text "Iso"
    else []

unfoldable pub one_of : Bytes → List Bytes → Bool
one_of s [] = false
one_of s (t ∷ ts) = (s =text t) || one_of s ts

-- The switch on the lowercase extension.
unfoldable pub file_type_of : Bytes → Bytes
unfolding one_of
file_type_of e =
    if one_of e (text "mp3" ∷ text "flac" ∷ text "aac" ∷ text "ogg" ∷ text "wav" ∷ text "m4a" ∷ [])
    then text "Audio"
    else if one_of e
        (text "mp4" ∷ text "mkv" ∷ text "avi" ∷ text "wmv" ∷ text "mov" ∷ text "mpeg" ∷ [])
    then text "Video"
    else if one_of e
        (text "jpg" ∷ text "jpeg" ∷ text "png" ∷ text "gif" ∷ text "bmp" ∷ text "webp" ∷ [])
    then text "Image"
    else if one_of e (text "zip" ∷ text "rar" ∷ text "7z" ∷ text "tar" ∷ text "gz" ∷ [])
    then text "Archive"
    else if one_of e (text "iso" ∷ text "bin" ∷ text "nrg" ∷ [])
    then text "Iso"
    else if one_of e (text "pdf" ∷ text "doc" ∷ text "docx" ∷ text "txt" ∷ text "epub" ∷ [])
    then text "Document"
    else if one_of e (text "exe" ∷ text "msi" ∷ text "apk" ∷ text "deb" ∷ text "rpm" ∷ [])
    then text "Program"
    else []

abbrev pub text_or : Option Bytes → Bytes → Bytes
text_or none d = d
text_or (some s) d = s

abbrev int_or_zero : Option ℕ → ℤ
int_or_zero none = pos 0
int_or_zero (some v) = to_int64 v

abbrev bits_or_zero : Option ℕ → ℕ
bits_or_zero none = 0
bits_or_zero (some v) = v

module _ (p : Protocol) (u : CaseTables) where
  unfoldable pub infer_file_type_from_extension : Bytes → Bytes
  unfolding file_type_of
  infer_file_type_from_extension extension = file_type_of (u.to_lower (trim_space extension))

  module _ (tags : Entries) where
    unfoldable pub entry_name : SharedFileEntry → Bytes
    entry_name entry = elim (tags.string_tag entry (p.ft).filename) [
      | none ↦ []
      | some name ↦ trim_space name
    ]

    -- The two halves of the size: `sizeHi << 32` and the sum keep 64 bits.
    unfoldable pub entry_size : SharedFileEntry → ℤ
    entry_size entry = to_int64 (
        bits_or_zero (tags.uint_tag entry (p.ft).file_size)
        + bits_or_zero (tags.uint_tag entry (p.ft).file_size_hi) * 2 ^ 32)

    -- The extension that the entry names, or else that of the file's name.
    unfoldable pub entry_extension : SharedFileEntry → Bytes
    unfolding entry_name ext
    entry_extension entry =
        let named = text_or (tags.string_tag entry (p.ft).file_format) [] in
        if named =text []
        then trim_prefix (u.to_lower (ext (entry_name entry))) (text ".")
        else named

    -- The type as a text, or else as a number.
    unfoldable pub given_file_type : SharedFileEntry → Bytes
    unfolding ed2k_file_type_name
    given_file_type entry = elim (tags.string_tag entry (p.ft).file_type) [
      | some file_type ↦ file_type
      | none ↦ elim (tags.uint_tag entry (p.ft).file_type) [
        | none ↦ []
        | some file_type_id ↦ ed2k_file_type_name file_type_id
      ]
    ]

    -- What the entry gives, or else the type of the extension.
    unfoldable pub entry_file_type : SharedFileEntry → Bytes
    unfolding given_file_type entry_extension infer_file_type_from_extension
    entry_file_type entry =
        if given_file_type entry =text []
        then infer_file_type_from_extension (entry_extension entry)
        else given_file_type entry

    -- The record before it is normalized.
    unfoldable pub entry_record : SharedFileEntry → FileRecord
    unfolding entry_name entry_size entry_extension entry_file_type
    entry_record entry = record {
      hash = entry.hash;
      name = entry_name entry;
      size = entry_size entry;
      file_type = entry_file_type entry;
      extension = entry_extension entry;
      media_codec = text_or (tags.string_tag entry (p.ft).media_codec) [];
      media_length = int_or_zero (tags.uint_tag entry (p.ft).media_length);
      media_bitrate = int_or_zero (tags.uint_tag entry (p.ft).media_bitrate);
      sources = int_or_zero (tags.uint_tag entry (p.ft).sources);
      complete_sources = int_or_zero (tags.uint_tag entry (p.ft).complete_sources);
      endpoints = [];
    }

    unfoldable pub file_record_from_shared_entry : SharedFileEntry → Offered FileRecord
    unfolding entry_record
    file_record_from_shared_entry entry =
        if entry_name entry =text []
        then err name_required
        else if not (is_positive (entry_size entry))
        then err size_not_positive
        else elim (normalize_file_record p (entry_record entry)) [
          | Result.ok r ↦ ok r
          | Result.err e ↦ err (not_normalized e)
        ]
