-- ===== src/Offering/Samples.antt =====
-- A concrete instance of the dependency's entries, in the order of the
-- wire format: fields of a fixed width, and counts before lists.
use goed2k_server.Base.{
  ℕ, zero, suc, ◌≡◌, refl, List, [], ◌∷◌, ◌++◌, Option, none, some, length, ◌==◌, ◌>>=◌, Bool,
  false, ◌%◌, ◌<◌, ap, ◌∙◌, sym, arith, All, append_assoc, if◌then◌else◌,
}
use goed2k_server.Base.Text.{Bytes, ◌=text◌, text}
use goed2k_server.Protocol.{SharedFileEntry, Tag, string_tag, uint32_tag}
use goed2k_server.Wire.{Wire, WireLaws, read_byte}
use goed2k_server.Wire.Samples.{sample_wire, sample_wire_laws}
use goed2k_server.Offering.{Entries}
use goed2k_server.Offering.Origin.{Addresses}
use goed2k_server.Offering.RoundTrip.{EntryLaws, EntryFits, TagFits}

abbrev pub find_string : List Tag → ℕ → Option Bytes
find_string [] key = none
find_string (string_tag n s ∷ tags) key = if n == key then some s else find_string tags key
find_string (uint32_tag n v ∷ tags) key = find_string tags key

abbrev pub find_uint : List Tag → ℕ → Option ℕ
find_uint [] key = none
find_uint (string_tag n s ∷ tags) key = find_uint tags key
find_uint (uint32_tag n v ∷ tags) key = if n == key then some v else find_uint tags key

module _ (wire : Wire) where
  -- A tag: its type, the length of its name, the name, and a text with its length or 32 bits.
  abbrev pub put_tag : Tag → Bytes
  put_tag (string_tag n s) =
      2 ∷ wire.write_uint16 1 ++ (n ∷ wire.write_uint16 (length s % 65536) ++ s)
  put_tag (uint32_tag n v) = 3 ∷ wire.write_uint16 1 ++ (n ∷ wire.write_uint32 (v % 4294967296))

  abbrev pub put_tags : List Tag → Bytes
  put_tags [] = []
  put_tags (tag ∷ tags) = put_tag tag ++ put_tags tags

  abbrev pub put_entry : SharedFileEntry → Bytes
  put_entry e =
      e.hash
      ++ (wire.write_uint32 (e.client_id % 4294967296)
          ++ (wire.write_uint16 (e.port % 65536)
              ++ (wire.write_uint32 (length e.tags % 4294967296) ++ put_tags e.tags)))

  unfoldable pub get_value : ℕ → ℕ → Bytes → Option (Tag × Bytes)
  get_value kind name src =
      if kind == 2
      then (do
        (size, src1) ← wire.read_uint16 src
        (s, src2) ← wire.read_bytes size src1
        some (string_tag name s, src2))
      else (do (v, src1) ← wire.read_uint32 src; some (uint32_tag name v, src1))

  unfoldable pub get_tag : Bytes → Option (Tag × Bytes)
  unfolding get_value
  get_tag src = do
    (kind, src1) ← read_byte src
    (size, src2) ← wire.read_uint16 src1
    (name, src3) ← read_byte src2
    get_value kind name src3

  unfoldable pub get_tags : ℕ → Bytes → Option (List Tag × Bytes)
  unfolding get_tag
  get_tags zero src = some ([], src)
  get_tags (suc n) src = do
    (tag, src1) ← get_tag src
    (tags, src2) ← get_tags n src1
    some (tag ∷ tags, src2)

  unfoldable pub get_entry : Bytes → Option (SharedFileEntry × Bytes)
  unfolding get_tags
  get_entry src = do
    (hash, src1) ← wire.read_bytes 16 src
    (client_id, src2) ← wire.read_uint32 src1
    (port, src3) ← wire.read_uint16 src2
    (count, src4) ← wire.read_uint32 src3
    (tags, src5) ← get_tags count src4
    some (record { hash = hash; tags = tags; client_id = client_id; port = port }, src5)

  unfoldable pub entries_over : Entries
  unfolding get_entry
  entries_over = record {
    string_tag = λ e key. find_string e.tags key;
    uint_tag = λ e key. find_uint e.tags key;
    get = get_entry;
    put = put_entry;
    bytes_count = λ e. length (put_entry e);
  }

  module _ (laws : WireLaws wire) where
    -- The reads of a number that is written modulo its width.
    read16 :
        (v : ℕ) (rest : Bytes)
        → v < 65536
        → wire.read_uint16 (wire.write_uint16 (v % 65536) ++ rest) ≡ some (v, rest)
    read16 v rest h =
        ap (λ w. wire.read_uint16 (wire.write_uint16 w ++ rest)) (omega (arith, h))
        ∙ laws.read_write16 v rest h

    read32 :
        (v : ℕ) (rest : Bytes)
        → v < 4294967296
        → wire.read_uint32 (wire.write_uint32 (v % 4294967296) ++ rest) ≡ some (v, rest)
    read32 v rest h =
        ap (λ w. wire.read_uint32 (wire.write_uint32 w ++ rest)) (omega (arith, h))
        ∙ laws.read_write32 v rest h

    get_tag-put :
        (tag : Tag) (rest : Bytes) → TagFits tag → get_tag (put_tag tag ++ rest) ≡ some (tag, rest)
    unfolding get_tag read_byte get_value
    get_tag-put (string_tag n s) rest fits =
        rw (append_assoc (wire.write_uint16 1) (n ∷ wire.write_uint16 (length s % 65536) ++ s) rest)
          (rw (append_assoc (wire.write_uint16 (length s % 65536)) s rest) (
            rw
              (
                laws.read_write16 1 (n ∷ wire.write_uint16 (length s % 65536) ++ (s ++ rest))
                    (omega arith),
                get_tag,
              )
              (rw (read16 (length s) (s ++ rest) fits.1, get_value)
                (rw (laws.read_bytes_append s rest, get_value) refl))))
    get_tag-put (uint32_tag n v) rest fits =
        rw (append_assoc (wire.write_uint16 1) (n ∷ wire.write_uint32 (v % 4294967296)) rest) (
          rw
            (
              laws.read_write16 1 (n ∷ wire.write_uint32 (v % 4294967296) ++ rest) (omega arith),
              get_tag,
            )
            (rw (read32 v rest fits.1, get_value) refl))

    get_tags-put :
        (tags : List Tag) (rest : Bytes)
        → All TagFits tags
        → get_tags (length tags) (put_tags tags ++ rest) ≡ some (tags, rest)
    unfolding get_tags
    get_tags-put [] rest fits = refl
    get_tags-put (tag ∷ tags) rest fits = rw (append_assoc (put_tag tag) (put_tags tags) rest) (
        rw (get_tag-put tag (put_tags tags ++ rest) fits.0, get_tags)
          (rw (get_tags-put tags rest fits.1, get_tags) refl))

    read_hash :
        (hash rest : Bytes)
        → length hash ≡ 16
        → wire.read_bytes 16 (hash ++ rest) ≡ some (hash, rest)
    read_hash hash rest e =
        ap (λ n. wire.read_bytes n (hash ++ rest)) (sym e) ∙ laws.read_bytes_append hash rest

    -- The bytes of an entry, and what follows.
    entry_bytes : SharedFileEntry → Bytes → Bytes
    entry_bytes e rest =
        wire.write_uint32 (e.client_id % 4294967296)
        ++ (wire.write_uint16 (e.port % 65536)
            ++ (wire.write_uint32 (length e.tags % 4294967296) ++ (put_tags e.tags ++ rest)))

    put_entry-bytes :
        (e : SharedFileEntry) (rest : Bytes) → put_entry e ++ rest ≡ e.hash ++ entry_bytes e rest
    unfolding entry_bytes
    put_entry-bytes e rest = simp append_assoc

    get_entry-put :
        (e : SharedFileEntry) (rest : Bytes)
        → EntryFits e
        → get_entry (put_entry e ++ rest) ≡ some (e, rest)
    unfolding get_entry entry_bytes
    get_entry-put e rest ((sixteen, bytes), id, port, count, fits) = rw (put_entry-bytes e rest) (
        rw (read_hash e.hash (entry_bytes e rest) sixteen, get_entry)
          (rw (read32 e.client_id _ id, get_entry)
            (rw (read16 e.port _ port, get_entry)
              (rw (read32 (length e.tags) _ count, get_entry)
                (rw (get_tags-put e.tags rest fits, get_entry) refl)))))

    pub entries_over-EntryLaws : EntryLaws entries_over
    unfolding entries_over
    entries_over-EntryLaws = record { get_put = get_entry-put; length_put = λ e fits. refl }

abbrev pub sample_entries : Entries
sample_entries = entries_over sample_wire

pub sample_entries-EntryLaws : EntryLaws sample_entries
sample_entries-EntryLaws = entries_over-EntryLaws sample_wire sample_wire_laws

-- Addresses are texts that begin with `1` when they are private.
abbrev pub private_text : Bytes → Bool
private_text [] = false
private_text (c ∷ s) = c == b'1'

abbrev pub sample_addresses : Addresses
sample_addresses = record {
  parse_ip = λ s. some s;
  is_private = private_text;
  is_loopback = λ s. false;
  ip_equal = λ a b. a =text b;
  ip_string = λ s. s;
  new_endpoint = λ ip port. record { ip = ip; port = port };
  endpoint_string = λ e. text "2.0.0.7:4662";
}
