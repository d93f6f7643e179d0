-- ===== src/Offering/RoundTrip.antt =====
-- What Put writes of an announcement, Get reads, and BytesCount measures.
use goed2k_server.Base.{
  All, ◌+◌, ◌%◌, ◌<◌, ◌≡◌, refl, sym, ap, ◌∙◌, List, [], ◌∷◌, ◌++◌, some, length, arith,
  append_assoc, append_nil, length-append,
}
use goed2k_server.Base.Text.{Bytes}
use goed2k_server.Protocol.{SharedFileEntry, Tag, string_tag, uint32_tag}
use goed2k_server.Wire.{Wire, WireLaws}
use goed2k_server.Offering.{Entries}
use goed2k_server.Offering.Packet.{get_entries, get, put_entries, put, add_counts, bytes_count}

-- What the fields of the wire format hold: a name of one byte, a text of fewer than 2^16 bytes, or
-- 32 bits.
abbrev pub TagFits : Tag → Type 0
TagFits (string_tag n s) = (n < 256) × (length s < 65536) × All (λ b. b < 256) s
TagFits (uint32_tag n v) = (n < 256) × (v < 4294967296)

-- A hash of sixteen bytes, an ID of 32 bits and a port of 16.
abbrev pub EntryFits : SharedFileEntry → Type 0
EntryFits e =
    ((length e.hash ≡ 16) × All (λ b. b < 256) e.hash)
    × (e.client_id < 4294967296)
    × (e.port < 65536)
    × (length e.tags < 4294967296)
    × All TagFits e.tags

-- Entries of the dependency that fit the wire format are read back, and take as many bytes as they
-- say.
pub record EntryLaws (tags : Entries) : Type 0 where
  pub get_put :
      (e : SharedFileEntry) (rest : Bytes)
      → EntryFits e
      → tags.get (tags.put e ++ rest) ≡ some (e, rest)
  pub length_put : (e : SharedFileEntry) → EntryFits e → length (tags.put e) ≡ tags.bytes_count e

module _ (wire : Wire) (tags : Entries) (laws : WireLaws wire) (entry_laws : EntryLaws tags) where
  put_entries-append :
      (es : List SharedFileEntry) (dst : Bytes)
      → put_entries wire tags es dst ≡ dst ++ put_entries wire tags es []
  unfolding put_entries
  put_entries-append [] dst = sym (append_nil dst)
  put_entries-append (e ∷ es) dst =
      put_entries-append es (dst ++ tags.put e)
      ∙ append_assoc dst (tags.put e) (put_entries wire tags es [])
      ∙ ap (λ x. dst ++ x) (sym (put_entries-append es (tags.put e)))

  get_entries-put :
      (es : List SharedFileEntry) (rest : Bytes)
      → All EntryFits es
      → get_entries wire tags (length es) (put_entries wire tags es [] ++ rest) ≡ some (es, rest)
  unfolding put_entries get_entries
  get_entries-put [] rest fits = refl
  get_entries-put (e ∷ es) rest fits = rw (put_entries-append es (tags.put e)) (
      rw (append_assoc (tags.put e) (put_entries wire tags es []) rest) (
        rw (entry_laws.get_put e (put_entries wire tags es [] ++ rest) fits.0, get_entries)
          (rw (get_entries-put es rest fits.1, get_entries) refl)))

  add_counts-put :
      (es : List SharedFileEntry) (dst : Bytes)
      → All EntryFits es
      → length (put_entries wire tags es dst) ≡ add_counts wire tags es (length dst)
  unfolding put_entries add_counts
  add_counts-put [] dst fits = refl
  add_counts-put (e ∷ es) dst fits =
      add_counts-put es (dst ++ tags.put e) fits.1
      ∙ ap (add_counts wire tags es) (
          length-append dst (tags.put e)
          ∙ ap (λ n. length dst + n) (entry_laws.length_put e fits.0))

  put-append :
      (es : List SharedFileEntry) (rest : Bytes)
      → length es < 4294967296
      → put wire tags es [] ++ rest
        ≡ wire.write_uint32 (length es) ++ (put_entries wire tags es [] ++ rest)
  unfolding put
  put-append es rest b =
      ap (λ n. put_entries wire tags es (wire.write_uint32 n) ++ rest) (omega (arith, b))
      ∙ ap (λ x. x ++ rest) (put_entries-append es (wire.write_uint32 (length es)))
      ∙ append_assoc (wire.write_uint32 (length es)) (put_entries wire tags es []) rest

  -- An announcement of fewer than 2^32 entries whose fields fit the wire format (a hash of sixteen
  -- bytes, an ID of 32 bits, a port of 16, texts of fewer than 2^16 bytes, numbers of 32 bits) is
  -- read back from what Put wrote, with the bytes that follow left over, and Put writes as many
  -- bytes as BytesCount says.
  pub get-put_batch :
      (es : List SharedFileEntry) (rest : Bytes)
      → length es < 4294967296
      → All EntryFits es
      → (get wire tags (put wire tags es [] ++ rest) ≡ some (es, rest))
        × (length (put wire tags es []) ≡ bytes_count wire tags es)
  unfolding get put bytes_count
  get-put_batch es rest b fits = (
    rw (put-append es rest b) (
        rw (laws.read_write32 (length es) (put_entries wire tags es [] ++ rest) b, get)
          (get_entries-put es rest fits)),
    add_counts-put es (wire.write_uint32 (length es % 4294967296)) fits
        ∙ ap (add_counts wire tags es) (laws.length_write32 (length es % 4294967296)),
  )
