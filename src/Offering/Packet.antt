-- ===== src/Offering/Packet.antt =====
-- The OP_OFFERFILES packet: a count and that many entries.
use goed2k_server.Base.{
  ℕ, zero, suc, ◌+◌, ◌%◌, ◌^◌, List, [], ◌∷◌, ◌++◌, Option, some, length, ◌>>=◌,
}
use goed2k_server.Base.Text.{Bytes}
use goed2k_server.Protocol.{SharedFileEntry}
use goed2k_server.Wire.{Wire}
use goed2k_server.Offering.{Entries}

module _ (wire : Wire) (tags : Entries) where
  -- The loop over the entries that the count announces.
  unfoldable pub get_entries : ℕ → Bytes → Option (List SharedFileEntry × Bytes)
  get_entries zero src = some ([], src)
  get_entries (suc n) src = do
    (entry, src1) ← tags.get src
    (entries, src2) ← get_entries n src1
    some (entry ∷ entries, src2)

  unfoldable pub get : Bytes → Option (List SharedFileEntry × Bytes)
  unfolding get_entries
  get src = do (count, src1) ← wire.read_uint32 src; get_entries count src1

  unfoldable pub put_entries : List SharedFileEntry → Bytes → Bytes
  put_entries [] dst = dst
  put_entries (e ∷ es) dst = put_entries es (dst ++ tags.put e)

  unfoldable pub put : List SharedFileEntry → Bytes → Bytes
  unfolding put_entries
  put entries dst = put_entries entries (dst ++ wire.write_uint32 (length entries % 2 ^ 32))

  unfoldable pub add_counts : List SharedFileEntry → ℕ → ℕ
  add_counts [] size = size
  add_counts (e ∷ es) size = add_counts es (size + tags.bytes_count e)

  unfoldable pub bytes_count : List SharedFileEntry → ℕ
  unfolding add_counts
  bytes_count entries = add_counts entries 4
