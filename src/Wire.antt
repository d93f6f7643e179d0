-- ===== src/Wire.antt =====
-- The dependency's readers and writers of integers and bytes, which the packets are made of. A
-- bytes.Reader is the bytes left in it; its method ReadByte is here as a function.
pub mod Samples
use goed2k_server.Base.{ℕ, ◌≤◌, ◌<◌, ◌≡◌, List, [], ◌∷◌, ◌++◌, Option, none, some, length}
use goed2k_server.Base.Text.{Bytes}

-- ReadUInt16, ReadUInt32, ReadUInt64, ReadBytes and the writers; signed integers are bit patterns.
pub record Wire : Type 0 where
  pub read_uint16 : Bytes → Option (ℕ × Bytes)
  pub read_uint32 : Bytes → Option (ℕ × Bytes)
  pub read_uint64 : Bytes → Option (ℕ × Bytes)
  pub read_bytes : ℕ → Bytes → Option (Bytes × Bytes)
  pub write_uint16 : ℕ → Bytes
  pub write_uint32 : ℕ → Bytes
  pub write_uint64 : ℕ → Bytes

-- What is read back is what was written, for integers of the width.
pub record WireLaws (wire : Wire) : Type 0 where
  pub read_write16 :
      (v : ℕ) (rest : Bytes)
      → v < 65536
      → wire.read_uint16 (wire.write_uint16 v ++ rest) ≡ some (v, rest)
  pub read_write32 :
      (v : ℕ) (rest : Bytes)
      → v < 4294967296
      → wire.read_uint32 (wire.write_uint32 v ++ rest) ≡ some (v, rest)
  pub read_write64 :
      (v : ℕ) (rest : Bytes)
      → v < 18446744073709551616
      → wire.read_uint64 (wire.write_uint64 v ++ rest) ≡ some (v, rest)
  pub read_bytes_append :
      (xs rest : Bytes) → wire.read_bytes (length xs) (xs ++ rest) ≡ some (xs, rest)
  pub length_write32 : (v : ℕ) → length (wire.write_uint32 v) ≡ 4

-- A read leaves no more than there was.
pub record Consumes (wire : Wire) : Type 0 where
  pub within16 :
      (src rest : Bytes) (v : ℕ) → wire.read_uint16 src ≡ some (v, rest) → length rest ≤ length src
  pub within32 :
      (src rest : Bytes) (v : ℕ) → wire.read_uint32 src ≡ some (v, rest) → length rest ≤ length src
  pub within64 :
      (src rest : Bytes) (v : ℕ) → wire.read_uint64 src ≡ some (v, rest) → length rest ≤ length src
  pub within_bytes :
      (n : ℕ) (src xs rest : Bytes)
      → wire.read_bytes n src ≡ some (xs, rest)
      → length rest ≤ length src

unfoldable pub read_byte : Bytes → Option (ℕ × Bytes)
read_byte [] = none
read_byte (b ∷ rest) = some (b, rest)
