-- ===== src/IdChange/RoundTrip.antt =====
-- What Put writes, Get reads.
use goed2k_server.Base.{
  ℕ, ◌<◌, ◌≡◌, refl, ap, ◌∙◌, [], ◌++◌, some, length, leb, arith, append_assoc, length-append,
}
use goed2k_server.Base.Tests.{if_true}
use goed2k_server.Base.Text.{Bytes}
use goed2k_server.IdChange.{IdChangeExtended, read_optional, get, put, bytes_count, Fits}
use goed2k_server.Wire.{Wire, WireLaws}

module _ (wire : Wire) (laws : WireLaws wire) where
  read_optional-write :
      (old v : ℕ) (rest : Bytes)
      → v < 4294967296
      → read_optional wire old (wire.write_uint32 v ++ rest) ≡ some (v, rest)
  unfolding read_optional
  read_optional-write old v rest b =
      if_true {b = leb 4 (length (wire.write_uint32 v ++ rest))} _ _
        (ground (arith, length-append (wire.write_uint32 v) rest, laws.length_write32 v))
      ∙ laws.read_write32 v rest b

  -- The bytes of a packet, the client ID first.
  packet : IdChangeExtended → Bytes → Bytes
  packet i rest =
      wire.write_uint32 i.client_id
      ++ (wire.write_uint32 i.tcp_flags
          ++ (wire.write_uint32 i.aux_port
              ++ (wire.write_uint32 i.reported_ip
                  ++ (wire.write_uint32 i.obfuscation_tcp_port ++ rest))))

  put-packet : (i : IdChangeExtended) (rest : Bytes) → put wire i [] ++ rest ≡ packet i rest
  unfolding put packet
  put-packet i rest = simp append_assoc

  get-packet :
      (i old : IdChangeExtended) (rest : Bytes)
      → Fits i
      → get wire old (packet i rest) ≡ some (i, rest)
  unfolding packet get
  get-packet i old rest fits =
      rw (laws.read_write32 i.client_id _ fits.0, get)
        (rw (read_optional-write old.tcp_flags i.tcp_flags _ fits.1, get)
          (rw (read_optional-write old.aux_port i.aux_port _ fits.2, get)
            (rw (read_optional-write old.reported_ip i.reported_ip _ fits.3, get)
              (rw
                (
                  read_optional-write old.obfuscation_tcp_port i.obfuscation_tcp_port rest fits.4,
                  get,
                )
                refl))))

  length-put : (i : IdChangeExtended) → length (put wire i []) ≡ 20
  unfolding put
  length-put i = simp (length-append, laws.length_write32)

  -- Get reads back every 32-bit field that Put wrote and leaves the bytes that follow, whatever the
  -- packet held before; and Put writes as many bytes as BytesCount says.
  pub get-put :
      (i old : IdChangeExtended) (rest : Bytes)
      → Fits i
      → (get wire old (put wire i [] ++ rest) ≡ some (i, rest))
        × (length (put wire i []) ≡ bytes_count i)
  unfolding bytes_count
  get-put i old rest fits =
      (ap (get wire old) (put-packet i rest) ∙ get-packet i old rest fits, length-put i)
