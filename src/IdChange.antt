-- ===== src/IdChange.antt =====
-- The OP_IDCHANGE packet of ed2ksrv/id_change_extended.go. A 32-bit integer is its bit pattern, and
-- a reader is the bytes left in it.
pub mod RoundTrip
pub mod Runs
use goed2k_server.Base.{
  ℕ, ◌+◌, ◌≡◌, ◌<◌, Bool, true, false, ◌||◌, not, List, [], ◌∷◌, ◌++◌, Option, none, some, length,
  ◌==◌, ltb, leb, if◌then◌else◌, ◌>>=◌,
}
use goed2k_server.Base.Text.{Bytes}
use goed2k_server.Config.{Config}
use goed2k_server.Wire.{Wire}

pub record IdChangeExtended : Type 0 where
  pub client_id : ℕ
  pub tcp_flags : ℕ
  pub aux_port : ℕ
  pub reported_ip : ℕ
  pub obfuscation_tcp_port : ℕ

-- The fields are 32 bits wide.
abbrev pub Fits : IdChangeExtended → Type 0
Fits i =
    (i.client_id < 4294967296)
    × (i.tcp_flags < 4294967296)
    × (i.aux_port < 4294967296)
    × (i.reported_ip < 4294967296)
    × (i.obfuscation_tcp_port < 4294967296)

module _ (wire : Wire) where
  -- A field that is read if four bytes are left, and keeps its value otherwise.
  unfoldable pub read_optional : ℕ → Bytes → Option (ℕ × Bytes)
  read_optional old src = if leb 4 (length src) then wire.read_uint32 src else some (old, src)

  unfoldable pub get : IdChangeExtended → Bytes → Option (IdChangeExtended × Bytes)
  unfolding read_optional
  get i src = do
    (client_id, src1) ← wire.read_uint32 src
    (tcp_flags, src2) ← read_optional i.tcp_flags src1
    (aux_port, src3) ← read_optional i.aux_port src2
    (reported_ip, src4) ← read_optional i.reported_ip src3
    (port, src5) ← read_optional i.obfuscation_tcp_port src4
    some (
      record {
        client_id = client_id;
        tcp_flags = tcp_flags;
        aux_port = aux_port;
        reported_ip = reported_ip;
        obfuscation_tcp_port = port;
      },
      src5,
    )

  unfoldable pub put : IdChangeExtended → Bytes → Bytes
  put i dst =
      ((((dst ++ wire.write_uint32 i.client_id) ++ wire.write_uint32 i.tcp_flags)
          ++ wire.write_uint32 i.aux_port)
        ++ wire.write_uint32 i.reported_ip)
      ++ wire.write_uint32 i.obfuscation_tcp_port

unfoldable pub bytes_count : IdChangeExtended → ℕ
bytes_count i = 20

-- A LowID has no address to report.
unfoldable pub reported_ip_for_id_change : ℕ → ℕ
reported_ip_for_id_change assigned_id = if ltb assigned_id 0x01000000 then 0 else assigned_id

unfoldable pub obfuscation_tcp_port_advertised : Config → ℕ → ℕ
obfuscation_tcp_port_advertised cfg listener_port =
    if not cfg.protocol_obfuscation || listener_port == 0 then 0 else listener_port
