-- ===== src/Offering/Origin.antt =====
-- sourceFromSharedEntry and shouldPreferObservedRemoteSource of ed2ksrv/server.go: the address
-- under which a client shares a file.
use goed2k_server.Base.{
  ℕ, Bool, false, not, ◌&&◌, ◌||◌, [], ◌∷◌, Option, none, some, ◌==◌, if◌then◌else◌,
}
use goed2k_server.Base.Int.{ℤ, pos, eqb_ℤ}
use goed2k_server.Base.Text.{Bytes, ◌=text◌}
use goed2k_server.Protocol.{Endpoint, SharedFileEntry}
use goed2k_server.Records.{SourceEntry}

-- Package net's ParseIP, the methods of an IP, and the text that the dependency gives an Endpoint.
pub record Addresses : Type 0 where
  pub parse_ip : Bytes → Option Bytes
  pub is_private : Bytes → Bool
  pub is_loopback : Bytes → Bool
  pub ip_equal : Bytes → Bytes → Bool
  pub ip_string : Bytes → Bytes
  pub new_endpoint : ℕ → ℤ → Endpoint
  pub endpoint_string : Endpoint → Bytes

-- What stands before the last colon, if there is one.
unfoldable pub before_last_colon : Bytes → Option Bytes
before_last_colon [] = none
before_last_colon (c ∷ s) = elim (before_last_colon s) [
  | some before ↦ some (c ∷ before)
  | none ↦ if c == b':' then some [] else none
]

unfoldable pub host_part : Bytes → Bytes
unfolding before_last_colon
host_part s = elim (before_last_colon s) [ none ↦ s | some before ↦ before ]

-- The ID and the port of the entry, or those of the client: clients write 0xfbfbfbfb or 0xfcfcfcfc
-- for a complete or an incomplete file of their own.
unfoldable pub entry_origin : ℕ → ℤ → SharedFileEntry → ℕ × ℤ
entry_origin client_id listen_port entry =
    if (entry.client_id == 0 || entry.port == 0)
      || (entry.client_id == 0xfbfbfbfb || entry.client_id == 0xfcfcfcfc)
    then (client_id, listen_port)
    else (entry.client_id, pos entry.port)

module _ (net : Addresses) where
  unfoldable pub should_prefer_observed_remote_source : Bytes → Bytes → Bool
  should_prefer_observed_remote_source host remote_host =
      if (remote_host =text [] || host =text []) || host =text remote_host
      then false
      else elim (net.parse_ip remote_host) [
        | none ↦ false
        | some remote_ip ↦
            if not (net.is_private remote_ip) && not (net.is_loopback remote_ip)
            then false
            else elim (net.parse_ip host) [
              | none ↦ false
              | some source_ip ↦ not (net.ip_equal source_ip remote_ip)
            ]
      ]

  unfoldable pub source_from_shared_entry : ℕ → ℤ → Bytes → SharedFileEntry → Option SourceEntry
  unfolding host_part entry_origin should_prefer_observed_remote_source
  source_from_shared_entry client_id listen_port remote_host entry =
      let origin = entry_origin client_id listen_port entry in
      let host = host_part (net.endpoint_string (net.new_endpoint origin.0 origin.1)) in
      if origin.0 == 0 || eqb_ℤ origin.1 (pos 0)
      then none
      else some (record {
        host =
            (if should_prefer_observed_remote_source host remote_host then remote_host else host);
        port = origin.1;
        obfuscation_options = 0;
        user_hash = [];
      })
