-- ===== src/Offering/Handler.antt =====
-- handleOfferFiles of ed2ksrv/server.go, with the status that it answers; the statistics are left
-- out.
use goed2k_server.Base.{
  ℕ, ◌+◌, ◌%◌, ◌^◌, List, [], ◌∷◌, Option, none, some, length, ◌==◌, if◌then◌else◌,
}
use goed2k_server.Base.Text.{Bytes, CaseTables}
use goed2k_server.Config.{Config}
use goed2k_server.Catalog.{Catalog}
use goed2k_server.Protocol.{Protocol, SharedFileEntry}
use goed2k_server.Records.{FileRecord, SourceEntry}
use goed2k_server.Server.{Server, ClientSession, merge_client_offered_files}
use goed2k_server.Offering.{
  Entries, Offered, ok, err, login_required, file_record_from_shared_entry,
}
use goed2k_server.Offering.Origin.{Addresses, source_from_shared_entry}

-- serverproto.Status, as bit patterns of its two int32.
pub record Status : Type 0 where
  pub users_count : ℕ
  pub files_count : ℕ

unfoldable pub status_of : Catalog → Server → Status
status_of c s = record {
  users_count = length s.clients % 2 ^ 32;
  files_count = (length c.files + length s.dynamic_files) % 2 ^ 32;
}

abbrev pub with_source : FileRecord → Option SourceEntry → FileRecord
with_source r none = r
with_source r (some source) = record r { endpoints = source ∷ [] }

module _ (p : Protocol) (u : CaseTables) (tags : Entries) (net : Addresses) where
  unfoldable pub remote_host : ClientSession → Bytes
  remote_host client = elim (client.remote) [
    | none ↦ []
    | some addr ↦ elim (addr.ip) [ none ↦ [] | some ip ↦ net.ip_string ip ]
  ]

  -- The loop over the entries, which the first bad entry ends.
  unfoldable pub offered_records : ClientSession → List SharedFileEntry → Offered (List FileRecord)
  unfolding remote_host
  offered_records client [] = ok []
  offered_records client (entry ∷ entries) =
      let rest = offered_records client entries in
      elim (file_record_from_shared_entry p u tags entry) [
        | err e ↦ err e
        | ok r ↦ elim rest [
          | err e ↦ err e
          | ok rs ↦ ok (
              with_source r (
                source_from_shared_entry net client.assigned_id (client.login_point).port
                  (remote_host client) entry)
              ∷ rs)
        ]
      ]

  unfoldable pub handle_offer_files :
      Config → Catalog → ClientSession → List SharedFileEntry → Server → Offered (Server × Status)
  unfolding offered_records status_of
  handle_offer_files cfg c client entries s =
      if client.assigned_id == 0
      then err login_required
      else elim (offered_records client entries) [
        | err e ↦ err e
        | ok records ↦
            let after = merge_client_offered_files p cfg client.assigned_id records s in
            ok (after, status_of c after)
      ]
