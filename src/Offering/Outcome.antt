-- ===== src/Offering/Outcome.antt =====
-- What handleOfferFiles does to the server.
use mathlib.Core.Path.{subst}
use goed2k_server.Base.{
  ℕ, ◌≡◌, ◌≢◌, refl, sym, ap, ◌∙◌, Bool, true, false, ◌||◌, List, [], ◌∷◌, Option, none, some, ◌==◌,
  arith, All, length, Bool-cases, inl, inr, is_some, if◌then◌else◌, All-weaken, ◌%◌, ◌^◌, ◌+◌,
}
use goed2k_server.Base.Int.{ℤ, pos, is_positive, eqb_ℤ}
use goed2k_server.Base.Tests.{text_eq, nat_eq, beq_refl, beq→ne, ne→beq}
use goed2k_server.Base.Text.{Bytes, CaseTables}
use goed2k_server.Config.{Config}
use goed2k_server.Catalog.{Catalog}
use goed2k_server.Protocol.{Protocol, SharedFileEntry}
use goed2k_server.Records.{FileRecord, SourceEntry}
use goed2k_server.Dynamic.Sources.{source}
use goed2k_server.Server.{
  Server, ClientSession, merge_client_offered_files, remove_client_offered_files, merge_into,
  start_merge, update_session,
}
use goed2k_server.Server.Invariant.{Holds, WellFormed}
use goed2k_server.Server.Offers.{names}
use goed2k_server.Server.Merging.Batches.{merge_client_offered_files-WellFormed}
use goed2k_server.Server.Merging.Uncapped.{has_source, merge_records-uncapped, add_records-sets}
use goed2k_server.Offering.{Entries, ok, login_required, Offered-cases, ok_injective, err_not_ok}
use goed2k_server.Offering.Origin.{Addresses, source_from_shared_entry, entry_origin}
use goed2k_server.Offering.Handler.{
  Status, status_of, offered_records, handle_offer_files, remote_host, with_source,
}
use goed2k_server.Offering.Valid.{
  Pairs, none_left, both, file_record_from_shared_entry-Acceptable, offered_records-Pairs,
}

some_after : {b : Bool} (x : SourceEntry) → b ≡ false → is_some (if b then none else some x) ≡ true
some_after x h = rw (h) refl

origin_set :
    (client_id : ℕ) (listen_port : ℤ) (e : SharedFileEntry)
    → client_id ≢ 0
    → eqb_ℤ listen_port (pos 0) ≡ false
    → ((entry_origin client_id listen_port e).0 == 0
        || eqb_ℤ (entry_origin client_id listen_port e).1 (pos 0))
      ≡ false
unfolding entry_origin
origin_set client_id listen_port e n h =
    elim (Bool-cases (
      (e.client_id == 0 || e.port == 0)
      || (e.client_id == 0xfbfbfbfb || e.client_id == 0xfcfcfcfc))) [
        | inl b ↦ rw (b) (rw (h) (rw (ne→beq client_id 0 n) refl))
        | inr b ↦ rw (b) (ground (arith, b))
      ]

module _ (net : Addresses) where
  -- A client with an ID and a port has a source for each entry, whatever the entry says.
  source_from_shared_entry-total :
      (client_id : ℕ) (listen_port : ℤ) (remote : Bytes) (e : SharedFileEntry)
      → client_id ≢ 0
      → eqb_ℤ listen_port (pos 0) ≡ false
      → is_some (source_from_shared_entry net client_id listen_port remote e) ≡ true
  unfolding source_from_shared_entry entry_origin
  source_from_shared_entry-total client_id listen_port remote e n h =
      some_after _ (origin_set client_id listen_port e n h)

module _ (p : Protocol) (u : CaseTables) (tags : Entries) (net : Addresses) (cfg : Config)
    (c : Catalog) where
  -- What an announcement that is taken makes of the server.
  taken :
      (client : ClientSession) (es : List SharedFileEntry) (s s' : Server) (st : Status)
      → handle_offer_files p u tags net cfg c client es s ≡ ok (s', st)
      → (rs : List FileRecord) × (client.assigned_id ≢ 0)
        × (offered_records p u tags net client es ≡ ok rs)
        × (s' ≡ merge_client_offered_files p cfg client.assigned_id rs s)
        × (st ≡ status_of c s')
  unfolding handle_offer_files
  taken client es s s' st h = elim (Bool-cases (client.assigned_id == 0)) [
    | inl b ↦ absurd (err_not_ok {e = login_required} (sym (rw (b) refl) ∙ h))
    | inr b ↦ elim (Offered-cases (offered_records p u tags net client es)) [
      | inr (e', q) ↦
          absurd (err_not_ok {e = e'} (sym (rw (b) (rw (q, handle_offer_files) refl)) ∙ h))
      | inl (rs, q) ↦
          let after = merge_client_offered_files p cfg client.assigned_id rs s in
          let same =
            ok_injective (after, status_of c after) (s', st)
              (sym (rw (b) (rw (q, handle_offer_files) refl)) ∙ h) in
          (
            rs,
            beq→ne client.assigned_id 0 b,
            q,
            sym (ap (λ x. x.0) same),
            sym (ap (λ x. x.1) same) ∙ ap (status_of c) (ap (λ x. x.0) same),
          )
    ]
  ]

  clients-merge :
      (id : ℕ) (rs : List FileRecord) (s : Server)
      → (merge_client_offered_files p cfg id rs s).clients ≡ s.clients
  unfolding merge_client_offered_files remove_client_offered_files merge_into update_session
  clients-merge id [] s = ground arith
  clients-merge id (r ∷ rs) s = ground arith

  -- The client's source for the entry.
  abbrev Sourced : SharedFileEntry → FileRecord → Type 0
  Sourced e r = (r.hash ≡ e.hash) × (has_source r ≡ true)

  with_source-Sourced :
      (e : SharedFileEntry) (r : FileRecord) (o : Option SourceEntry)
      → r.hash ≡ e.hash
      → is_some o ≡ true
      → Sourced e (with_source r o)
  with_source-Sourced e r none same h = absurd (ground (arith, h))
  with_source-Sourced e r (some source) same h = (same, refl)

  Pairs-has_source :
      {es : List SharedFileEntry} {rs : List FileRecord}
      → Pairs Sourced es rs
      → All (λ r. has_source r ≡ true) rs
  Pairs-has_source none_left = tt
  Pairs-has_source (both h k) = (h.1, Pairs-has_source k)

  Pairs-names :
      {es : List SharedFileEntry} {rs : List FileRecord}
      → Pairs Sourced es rs
      → All (λ e. names p (p.hash_string e.hash) rs ≡ true) es
  Pairs-names none_left = tt
  Pairs-names (both {a = e} {xs = es} h k) = (
    rw (ap p.hash_string h.0) (rw (beq_refl (p.hash_string e.hash)) refl),
    All-weaken es (λ x n. ground (arith, n)) (Pairs-names k),
  )

  batch-Sourced :
      (client : ClientSession) (es : List SharedFileEntry) (rs : List FileRecord)
      → client.assigned_id ≢ 0
      → eqb_ℤ (client.login_point).port (pos 0) ≡ false
      → offered_records p u tags net client es ≡ ok rs
      → Pairs Sourced es rs
  batch-Sourced client es rs n h q =
      offered_records-Pairs p u tags net Sourced client
        (λ e r k.
          with_source-Sourced e r
            (source_from_shared_entry net client.assigned_id (client.login_point).port
              (remote_host p u tags net client) e)
            (file_record_from_shared_entry-Acceptable p u tags e r k).same_hash
            (source_from_shared_entry-total net client.assigned_id (client.login_point).port
              (remote_host p u tags net client) e n h))
        es rs q

  -- Without a cap, a batch of one record or more leaves the client as a source of each file named.
  merge-shares :
      (s : Server) (id ref : ℕ) (client : ClientSession) (key : Bytes) (rs : List FileRecord)
      → Holds p s id ref client
      → is_positive cfg.max_offered_files_per_client ≡ false
      → All (λ r. has_source r ≡ true) rs
      → names p key rs ≡ true
      → is_some (source (merge_client_offered_files p cfg id rs s).dynamic_files key id) ≡ true
  unfolding merge_client_offered_files merge_into start_merge
  merge-shares s id ref client key [] h uncapped all n = absurd (ground arith)
  merge-shares s id ref client key (r ∷ rs) h uncapped all n =
      rw (h.0, merge_client_offered_files)
        (rw (h.1, merge_client_offered_files)
          (rw
            (merge_records-uncapped p cfg.max_offered_files_per_client (r ∷ rs)
              (start_merge p client) uncapped)
            (add_records-sets p id (r ∷ rs) key _ all n)))

  -- An announcement that is taken keeps the server well-formed, whatever the cap; every client
  -- keeps its ID; and the answer counts the clients and the files as they are afterwards, below
  -- 2^32.
  pub handle_offer_files-WellFormed :
      (client : ClientSession) (es : List SharedFileEntry) (s s' : Server) (st : Status)
      → WellFormed p s
      → handle_offer_files p u tags net cfg c client es s ≡ ok (s', st)
      → WellFormed p s'
        × (s'.clients ≡ s.clients)
        × (st.users_count ≡ length s.clients % 2 ^ 32)
        × (st.files_count ≡ (length c.files + length s'.dynamic_files) % 2 ^ 32)
  unfolding status_of
  handle_offer_files-WellFormed client es s s' st w h =
      let (rs, n, q, same, status) = taken client es s s' st h in
      let kept = ap (λ x. x.clients) same ∙ clients-merge client.assigned_id rs s in
      (
        subst (WellFormed p) (sym same)
            (merge_client_offered_files-WellFormed p cfg s client.assigned_id rs w),
        kept,
        ap (λ x. x.users_count) status ∙ ap (λ l. length l % 2 ^ 32) kept,
        ap (λ x. x.files_count) status,
      )

  -- Without a cap, a logged-in client that listens on a port and whose announcement is taken is
  -- afterwards a source of every file that it announced, whatever address the entries give.
  pub handle_offer_files-shares :
      (ref : ℕ) (client : ClientSession) (es : List SharedFileEntry) (s s' : Server) (st : Status)
      → Holds p s client.assigned_id ref client
      → eqb_ℤ (client.login_point).port (pos 0) ≡ false
      → is_positive cfg.max_offered_files_per_client ≡ false
      → handle_offer_files p u tags net cfg c client es s ≡ ok (s', st)
      → All
          (λ e. is_some (source s'.dynamic_files (p.hash_string e.hash) client.assigned_id) ≡ true)
          es
  handle_offer_files-shares ref client es s s' st held port uncapped h =
      let (rs, n, q, same, status) = taken client es s s' st h in
      let batch = batch-Sourced client es rs n port q in
      All-weaken es
        (λ e k.
          ap (λ x. is_some (source x.dynamic_files (p.hash_string e.hash) client.assigned_id)) same
          ∙ merge-shares s client.assigned_id ref client (p.hash_string e.hash) rs held uncapped
              (Pairs-has_source batch) k)
        (Pairs-names batch)
