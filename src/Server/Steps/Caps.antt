-- ===== src/Server/Steps/Caps.antt =====
-- The cap on the files of a client, over every sequence of steps of the registry.
use goed2k_server.Base.{
  ℕ, suc, ◌≤◌, ◌<◌, ◌≡◌, ◌≢◌, sym, ap, ◌∙◌, List, [], ◌∷◌, none, some, length, ◌==◌, All, arith,
  Bool-cases, Option-cases, inl, inr, All-weaken,
}
use goed2k_server.Base.Int.{pos}
use goed2k_server.Base.Maps.{lookup, delete, lookup-insert, lookup-delete, length-delete-lt}
use goed2k_server.Base.Tests.{
  text_eq, nat_eq, ne→beq, none_not_some, some_injective, if_true, if_false,
}
use goed2k_server.Base.Text.{Bytes}
use goed2k_server.Config.{Config}
use goed2k_server.Protocol.{Protocol, Endpoint}
use goed2k_server.Records.{FileRecord}
use goed2k_server.Dynamic.Sources.{source}
use goed2k_server.Server.{
  Server, ClientSession, TcpAddr, Login, find_client, update_session, register_client, handle_login,
  allocate_client_id, logged_in_as, merge_records, merge_into, start_merge,
  merge_client_offered_files, remove_client_offered_files, release_id, unregister_client,
}
use goed2k_server.Server.Ids.{allocate_client_id-free}
use goed2k_server.Server.Invariant.{Holds, WellFormed}
use goed2k_server.Server.Merging.{merge_records-capped}
use goed2k_server.Server.Steps.{
  Step, connect, login, offer, leave, Reachable, start, then_step, new_session,
  Reachable-WellFormed,
}

-- No text stands twice in the list.
abbrev pub Distinct : List Bytes → Type 0
Distinct [] = Unit
Distinct (k ∷ ks) = All (λ j. k ≢ j) ks × Distinct ks

still_there :
    (k j : Bytes) (m : List (Bytes × FileRecord))
    → k ≢ j
    → lookup j m ≢ none
    → lookup j (delete k m) ≢ none
still_there k j m ne h e = h (sym (lookup-delete k j m ∙ if_false _ _ (ne→beq k j ne)) ∙ e)

both_All :
    (k : Bytes) (m : List (Bytes × FileRecord)) (ks : List Bytes)
    → All (λ j. k ≢ j) ks
    → All (λ j. lookup j m ≢ none) ks
    → All (λ j. lookup j (delete k m) ≢ none) ks
both_All k m [] a b = tt
both_All k m (j ∷ ks) a b = (still_there k j m a.0 b.0, both_All k m ks a.1 b.1)

-- Distinct keys of a map are no more than its entries.
length-Distinct :
    (ks : List Bytes) (m : List (Bytes × FileRecord))
    → Distinct ks
    → All (λ k. lookup k m ≢ none) ks
    → length ks ≤ length m
length-Distinct [] m d h = omega arith
length-Distinct (k ∷ ks) m d h =
    omega (
      arith,
      length-Distinct ks (delete k m) d.1 (both_All k m ks d.0 h.1),
      length-delete-lt k m h.0,
    )

module _ (endpoint_from_inet : TcpAddr → Endpoint) (p : Protocol) (cfg : Config) (n : ℕ) where
  -- Every session offers `n + 1` files at most.
  abbrev Capped : Server → Type 0
  Capped s =
      (ref : ℕ) (client : ClientSession)
      → lookup ref s.sessions ≡ some client
      → length client.offered_files ≤ suc n

  Capped-same : (s t : Server) → t.sessions ≡ s.sessions → Capped s → Capped t
  Capped-same s t e c ref client l = c ref client (ap (lookup ref) (sym e) ∙ l)

  update_session-Capped :
      (s : Server) (ref : ℕ) (client : ClientSession)
      → length client.offered_files ≤ suc n
      → Capped s
      → Capped (update_session ref client s)
  unfolding update_session
  update_session-Capped s ref client h c ref2 client2 l =
      let found = sym (lookup-insert ref ref2 client s.sessions) ∙ l in
      elim (Bool-cases (ref == ref2)) [
        | inl b ↦
            let same = some_injective client client2 (sym (if_true _ _ b) ∙ found) in
            omega (arith, h, ap (λ x. length x.offered_files) same)
        | inr b ↦ c ref2 client2 (sym (if_false _ _ b) ∙ found)
      ]

  remove_client_offered_files-Capped :
      (s : Server) (id : ℕ) → Capped s → Capped (remove_client_offered_files p id s)
  unfolding remove_client_offered_files
  remove_client_offered_files-Capped s id c = elim (Option-cases (find_client s id)) [
    | inl e ↦ rw (e, remove_client_offered_files) c
    | inr (ref, e) ↦ elim (Option-cases (lookup ref s.sessions)) [
      | inl q ↦ rw (e, remove_client_offered_files) (rw (q, remove_client_offered_files) c)
      | inr (client, q) ↦
          rw (e, remove_client_offered_files)
            (rw (q, remove_client_offered_files)
              (update_session-Capped s ref (record client { offered_files = [] }) (omega arith) c))
    ]
  ]

  merge_into-Capped :
      (s : Server) (id ref : ℕ) (rs : List FileRecord) (client : ClientSession)
      → cfg.max_offered_files_per_client ≡ pos (suc n)
      → lookup ref s.sessions ≡ some client
      → Capped s
      → Capped (merge_into p cfg id rs ref client s)
  unfolding merge_into start_merge
  merge_into-Capped s id ref rs client e l c =
      update_session-Capped s ref
        (record client {
          offered_files =
              (merge_records p cfg.max_offered_files_per_client rs (start_merge p client)).offered;
        })
        (merge_records-capped p cfg.max_offered_files_per_client n rs (start_merge p client) e
          (c ref client l))
        c

  merge_client_offered_files-Capped :
      (s : Server) (id : ℕ) (rs : List FileRecord)
      → cfg.max_offered_files_per_client ≡ pos (suc n)
      → Capped s
      → Capped (merge_client_offered_files p cfg id rs s)
  unfolding merge_client_offered_files
  merge_client_offered_files-Capped s id [] e c = remove_client_offered_files-Capped s id c
  merge_client_offered_files-Capped s id (r ∷ rs) e c = elim (Option-cases (find_client s id)) [
    | inl f ↦ rw (f, merge_client_offered_files) c
    | inr (ref, f) ↦ elim (Option-cases (lookup ref s.sessions)) [
      | inl q ↦ rw (f, merge_client_offered_files) (rw (q, merge_client_offered_files) c)
      | inr (client, q) ↦
          rw (f, merge_client_offered_files)
            (rw (q, merge_client_offered_files) (merge_into-Capped s id ref (r ∷ rs) client e q c))
    ]
  ]

  register_client-sessions :
      (ref : ℕ) (client : ClientSession) (s : Server)
      → (register_client ref client s).sessions ≡ s.sessions
  unfolding register_client
  register_client-sessions ref client s = ground arith

  handle_login-Capped :
      (s : Server) (ref : ℕ) (client : ClientSession) (req : Login)
      → suc (length s.clients) ≤ 4294967296
      → s.next_id < 4294967296
      → lookup ref s.sessions ≡ some client
      → Capped s
      → Capped (handle_login endpoint_from_inet ref client req s)
  unfolding handle_login
  handle_login-Capped s ref client req l b at c =
      let allocated = allocate_client_id endpoint_from_inet client.remote s in
      let logged_in = logged_in_as endpoint_from_inet req allocated.0 client in
      let kept = (allocate_client_id-free endpoint_from_inet client.remote s l b).2 in
      Capped-same (update_session ref logged_in allocated.1)
        (register_client ref logged_in (update_session ref logged_in allocated.1))
        (register_client-sessions ref logged_in (update_session ref logged_in allocated.1))
        (update_session-Capped allocated.1 ref logged_in (c ref client at)
          (Capped-same s allocated.1 kept c))

  release_id-sessions : (ref id : ℕ) (s : Server) → (release_id p ref id s).sessions ≡ s.sessions
  unfolding release_id
  release_id-sessions ref id s = ground arith

  unregister_client-Capped :
      (s : Server) (ref : ℕ) (client : ClientSession)
      → Capped s
      → Capped (unregister_client p ref client s)
  unfolding unregister_client
  unregister_client-Capped s ref client c = elim (Bool-cases (client.assigned_id == 0)) [
    | inl b ↦ rw (b) c
    | inr b ↦ rw (b) (
        Capped-same (remove_client_offered_files p client.assigned_id s)
          (release_id p ref client.assigned_id (remove_client_offered_files p client.assigned_id s))
          (release_id-sessions ref client.assigned_id
            (remove_client_offered_files p client.assigned_id s))
          (remove_client_offered_files-Capped s client.assigned_id c))
  ]

  step-Capped :
      (s t : Server)
      → cfg.max_offered_files_per_client ≡ pos (suc n)
      → Step endpoint_from_inet p cfg s t
      → Capped s
      → Capped t
  step-Capped _ _ e (connect s ref addr free) c =
      update_session-Capped s ref (new_session addr) (omega arith) c
  step-Capped _ _ e (login s ref client req l b at new) c =
      handle_login-Capped s ref client req l b at c
  step-Capped _ _ e (offer s id records) c = merge_client_offered_files-Capped s id records e c
  step-Capped _ _ e (leave s id ref client h z) c = unregister_client-Capped s ref client c

  Reachable-Capped :
      (s : Server)
      → cfg.max_offered_files_per_client ≡ pos (suc n)
      → Reachable endpoint_from_inet p cfg s
      → Capped s
  unfolding lookup
  Reachable-Capped _ e start = λ ref client l. absurd (none_not_some l)
  Reachable-Capped _ e (then_step r s before step) =
      step-Capped r s e step (Reachable-Capped r e before)

  -- The session of a client offers every file that the client is a source of.
  owned_by :
      (s : Server) (client_id ref : ℕ) (client : ClientSession) (key : Bytes)
      → WellFormed p s
      → Holds p s client_id ref client
      → source s.dynamic_files key client_id ≢ none
      → lookup key client.offered_files ≢ none
  owned_by s client_id ref client key w h has =
      elim (Option-cases (source s.dynamic_files key client_id)) [
        | inl e ↦ absurd (has e)
        | inr (e, q) ↦
            let (ref2, client2, h2, offers) = w.owned key client_id e q in
            let one = some_injective ref2 ref (sym h2.0 ∙ h.0) in
            let same =
              some_injective client2 client (sym h2.1 ∙ ap (λ r. lookup r s.sessions) one ∙ h.1) in
            λ none_left. offers (ap (λ x. lookup key x.offered_files) same ∙ none_left)
      ]

  -- With a positive cap, whatever connections, first logins, offers and departures come in whatever
  -- order, a client is never a source of more different files than the cap, over all the batches
  -- that it sent.
  pub Reachable-capped_sources :
      (s : Server) (client_id : ℕ) (keys : List Bytes)
      → cfg.max_offered_files_per_client ≡ pos (suc n)
      → Reachable endpoint_from_inet p cfg s
      → Distinct keys
      → All (λ key. source s.dynamic_files key client_id ≢ none) keys
      → length keys ≤ suc n
  Reachable-capped_sources s client_id [] e r d h = omega arith
  Reachable-capped_sources s client_id (key ∷ keys) e r d h =
      let w = Reachable-WellFormed endpoint_from_inet p cfg s r in
      elim (Option-cases (source s.dynamic_files key client_id)) [
        | inl q ↦ absurd (h.0 q)
        | inr (found, q) ↦
            let (ref, client, held, offers) = w.owned key client_id found q in
            let offered =
              All-weaken (key ∷ keys) (λ k has. owned_by s client_id ref client k w held has) h in
            omega (
              arith,
              length-Distinct (key ∷ keys) client.offered_files d offered,
              Reachable-Capped s e r ref client held.1,
            )
      ]
