-- ===== src/Offering/Valid.antt =====
-- What the record of an accepted entry is like, whatever the bytes of the entry say.
use goed2k_server.Base.{
  ◌≡◌, ◌≤◌, refl, sym, ◌∙◌, true, false, List, [], ◌∷◌, length, arith, inl, inr, if◌then◌else◌,
}
use mathlib.Core.Path.{subst}
use goed2k_server.Base.Int.{ℤ, pos, is_positive, ltb_ℤ}
use goed2k_server.Base.Text.{◌=text◌, trim_space, CaseTables}
use goed2k_server.Catalog.{Result, normalize_file_record, fill_defaults}
use goed2k_server.Protocol.{Protocol, SharedFileEntry}
use goed2k_server.Records.{FileRecord}
use goed2k_server.Server.{ClientSession}
use goed2k_server.Offering.{
  Entries, ok, Offered-cases, ok_injective, err_not_ok, file_record_from_shared_entry, entry_record,
}
use goed2k_server.Offering.Origin.{Addresses, source_from_shared_entry}
use goed2k_server.Offering.Handler.{offered_records, with_source, remote_host}

module _ (p : Protocol) where
  -- A hash, a name, a size above 0, counts that are not negative, and one source at most.
  pub record Acceptable (entry : SharedFileEntry) (r : FileRecord) : Type 0 where
    pub same_hash : r.hash ≡ entry.hash
    pub hash_set : p.hash_is_zero r.hash ≡ false
    pub named : (r.name =text []) ≡ false
    pub sized : is_positive r.size ≡ true
    pub counted : ltb_ℤ r.sources (pos 0) ≡ false
    pub completed : ltb_ℤ r.complete_sources (pos 0) ≡ false
    pub one_source : length r.endpoints ≤ 1

  normalized-guards :
      (r n : FileRecord)
      → normalize_file_record p r ≡ Result.ok n
      → (p.hash_is_zero r.hash ≡ false)
        × ((trim_space r.name =text []) ≡ false)
        × (is_positive r.size ≡ true)
        × (n ≡ fill_defaults p r)
  unfolding normalize_file_record
  normalized-guards r n h = ground arith

  pick_nonnegative :
      (a b : ℤ) → ltb_ℤ b (pos 0) ≡ false → ltb_ℤ (if is_positive a then a else b) (pos 0) ≡ false
  pick_nonnegative a b h = ground arith

  fill_defaults-Acceptable :
      (entry : SharedFileEntry) (r : FileRecord)
      → r.hash ≡ entry.hash
      → r.endpoints ≡ []
      → p.hash_is_zero r.hash ≡ false
      → (trim_space r.name =text []) ≡ false
      → is_positive r.size ≡ true
      → Acceptable entry (fill_defaults p r)
  unfolding fill_defaults
  fill_defaults-Acceptable entry r same none_yet set named sized = record {
    same_hash = same;
    hash_set = set;
    named = named;
    sized = sized;
    counted = pick_nonnegative r.sources (pos (length r.endpoints)) (ground arith);
    completed =
        pick_nonnegative r.complete_sources
          (if is_positive r.sources then r.sources else pos (length r.endpoints))
          (pick_nonnegative r.sources (pos (length r.endpoints)) (ground arith));
    one_source = ground (arith, none_yet);
  }

  module _ (u : CaseTables) (tags : Entries) where
    accepted-normalized :
        (entry : SharedFileEntry) (r : FileRecord)
        → file_record_from_shared_entry p u tags entry ≡ ok r
        → normalize_file_record p (entry_record p u tags entry) ≡ Result.ok r
    unfolding file_record_from_shared_entry
    accepted-normalized entry r h = ground arith

    -- The record of an entry that is accepted has the entry's hash, which is not zero, a name that
    -- is not empty, a size above 0 in 64 bits, counts of sources that are not negative, and no more
    -- than one source.
    pub file_record_from_shared_entry-Acceptable :
        (entry : SharedFileEntry) (r : FileRecord)
        → file_record_from_shared_entry p u tags entry ≡ ok r
        → Acceptable entry r
    unfolding entry_record
    file_record_from_shared_entry-Acceptable entry r h =
        let (set, named, sized, same) =
          normalized-guards (entry_record p u tags entry) r (accepted-normalized entry r h) in
        rw (same)
          (fill_defaults-Acceptable entry (entry_record p u tags entry) refl refl set named sized)

-- The lists are of one length, and their elements are related one by one.
pub data Pairs {ℓ κ ν} {A : Type ℓ} {B : Type κ} (R : A → B → Type ν)
    : List A → List B → Type (ℓ ⊔ κ ⊔ ν) where
  none_left : Pairs R [] []
  both :
      {a : A} {b : B} {xs : List A} {ys : List B}
      → R a b
      → Pairs R xs ys
      → Pairs R (a ∷ xs) (b ∷ ys)

module _ (p : Protocol) (u : CaseTables) (tags : Entries) (net : Addresses) where
  -- The record that the loop makes of the entry, the client's source included.
  abbrev pub sourced : ClientSession → SharedFileEntry → FileRecord → FileRecord
  sourced client entry r = with_source r (
      source_from_shared_entry net client.assigned_id (client.login_point).port
        (remote_host p u tags net client) entry)

  offered_records-step :
      (client : ClientSession) (e : SharedFileEntry) (es : List SharedFileEntry)
      (rs : List FileRecord)
      → offered_records p u tags net client (e ∷ es) ≡ ok rs
      → (r : FileRecord) × (rest : List FileRecord) × (file_record_from_shared_entry p u tags e
          ≡ ok r)
        × (offered_records p u tags net client es ≡ ok rest)
        × (rs ≡ sourced client e r ∷ rest)
  unfolding offered_records
  offered_records-step client e es rs h =
      elim (Offered-cases (file_record_from_shared_entry p u tags e)) [
        | inr (e', q) ↦ absurd (err_not_ok {e = e'} (sym (rw (q, offered_records) refl) ∙ h))
        | inl (r, q) ↦ elim (Offered-cases (offered_records p u tags net client es)) [
          | inr (e', q2) ↦
              absurd (err_not_ok {e = e'} (sym (rw (q, offered_records) (rw (q2) refl)) ∙ h))
          | inl (rest, q2) ↦ (
            r,
            rest,
            q,
            q2,
            ok_injective rs (sourced client e r ∷ rest)
                (sym h ∙ rw (q, offered_records) (rw (q2) refl)),
          )
        ]
      ]

  -- What holds of the record of each entry holds along the batch, and no entry is left out.
  pub offered_records-Pairs {ν} :
      (R : SharedFileEntry → FileRecord → Type ν) (client : ClientSession)
      → ((e : SharedFileEntry) (r : FileRecord)
          → file_record_from_shared_entry p u tags e ≡ ok r
          → R e (sourced client e r))
      → (es : List SharedFileEntry) (rs : List FileRecord)
      → offered_records p u tags net client es ≡ ok rs
      → Pairs R es rs
  unfolding offered_records
  offered_records-Pairs R client k [] rs h = subst (Pairs R []) (ok_injective [] rs h) none_left
  offered_records-Pairs R client k (e ∷ es) rs h =
      let (r, rest, one, more, same) = offered_records-step client e es rs h in
      rw (same) (both (k e r one) (offered_records-Pairs R client k es rest more))
