-- ===== src/Server/Merging/Uncapped.antt =====
-- Without a cap the loop accepts every record, and every file accepted has the client as a source.
use goed2k_server.Base.{
  ℕ, ◌≡◌, refl, sym, ap, ◌∙◌, Bool, true, false, not, List, [], ◌∷◌, ◌++◌, Option, ◌==◌, arith, All,
  append_nil, append_assoc, Bool-cases, inl, inr, is_some, if◌then◌else◌, length, ==_refl,
}
use goed2k_server.Base.Int.{ℤ, is_positive}
use goed2k_server.Base.Tests.{text_eq, nat_eq}
use goed2k_server.Base.Text.{Bytes, ◌=text◌}
use goed2k_server.Protocol.{Protocol}
use goed2k_server.Records.{FileRecord, SourceEntry}
use goed2k_server.Dynamic.{DynamicFiles, add_dynamic}
use goed2k_server.Dynamic.Sources.{source, first_or, source-add_dynamic}
use goed2k_server.Server.{Merge, merge_record, merge_records, cap_reached, add_records}
use goed2k_server.Server.Offers.{names}

abbrev pub has_source : FileRecord → Bool
has_source r = not (length r.endpoints == 0)

first_or-keeps :
    (b : Bool) (es : List SourceEntry) (o : Option SourceEntry)
    → is_some o ≡ true
    → is_some (if b then first_or es o else o) ≡ true
first_or-keeps true [] o h = h
first_or-keeps true (e ∷ es) o h = refl
first_or-keeps false es o h = h

first_or-sets :
    (es : List SourceEntry) (o : Option SourceEntry)
    → not (length es == 0) ≡ true
    → is_some (first_or es o) ≡ true
first_or-sets [] o h = absurd (ground arith)
first_or-sets (e ∷ es) o h = refl

module _ (p : Protocol) where
  merge_record-uncapped :
      (max : ℤ) (r : FileRecord) (m : Merge)
      → is_positive max ≡ false
      → (merge_record p max r m).accepted ≡ m.accepted ++ (r ∷ [])
  unfolding merge_record cap_reached
  merge_record-uncapped max r m h = ground arith

  pub merge_records-uncapped :
      (max : ℤ) (rs : List FileRecord) (m : Merge)
      → is_positive max ≡ false
      → (merge_records p max rs m).accepted ≡ m.accepted ++ rs
  unfolding merge_records
  merge_records-uncapped max [] m h = sym (append_nil m.accepted)
  merge_records-uncapped max (r ∷ rs) m h =
      merge_records-uncapped max rs (merge_record p max r m) h
      ∙ ap (λ x. x ++ rs) (merge_record-uncapped max r m h)
      ∙ append_assoc m.accepted (r ∷ []) rs

  add_dynamic-keeps :
      (id : ℕ) (r : FileRecord) (key : Bytes) (files : DynamicFiles)
      → is_some (source files key id) ≡ true
      → is_some (source (add_dynamic p id r files) key id) ≡ true
  add_dynamic-keeps id r key files h =
      rw (source-add_dynamic p id id r key files)
        (first_or-keeps _ r.endpoints (source files key id) h)

  add_dynamic-sets :
      (id : ℕ) (r : FileRecord) (key : Bytes) (files : DynamicFiles)
      → has_source r ≡ true
      → (p.hash_string r.hash =text key) ≡ true
      → is_some (source (add_dynamic p id r files) key id) ≡ true
  add_dynamic-sets id r key files h k =
      rw (source-add_dynamic p id id r key files)
        (rw (k) (rw (==_refl id) (first_or-sets r.endpoints (source files key id) h)))

  add_records-keeps :
      (id : ℕ) (rs : List FileRecord) (key : Bytes) (files : DynamicFiles)
      → is_some (source files key id) ≡ true
      → is_some (source (add_records p id rs files) key id) ≡ true
  unfolding add_records
  add_records-keeps id [] key files h = h
  add_records-keeps id (r ∷ rs) key files h =
      add_records-keeps id rs key (add_dynamic p id r files) (add_dynamic-keeps id r key files h)

  pub add_records-sets :
      (id : ℕ) (rs : List FileRecord) (key : Bytes) (files : DynamicFiles)
      → All (λ r. has_source r ≡ true) rs
      → names p key rs ≡ true
      → is_some (source (add_records p id rs files) key id) ≡ true
  unfolding add_records
  add_records-sets id [] key files h n = absurd (ground arith)
  add_records-sets id (r ∷ rs) key files h n = elim (Bool-cases (p.hash_string r.hash =text key)) [
    | inl b ↦
        add_records-keeps id rs key (add_dynamic p id r files)
          (add_dynamic-sets id r key files h.0 b)
    | inr b ↦ add_records-sets id rs key (add_dynamic p id r files) h.1 (ground (arith, n, b))
  ]
