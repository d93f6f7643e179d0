-- ===== src/Server/Merging.antt =====
-- The first loop of mergeClientOfferedFiles: what it accepts, drops and keeps.
pub mod Offered
pub mod Batches
pub mod Uncapped
use goed2k_server.Base.{
  ℕ, suc, ◌+◌, ◌≤◌, ◌≡◌, ◌≢◌, ◌⊎◌, refl, sym, ap, ◌∙◌, Bool, true, false, ◌||◌, List, [], ◌∷◌, ◌++◌,
  Option, none, some, length, ◌==◌, if◌then◌else◌, arith, Bool-cases, Option-cases, inl, inr,
  length-append,
}
use goed2k_server.Base.Int.{ℤ, pos, is_positive, ltb_ℤ}
use goed2k_server.Base.Maps.{lookup, insert, lookup-insert, length-insert-le, length-insert-some}
use goed2k_server.Base.Tests.{
  text_eq, nat_eq, list_beq_iff, none_not_some, some_injective, if_true, if_false,
}
use goed2k_server.Base.Text.{Bytes, ◌=text◌}
use goed2k_server.Protocol.{Protocol}
use goed2k_server.Records.{FileRecord}
use goed2k_server.Server.{Merge, merge_record, merge_records, cap_reached}
use goed2k_server.Server.Offers.{names, names-append}

insert-grows :
    (k key : Bytes) (r : FileRecord) (m : List (Bytes × FileRecord))
    → lookup key m ≢ none
    → lookup key (insert k r m) ≢ none
insert-grows k key r m h e = elim (Bool-cases (k =text key)) [
  | inl b ↦ none_not_some (sym e ∙ lookup-insert k key r m ∙ if_true _ _ b)
  | inr b ↦ h (sym (lookup-insert k key r m ∙ if_false _ _ b) ∙ e)
]

module _ (p : Protocol) (max : ℤ) where
  Accepts : FileRecord → Merge → Merge → Type 0
  Accepts r m n =
      (n.offered ≡ insert (p.hash_string r.hash) r m.offered)
      × (n.accepted ≡ m.accepted ++ (r ∷ []))
      × (n.dropped ≡ m.dropped)
      × ((lookup (p.hash_string r.hash) m.offered ≢ none) ⊎ (cap_reached max m.offered ≡ false))

  Drops : Merge → Merge → Type 0
  Drops m n = (n.offered ≡ m.offered) × (n.accepted ≡ m.accepted) × (n.dropped ≡ suc m.dropped)

  merge_record-cases :
      (r : FileRecord) (m : Merge)
      → Accepts r m (merge_record p max r m) ⊎ Drops m (merge_record p max r m)
  unfolding Accepts Drops merge_record
  merge_record-cases r m = elim (Option-cases (lookup (p.hash_string r.hash) m.offered)) [
    | inl e ↦ elim (Bool-cases (cap_reached max m.offered)) [
      | inl c ↦ inr (rw (e, merge_record) (rw (c) (refl, refl, refl)))
      | inr c ↦ inl (rw (e, merge_record) (rw (c) (refl, refl, refl, inr refl)))
    ]
    | inr (old, e) ↦ inl (rw (e, merge_record) (refl, refl, refl, inl (λ q. cc q)))
  ]

  -- Each record offered is either accepted or counted as dropped.
  pub merge_records-total :
      (rs : List FileRecord) (m : Merge)
      → length (merge_records p max rs m).accepted + (merge_records p max rs m).dropped
        ≡ length m.accepted + m.dropped + length rs
  unfolding merge_records Accepts Drops
  merge_records-total [] m = omega arith
  merge_records-total (r ∷ rs) m =
      let rest = merge_records-total rs (merge_record p max r m) in
      elim (merge_record-cases r m) [
        | inl (o, a, d, c) ↦ omega (arith, rest, d, ap length a, length-append m.accepted (r ∷ []))
        | inr (o, a, d) ↦ omega (arith, rest, d, ap length a)
      ]

  merge_record-capped :
      (n : ℕ) (r : FileRecord) (m : Merge)
      → max ≡ pos (suc n)
      → length m.offered ≤ suc n
      → length (merge_record p max r m).offered ≤ suc n
  unfolding Accepts Drops cap_reached
  merge_record-capped n r m e l = elim (merge_record-cases r m) [
    | inl (o, a, d, inl c) ↦
        omega (arith, l, ap length o, length-insert-some (p.hash_string r.hash) r m.offered c)
    | inl (o, a, d, inr c) ↦
        let free = ap (λ z. cap_reached z m.offered) (sym e) ∙ c in
        ground (arith, free, ap length o, length-insert-le (p.hash_string r.hash) r m.offered)
    | inr (o, a, d) ↦ omega (arith, l, ap length o)
  ]

  -- Offers that are within a positive cap stay within it.
  pub merge_records-capped :
      (n : ℕ) (rs : List FileRecord) (m : Merge)
      → max ≡ pos (suc n)
      → length m.offered ≤ suc n
      → length (merge_records p max rs m).offered ≤ suc n
  unfolding merge_records
  merge_records-capped n [] m e l = l
  merge_records-capped n (r ∷ rs) m e l =
      merge_records-capped n rs (merge_record p max r m) e (merge_record-capped n r m e l)

  -- The offers after the loop: those of before and those accepted, each under its hash.
  pub record Kept (m : Merge) : Type 0 where
    pub accepted_offered :
        (key : Bytes) → names p key m.accepted ≡ true → lookup key m.offered ≢ none
    pub by_hash :
        (key : Bytes) (r : FileRecord) → lookup key m.offered ≡ some r → p.hash_string r.hash ≡ key

  accepted_insert :
      (r : FileRecord) (key : Bytes) (m : Merge)
      → Kept m
      → names p key (m.accepted ++ (r ∷ [])) ≡ true
      → lookup key (insert (p.hash_string r.hash) r m.offered) ≢ none
  accepted_insert r key m k n e =
      let found = sym (lookup-insert (p.hash_string r.hash) key r m.offered) ∙ e in
      elim (Bool-cases (p.hash_string r.hash =text key)) [
        | inl b ↦ none_not_some (sym found ∙ if_true _ _ b)
        | inr b ↦
            k.accepted_offered key (ground (arith, n, b, names-append p key m.accepted (r ∷ [])))
              (sym (if_false _ _ b) ∙ found)
      ]

  by_hash_insert :
      (r : FileRecord) (key : Bytes) (q : FileRecord) (m : Merge)
      → Kept m
      → lookup key (insert (p.hash_string r.hash) r m.offered) ≡ some q
      → p.hash_string q.hash ≡ key
  by_hash_insert r key q m k e =
      let found = sym (lookup-insert (p.hash_string r.hash) key r m.offered) ∙ e in
      elim (Bool-cases (p.hash_string r.hash =text key)) [
        | inl b ↦
            ap (λ f. p.hash_string f.hash) (sym (some_injective r q (sym (if_true _ _ b) ∙ found)))
            ∙ (list_beq_iff nat_eq (p.hash_string r.hash) key).0 b
        | inr b ↦ k.by_hash key q (sym (if_false _ _ b) ∙ found)
      ]

  merge_record-Kept : (r : FileRecord) (m : Merge) → Kept m → Kept (merge_record p max r m)
  unfolding Accepts Drops
  merge_record-Kept r m k = elim (merge_record-cases r m) [
    | inl (o, a, d, c) ↦ record {
      accepted_offered = λ key. rw (o) (rw (a) (accepted_insert r key m k));
      by_hash = λ key q. rw (o) (by_hash_insert r key q m k);
    }
    | inr (o, a, d) ↦ record {
      accepted_offered = λ key. rw (o) (rw (a) (k.accepted_offered key));
      by_hash = λ key q. rw (o) (k.by_hash key q);
    }
  ]

  pub merge_records-Kept :
      (rs : List FileRecord) (m : Merge) → Kept m → Kept (merge_records p max rs m)
  unfolding merge_records
  merge_records-Kept [] m k = k
  merge_records-Kept (r ∷ rs) m k =
      merge_records-Kept rs (merge_record p max r m) (merge_record-Kept r m k)

  merge_record-grows :
      (key : Bytes) (r : FileRecord) (m : Merge)
      → lookup key m.offered ≢ none
      → lookup key (merge_record p max r m).offered ≢ none
  unfolding Accepts Drops
  merge_record-grows key r m h = elim (merge_record-cases r m) [
    | inl (o, a, d, c) ↦ rw (o) (insert-grows (p.hash_string r.hash) key r m.offered h)
    | inr (o, a, d) ↦ rw (o) h
  ]

  pub merge_records-grows :
      (key : Bytes) (rs : List FileRecord) (m : Merge)
      → lookup key m.offered ≢ none
      → lookup key (merge_records p max rs m).offered ≢ none
  unfolding merge_records
  merge_records-grows key [] m h = h
  merge_records-grows key (r ∷ rs) m h =
      merge_records-grows key rs (merge_record p max r m) (merge_record-grows key r m h)
