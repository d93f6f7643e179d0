-- ===== src/Config/Bounds.antt =====
-- What Normalize promises to the code that runs on its result.
use goed2k_server.Base.{ℕ, suc, true, false, ◌≡◌, refl, ◌⊎◌, inl, inr, arith, sym, ap, ◌∙◌, [], ◌∷◌}
use goed2k_server.Base.Int.{ℤ, pos, negsuc, is_positive, ltb_ℤ}
use goed2k_server.Base.Tests.{list_beq_iff, nat_eq}
use goed2k_server.Base.Text.{Bytes, CaseTables, trim_space}
use goed2k_server.Config.{
  Config, normalized, normalize, check_backend, fill_defaults, normalize_udp, backend_of,
  positive_or, source_cap, zero_or, or_default, storage_backend_json, storage_backend_my_sql,
  storage_backend_pg_sql,
}

-- The limits that the server's loops and tables are sized by.
pub Bounded : Config → Type 0
Bounded c =
    (is_positive c.search_batch_size ≡ true)
    × (is_positive c.max_sources_per_reply ≡ true)
    × (ltb_ℤ (pos 255) c.max_sources_per_reply ≡ false)
    × (is_positive c.udp.max_payload_bytes ≡ true)
    × (is_positive c.udp.max_results ≡ true)
    × (is_positive c.udp.search_workers ≡ true)
    × (is_positive c.udp.search_queue_size ≡ true)
    × (is_positive c.udp.per_ip_packets_per_second ≡ true)
    × (is_positive c.udp.max_ast_depth ≡ true)
    × (is_positive c.packet_trace_max_bytes ≡ true)

positive_or-positive : (n : ℤ) (d : ℕ) → is_positive (positive_or n (pos (suc d))) ≡ true
positive_or-positive (pos n) d = ground arith
positive_or-positive (negsuc n) d = ground arith

positive_or_twice : (n : ℤ) (d : ℤ) → positive_or (positive_or n d) d ≡ positive_or n d
positive_or_twice (pos n) d = ground arith
positive_or_twice (negsuc n) (pos d) = ground arith
positive_or_twice (negsuc n) (negsuc d) = refl

source_cap-bounds :
    (n : ℤ) → (is_positive (source_cap n) ≡ true) × (ltb_ℤ (pos 255) (source_cap n) ≡ false)
source_cap-bounds (pos n) = ground arith
source_cap-bounds (negsuc n) = (refl, refl)

source_cap_twice : (n : ℤ) → source_cap (source_cap n) ≡ source_cap n
source_cap_twice (pos n) = ground arith
source_cap_twice (negsuc n) = refl

zero_or_twice : (n d : ℤ) → zero_or (zero_or n d) d ≡ zero_or n d
zero_or_twice n d = ground arith

or_default_twice : (s d : Bytes) → or_default (or_default s d) d ≡ or_default s d
or_default_twice [] [] = refl
or_default_twice [] (x ∷ d) = refl
or_default_twice (x ∷ s) d = refl

fill_defaults-Bounded :
    (c : Config) (b : Bytes) → Bounded (record (fill_defaults c) { storage_backend = b })
unfolding Bounded fill_defaults normalize_udp
fill_defaults-Bounded c b = (
  positive_or-positive c.search_batch_size 199,
  (source_cap-bounds c.max_sources_per_reply).0,
  (source_cap-bounds c.max_sources_per_reply).1,
  positive_or-positive c.udp.max_payload_bytes 1299,
  positive_or-positive c.udp.max_results 199,
  positive_or-positive c.udp.search_workers 3,
  positive_or-positive c.udp.search_queue_size 1023,
  positive_or-positive c.udp.per_ip_packets_per_second 19,
  positive_or-positive c.udp.max_ast_depth 23,
  positive_or-positive c.packet_trace_max_bytes 63,
)

fill_defaults_twice :
    (c : Config) (b e : Bytes)
    → record (fill_defaults (record (fill_defaults c) { storage_backend = b })) {
      storage_backend = e;
    }
      ≡ record (fill_defaults c) { storage_backend = e }
unfolding fill_defaults normalize_udp
fill_defaults_twice c b e =
    simp (positive_or_twice, source_cap_twice, zero_or_twice, or_default_twice)

-- The backend names that the switch accepts.
abbrev pub IsBackend : Bytes → Type 0
IsBackend s =
    (s ≡ storage_backend_json) ⊎ ((s ≡ storage_backend_my_sql) ⊎ (s ≡ storage_backend_pg_sql))

module _ (t : CaseTables) where
  abbrev filled : Config → Config
  filled c = record (fill_defaults c) { storage_backend = backend_of t c.storage_backend }

  backend_of-kept :
      t.to_lower storage_backend_json ≡ storage_backend_json
      → t.to_lower storage_backend_my_sql ≡ storage_backend_my_sql
      → t.to_lower storage_backend_pg_sql ≡ storage_backend_pg_sql
      → (s : Bytes) → IsBackend s
      → backend_of t s ≡ s
  unfolding backend_of trim_space
  backend_of-kept j m g s (inl e) = rw e j
  backend_of-kept j m g s (inr (inl e)) = rw e m
  backend_of-kept j m g s (inr (inr e)) = rw e g

  check_backend-same : (c d : Config) → check_backend t c ≡ normalized d → c ≡ d
  unfolding check_backend
  check_backend-same c d h = ground (arith, h)

  check_backend-IsBackend :
      (c d : Config) → check_backend t c ≡ normalized d → IsBackend c.storage_backend
  unfolding check_backend
  check_backend-IsBackend c d h = ground (
    arith,
    h,
    list_beq_iff nat_eq c.storage_backend storage_backend_json,
    list_beq_iff nat_eq c.storage_backend storage_backend_my_sql,
    list_beq_iff nat_eq c.storage_backend storage_backend_pg_sql,
  )

  filled_twice :
      (c : Config)
      → backend_of t (backend_of t c.storage_backend) ≡ backend_of t c.storage_backend
      → filled (filled c) ≡ filled c
  filled_twice c kept =
      fill_defaults_twice c (backend_of t c.storage_backend)
        (backend_of t (backend_of t c.storage_backend))
      ∙ ap (λ b. record (fill_defaults c) { storage_backend = b }) kept

  -- A configuration that Normalize lets through has a positive batch size, a source cap from 1 to
  -- 255, positive limits of the UDP service and a positive trace limit, and names a backend of the
  -- three.
  pub normalize-Bounded :
      (c d : Config) → normalize t c ≡ normalized d → Bounded d × IsBackend d.storage_backend
  unfolding normalize
  normalize-Bounded c d h = rw (sym (check_backend-same (filled c) d h)) (
    fill_defaults-Bounded c (backend_of t c.storage_backend),
    check_backend-IsBackend (filled c) d h,
  )

  -- Normalize changes nothing in a configuration that it let through, if ToLower keeps the three
  -- lowercase names of the backends.
  pub normalize_twice :
      t.to_lower storage_backend_json ≡ storage_backend_json
      → t.to_lower storage_backend_my_sql ≡ storage_backend_my_sql
      → t.to_lower storage_backend_pg_sql ≡ storage_backend_pg_sql
      → (c d : Config) → normalize t c ≡ normalized d
      → normalize t d ≡ normalized d
  unfolding normalize
  normalize_twice j m g c d h =
      let same = check_backend-same (filled c) d h in
      let kept =
        backend_of-kept j m g (filled c).storage_backend (check_backend-IsBackend (filled c) d h) in
      ap (normalize t) (sym same) ∙ ap (check_backend t) (filled_twice c kept) ∙ h
