-- ===== src/Limiter/Bounds.antt =====
-- How many packets of an address the limiter lets through, whatever other addresses send.
use goed2k_server.Base.{
  ℕ, ◌+◌, ◌-◌, ◌*◌, ◌≤◌, ◌≡◌, sym, ap, ◌∙◌, Bool, true, false, ◌&&◌, List, [], ◌∷◌, some, length,
  leb, if◌then◌else◌, arith, Bool-cases, inl, inr,
}
use goed2k_server.Base.Int.{ℤ, pos, negsuc}
use goed2k_server.Base.Maps.{lookup, insert, lookup-insert}
use goed2k_server.Base.Tests.{
  none_not_some, some_injective, text_eq, nat_eq, list_beq_iff, if_true, if_false,
}
use goed2k_server.Base.Text.{Bytes, ◌=text◌}
use goed2k_server.Limiter.{
  UdpBucket, UdpLimiter, token, udp_limiter_max_entries, swept, take_token, allow_known,
  new_udp_limiter,
}
use goed2k_server.Limiter.Buckets.{
  worth, Within, worth_later, sweep-worth, sweep-Within, worth-UpToDate, take_token-worth,
}

lookup-Within :
    (rate : ℕ) (ip : Bytes) (m : List (Bytes × UdpBucket))
    → Within rate m
    → (b : UdpBucket) → lookup ip m ≡ some b
    → b.tokens ≤ rate * token
unfolding lookup
lookup-Within rate ip [] w b h = absurd (none_not_some h)
lookup-Within rate ip ((key, c) ∷ m) w b h = elim (Bool-cases (key =text ip)) [
  | inl k ↦
      let same = some_injective c b (sym (if_true _ _ k) ∙ h) in
      omega (arith, ap (λ x. x.tokens) same, w.0)
  | inr k ↦ lookup-Within rate ip m w.1 b (sym (if_false _ _ k) ∙ h)
]

insert-Within :
    (rate : ℕ) (ip : Bytes) (b : UdpBucket) (m : List (Bytes × UdpBucket))
    → b.tokens ≤ rate * token
    → Within rate m
    → Within rate (insert ip b m)
unfolding insert
insert-Within rate ip b [] h w = (h, tt)
insert-Within rate ip b ((key, c) ∷ m) h w = elim (Bool-cases (key =text ip)) [
  | inl k ↦ rw (k) (h, w.1)
  | inr k ↦ rw (k) (w.0, insert-Within rate ip b m h w.1)
]

swept-worth :
    (now : ℕ) (l : UdpLimiter)
    → Within l.rate l.seen
    → Within l.rate (swept now l)
      × ((ip : Bytes)
          → worth l.rate now (lookup ip (swept now l)) ≤ worth l.rate now (lookup ip l.seen))
unfolding swept
swept-worth now l w = elim (Bool-cases (leb udp_limiter_max_entries (length l.seen))) [
  | inl q ↦ rw (q) (sweep-Within l.rate now l.seen w, λ ip. sweep-worth l.rate now ip l.seen)
  | inr q ↦ rw (q) (w, λ ip. omega arith)
]

own_packet :
    (b : Bool) (x y : ℕ)
    → (if b then token else 0) + x ≤ y
    → (if b && true then token else 0) + x ≤ y
own_packet true x y h = omega (arith, h)
own_packet false x y h = omega (arith, h)

other_packet : (b : Bool) (x y : ℕ) → x ≤ y → (if b && false then token else 0) + x ≤ y
other_packet true x y h = omega (arith, h)
other_packet false x y h = omega (arith, h)

-- One packet: an address spends a token only for its own packet.
allow_known-worth :
    (now : ℕ) (ip key : Bytes) (l : UdpLimiter)
    → 1 ≤ l.rate
    → Within l.rate l.seen
    → Within l.rate (allow_known now ip l).1.seen
      × ((if (allow_known now ip l).0 && ip =text key then token else 0)
            + worth l.rate now (lookup key (allow_known now ip l).1.seen)
          ≤ worth l.rate now (lookup key l.seen))
unfolding allow_known
allow_known-worth now ip key l h w =
    let (kept, less) = swept-worth now l w in
    let ((late, fits), spent) =
      take_token-worth l.rate now (lookup ip (swept now l)) h
        (lookup-Within l.rate ip (swept now l) kept) in
    let taken = take_token l.rate now (lookup ip (swept now l)) in
    (
      insert-Within l.rate ip taken.1 (swept now l) fits kept,
      rw (lookup-insert ip key taken.1 (swept now l)) (elim (Bool-cases (ip =text key)) [
        | inl k ↦
            let same = (list_beq_iff nat_eq ip key).0 k in
            let held = worth-UpToDate l.rate now taken.1 (late, fits) in
            rw (k) (
              own_packet taken.0 (worth l.rate now (some taken.1))
                (worth l.rate now (lookup key l.seen))
                (omega (
                  arith,
                  spent,
                  less key,
                  held,
                  ap (λ x. worth l.rate now (lookup x (swept now l))) same,
                )))
        | inr k ↦ rw (k) (
            other_packet taken.0 (worth l.rate now (lookup key (swept now l)))
              (worth l.rate now (lookup key l.seen)) (less key))
      ]),
    )

-- The packets of a time and an address each, and how many of an address pass.
unfoldable pub passed : Bytes → List (ℕ × Bytes) → UdpLimiter → ℕ
passed key [] l = 0
passed key ((now, ip) ∷ packets) l =
    (if (allow_known now ip l).0 && ip =text key then 1 else 0)
    + passed key packets (allow_known now ip l).1

-- The clock does not go back.
abbrev pub Ordered : ℕ → List (ℕ × Bytes) → Type 0
Ordered start [] = Unit
Ordered start ((now, ip) ∷ packets) = (start ≤ now) × Ordered now packets

abbrev pub end_of : ℕ → List (ℕ × Bytes) → ℕ
end_of start [] = start
end_of start ((now, ip) ∷ packets) = end_of now packets

end_of-le :
    (start : ℕ) (packets : List (ℕ × Bytes)) → Ordered start packets → start ≤ end_of start packets
end_of-le start [] o = omega arith
end_of-le start ((now, ip) ∷ packets) o = omega (arith, o.0, end_of-le now packets o.1)

one_token :
    (b : Bool) (n : ℕ) → ((if b then 1 else 0) + n) * token ≡ (if b then token else 0) + n * token
one_token true n = omega arith
one_token false n = omega arith

passed-worth :
    (key : Bytes) (start : ℕ) (packets : List (ℕ × Bytes)) (l : UdpLimiter)
    → 1 ≤ l.rate
    → Within l.rate l.seen
    → Ordered start packets
    → passed key packets l * token
      ≤ worth l.rate start (lookup key l.seen) + (end_of start packets - start) * l.rate
unfolding passed allow_known
passed-worth key start [] l h w o = omega arith
passed-worth key start ((now, ip) ∷ packets) l h w o =
    let (kept, spent) = allow_known-worth now ip key l h w in
    let rest = passed-worth key now packets (allow_known now ip l).1 h kept o.1 in
    let later = worth_later l.rate start now (lookup key l.seen) o.0 in
    let ends = end_of-le now packets o.1 in
    let apart : end_of now packets - start ≡ (end_of now packets - now) + (now - start) =
      omega (arith, ends, o.0) in
    let counted =
      one_token ((allow_known now ip l).0 && ip =text key)
        (passed key packets (allow_known now ip l).1) in
    omega (arith, counted, spent, rest, later, ap (λ d. d * l.rate) apart)

packets_or_default-positive : (n : ℤ) → 1 ≤ (new_udp_limiter n).rate
unfolding new_udp_limiter
packets_or_default-positive (pos n) = ground arith
packets_or_default-positive (negsuc n) = omega arith

-- While the clock does not go back, a new limiter lets through of an address at most a burst of one
-- second's packets and what comes in at the rate since the start, whatever other addresses send and
-- whenever the table is swept.
pub passed-bound :
    (packets_per_second : ℤ) (key : Bytes) (start : ℕ) (packets : List (ℕ × Bytes))
    → Ordered start packets
    → passed key packets (new_udp_limiter packets_per_second) * token
      ≤ (new_udp_limiter packets_per_second).rate * token
        + (end_of start packets - start) * (new_udp_limiter packets_per_second).rate
unfolding new_udp_limiter lookup
passed-bound packets_per_second key start packets o =
    passed-worth key start packets (new_udp_limiter packets_per_second)
      (packets_or_default-positive packets_per_second) tt o
