-- ===== src/Limiter/Buckets.antt =====
-- What one bucket of the limiter is worth, and what refilling, spending and sweeping do to it.
use native.Mathlib.Nat.{mul-le-mul_right}
use goed2k_server.Base.{
  ℕ, ◌+◌, ◌-◌, ◌*◌, ◌≤◌, ◌≡◌, refl, sym, ap, ◌∙◌, true, List, [], ◌∷◌, Option, none, some, min, ltb,
  leb, if◌then◌else◌, arith, All, Bool-cases, inl, inr,
}
use goed2k_server.Base.Maps.{lookup}
use goed2k_server.Base.Tests.{text_eq, nat_eq, leb→le}
use goed2k_server.Base.Text.{Bytes, ◌=text◌}
use goed2k_server.Limiter.{UdpBucket, token, is_refilled, sweep, refill, spend, take_token}

-- What has come in between two times, split at a time between.
split_refill : (a b last rate : ℕ) → a ≤ b → (b - last) * rate ≤ (a - last) * rate + (b - a) * rate
split_refill a b last rate h =
    let step : b - last ≤ (a - last) + (b - a) = omega (arith, h) in
    omega (arith, mul-le-mul_right rate step)

-- What an address can spend at a time: a full bucket if none is kept for it.
abbrev pub worth : ℕ → ℕ → Option UdpBucket → ℕ
worth rate now none = rate * token
worth rate now (some b) = min (rate * token) (b.tokens + (now - b.last) * rate)

worth_full : (rate now : ℕ) (o : Option UdpBucket) → worth rate now o ≤ rate * token
worth_full rate now none = omega arith
worth_full rate now (some b) = omega arith

-- With time it grows by what comes in, at most.
pub worth_later :
    (rate now later : ℕ) (o : Option UdpBucket)
    → now ≤ later
    → worth rate later o ≤ worth rate now o + (later - now) * rate
worth_later rate now later none h = omega arith
worth_later rate now later (some b) h = omega (arith, split_refill now later b.last rate h)

abbrev pub Within : ℕ → List (Bytes × UdpBucket) → Type 0
Within rate m = All (λ e. (e.1).tokens ≤ rate * token) m

refilled_worth :
    (rate now : ℕ) (b : UdpBucket)
    → is_refilled rate now b ≡ true
    → worth rate now (some b) ≡ rate * token
unfolding is_refilled
refilled_worth rate now b h =
    let enough = leb→le (rate * token + b.last * rate) (b.tokens + now * rate) h in
    elim (Bool-cases (leb b.last now)) [
      | inl q ↦
          let later : now ≡ b.last + (now - b.last) = omega (arith, leb→le b.last now q) in
          omega (arith, enough, ap (λ x. x * rate) later)
      | inr q ↦
          let before : now ≤ b.last = ground (arith, q) in
          omega (arith, enough, mul-le-mul_right rate before)
    ]

pub sweep-worth :
    (rate now : ℕ) (ip : Bytes) (m : List (Bytes × UdpBucket))
    → worth rate now (lookup ip (sweep rate now m)) ≤ worth rate now (lookup ip m)
unfolding sweep lookup
sweep-worth rate now ip [] = omega arith
sweep-worth rate now ip ((key, b) ∷ m) =
    let rest = sweep-worth rate now ip m in
    elim (Bool-cases (is_refilled rate now b)) [
      | inl r ↦ rw (r) (elim (Bool-cases (key =text ip)) [
        | inl k ↦ rw (k) (
            omega (
              arith,
              refilled_worth rate now b r,
              worth_full rate now (lookup ip (sweep rate now m)),
            ))
        | inr k ↦ rw (k) rest
      ])
      | inr r ↦
          rw (r) (elim (Bool-cases (key =text ip)) [
            | inl k ↦ rw (k) (omega arith)
            | inr k ↦ rw (k) rest
          ])
    ]

pub sweep-Within :
    (rate now : ℕ) (m : List (Bytes × UdpBucket)) → Within rate m → Within rate (sweep rate now m)
unfolding sweep
sweep-Within rate now [] w = tt
sweep-Within rate now ((key, b) ∷ m) w = elim (Bool-cases (is_refilled rate now b)) [
  | inl r ↦ rw (r) (sweep-Within rate now m w.1)
  | inr r ↦ rw (r) (w.0, sweep-Within rate now m w.1)
]

-- A bucket that is up to date: what it is worth is what it holds.
abbrev pub UpToDate : ℕ → ℕ → UdpBucket → Type 0
UpToDate rate now b = (now ≤ b.last) × (b.tokens ≤ rate * token)

pub worth-UpToDate :
    (rate now : ℕ) (b : UdpBucket) → UpToDate rate now b → worth rate now (some b) ≡ b.tokens
worth-UpToDate rate now b (late, fits) =
    let idle : now - b.last ≡ 0 = omega (arith, late) in
    omega (arith, ap (λ d. d * rate) idle, fits)

cap-min : (a b : ℕ) → (if ltb a b then a else b) ≡ min a b
cap-min a b = ground arith

refill-UpToDate :
    (rate now : ℕ) (b : UdpBucket)
    → b.tokens ≤ rate * token
    → UpToDate rate now (refill rate now b) × ((refill rate now b).tokens ≡ worth rate now (some b))
unfolding refill
refill-UpToDate rate now b fits = elim (Bool-cases (ltb b.last now)) [
  | inl q ↦
      let capped = cap-min (rate * token) (b.tokens + (now - b.last) * rate) in
      rw (q) ((omega arith, omega (arith, capped)), capped)
  | inr q ↦
      let late : now ≤ b.last = ground (arith, q) in
      rw (q) ((late, fits), sym (worth-UpToDate rate now b (late, fits)))
]

spend-tokens :
    (b : UdpBucket)
    → ((if (spend b).0 then token else 0) + (spend b).1.tokens ≡ b.tokens)
      × ((spend b).1.last ≡ b.last)
unfolding spend
spend-tokens b = ground arith

pub take_token-worth :
    (rate now : ℕ) (o : Option UdpBucket)
    → 1 ≤ rate
    → ((b : UdpBucket) → o ≡ some b → b.tokens ≤ rate * token)
    → UpToDate rate now (take_token rate now o).1
      × ((if (take_token rate now o).0 then token else 0) + (take_token rate now o).1.tokens
          ≡ worth rate now o)
unfolding take_token
take_token-worth rate now none h fits =
    ((omega arith, omega arith), omega (arith, mul-le-mul_right token h))
take_token-worth rate now (some b) h fits =
    let ((late, small), same) = refill-UpToDate rate now b (fits b refl) in
    let (kept, last) = spend-tokens (refill rate now b) in
    ((omega (arith, late, last), omega (arith, small, kept)), kept ∙ same)
