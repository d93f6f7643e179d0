-- ===== src/Limiter.antt =====
-- ed2ksrv/udp_limit.go: a token bucket for each source address. The clock is an argument, in
-- nanoseconds, and tokens are counted in billionths, so that what a nanosecond adds at a rate per
-- second is a whole number; the code's float64 rounds where the model does not.
pub mod Buckets
pub mod Bounds
mod Runs
use goed2k_server.Base.{
  ℕ, ◌+◌, ◌-◌, ◌*◌, Bool, true, false, List, [], ◌∷◌, Option, none, some, length, ltb, leb,
  if◌then◌else◌,
}
use goed2k_server.Base.Int.{ℤ, pos, negsuc}
use goed2k_server.Base.Maps.{lookup, insert}
use goed2k_server.Base.Tests.{text_eq, ◌==◌}
use goed2k_server.Base.Text.{Bytes}

pub record UdpBucket : Type 0 where
  pub tokens : ℕ
  pub last : ℕ

pub record UdpLimiter : Type 0 where
  pub rate : ℕ
  pub seen : List (Bytes × UdpBucket)

abbrev pub udp_limiter_max_entries : ℕ
udp_limiter_max_entries = 65536

-- One token.
abbrev pub token : ℕ
token = 1000000000

abbrev packets_or_default : ℤ → ℕ
packets_or_default (pos n) = if n == 0 then 20 else n
packets_or_default (negsuc n) = 20

unfoldable pub new_udp_limiter : ℤ → UdpLimiter
new_udp_limiter packets_per_second = record {
  rate = packets_or_default packets_per_second;
  seen = [];
}

-- `tokens + now.Sub(last) * rate >= rate`, with the terms that the difference takes away on the
-- right.
unfoldable pub is_refilled : ℕ → ℕ → UdpBucket → Bool
is_refilled rate now b = leb (rate * token + b.last * rate) (b.tokens + now * rate)

-- The loop of sweepLocked.
unfoldable pub sweep : ℕ → ℕ → List (Bytes × UdpBucket) → List (Bytes × UdpBucket)
unfolding is_refilled
sweep rate now [] = []
sweep rate now ((ip, b) ∷ m) =
    let rest = sweep rate now m in if is_refilled rate now b then rest else (ip, b) ∷ rest

unfoldable pub swept : ℕ → UdpLimiter → List (Bytes × UdpBucket)
unfolding sweep
swept now l =
    if leb udp_limiter_max_entries (length l.seen) then sweep l.rate now l.seen else l.seen

-- The bucket after what has come in since; a clock that has not moved on adds nothing.
unfoldable pub refill : ℕ → ℕ → UdpBucket → UdpBucket
refill rate now b =
    let full = rate * token in
    let tokens = b.tokens + (now - b.last) * rate in
    if ltb b.last now
    then record { tokens = (if ltb full tokens then full else tokens); last = now }
    else b

-- What is put back for the address, and whether the packet may pass.
unfoldable pub spend : UdpBucket → Bool × UdpBucket
spend b = if ltb b.tokens token then (false, b) else (true, record b { tokens = b.tokens - token })

unfoldable pub take_token : ℕ → ℕ → Option UdpBucket → Bool × UdpBucket
unfolding refill spend
take_token rate now none = (true, record { tokens = rate * token - token; last = now })
take_token rate now (some b) = spend (refill rate now b)

unfoldable pub allow_known : ℕ → Bytes → UdpLimiter → Bool × UdpLimiter
unfolding swept take_token
allow_known now ip l =
    let taken = take_token l.rate now (lookup ip (swept now l)) in
    (taken.0, record l { seen = insert ip taken.1 (swept now l) })

-- A nil limiter lets every packet through.
unfoldable pub allow : ℕ → Bytes → Option UdpLimiter → Bool × Option UdpLimiter
unfolding allow_known
allow now ip none = (true, none)
allow now ip (some l) = ((allow_known now ip l).0, some ((allow_known now ip l).1))
