-- ===== src/Limiter/Runs.antt =====
-- Runs of the limiter: two addresses at a rate of two packets a second.
use goed2k_server.Base.{ℕ, ◌+◌, ◌-◌, ◌*◌, ◌≤◌, ◌≡◌, refl, List, [], ◌∷◌, arith}
use goed2k_server.Base.Int.{pos}
use goed2k_server.Base.Maps.{lookup, insert}
use goed2k_server.Base.Text.{Bytes, text}
use goed2k_server.Limiter.{token, new_udp_limiter, allow_known}
use goed2k_server.Limiter.Bounds.{passed, Ordered, end_of, passed-bound}

abbrev packets : List (ℕ × Bytes)
packets = (5, text "a") ∷ (6, text "a") ∷ (7, text "b") ∷ (8, text "a") ∷ (600000000, text "a") ∷ []

three_pass : passed (text "a") packets (new_udp_limiter (pos 2)) ≡ 3
unfolding passed new_udp_limiter allow_known lookup insert
three_pass = refl

packets-Ordered : Ordered 5 packets
packets-Ordered = (omega arith, (omega arith, (omega arith, (omega arith, (omega arith, tt)))))

passed-bound_example :
    passed (text "a") packets (new_udp_limiter (pos 2)) * token
    ≤ (new_udp_limiter (pos 2)).rate * token
      + (end_of 5 packets - 5) * (new_udp_limiter (pos 2)).rate
passed-bound_example = passed-bound (pos 2) (text "a") 5 packets packets-Ordered
