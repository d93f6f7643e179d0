-- ===== src/Base/Utf8.antt =====
-- utf8.ValidString: the bytes are UTF-8, without surrogates, long forms and code points above
-- 0x10ffff.
use Prim.Native.Nat.{ℕ, zero, suc}
use mathlib.Core.Path.{◌≡◌, refl}
use mathlib.Core.Bool.{Bool, true, false, ◌&&◌}
use mathlib.Core.List.{[], ◌∷◌}
use mathlib.Core.Option.{Option, none, some}
use goed2k_server.Base.Tests.{◌==◌, leb, ltb, if◌then◌else◌}
use goed2k_server.Base.Text.{Bytes}

-- How many bytes follow a first byte, and the bounds of the second one.
abbrev first_byte : ℕ → Option (ℕ × ℕ × ℕ)
first_byte c =
    if ltb c 0x80
    then some (0, 0x80, 0xbf)
    else if ltb c 0xc2
    then none
    else if ltb c 0xe0
    then some (1, 0x80, 0xbf)
    else if c == 0xe0
    then some (2, 0xa0, 0xbf)
    else if c == 0xed
    then some (2, 0x80, 0x9f)
    else if ltb c 0xf0
    then some (2, 0x80, 0xbf)
    else if c == 0xf0
    then some (3, 0x90, 0xbf)
    else if ltb c 0xf4
    then some (3, 0x80, 0xbf)
    else if c == 0xf4
    then some (3, 0x80, 0x8f)
    else none

-- `due` bytes of a code point are still to come, the next one from `lo` to `hi`.
unfoldable pub valid_from : ℕ → ℕ → ℕ → Bytes → Bool
valid_from due lo hi [] = due == 0
valid_from zero lo hi (c ∷ s) = elim (first_byte c) [
  | none ↦ false
  | some (due, low, high) ↦ valid_from due low high s
]
valid_from (suc due) lo hi (c ∷ s) = (leb lo c && leb c hi) && valid_from due 0x80 0xbf s

unfoldable pub valid_string : Bytes → Bool
unfolding valid_from
valid_string s = valid_from 0 0x80 0xbf s

three_bytes : valid_string (0x61 ∷ 0xe3 ∷ 0x80 ∷ 0x80 ∷ []) ≡ true
unfolding valid_string
three_bytes = refl

surrogate : valid_string (0xed ∷ 0xa0 ∷ 0x80 ∷ []) ≡ false
unfolding valid_string
surrogate = refl

cut_short : valid_string (0xf0 ∷ 0x9f ∷ 0x98 ∷ []) ≡ false
unfolding valid_string
cut_short = refl
