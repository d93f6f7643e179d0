-- ===== src/Base/Text.antt =====
-- Go strings and byte slices as lists of bytes, with the functions of package strings that the
-- server calls.
use Prim.Native.Nat.{ℕ, zero, suc}
use Prim.Native.Char.{code}
use Prim.Native.String.{String}
use mathlib.Core.Path.{◌≡◌, refl}
use mathlib.Core.Bool.{Bool, true, false, ◌&&◌, ◌||◌}
use mathlib.Core.List.{List, [], ◌∷◌, ◌++◌, map, reverse}
use mathlib.Core.Option.{Option, none, some}
use native.Mathlib.Omega.{arith}
use goed2k_server.Base.Tests.{◌==◌, if◌then◌else◌, list_beq}
use goed2k_server.Base.Lists.{length}

abbrev pub Bytes : Type 0
Bytes = List ℕ

-- A string constant: the source's constants are ASCII, so a character is a byte.
abbrev pub text : String → Bytes
text String.[] = []
text (String.◌∷◌ c s) = code c ∷ text s

infix 50 ◌=text◌
abbrev pub ◌=text◌ : Bytes → Bytes → Bool
a =text b = list_beq ◌==◌ a b

-- strings.HasPrefix
unfoldable pub has_prefix : Bytes → Bytes → Bool
has_prefix s [] = true
has_prefix [] (p ∷ ps) = false
has_prefix (c ∷ s) (p ∷ ps) = c == p && has_prefix s ps

-- What follows the prefix, if the text begins with it.
unfoldable pub cut_prefix : Bytes → Bytes → Option Bytes
cut_prefix s [] = some s
cut_prefix [] (p ∷ ps) = none
cut_prefix (c ∷ s) (p ∷ ps) = if c == p then cut_prefix s ps else none

-- strings.TrimPrefix
unfoldable pub trim_prefix : Bytes → Bytes → Bytes
unfolding cut_prefix
trim_prefix s p = elim (cut_prefix s p) [ none ↦ s | some rest ↦ rest ]

-- strings.Contains
unfoldable pub contains : Bytes → Bytes → Bool
unfolding has_prefix
contains [] sub = has_prefix [] sub
contains (c ∷ s) sub = has_prefix (c ∷ s) sub || contains s sub

-- The UTF-8 forms of the code points with the property White_Space, which unicode.IsSpace tests.
abbrev pub space_forms : List Bytes
space_forms =
    (0x09 ∷ [])
    ∷ (0x0a ∷ [])
    ∷ (0x0b ∷ [])
    ∷ (0x0c ∷ [])
    ∷ (0x0d ∷ [])
    ∷ (0x20 ∷ [])
    ∷ (0xc2 ∷ 0x85 ∷ [])
    ∷ (0xc2 ∷ 0xa0 ∷ [])
    ∷ (0xe1 ∷ 0x9a ∷ 0x80 ∷ [])
    ∷ (0xe2 ∷ 0x80 ∷ 0x80 ∷ [])
    ∷ (0xe2 ∷ 0x80 ∷ 0x81 ∷ [])
    ∷ (0xe2 ∷ 0x80 ∷ 0x82 ∷ [])
    ∷ (0xe2 ∷ 0x80 ∷ 0x83 ∷ [])
    ∷ (0xe2 ∷ 0x80 ∷ 0x84 ∷ [])
    ∷ (0xe2 ∷ 0x80 ∷ 0x85 ∷ [])
    ∷ (0xe2 ∷ 0x80 ∷ 0x86 ∷ [])
    ∷ (0xe2 ∷ 0x80 ∷ 0x87 ∷ [])
    ∷ (0xe2 ∷ 0x80 ∷ 0x88 ∷ [])
    ∷ (0xe2 ∷ 0x80 ∷ 0x89 ∷ [])
    ∷ (0xe2 ∷ 0x80 ∷ 0x8a ∷ [])
    ∷ (0xe2 ∷ 0x80 ∷ 0xa8 ∷ [])
    ∷ (0xe2 ∷ 0x80 ∷ 0xa9 ∷ [])
    ∷ (0xe2 ∷ 0x80 ∷ 0xaf ∷ [])
    ∷ (0xe2 ∷ 0x81 ∷ 0x9f ∷ [])
    ∷ (0xe3 ∷ 0x80 ∷ 0x80 ∷ [])
    ∷ []

-- The text without the form that it begins with.
unfoldable pub cut_form : List Bytes → Bytes → Option Bytes
unfolding cut_prefix
cut_form [] s = none
cut_form (f ∷ fs) s =
    let rest = cut_form fs s in elim (cut_prefix s f) [ none ↦ rest | some r ↦ some r ]

-- A form has a byte at least, so as many rounds as the text has bytes are enough.
unfoldable pub cut_forms : List Bytes → ℕ → Bytes → Bytes
unfolding cut_form
cut_forms forms zero s = s
cut_forms forms (suc n) s = elim (cut_form forms s) [ none ↦ s | some r ↦ cut_forms forms n r ]

-- strings.TrimSpace: from the right the forms are read backwards.
unfoldable pub trim_space : Bytes → Bytes
unfolding cut_forms
trim_space s =
    let left = cut_forms space_forms (length s) s in
    reverse (cut_forms (map reverse space_forms) (length left) (reverse left))

trims : trim_space (text " a b" ++ (0x0a ∷ 0xe3 ∷ 0x80 ∷ 0x80 ∷ [])) ≡ text "a b"
unfolding trim_space
trims = refl

-- The functions of package strings that follow the Unicode case tables, which are no text of this
-- repository: ToLower and EqualFold.
pub record CaseTables : Type 0 where
  pub to_lower : Bytes → Bytes
  pub equal_fold : Bytes → Bytes → Bool

pub has_prefix_refl : (s : Bytes) → has_prefix s s ≡ true
unfolding has_prefix
has_prefix_refl [] = refl
has_prefix_refl (c ∷ s) = ground (arith, has_prefix_refl s)

has_prefix_trans :
    (s k g : Bytes) → has_prefix s k ≡ true → has_prefix k g ≡ true → has_prefix s g ≡ true
unfolding has_prefix
has_prefix_trans s k [] p q = refl
has_prefix_trans s [] (x ∷ g) p q = ground arith
has_prefix_trans [] (y ∷ k) (x ∷ g) p q = ground arith
has_prefix_trans (z ∷ s) (y ∷ k) (x ∷ g) p q = ground (arith, has_prefix_trans s k g)

contains_nil : (s : Bytes) → contains s [] ≡ true
unfolding contains has_prefix
contains_nil [] = refl
contains_nil (c ∷ s) = refl

has_prefix-contains :
    (s k g : Bytes) → has_prefix s k ≡ true → contains k g ≡ true → contains s g ≡ true
unfolding contains has_prefix
has_prefix-contains s [] [] p q = contains_nil s
has_prefix-contains s [] (x ∷ g) p q = ground arith
has_prefix-contains [] (y ∷ k) g p q = ground arith
has_prefix-contains (z ∷ s) (y ∷ k) g p q =
    ground (arith, has_prefix_trans (z ∷ s) (y ∷ k) g, has_prefix-contains s k g)

-- A part of a part is a part.
pub contains_trans :
    (s k g : Bytes) → contains s k ≡ true → contains k g ≡ true → contains s g ≡ true
unfolding contains
contains_trans [] k g p q = has_prefix-contains [] k g p q
contains_trans (c ∷ s) k g p q =
    ground (arith, has_prefix-contains (c ∷ s) k g, contains_trans s k g)
