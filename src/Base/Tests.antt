-- ===== src/Base/Tests.antt =====
-- Boolean tests on the native numbers, the conditional, and an interface for equality tests.
use Prim.Native.Nat.{ℕ, ◌≤◌, ◌<◌, compare, Ordering}
use mathlib.Core.Path.{◌≡◌, refl}
use mathlib.Core.Logic.{◌↔◌, ◌⊎◌, inl, inr, ◌≢◌}
use mathlib.Core.Bool.{Bool, true, false, ◌&&◌}
use mathlib.Core.List.{List, [], ◌∷◌}
use mathlib.Core.Option.{Option, none, some}
use native.Mathlib.Omega.{arith}

abbrev pub ltb : ℕ → ℕ → Bool
ltb a b = elim (compare a b) [ Ordering.lt ↦ true | _ ↦ false ]

abbrev pub leb : ℕ → ℕ → Bool
leb a b = elim (compare a b) [ Ordering.gt ↦ false | _ ↦ true ]

infix 50 ◌==◌
abbrev pub ◌==◌ : ℕ → ℕ → Bool
a == b = elim (compare a b) [ Ordering.eq ↦ true | _ ↦ false ]

infix 1 if◌then◌else◌
abbrev pub if◌then◌else◌ {ℓ} : {A : Type ℓ} → Bool → A → A → A
if true then x else y = x
if false then x else y = y

pub ltb→lt : (a b : ℕ) → ltb a b ≡ true → a < b
ltb→lt a b h = ground arith

pub ltb→ge : (a b : ℕ) → ltb a b ≡ false → b ≤ a
ltb→ge a b h = ground arith

pub lt→ltb : (a b : ℕ) → a < b → ltb a b ≡ true
lt→ltb a b h = ground arith

pub ge→ltb : (a b : ℕ) → b ≤ a → ltb a b ≡ false
ge→ltb a b h = ground arith

pub leb→le : (a b : ℕ) → leb a b ≡ true → a ≤ b
leb→le a b h = ground arith

pub ==_iff : (a b : ℕ) → ((a == b) ≡ true) ↔ (a ≡ b)
==_iff a b = ground arith

pub ==_refl : (a : ℕ) → (a == a) ≡ true
==_refl a = ground arith

pub Bool-cases : (b : Bool) → (b ≡ true) ⊎ (b ≡ false)
Bool-cases true = inl refl
Bool-cases false = inr refl

pub Option-cases {ℓ} : {A : Type ℓ} (o : Option A) → (o ≡ none) ⊎ ((a : A) × (o ≡ some a))
Option-cases none = inl refl
Option-cases (some a) = inr (a, refl)

-- A key type with a test that decides equality.
pub record Eq {ℓ} (A : Type ℓ) : Type ℓ where
  pub beq : A → A → Bool
  pub beq_iff : (a b : A) → (beq a b ≡ true) ↔ (a ≡ b)

instance abbrev pub nat_eq : Eq ℕ
nat_eq = record { beq = ◌==◌; beq_iff = ==_iff }

abbrev pub list_beq {ℓ} : {A : Type ℓ} → (A → A → Bool) → List A → List A → Bool
list_beq t [] [] = true
list_beq t (x ∷ xs) (y ∷ ys) = t x y && list_beq t xs ys
list_beq t _ _ = false

pub list_beq_iff {ℓ} :
    {A : Type ℓ} (e : Eq A) (xs ys : List A) → (list_beq e.beq xs ys ≡ true) ↔ (xs ≡ ys)
list_beq_iff e [] [] = ground arith
list_beq_iff e (x ∷ xs) [] = ground arith
list_beq_iff e [] (y ∷ ys) = ground arith
list_beq_iff e (x ∷ xs) (y ∷ ys) = ground (arith, e.beq_iff x y, list_beq_iff e xs ys)

instance abbrev pub text_eq : Eq (List ℕ)
text_eq = record { beq = list_beq ◌==◌; beq_iff = list_beq_iff nat_eq }

module _ {ℓ} {A : Type ℓ} ⦃e : Eq A⦄ where
  pub beq_refl : (a : A) → e.beq a a ≡ true
  beq_refl a = (e.beq_iff a a).1 refl

  pub ne→beq : (a b : A) → a ≢ b → e.beq a b ≡ false
  ne→beq a b h = elim (Bool-cases (e.beq a b)) [
    | inl t ↦ absurd (h ((e.beq_iff a b).0 t))
    | inr f ↦ f
  ]

  pub beq→ne : (a b : A) → e.beq a b ≡ false → a ≢ b
  beq→ne a b h p = cc (h, (e.beq_iff a b).1 p)

-- A value under a guard that gives nothing when it holds.
pub guarded_some {ℓ} :
    {A : Type ℓ} (b : Bool) (o : Option A) (x : A)
    → (if b then none else o) ≡ some x
    → (b ≡ false) × (o ≡ some x)
guarded_some true o x h = absurd (ground (arith, h))
guarded_some false o x h = (refl, h)

pub some_injective {ℓ} : {A : Type ℓ} (a b : A) → some a ≡ some b → a ≡ b
some_injective a b e = cc e

pub if_true {ℓ} : {A : Type ℓ} {b : Bool} (x y : A) → b ≡ true → (if b then x else y) ≡ x
if_true x y e = rw (e) refl

pub if_false {ℓ} : {A : Type ℓ} {b : Bool} (x y : A) → b ≡ false → (if b then x else y) ≡ y
if_false x y e = rw (e) refl

pub none_either {ℓ} :
    {A : Type ℓ} (b : Bool) {o : Option A} → o ≡ none → (if b then none else o) ≡ none
none_either true e = refl
none_either false e = e

pub none_not_some {ℓ} : {A : Type ℓ} {a : A} → none ≢ some a
none_not_some e = cc e

-- A step that may fail, for do blocks.
infix 1 ◌>>=◌
abbrev pub ◌>>=◌ {ℓ κ} : {A : Type ℓ} {B : Type κ} → Option A → (A → Option B) → Option B
none >>= f = none
some a >>= f = f a

abbrev pub is_some {ℓ} : {A : Type ℓ} → Option A → Bool
is_some none = false
is_some (some a) = true
