-- ===== src/Parser.antt =====
-- The parser of search requests of ed2ksrv/protocol.go. An error is a value; `out_of_rounds` has no
-- counterpart in the code and stands for a loop that the model cut short.
pub mod Terms
pub mod Prefix
pub mod Legacy
pub mod Request
pub mod Supported
pub mod Rounds
pub mod Printer
pub mod RoundTrip
pub mod Runs
use mathlib.Core.Path.{subst}
use goed2k_server.Base.{
  ℕ, ◌≡◌, ◌≢◌, refl, Bool, true, false, if◌then◌else◌, Option, none, some, arith,
}

pub data ParseError : Type 0 where
  read_failed : ParseError
  too_deep : ParseError
  unsupported_operator : ℕ → ParseError
  unsupported_term : ℕ → ParseError
  unsupported_marker : ℕ → ParseError
  unsupported_tag : ParseError
  empty_tag : ParseError
  tag_count : ℕ → ParseError
  bad_length : ParseError
  trailing : ℕ → ParseError
  both_failed : ParseError → ParseError → ParseError
  out_of_rounds : ParseError

pub data Parsed {ℓ} (A : Type ℓ) : Type ℓ where
  ok : A → Parsed A
  err : ParseError → Parsed A

infixl 1 ◌>>=◌
abbrev pub ◌>>=◌ {ℓ κ} : {A : Type ℓ} {B : Type κ} → Parsed A → (A → Parsed B) → Parsed B
ok a >>= f = f a
err e >>= f = err e

infixl 1 ◌>>◌
abbrev pub ◌>>◌ {ℓ} : {B : Type ℓ} → Parsed (Unit {0}) → Parsed B → Parsed B
m >> k = m >>= λ _. k

-- A guard that returns an error early.
abbrev pub reject_if : Bool → ParseError → Parsed (Unit {0})
reject_if true e = err e
reject_if false e = ok tt

-- A read that may fail.
abbrev pub reading {ℓ} : {A : Type ℓ} → Option A → Parsed A
reading none = err read_failed
reading (some a) = ok a

-- `P` holds of the value, if there is one.
pub data Ensures {ℓ κ} {A : Type ℓ} (P : A → Type κ) : Parsed A → Type (ℓ ⊔ κ) where
  holds : {a : A} → P a → Ensures P (ok a)
  rejected : {e : ParseError} → Ensures P (err e)

module _ {ℓ κ} {A : Type ℓ} {P : A → Type κ} where
  pub Ensures-ok : {m : Parsed A} {a : A} → Ensures P m → m ≡ ok a → P a
  Ensures-ok (holds h) e = subst P (cc) h
  Ensures-ok rejected e = cc

  pub Ensures-weaken {κ'} :
      {Q : A → Type κ'} {m : Parsed A} → ((a : A) → P a → Q a) → Ensures P m → Ensures Q m
  Ensures-weaken k (holds {a} h) = holds (k a h)
  Ensures-weaken k rejected = rejected

  pub Ensures-if :
      (b : Bool) {x y : Parsed A}
      → (b ≡ true → Ensures P x)
      → (b ≡ false → Ensures P y)
      → Ensures P (if b then x else y)
  Ensures-if true hx hy = hx refl
  Ensures-if false hx hy = hy refl

  pub Ensures-bind {ℓ' κ'} :
      {B : Type ℓ'} {Q : B → Type κ'} {m : Parsed A} {f : A → Parsed B}
      → Ensures P m
      → ((a : A) → P a → Ensures Q (f a))
      → Ensures Q (m >>= f)
  Ensures-bind (holds {a} h) k = k a h
  Ensures-bind rejected k = rejected

  pub Ensures-reject :
      (b : Bool) (e : ParseError) {m : Parsed A}
      → (b ≡ false → Ensures P m)
      → Ensures P (reject_if b e >> m)
  Ensures-reject true e k = rejected
  Ensures-reject false e k = k refl

-- A read, with what it says of its value.
pub Ensures-reading {ℓ κ} :
    {A : Type ℓ} {P : A → Type κ} (o : Option A)
    → ((a : A) → o ≡ some a → P a)
    → Ensures P (reading o)
Ensures-reading none h = rejected
Ensures-reading (some a) h = holds (h a refl)

abbrev pub Anything {ℓ} : {A : Type ℓ} → A → Type 0
Anything a = Unit {0}

pub Ensures-any {ℓ} : {A : Type ℓ} (m : Parsed A) → Ensures Anything m
Ensures-any (ok a) = holds tt
Ensures-any (err e) = rejected
