-- ===== src/Wire/Samples.antt =====
-- A concrete instance of the readers and writers: integers with the lowest byte first.
use goed2k_server.Base.{
  ℕ, zero, suc, ◌+◌, ◌*◌, ◌/◌, ◌%◌, ◌≤◌, ◌<◌, ◌≡◌, refl, ap, ◌∙◌, [], ◌∷◌, ◌++◌, Option, none, some,
  length, arith,
}
use goed2k_server.Base.Text.{Bytes}
use goed2k_server.Wire.{Wire, WireLaws, Consumes}

abbrev write_le : ℕ → ℕ → Bytes
write_le zero v = []
write_le (suc n) v = v % 256 ∷ write_le n (v / 256)

abbrev add_low : ℕ → Option (ℕ × Bytes) → Option (ℕ × Bytes)
add_low b none = none
add_low b (some (v, rest)) = some (b + 256 * v, rest)

abbrev read_le : ℕ → Bytes → Option (ℕ × Bytes)
read_le zero src = some (0, src)
read_le (suc n) [] = none
read_le (suc n) (b ∷ src) = add_low b (read_le n src)

abbrev add_first : ℕ → Option (Bytes × Bytes) → Option (Bytes × Bytes)
add_first b none = none
add_first b (some (xs, rest)) = some (b ∷ xs, rest)

abbrev read_n : ℕ → Bytes → Option (Bytes × Bytes)
read_n zero src = some ([], src)
read_n (suc n) [] = none
read_n (suc n) (b ∷ src) = add_first b (read_n n src)

abbrev pub sample_wire : Wire
sample_wire = record {
  read_uint16 = read_le 2;
  read_uint32 = read_le 4;
  read_uint64 = read_le 8;
  read_bytes = read_n;
  write_uint16 = write_le 2;
  write_uint32 = write_le 4;
  write_uint64 = write_le 8;
}

abbrev bound : ℕ → ℕ
bound zero = 1
bound (suc n) = 256 * bound n

read_le-write_le :
    (n v : ℕ) (rest : Bytes) → v < bound n → read_le n (write_le n v ++ rest) ≡ some (v, rest)
read_le-write_le zero v rest h = ap (λ x. some (x, rest)) (omega arith)
read_le-write_le (suc n) v rest h =
    ap (add_low (v % 256)) (read_le-write_le n (v / 256) rest (omega arith))
    ∙ ap (λ x. some (x, rest)) (omega arith)

read_n-append : (xs rest : Bytes) → read_n (length xs) (xs ++ rest) ≡ some (xs, rest)
read_n-append [] rest = refl
read_n-append (x ∷ xs) rest = ap (add_first x) (read_n-append xs rest)

add_low_inverse :
    (b : ℕ) (o : Option (ℕ × Bytes)) (v : ℕ) (rest : Bytes)
    → add_low b o ≡ some (v, rest)
    → (w : ℕ) × (o ≡ some (w, rest))
add_low_inverse b none v rest h = absurd (ground (arith, h))
add_low_inverse b (some (w, src)) v rest h = (w, ground (arith, h))

add_first_inverse :
    (b : ℕ) (o : Option (Bytes × Bytes)) (xs rest : Bytes)
    → add_first b o ≡ some (xs, rest)
    → (ys : Bytes) × (o ≡ some (ys, rest))
add_first_inverse b none xs rest h = absurd (ground (arith, h))
add_first_inverse b (some (ys, src)) xs rest h = (ys, ground (arith, h))

read_le-within :
    (n : ℕ) (src rest : Bytes) (v : ℕ) → read_le n src ≡ some (v, rest) → length rest ≤ length src
read_le-within zero src rest v h = ground (arith, h)
read_le-within (suc n) [] rest v h = ground (arith, h)
read_le-within (suc n) (b ∷ src) rest v h =
    let (w, e) = add_low_inverse b (read_le n src) v rest h in
    omega (arith, read_le-within n src rest w e)

read_n-within :
    (n : ℕ) (src xs rest : Bytes) → read_n n src ≡ some (xs, rest) → length rest ≤ length src
read_n-within zero src xs rest h = ground (arith, h)
read_n-within (suc n) [] xs rest h = ground (arith, h)
read_n-within (suc n) (b ∷ src) xs rest h =
    let (ys, e) = add_first_inverse b (read_n n src) xs rest h in
    omega (arith, read_n-within n src ys rest e)

pub sample_wire_laws : WireLaws sample_wire
sample_wire_laws = record {
  read_write16 = λ v rest h. read_le-write_le 2 v rest h;
  read_write32 = λ v rest h. read_le-write_le 4 v rest h;
  read_write64 = λ v rest h. read_le-write_le 8 v rest h;
  read_bytes_append = read_n-append;
  length_write32 = λ v. refl;
}

pub sample_wire-Consumes : Consumes sample_wire
sample_wire-Consumes = record {
  within16 = read_le-within 2;
  within32 = read_le-within 4;
  within64 = read_le-within 8;
  within_bytes = read_n-within;
}
