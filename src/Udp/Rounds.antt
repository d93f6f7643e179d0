-- ===== src/Udp/Rounds.antt =====
-- The loop over the files of a source request ends.
use goed2k_server.Base.{
  ℕ, zero, suc, ◌+◌, ◌≤◌, ◌≡◌, refl, sym, ap, ◌∙◌, Bool, true, false, List, [], ◌∷◌, Option, none,
  some, length, leb, arith, Bool-cases, Option-cases, inl, inr, length-drop, if◌then◌else◌, ◌==◌,
  ◌&&◌, drop,
}
use goed2k_server.Base.Tests.{none_not_some, some_injective, if_true, if_false}
use goed2k_server.Base.Text.{Bytes}
use goed2k_server.Catalog.{Catalog}
use goed2k_server.Config.{Config}
use goed2k_server.Protocol.{Protocol, Hash, Endpoint}
use goed2k_server.Server.{Server}
use goed2k_server.Udp.GetSources.{skip_size, skip_size_if, Asked, add_sources, ask_rounds}

-- ReadHash takes sixteen bytes.
abbrev pub TakesSixteen : (Bytes → Option (Hash × Bytes)) → Type 0
TakesSixteen read_hash =
    (src : Bytes) (hash : Hash) (rest : Bytes)
    → read_hash src ≡ some (hash, rest)
    → length rest + 16 ≡ length src

eight_less :
    (b : Bool) (src rest : Bytes)
    → (if b then (if leb 8 (length src) then some (drop 8 src) else none) else some src) ≡ some rest
    → length rest ≤ length src
eight_less false src rest h = omega (arith, ap length (some_injective src rest h))
eight_less true src rest h = elim (Bool-cases (leb 8 (length src))) [
  | inl b ↦
      let same = some_injective (drop 8 src) rest (sym (if_true _ _ b) ∙ h) in
      omega (arith, ap length same, length-drop 8 src)
  | inr b ↦ absurd (none_not_some (sym (if_false _ _ b) ∙ h))
]

skip_size-le : (src rest : Bytes) → skip_size src ≡ some rest → length rest ≤ length src
unfolding skip_size
skip_size-le (a ∷ b ∷ c ∷ d ∷ src) rest h =
    omega (arith, eight_less ((a == 0) && (b == 0) && (c == 0) && (d == 0)) src rest h)
skip_size-le [] rest h = absurd (none_not_some h)
skip_size-le (a ∷ []) rest h = absurd (none_not_some h)
skip_size-le (a ∷ b ∷ []) rest h = absurd (none_not_some h)
skip_size-le (a ∷ b ∷ c ∷ []) rest h = absurd (none_not_some h)

skip_size_if-le :
    (b : Bool) (src rest : Bytes) → skip_size_if b src ≡ some rest → length rest ≤ length src
unfolding skip_size_if
skip_size_if-le true src rest h = skip_size-le src rest h
skip_size_if-le false src rest h = omega (arith, ap length (some_injective src rest h))

module _ (p : Protocol) (hash_from_string : Bytes → Option Hash)
    (read_hash : Bytes → Option (Hash × Bytes)) (put_found : Hash → List Endpoint → Option Bytes)
    (cfg : Config) (c : Catalog) (s : Server) where
  pub ask_rounds-total :
      (n : ℕ) (with_size : Bool) (src : Bytes) (asked : Asked)
      → TakesSixteen read_hash
      → suc (length src) ≤ n
      → (out : Asked) × (ask_rounds p hash_from_string read_hash put_found cfg c s n with_size src
            asked
          ≡ some out)
  unfolding ask_rounds
  ask_rounds-total zero with_size src asked law h = absurd (omega (arith, h))
  ask_rounds-total (suc n) with_size src asked law h = elim (Bool-cases (leb 16 (length src))) [
    | inr b ↦ (asked, rw (b) refl)
    | inl b ↦ elim (Option-cases (read_hash src)) [
      | inl e ↦ (record asked { all_read = false }, rw (b) (rw (e, ask_rounds) refl))
      | inr ((hash, src1), e) ↦ elim (Option-cases (skip_size_if with_size src1)) [
        | inl e2 ↦ (
          record asked { all_read = false },
          rw (b) (rw (e, ask_rounds) (rw (e2, ask_rounds) refl)),
        )
        | inr (src2, e2) ↦
            let next : Asked = record asked {
              writer = add_sources p hash_from_string read_hash put_found cfg c s hash asked.writer;
              requested = suc asked.requested;
            } in
            let (out, more) =
              ask_rounds-total n with_size src2 next law
                (omega (arith, h, law src hash src1 e, skip_size_if-le with_size src1 src2 e2)) in
            (out, rw (b) (rw (e, ask_rounds) (rw (e2, ask_rounds) more)))
      ]
    ]
  ]
