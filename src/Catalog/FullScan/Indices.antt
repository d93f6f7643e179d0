-- ===== src/Catalog/FullScan/Indices.antt =====
-- A scan of the indices that a search proposes, against a scan of all files.
use goed2k_server.Base.{
  ℕ, suc, ◌+◌, ◌≤◌, ◌<◌, ◌≡◌, refl, false, List, [], ◌∷◌, some, length, All, get_elem?, arith,
}
use native.Mathlib.Decide.{ℕ_discrete}
use goed2k_server.Base.Tests.{text_eq, nat_eq}
use goed2k_server.Base.Text.{CaseTables}
use goed2k_server.Protocol.{Protocol}
use goed2k_server.Records.{FileRecord}
use goed2k_server.Search.{SearchQuery, matches_record}
use goed2k_server.Catalog.Candidates.{has, Ascending}
use goed2k_server.Catalog.{scan, scan_indices}

has-Ascending : (lo i : ℕ) (is : List ℕ) → Ascending lo is → i < lo → has i is ≡ false
unfolding has
has-Ascending lo i [] a h = refl
has-Ascending lo i (j ∷ is) a h = ground (arith, has-Ascending (suc j) i is a.1)

Ascending-weaken : (lo hi : ℕ) (is : List ℕ) → lo ≤ hi → Ascending hi is → Ascending lo is
Ascending-weaken lo hi [] h a = tt
Ascending-weaken lo hi (i ∷ is) h a = (omega arith, a.1)

All-lt-weaken : (m n : ℕ) (is : List ℕ) → m ≤ n → All (λ i. i < m) is → All (λ i. i < n) is
All-lt-weaken m n [] h a = tt
All-lt-weaken m n (i ∷ is) h a = (omega arith, All-lt-weaken m n is h a.1)

module _ (p : Protocol) (u : CaseTables) (q : SearchQuery) where
  scan_indices_step :
      (files : List FileRecord) (i : ℕ) (is : List ℕ) (f : FileRecord) (rest : List FileRecord)
      → get_elem? files i ≡ some f
      → scan_indices p u q files is ≡ some (scan p u q rest)
      → scan_indices p u q files (i ∷ is) ≡ some (scan p u q (f ∷ rest))
  unfolding scan_indices scan
  scan_indices_step files i is f rest e h = rw (e, scan_indices) (rw h refl)

  scan_skip :
      (f : FileRecord) (rest : List FileRecord)
      → matches_record p u f q ≡ false
      → scan p u q (f ∷ rest) ≡ scan p u q rest
  unfolding scan
  scan_skip f rest h = rw h

  -- Ascending candidates that leave out no match give the matches in the order of the files.
  pub scan_indices-scan :
      (files : List FileRecord) (lo : ℕ) (fs : List FileRecord) (is : List ℕ)
      → Ascending lo is
      → All (λ i. i < lo + length fs) is
      → ((k j : ℕ) → j ≡ lo + k → get_elem? files j ≡ get_elem? fs k)
      → ((k j : ℕ) (f : FileRecord)
          → j ≡ lo + k
          → get_elem? fs k ≡ some f
          → has j is ≡ false
          → matches_record p u f q ≡ false)
      → scan_indices p u q files is ≡ some (scan p u q fs)
  scan_indices-scan files lo [] [] a b at missed = unfold scan scan_indices in refl
  scan_indices-scan files lo [] (i ∷ is) a b at missed = absurd (omega arith)
  scan_indices-scan files lo (f ∷ fs) [] a b at missed =
      rw (scan_skip f fs (missed 0 lo f (omega arith) refl (unfold has in refl))) (
        scan_indices-scan files (suc lo) fs [] tt tt (λ k j e. at (suc k) j (omega arith))
          (λ k j g e m n. missed (suc k) j g (omega arith) m n))
  scan_indices-scan files lo (f ∷ fs) (i ∷ is) a b at missed = elim (ℕ_discrete i lo) [
    | yes e ↦ scan_indices_step files i is f fs (at 0 i (omega arith)) (
        scan_indices-scan files (suc lo) fs is
          (Ascending-weaken (suc lo) (suc i) is (omega arith) a.1)
          (All-lt-weaken _ (suc lo + length fs) is (omega arith) b.1)
          (λ k j d. at (suc k) j (omega arith))
          (λ k j g d m n. missed (suc k) j g (omega arith) m (unfold has in ground arith)))
    | no e ↦
        rw
          (scan_skip f fs (
            missed 0 lo f (omega arith) refl
              (has-Ascending i lo (i ∷ is) (omega arith, a.1) (omega arith))))
          (scan_indices-scan files (suc lo) fs (i ∷ is) (omega arith, a.1)
            (All-lt-weaken _ (suc lo + length fs) (i ∷ is) (omega arith) b)
            (λ k j d. at (suc k) j (omega arith))
            (λ k j g d m n. missed (suc k) j g (omega arith) m n))
  ]
