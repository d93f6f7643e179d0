-- ===== src/Catalog/Index.antt =====
-- What the trigram index holds: a file's index stands once under each trigram of its name.
use goed2k_server.Base.{
  ℕ, zero, suc, ◌+◌, ◌≤◌, ◌<◌, ◌≡◌, refl, Bool, true, false, ◌||◌, List, [], ◌∷◌, ◌++◌, Option,
  none, some, length, All, get_elem?, ltb, ◌==◌, if◌then◌else◌, arith, Bool-cases, inl, inr,
}
use goed2k_server.Base.Maps.{lookup, insert, lookup-insert}
use goed2k_server.Base.Tests.{text_eq, nat_eq, Eq, list_beq_iff}
use goed2k_server.Base.Text.{Bytes, ◌=text◌, CaseTables, contains, has_prefix}
use goed2k_server.Records.{FileRecord}
use goed2k_server.Catalog.Trigrams.{
  TriIndex, first_three, has_text, trigram_loop, unique_trigrams, or_empty, add_trigrams,
  rebuild_from, rebuild_search_index,
}

-- How often an element stands in a list.
unfoldable pub times {ℓ} : {A : Type ℓ} ⦃e : Eq A⦄ → A → List A → ℕ
times x [] = 0
times ⦃e⦄ x (y ∷ ys) = (if e.beq y x then 1 else 0) + times x ys

pub times-append {ℓ} :
    {A : Type ℓ} ⦃e : Eq A⦄ (x : A) (xs ys : List A) → times x (xs ++ ys) ≡ times x xs + times x ys
unfolding times
times-append x [] ys = omega arith
times-append x (y ∷ xs) ys = omega (arith, times-append x xs ys)

abbrev is_first : Bytes → Option Bytes → Bool
is_first g none = false
is_first g (some h) = h =text g

is_window : Bytes → Bytes → Bool
is_window g [] = false
is_window g (a ∷ s) = is_first g (first_three (a ∷ s)) || is_window g s

text_iff : (a b : Bytes) → (a =text b) ≡ true → a ≡ b
text_iff a b h = (list_beq_iff nat_eq a b).0 h

-- Each trigram is given out once, where it first stands.
times-trigram_loop :
    (g : Bytes) (seen : List Bytes) (s : Bytes)
    → times g (trigram_loop seen s)
      ≡ (if has_text g seen then 0 else if is_window g s then 1 else 0)
unfolding times trigram_loop is_window has_text
times-trigram_loop g seen [] = ground arith
times-trigram_loop g seen (a ∷ []) = ground arith
times-trigram_loop g seen (a ∷ b ∷ []) = ground arith
times-trigram_loop g seen (a ∷ b ∷ c ∷ s) =
    let h : Bytes = a ∷ b ∷ c ∷ [] in
    ground (
      arith,
      list_beq_iff nat_eq h g,
      times-trigram_loop g seen (b ∷ c ∷ s),
      times-trigram_loop g (h ∷ seen) (b ∷ c ∷ s),
    )

first_three-length : (g s : Bytes) → is_first g (first_three s) ≡ true → length g ≡ 3
first_three-length g [] h = cc
first_three-length g (a ∷ []) h = cc
first_three-length g (a ∷ b ∷ []) h = cc
first_three-length g (a ∷ b ∷ c ∷ s) h = rw (← text_iff (a ∷ b ∷ c ∷ []) g h)

has_prefix_three :
    (x y z : ℕ) (s : Bytes)
    → has_prefix s (x ∷ y ∷ z ∷ []) ≡ is_first (x ∷ y ∷ z ∷ []) (first_three s)
unfolding has_prefix
has_prefix_three x y z [] = refl
has_prefix_three x y z (a ∷ []) = ground arith
has_prefix_three x y z (a ∷ b ∷ []) = ground arith
has_prefix_three x y z (a ∷ b ∷ c ∷ s) = ground arith

contains_three :
    (x y z : ℕ) (s : Bytes) → contains s (x ∷ y ∷ z ∷ []) ≡ is_window (x ∷ y ∷ z ∷ []) s
unfolding contains is_window
contains_three x y z [] = unfold has_prefix in refl
contains_three x y z (a ∷ s) = rw (has_prefix_three x y z (a ∷ s), contains_three x y z s)

no_text : (g : Bytes) → has_text g [] ≡ false
unfolding has_text
no_text g = refl

-- A trigram stands once in the list of a text that holds it, and not at all in another list.
pub times-unique_trigrams :
    (x y z : ℕ) (s : Bytes)
    → times (x ∷ y ∷ z ∷ []) (unique_trigrams s) ≡ (if contains s (x ∷ y ∷ z ∷ []) then 1 else 0)
unfolding unique_trigrams
times-unique_trigrams x y z [] = unfold times contains has_prefix in refl
times-unique_trigrams x y z (a ∷ []) = unfold times is_window in rw contains_three
times-unique_trigrams x y z (a ∷ b ∷ []) = unfold times is_window in rw contains_three
times-unique_trigrams x y z (a ∷ b ∷ c ∷ s) = rw contains_three (
    ground
      (arith, times-trigram_loop (x ∷ y ∷ z ∷ []) [] (a ∷ b ∷ c ∷ s), no_text (x ∷ y ∷ z ∷ [])))

-- One file's trigrams add its index under each of them.
times-add_trigrams :
    (idx i : ℕ) (g : Bytes) (gs : List Bytes) (index : TriIndex)
    → times i (or_empty (lookup g (add_trigrams idx gs index)))
      ≡ times i (or_empty (lookup g index)) + (if idx == i then times g gs else 0)
unfolding add_trigrams times
times-add_trigrams idx i g [] index = ground arith
times-add_trigrams idx i g (h ∷ gs) index =
    let old = or_empty (lookup h index) in
    ground (
      arith,
      list_beq_iff nat_eq h g,
      lookup-insert h g (old ++ (idx ∷ [])) index,
      times-append i old (idx ∷ []),
      times-add_trigrams idx i g gs (insert h (old ++ (idx ∷ [])) index),
    )

module _ (u : CaseTables) where
  -- How often the file with the index `i` has a trigram, if the files begin at the index `idx`.
  pub held : ℕ → List FileRecord → ℕ → Bytes → ℕ
  held idx [] i g = 0
  held idx (f ∷ fs) i g =
      (if idx == i then times g (unique_trigrams (u.to_lower f.name)) else 0)
      + held (suc idx) fs i g

  times-rebuild_from :
      (idx i : ℕ) (g : Bytes) (fs : List FileRecord) (index : TriIndex)
      → times i (or_empty (lookup g (rebuild_from u idx fs index)))
        ≡ times i (or_empty (lookup g index)) + held idx fs i g
  unfolding rebuild_from held
  times-rebuild_from idx i g [] index = omega arith
  times-rebuild_from idx i g (f ∷ fs) index =
      let gs = unique_trigrams (u.to_lower f.name) in
      omega (
        arith,
        times-rebuild_from (suc idx) i g fs (add_trigrams idx gs index),
        times-add_trigrams idx i g gs index,
      )

  held_before : (idx i : ℕ) (g : Bytes) (fs : List FileRecord) → i < idx → held idx fs i g ≡ 0
  unfolding held
  held_before idx i g [] h = refl
  held_before idx i g (f ∷ fs) h = ground (arith, held_before (suc idx) i g fs)

  held_beyond :
      (idx i : ℕ) (g : Bytes) (fs : List FileRecord) → idx + length fs ≤ i → held idx fs i g ≡ 0
  unfolding held
  held_beyond idx i g [] h = refl
  held_beyond idx i g (f ∷ fs) h = ground (arith, held_beyond (suc idx) i g fs)

  held_at :
      (idx k i : ℕ) (g : Bytes) (fs : List FileRecord) (f : FileRecord)
      → get_elem? fs k ≡ some f
      → i ≡ idx + k
      → held idx fs i g ≡ times g (unique_trigrams (u.to_lower f.name))
  unfolding held
  held_at idx k i g [] f h e = cc
  held_at idx zero i g (x ∷ fs) f h e = ground (arith, held_before (suc idx) i g fs)
  held_at idx (suc k) i g (x ∷ fs) f h e = ground (arith, held_at (suc idx) k i g fs f h)

  -- Under a trigram the index holds a file as often as the trigrams of its name hold the trigram.
  pub postings_of_file :
      (files : List FileRecord) (i : ℕ) (f : FileRecord) (g : Bytes)
      → get_elem? files i ≡ some f
      → times i (or_empty (lookup g (rebuild_search_index u files)))
        ≡ times g (unique_trigrams (u.to_lower f.name))
  unfolding rebuild_search_index lookup times
  postings_of_file files i f g h =
      omega (arith, times-rebuild_from 0 i g files [], held_at 0 i i g files f h (omega arith))

  -- It holds no index of a file that is not there.
  pub postings_beyond :
      (files : List FileRecord) (i : ℕ) (g : Bytes)
      → length files ≤ i
      → times i (or_empty (lookup g (rebuild_search_index u files))) ≡ 0
  unfolding rebuild_search_index lookup times
  postings_beyond files i g h =
      omega (arith, times-rebuild_from 0 i g files [], held_beyond 0 i g files (omega arith))

-- A trigram of a text: three bytes that stand in it.
abbrev pub IsTrigram : Bytes → Bytes → Type 0
IsTrigram s g = (x : ℕ) × (y : ℕ) × (z : ℕ) × (g ≡ x ∷ y ∷ z ∷ []) × (contains s g ≡ true)

later-IsTrigram : (a : ℕ) (s g : Bytes) → IsTrigram s g → IsTrigram (a ∷ s) g
unfolding contains
later-IsTrigram a s g (x, y, z, e, h) = (x, y, z, e, ground arith)

later-All :
    (a : ℕ) (s : Bytes) (gs : List Bytes) → All (IsTrigram s) gs → All (IsTrigram (a ∷ s)) gs
later-All a s [] h = tt
later-All a s (g ∷ gs) h = (later-IsTrigram a s g h.0, later-All a s gs h.1)

trigram_loop-IsTrigram : (seen : List Bytes) (s : Bytes) → All (IsTrigram s) (trigram_loop seen s)
unfolding trigram_loop
trigram_loop-IsTrigram seen [] = tt
trigram_loop-IsTrigram seen (a ∷ []) = tt
trigram_loop-IsTrigram seen (a ∷ b ∷ []) = tt
trigram_loop-IsTrigram seen (a ∷ b ∷ c ∷ s) =
    let g : Bytes = a ∷ b ∷ c ∷ [] in
    elim (Bool-cases (has_text g seen)) [
      | inl e ↦ rw e (later-All a (b ∷ c ∷ s) _ (trigram_loop-IsTrigram seen (b ∷ c ∷ s)))
      | inr e ↦ rw e (
        (a, b, c, refl, unfold contains has_prefix in (ground arith)),
        later-All a (b ∷ c ∷ s) _ (trigram_loop-IsTrigram (g ∷ seen) (b ∷ c ∷ s)),
      )
    ]

pub unique_trigrams-IsTrigram : (s : Bytes) → All (IsTrigram s) (unique_trigrams s)
unfolding unique_trigrams
unique_trigrams-IsTrigram s = elim (Bool-cases (ltb (length s) 3)) [
  | inl e ↦ rw e tt
  | inr e ↦ rw e (trigram_loop-IsTrigram [] s)
]

pub unique_trigrams_some : (s : Bytes) → 3 ≤ length s → 0 < length (unique_trigrams s)
unfolding unique_trigrams trigram_loop has_text
unique_trigrams_some [] h = absurd (omega arith)
unique_trigrams_some (a ∷ []) h = absurd (omega arith)
unique_trigrams_some (a ∷ b ∷ []) h = absurd (omega arith)
unique_trigrams_some (a ∷ b ∷ c ∷ s) h = ground arith
