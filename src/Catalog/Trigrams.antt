-- ===== src/Catalog/Trigrams.antt =====
-- The trigram index of ed2ksrv/catalog.go: how it is built and which files it proposes.
use goed2k_server.Base.{
  ℕ, suc, ◌+◌, Bool, false, not, ◌&&◌, ◌||◌, List, [], ◌∷◌, ◌++◌, Option, none, some, length, ltb,
  leb, ◌==◌, if◌then◌else◌,
}
use goed2k_server.Base.Maps.{lookup, insert}
use goed2k_server.Base.Sort.{stable_sort}
use goed2k_server.Base.Tests.{text_eq, nat_eq}
use goed2k_server.Base.Text.{Bytes, ◌=text◌, trim_space, CaseTables}
use goed2k_server.Records.{FileRecord}
use goed2k_server.Search.{SearchQuery}

-- Lowercase trigram to the indices of the files whose names hold it.
abbrev pub TriIndex : Type 0
TriIndex = List (Bytes × List ℕ)

-- `s[i : i+3]` at the front of what is left, while `i+3 <= len(s)`.
abbrev pub first_three : Bytes → Option Bytes
first_three [] = none
first_three (a ∷ []) = none
first_three (a ∷ b ∷ []) = none
first_three (a ∷ b ∷ c ∷ s) = some (a ∷ b ∷ c ∷ [])

unfoldable pub has_text : Bytes → List Bytes → Bool
has_text g [] = false
has_text g (h ∷ hs) = h =text g || has_text g hs

-- The loop of uniqueTrigrams: `seen` holds the trigrams that were given out.
unfoldable pub trigram_loop : List Bytes → Bytes → List Bytes
trigram_loop seen [] = []
trigram_loop seen (a ∷ s) = elim (first_three (a ∷ s)) [
  | none ↦ trigram_loop seen s
  | some g ↦
      let again = trigram_loop seen s in
      let new = g ∷ trigram_loop (g ∷ seen) s in if has_text g seen then again else new
]

unfoldable pub unique_trigrams : Bytes → List Bytes
unfolding trigram_loop has_text
unique_trigrams s = if ltb (length s) 3 then [] else trigram_loop [] s

-- What Go reads from the map: nothing for a missing trigram.
abbrev pub or_empty : Option (List ℕ) → List ℕ
or_empty none = []
or_empty (some is) = is

unfoldable pub add_trigrams : ℕ → List Bytes → TriIndex → TriIndex
add_trigrams idx [] index = index
add_trigrams idx (g ∷ gs) index =
    add_trigrams idx gs (insert g (or_empty (lookup g index) ++ (idx ∷ [])) index)

-- How often each file was proposed.
abbrev pub Counts : Type 0
Counts = List (ℕ × ℕ)

abbrev pub or_zero : Option ℕ → ℕ
or_zero none = 0
or_zero (some n) = n

unfoldable pub add_postings : List ℕ → Counts → Counts
add_postings [] counts = counts
add_postings (i ∷ is) counts = add_postings is (insert i (or_zero (lookup i counts) + 1) counts)

-- `none`: a trigram of the keyword is in no name.
unfoldable pub count_postings : TriIndex → List Bytes → Counts → Option Counts
unfolding add_postings
count_postings index [] counts = some counts
count_postings index (g ∷ gs) counts = elim (lookup g index) [
  | none ↦ none
  | some postings ↦ count_postings index gs (add_postings postings counts)
]

-- The files that hold every trigram.
unfoldable pub full_counts : ℕ → Counts → List ℕ
full_counts n [] = []
full_counts n ((i, c) ∷ counts) =
    let rest = full_counts n counts in if c == n then i ∷ rest else rest

-- sort.Ints of the files that hold every trigram of the key.
unfoldable pub candidates_of : TriIndex → Bytes → List ℕ
unfolding unique_trigrams count_postings full_counts
candidates_of index key = elim (count_postings index (unique_trigrams key) []) [
  | none ↦ []
  | some counts ↦ stable_sort ltb (full_counts (length (unique_trigrams key)) counts)
]

-- The guard of the loop over the keywords.
unfoldable pub longer_key : Bytes → Bytes → Bytes
longer_key key k = if leb 3 (length k) && ltb (length key) (length k) then k else key

module _ (u : CaseTables) where
  unfoldable pub rebuild_from : ℕ → List FileRecord → TriIndex → TriIndex
  unfolding unique_trigrams add_trigrams
  rebuild_from idx [] index = index
  rebuild_from idx (f ∷ fs) index =
      rebuild_from (suc idx) fs (add_trigrams idx (unique_trigrams (u.to_lower f.name)) index)

  unfoldable pub rebuild_search_index : List FileRecord → TriIndex
  unfolding rebuild_from
  rebuild_search_index files = rebuild_from 0 files []

  -- The longest keyword of three bytes or more, the first of those; "" if there is none.
  unfoldable pub index_key : Bytes → List Bytes → Bytes
  unfolding longer_key
  index_key key [] = key
  index_key key (w ∷ ws) = index_key (longer_key key (u.to_lower (trim_space w))) ws

  -- `none` asks for a scan of all files.
  unfoldable pub search_candidates : TriIndex → SearchQuery → Option (List ℕ)
  unfolding index_key candidates_of
  search_candidates index q =
      let key = index_key [] q.keywords in
      if not q.summarized || length index == 0
      then none
      else if key =text []
      then none
      else some (candidates_of index key)
