-- ===== src/Catalog/FullScan/Keys.antt =====
-- The key that a search looks up in the index, and what it says of a record that matches.
use goed2k_server.Base.{
  ◌≤◌, ◌≡◌, ◌⊎◌, refl, true, ◌&&◌, List, [], ◌∷◌, length, ltb, leb, if◌then◌else◌, arith,
  Bool-cases, inl, inr,
}
use goed2k_server.Base.Tests.{text_eq, nat_eq}
use goed2k_server.Base.Text.{Bytes, CaseTables, contains, trim_space, ◌=text◌}
use goed2k_server.Protocol.{Protocol}
use goed2k_server.Records.{FileRecord}
use goed2k_server.Search.{keyword_matches_record, normalize_keyword, hash_token_matches}
use goed2k_server.Search.Summary.{AllMatch}
use goed2k_server.Catalog.Trigrams.{index_key, longer_key}

module _ (p : Protocol) (u : CaseTables) where
  -- What a normalised keyword says of a record that it matches.
  abbrev pub Explains : FileRecord → Bytes → Type 0
  Explains r k =
      (k ≡ []) ⊎ ((contains (u.to_lower r.name) k ≡ true) ⊎ (hash_token_matches p u r k ≡ true))

  keyword-Explains :
      (r : FileRecord) (w : Bytes)
      → keyword_matches_record p u r w ≡ true
      → 3 ≤ length (u.to_lower (trim_space w))
      → Explains r (u.to_lower (trim_space w))
  unfolding keyword_matches_record normalize_keyword
  keyword-Explains r w m h = explained (u.to_lower (trim_space w)) m h
    where
      explained :
          (k : Bytes)
          → (if k =text []
              then true
              else if contains (u.to_lower r.name) k
              then true
              else hash_token_matches p u r k)
            ≡ true
          → 3 ≤ length k
          → Explains r k
      explained [] m h = inl refl
      explained (c ∷ k) m h = elim (Bool-cases (contains (u.to_lower r.name) (c ∷ k))) [
        | inl e ↦ inr (inl e)
        | inr e ↦ inr (inr (rw e at m))
      ]

  longer_key-Explains :
      (r : FileRecord) (key k : Bytes)
      → Explains r key
      → (3 ≤ length k → Explains r k)
      → Explains r (longer_key key k)
  unfolding longer_key
  longer_key-Explains r key k h e =
      elim (Bool-cases (leb 3 (length k) && ltb (length key) (length k))) [
        | inl t ↦ rw t (e (ground arith))
        | inr t ↦ rw t h
      ]

  pub index_key-Explains :
      (r : FileRecord) (key : Bytes) (ws : List Bytes)
      → AllMatch p u r ws
      → Explains r key
      → Explains r (index_key u key ws)
  unfolding index_key
  index_key-Explains r key [] m h = h
  index_key-Explains r key (w ∷ ws) m h =
      let k = u.to_lower (trim_space w) in
      index_key-Explains r (longer_key key k) ws m.1
        (longer_key-Explains r key k h (keyword-Explains r w m.0))

  pub index_key_long :
      (key : Bytes) (ws : List Bytes)
      → (key ≡ []) ⊎ (3 ≤ length key)
      → (index_key u key ws ≡ []) ⊎ (3 ≤ length (index_key u key ws))
  unfolding index_key
  index_key_long key [] h = h
  index_key_long key (w ∷ ws) h =
      let k = u.to_lower (trim_space w) in index_key_long (longer_key key k) ws (longer key k h)
    where
      longer :
          (key k : Bytes)
          → (key ≡ []) ⊎ (3 ≤ length key)
          → (longer_key key k ≡ []) ⊎ (3 ≤ length (longer_key key k))
      longer key k h =
          unfold longer_key in
          elim (Bool-cases (leb 3 (length k) && ltb (length key) (length k))) [
            | inl t ↦ rw t (inr (ground arith))
            | inr t ↦ rw t h
          ]
