-- ===== src/Datagram/Packing.antt =====
-- How results are laid out over datagrams.
use goed2k_server.Base.{
  ℕ, zero, suc, ◌+◌, ◌≤◌, ◌<◌, ◌≡◌, refl, sym, ap, ◌∙◌, ◌⊎◌, inl, inr, ◌≢◌, Bool, true, false, ◌&&◌,
  List, [], ◌∷◌, ◌++◌, map, Option, none, some, length, take, take_all, concat, All, All-append,
  length-append, arith, ltb, ltb→ge, ==_iff, ◌==◌, Bool-cases,
}
use mathlib.Core.List.{append-nil, append_assoc, map-append}
use goed2k_server.Base.Int.{ℤ}
use goed2k_server.Base.Text.{Bytes}
use goed2k_server.Protocol.{SharedFileEntry}
use goed2k_server.Datagram.{
  DatagramWriter, max_payload, new_udp_datagram_writer, flush, add, add_block, result_limit,
  cap_results, block, add_results, run_udp_search,
}

-- The blocks of one datagram: one at least, and a single one if they are longer than the limit.
abbrev pub Fits : ℕ → List Bytes → Type 0
Fits max g = (g ≢ []) × ((length (concat g) ≤ max) ⊎ (length g ≡ 1))

-- The datagrams are the blocks in order, each datagram whole blocks that fit.
pub record Packed (max : ℕ) (blocks datagrams : List Bytes) : Type 0 where
  pub groups : List (List Bytes)
  pub joined : datagrams ≡ map concat groups
  pub ordered : concat groups ≡ blocks
  pub fitting : All (Fits max) groups

-- The same while blocks arrive: the blocks of the open group stand in the buffer.
record Partial (max : ℕ) (blocks : List Bytes) (buf : Bytes) (sent : List Bytes) : Type 0 where
  groups : List (List Bytes)
  open_group : List Bytes
  joined : sent ≡ map concat groups
  buffered : buf ≡ concat open_group
  ordered : concat groups ++ open_group ≡ blocks
  fitting : All (Fits max) groups
  open_fitting : (open_group ≡ []) ⊎ (Fits max open_group × (0 < length buf))

concat-append {ℓ} :
    {A : Type ℓ} (xs ys : List (List A)) → concat (xs ++ ys) ≡ concat xs ++ concat ys
concat-append [] ys = refl
concat-append (x ∷ xs) ys = rw (concat-append xs ys) (sym (append_assoc x (concat xs) (concat ys)))

append-ne-nil {ℓ} : {A : Type ℓ} (xs : List A) (x : A) → xs ++ (x ∷ []) ≢ []
append-ne-nil [] x e = cc
append-ne-nil (y ∷ ys) x e = cc

-- The open group is closed, and its datagram goes out.
close :
    {max : ℕ} {blocks : List Bytes} {buf : Bytes} {sent : List Bytes}
    → Partial max blocks buf sent
    → 0 < length buf
    → Partial max blocks [] (sent ++ (buf ∷ []))
close {max} {blocks} {buf} {sent} p h = record {
  groups = p.groups ++ (p.open_group ∷ []);
  open_group = [];
  joined = rw (p.joined, p.buffered) (sym (map-append concat p.groups (p.open_group ∷ [])));
  buffered = refl;
  ordered = rw (append-nil, concat-append p.groups (p.open_group ∷ []), append-nil) p.ordered;
  fitting =
      All-append (Fits max) p.groups (p.open_group ∷ []) p.fitting (closed p.open_fitting, tt);
  open_fitting = inl refl;
}
  where
    closed :
        (p.open_group ≡ []) ⊎ (Fits max p.open_group × (0 < length buf)) → Fits max p.open_group
    closed (inl e) = absurd (omega (arith, ap length (p.buffered ∙ ap concat e)))
    closed (inr f) = f.0

-- A block joins the open group, which stays within the limit or holds that block alone.
join :
    {max : ℕ} {blocks : List Bytes} {buf : Bytes} {sent : List Bytes} (b : Bytes)
    → Partial max blocks buf sent
    → 0 < length b
    → (length buf ≡ 0) ⊎ (length buf + length b ≤ max)
    → Partial max (blocks ++ (b ∷ [])) (buf ++ b) sent
join {max} {blocks} {buf} {sent} b p h room = record {
  groups = p.groups;
  open_group = p.open_group ++ (b ∷ []);
  joined = p.joined;
  buffered = rw (concat-append p.open_group (b ∷ []), append-nil, p.buffered);
  ordered = rw (← append_assoc (concat p.groups) p.open_group (b ∷ []), p.ordered);
  fitting = p.fitting;
  open_fitting = inr (
    (append-ne-nil p.open_group b, small p.open_fitting room),
    omega (arith, length-append buf b),
  );
}
  where
    total : length (concat (p.open_group ++ (b ∷ []))) ≡ length buf + length b
    total =
        rw (concat-append p.open_group (b ∷ []), append-nil, p.buffered)
          (length-append (concat p.open_group) b)

    small :
        (p.open_group ≡ []) ⊎ (Fits max p.open_group × (0 < length buf))
        → (length buf ≡ 0) ⊎ (length buf + length b ≤ max)
        → (length (concat (p.open_group ++ (b ∷ []))) ≤ max)
          ⊎ (length (p.open_group ++ (b ∷ [])) ≡ 1)
    small (inl e) r = inr (rw e)
    small (inr f) (inl z) = absurd (omega arith)
    small (inr f) (inr r) = inl (rw total r)

abbrev PartialWriter : ℕ → List Bytes → DatagramWriter → Type 0
PartialWriter max blocks w = (w.max ≡ max) × Partial max blocks w.buf w.sent

is_full : (n k max : ℕ) → (ltb 0 n && ltb max (n + k)) ≡ true → (0 < n) × ((n == 0) ≡ false)
is_full n k max h = ground arith

has_room : (n k max : ℕ) → (ltb 0 n && ltb max (n + k)) ≡ false → (n ≡ 0) ⊎ (n + k ≤ max)
has_room zero k max h = inl refl
has_room (suc n) k max h = inr (ground arith)

add-PartialWriter :
    (max : ℕ) (blocks : List Bytes) (w : DatagramWriter) (b : Bytes)
    → PartialWriter max blocks w
    → 0 < length b
    → PartialWriter max (blocks ++ (b ∷ [])) (add w b)
unfolding add flush
add-PartialWriter max blocks w b (m, p) h =
    elim (Bool-cases (ltb 0 (length w.buf) && ltb w.max (length w.buf + length b))) [
      | inl f ↦
          let z = is_full (length w.buf) (length b) w.max f in
          rw (f, z.1) (m, join b (close p z.0) h (inl refl))
      | inr f ↦ rw f (m, join b p h (rw m at (has_room (length w.buf) (length b) w.max f)))
    ]

-- An empty buffer leaves no group open.
closed-Packed :
    {max : ℕ} {blocks : List Bytes} {buf : Bytes} {sent : List Bytes}
    → Partial max blocks buf sent
    → length buf ≡ 0
    → Packed max blocks sent
closed-Packed {max} {blocks} {buf} {sent} p z = record {
  groups = p.groups;
  joined = p.joined;
  ordered = rw (none_open p.open_fitting, append-nil) at p.ordered;
  fitting = p.fitting;
}
  where
    none_open : (p.open_group ≡ []) ⊎ (Fits max p.open_group × (0 < length buf)) → p.open_group ≡ []
    none_open (inl n) = n
    none_open (inr f) = absurd (omega arith)

flush-Packed :
    (max : ℕ) (blocks : List Bytes) (w : DatagramWriter)
    → PartialWriter max blocks w
    → Packed max blocks (flush w).sent
unfolding flush
flush-Packed max blocks w (m, p) = elim (Bool-cases (length w.buf == 0)) [
  | inl e ↦ rw e (closed-Packed p ((==_iff _ _).0 e))
  | inr e ↦ rw e (closed-Packed (close p (ground arith)) refl)
]

prepend : Option Bytes → List Bytes → List Bytes
prepend none bs = bs
prepend (some b) bs = b ∷ bs

cap_results-take :
    (limit : ℕ) (results : List SharedFileEntry) → cap_results limit results ≡ take limit results
unfolding cap_results
cap_results-take limit results = elim (Bool-cases (ltb limit (length results))) [
  | inl e ↦ rw e
  | inr e ↦ rw (e, take_all limit results (ltb→ge _ _ e))
]

-- The blocks of the results that encode, in order.
module _ (put : SharedFileEntry → Option Bytes) where
  pub blocks_of : List SharedFileEntry → List Bytes
  unfolding prepend
  blocks_of [] = []
  blocks_of (r ∷ rs) = prepend (block put r) (blocks_of rs)

  NonEmpty : Option Bytes → Type 0
  NonEmpty o = (b : Bytes) → o ≡ some b → 0 < length b

  block-NonEmpty : (r : SharedFileEntry) → NonEmpty (block put r)
  unfolding NonEmpty block
  block-NonEmpty r b e = ground arith

  add_block-PartialWriter :
      (max : ℕ) (blocks : List Bytes) (w : DatagramWriter) (o : Option Bytes) (bs : List Bytes)
      → NonEmpty o
      → PartialWriter max blocks w
      → (done : List Bytes) × PartialWriter max done (add_block w o)
        × (done ++ bs ≡ blocks ++ prepend o bs)
  unfolding add_block prepend NonEmpty
  add_block-PartialWriter max blocks w none bs h p = (blocks, p, refl)
  add_block-PartialWriter max blocks w (some b) bs h p = (
    blocks ++ (b ∷ []),
    add-PartialWriter max blocks w b p (h b refl),
    append_assoc blocks (b ∷ []) bs,
  )

  add_results-PartialWriter :
      (max : ℕ) (rs : List SharedFileEntry) (blocks : List Bytes) (w : DatagramWriter)
      → PartialWriter max blocks w
      → PartialWriter max (blocks ++ blocks_of rs) (add_results put w rs)
  unfolding add_results blocks_of
  add_results-PartialWriter max [] blocks w p = rw append-nil p
  add_results-PartialWriter max (r ∷ rs) blocks w p =
      let (done, q, e) =
        add_block-PartialWriter max blocks w (block put r) (blocks_of rs) (block-NonEmpty r) p in
      rw (← e) (add_results-PartialWriter max rs done (add_block w (block put r)) q)

  -- Every result that encodes goes out once, in order, in a block that stands whole in one
  -- datagram. A datagram holds at most the payload limit, unless it is a single block.
  pub run_udp_search-Packed :
      (max_payload_bytes max_results : ℤ) (pack_many : Bool) (results : List SharedFileEntry)
      → Packed
          (max_payload max_payload_bytes)
          (blocks_of (take (result_limit max_results pack_many) results))
          (run_udp_search put max_payload_bytes max_results pack_many results)
  unfolding run_udp_search new_udp_datagram_writer
  run_udp_search-Packed max_payload_bytes max_results pack_many results =
      rw (← cap_results-take (result_limit max_results pack_many) results) (
        flush-Packed (max_payload max_payload_bytes) _ _ (
          add_results-PartialWriter (max_payload max_payload_bytes)
            (cap_results (result_limit max_results pack_many) results) [] _
            (
              refl,
              record {
                groups = [];
                open_group = [];
                joined = refl;
                buffered = refl;
                ordered = refl;
                fitting = tt;
                open_fitting = inl refl;
              },
            )))
