-- ===== src/Sources.antt =====
-- orderAndCapSources of ed2ksrv/server.go: the order and the number of the sources in a reply.
pub mod Order
pub mod Keys
mod Runs
use goed2k_server.Base.{
  ℕ, ◌≤◌, ◌≡◌, Bool, true, false, not, ◌&&◌, ◌||◌, List, [], ◌∷◌, Option, length, take, All, ltb,
  leb, ◌==◌, if◌then◌else◌,
}
use goed2k_server.Base.Int.{ℤ, pos, negsuc, eqb_ℤ}
use goed2k_server.Base.Sort.{stable_sort}
use goed2k_server.Protocol.{Hash}

-- `client_id` is the bit pattern of the int32.
pub record FoundSourceEntry : Type 0 where
  pub client_id : ℕ
  pub port : ℤ
  pub obfuscation_options : ℕ
  pub user_hash : Option Hash

-- Whether two entries have the key of the set `seen`: the client ID and the port.
abbrev pub same_key : FoundSourceEntry → FoundSourceEntry → Bool
same_key a b = a.client_id == b.client_id && eqb_ℤ a.port b.port

unfoldable pub has_key : FoundSourceEntry → List FoundSourceEntry → Bool
has_key a [] = false
has_key a (b ∷ bs) = same_key a b || has_key a bs

-- The loop that drops duplicate endpoints; `seen` holds the entries kept so far.
unfoldable pub dedup_loop : List FoundSourceEntry → List FoundSourceEntry → List FoundSourceEntry
dedup_loop seen [] = []
dedup_loop seen (s ∷ ss) =
    let dropped = dedup_loop seen ss in
    let kept = s ∷ dedup_loop (s ∷ seen) ss in if has_key s seen then dropped else kept

unfoldable pub dedup : List FoundSourceEntry → List FoundSourceEntry
dedup sources = if ltb 1 (length sources) then dedup_loop [] sources else sources

-- `uint32(ClientID) >= 0x1000000`
unfoldable pub is_high_id : FoundSourceEntry → Bool
is_high_id s = leb 0x1000000 s.client_id

-- The comparison of sort.SliceStable.
abbrev pub high_before_low : FoundSourceEntry → FoundSourceEntry → Bool
high_before_low a b = is_high_id a && not (is_high_id b)

-- A limit of 0 or less, or above 255, is 255.
unfoldable pub source_limit : ℤ → ℕ
source_limit (pos n) = if n == 0 || ltb 255 n then 255 else n
source_limit (negsuc n) = 255

pub order_and_cap_sources : List FoundSourceEntry → ℤ → List FoundSourceEntry
order_and_cap_sources sources max =
    let sorted = stable_sort high_before_low (dedup sources) in
    if ltb (source_limit max) (length sorted) then take (source_limit max) sorted else sorted
