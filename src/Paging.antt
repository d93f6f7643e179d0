-- ===== src/Paging.antt =====
-- The pages of a search result, of ed2ksrv/server.go: capSearchResults, handleSearch and
-- handleSearchMore. The packet sent is part of the result; statistics are not modelled.
pub mod Pages
pub mod Runs
use goed2k_server.Base.{
  ℕ, ◌+◌, ◌-◌, ◌≡◌, Bool, true, false, not, ◌&&◌, ◌||◌, List, [], ◌∷◌, length, take, drop, ◌==◌,
  ltb, leb, if◌then◌else◌, min,
}
use goed2k_server.Base.Int.{ℤ, pos, negsuc, is_positive}
use goed2k_server.Protocol.{SharedFileEntry}
use goed2k_server.Server.{ClientSession}

-- serverproto.SearchResult
pub record SearchResult : Type 0 where
  pub results : List SharedFileEntry
  pub more_results : Bool

-- A maximum that is not positive is no limit.
unfoldable pub cap_search_results : List SharedFileEntry → ℤ → List SharedFileEntry
cap_search_results results (pos max) =
    if ltb 0 max && ltb max (length results) then take max results else results
cap_search_results results (negsuc max) = results

abbrev no_results : SearchResult
no_results = record { results = []; more_results = false }

unfoldable pub page_end : ℕ → ClientSession → ℕ
page_end batch client =
    let end = client.search_offset + batch in
    if ltb (length client.search_result) end then length client.search_result else end

-- Config.Normalize leaves a positive batch size.
unfoldable pub handle_search_more : ℕ → ClientSession → SearchResult × ClientSession
unfolding page_end
handle_search_more batch client =
    let end = page_end batch client in
    if length client.search_result == 0 || leb (length client.search_result) client.search_offset
    then (no_results, client)
    else (
      record {
        results =
            take (end - client.search_offset) (drop client.search_offset client.search_result);
        more_results = ltb end (length client.search_result);
      },
      record client { search_offset = end },
    )

-- `found` is what searchAll gives for the query. A session that has not logged in gets an empty
-- answer.
unfoldable pub handle_search :
    ℤ → ℕ → List SharedFileEntry → ClientSession → SearchResult × ClientSession
unfolding cap_search_results handle_search_more
handle_search max batch found client =
    if client.assigned_id == 0
    then (no_results, client)
    else handle_search_more batch
        (record client { search_result = cap_search_results found max; search_offset = 0 })
