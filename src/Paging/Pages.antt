-- ===== src/Paging/Pages.antt =====
-- The pages together are the capped result.
use goed2k_server.Base.{
  ℕ, zero, suc, ◌+◌, ◌-◌, ◌≤◌, ◌<◌, ◌≡◌, ◌≢◌, refl, sym, ap, ◌∙◌, true, false, ◌||◌, List, [], ◌∷◌,
  ◌++◌, length, take, drop, take-append-drop, drop-drop, take_all, length-drop, ◌==◌, ltb, leb,
  if◌then◌else◌, arith, Bool-cases, inl, inr,
}
use goed2k_server.Base.Int.{ℤ}
use goed2k_server.Base.Tests.{nat_eq, ne→beq, leb→le, ltb→ge, if_true, if_false}
use goed2k_server.Protocol.{SharedFileEntry}
use goed2k_server.Server.{ClientSession}
use goed2k_server.Paging.{
  SearchResult, cap_search_results, page_end, handle_search_more, handle_search,
}

-- The results of this answer and of `n` more requests while the answers say that there are more.
pub rest_of : ℕ → ℕ → SearchResult × ClientSession → List SharedFileEntry
rest_of batch zero (page, client) = page.results
rest_of batch (suc n) (page, client) =
    let rest = rest_of batch n (handle_search_more batch client) in
    if page.more_results then page.results ++ rest else page.results

take-drop :
    (xs : List SharedFileEntry) (a b : ℕ)
    → a ≤ b
    → take (b - a) (drop a xs) ++ drop b xs ≡ drop a xs
take-drop xs a b h =
    ap (λ r. take (b - a) (drop a xs) ++ r) (drop-drop xs a b (b - a) (omega arith))
    ∙ take-append-drop (b - a) (drop a xs)

drop_all : (xs : List SharedFileEntry) (n : ℕ) → length xs ≤ n → drop n xs ≡ []
drop_all [] zero h = refl
drop_all [] (suc n) h = refl
drop_all (x ∷ xs) zero h = absurd (omega arith)
drop_all (x ∷ xs) (suc n) h = drop_all xs n (omega arith)

abbrev page : ℕ → ClientSession → SearchResult
page end client = record {
  results = take (end - client.search_offset) (drop client.search_offset client.search_result);
  more_results = ltb end (length client.search_result);
}

page_end-bounds :
    (batch : ℕ) (client : ClientSession)
    → 1 ≤ batch
    → client.search_offset < length client.search_result
    → (client.search_offset < page_end batch client)
      × (page_end batch client ≤ length client.search_result)
unfolding page_end
page_end-bounds batch client b h = ground arith

none_left :
    (client : ClientSession)
    → length client.search_result ≤ client.search_offset
    → (length client.search_result == 0 || leb (length client.search_result) client.search_offset)
      ≡ true
none_left client h = ground arith

some_left :
    (client : ClientSession)
    → client.search_offset < length client.search_result
    → (length client.search_result == 0 || leb (length client.search_result) client.search_offset)
      ≡ false
some_left client h = ground arith

more_done :
    (batch : ℕ) (client : ClientSession)
    → length client.search_result ≤ client.search_offset
    → handle_search_more batch client ≡ (record { results = []; more_results = false }, client)
unfolding handle_search_more
more_done batch client h = if_true _ _ (none_left client h)

more_page :
    (batch : ℕ) (client : ClientSession)
    → client.search_offset < length client.search_result
    → handle_search_more batch client ≡ (
      page (page_end batch client) client,
      record client { search_offset = page_end batch client },
    )
unfolding handle_search_more
more_page batch client h = if_false _ _ (some_left client h)

pub rest_of-more :
    (batch n : ℕ) (client : ClientSession)
    → 1 ≤ batch
    → length client.search_result ≤ client.search_offset + n
    → rest_of batch n (handle_search_more batch client)
      ≡ drop client.search_offset client.search_result
unfolding rest_of
rest_of-more batch zero client b l =
    rw (more_done batch client (omega arith))
      (sym (drop_all client.search_result client.search_offset (omega arith)))
rest_of-more batch (suc n) client b l =
    elim (Bool-cases (leb (length client.search_result) client.search_offset)) [
      | inl d ↦
          rw (more_done batch client (leb→le _ _ d))
            (sym (drop_all client.search_result client.search_offset (leb→le _ _ d)))
      | inr d ↦
          let (further, within) = page_end-bounds batch client b (ground (arith, d)) in
          let end = page_end batch client in
          let shown =
            take (end - client.search_offset) (drop client.search_offset client.search_result) in
          let rest = rest_of-more batch n (record client { search_offset = end }) b (omega arith) in
          rw (more_page batch client (ground (arith, d)))
            (elim (Bool-cases (ltb end (length client.search_result))) [
              | inl m ↦
                  if_true _ _ m
                  ∙ ap (λ r. shown ++ r) rest
                  ∙ take-drop client.search_result client.search_offset end (omega arith)
              | inr m ↦
                  if_false _ _ m
                  ∙ take_all (end - client.search_offset)
                      (drop client.search_offset client.search_result)
                      (omega (
                        arith,
                        ltb→ge end (length client.search_result) m,
                        length-drop client.search_offset client.search_result,
                      ))
            ])
    ]

-- A client that is logged in and asks for the next page while the answers say that there is one
-- gets the capped result in order, without a gap and without a repetition: with a positive batch
-- size, as many requests as there are results are enough, and further ones add nothing.
pub handle_search-pages :
    (max : ℤ) (batch n : ℕ) (found : List SharedFileEntry) (client : ClientSession)
    → 1 ≤ batch
    → client.assigned_id ≢ 0
    → length (cap_search_results found max) ≤ n
    → rest_of batch n (handle_search max batch found client) ≡ cap_search_results found max
unfolding handle_search
handle_search-pages max batch n found client b login l = rw (ne→beq client.assigned_id 0 login) (
    rest_of-more batch n
      (record client { search_result = cap_search_results found max; search_offset = 0 }) b
      (omega (arith, l)))
