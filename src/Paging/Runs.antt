-- ===== src/Paging/Runs.antt =====
-- A search of three results in pages of two.
use goed2k_server.Base.{ℕ, ◌≡◌, List, [], ◌∷◌, none, arith}
use goed2k_server.Base.Int.{pos}
use goed2k_server.Protocol.{SharedFileEntry}
use goed2k_server.Server.{ClientSession}
use goed2k_server.Server.Steps.{new_session}
use goed2k_server.Paging.{cap_search_results, handle_search}
use goed2k_server.Paging.Pages.{rest_of, handle_search-pages}

abbrev entry : ℕ → SharedFileEntry
entry n = record { hash = n ∷ []; tags = []; client_id = 0; port = 0 }

abbrev found : List SharedFileEntry
found = entry 1 ∷ entry 2 ∷ entry 3 ∷ entry 4 ∷ []

abbrev client : ClientSession
client = record (new_session none) { assigned_id = 5 }

handle_search-pages_example :
    rest_of 2 3 (handle_search (pos 3) 2 found client) ≡ cap_search_results found (pos 3)
unfolding cap_search_results
handle_search-pages_example =
    handle_search-pages (pos 3) 2 3 found client (omega arith) (λ e. absurd (omega (arith, e)))
      (omega arith)
