-- ===== src/Lib.antt =====
-- A verification library for goed2k-server, an eD2k/eMule server written in Go. The code is the package
-- ed2ksrv; clients reach it over TCP (ed2ksrv/server.go) and UDP (ed2ksrv/udp_search.go).
--
-- The parts and how they interact:
-- * ed2ksrv/catalog.go, the static files with a trigram index: Catalog, with Catalog.Trigrams and
--   Catalog.Index for the index, Catalog.Candidates, Catalog.FullScan and Catalog.Missed for Search, and
--   Catalog.Consistency for Upsert, Delete and ReplaceAll. The record of the model has the fields of the
--   struct; Get, Upsert, Delete, ReplaceAll, Search are get, upsert, remove, replace_all, search.
-- * ed2ksrv/protocol.go, the matching of a search expression: Search (SearchExpr has a constructor for each
--   node type, match_expr is its match, matches_record is SearchQuery.match), and Search.Summary for the
--   summary that the catalog's index reads.
-- * ed2ksrv/protocol.go, the parser of search requests: Parser, with Parser.Terms for what its two forms
--   share, Parser.Prefix and Parser.Legacy for the forms, and Parser.Request for their choice
--   (ParseSearchRequestLimited). Parser.Printer writes the prefix form, Parser.RoundTrip reads it back,
--   Parser.Supported says what a parsed expression can be, and Parser.Rounds that the legacy loop ends.
-- * ed2ksrv/server.go, the files that connected clients share: Dynamic (add_dynamic and remove_dynamic are
--   addDynamicLocked and removeDynamicLocked), and Dynamic.Sources for who shares what.
-- * ed2ksrv/server.go, the client registry: Server. A session is a Go pointer, so sessions stand in a store
--   by address, and the registry maps a client ID to an address. Server.Ids is about allocateClientID,
--   Server.Offers and Server.Merging about mergeClientOfferedFiles, Server.Departure about
--   unregisterClient, Server.Logins about handleLogin; Server.Invariant states how the registry, the
--   sessions and the shared files agree, and Server.Steps has the steps of the registry in any order, with
--   Server.Steps.Caps for the cap on a client's files and Server.Steps.Counter for the counter of IDs.
-- * ed2ksrv/offerfiles.go, ed2ksrv/text.go and handleOfferFiles of ed2ksrv/server.go, the announcement of a
--   client's files: Offering makes a record of an entry, Offering.Origin the source, Offering.Packet is the
--   packet, Offering.Display the text of a login, and Offering.Handler the handler, which hands its records
--   to mergeClientOfferedFiles. Offering.Valid is about the records, Offering.Outcome about the server after it.
-- * ed2ksrv/server.go, the look-up in the catalog and in the clients' files: Lookup (sourcesAll, searchAll,
--   handleGetSources, its order and cap from Sources), with Lookup.Found for what an answer has.
-- * ed2ksrv/udp_limit.go, the rate limiter: Limiter, with Limiter.Buckets for one bucket and Limiter.Bounds for a
--   run of packets. Tokens are whole billionths where the code has float64.
-- * ed2ksrv/server_udp.go and the handlers of ed2ksrv/udp_search.go, the UDP service: Udp. Udp.State is what a
--   datagram can change, Udp.Dispatch the switch on the opcode with the limiter before it and the search
--   workers; Udp.Replies, Udp.Callback, Udp.Search and Udp.GetSources are the handlers. They use Limiter,
--   Peers, Parser, Lookup and Datagram. Udp.Safety is about every datagram, Udp.Relay about callbacks, and
--   Udp.Rounds about the loop over the files of a source request.
-- * ed2ksrv/server.go, the pages of a TCP search: Paging (handleSearch, handleSearchMore).
-- * ed2ksrv/server.go, the order and cap of a source reply: Sources (orderAndCapSources).
-- * ed2ksrv/udp_search.go, the datagrams of a UDP search reply: Datagram (udpDatagramWriter, runUDPSearch).
-- * ed2ksrv/peer_registry.go and buildServerListBody of ed2ksrv/server.go, the other servers: Peers, with
--   Peers.ListBody for the server list and Peers.Registry for the registry.
-- * ed2ksrv/id_change_extended.go, the packet that answers a login: IdChange, with IdChange.RoundTrip.
-- * ed2ksrv/audit.go, the log of admin events: Audit, with Audit.Recent.
-- * ed2ksrv/config.go, the configuration: Config (Normalize).
-- Wire holds the dependency's readers and writers of integers. Protocol, Records and Samples hold the
-- dependency's types, the records that the parts share, and concrete parameters for the runs; Base holds
-- lists, maps, texts (with UTF-8) and integers over the native numbers.
--
-- Parameters: the functions of github.com/monkeyWie/goed2k (hashes, endpoints, tag numbers, encodings), the
-- Unicode case tables of package strings, the GB18030 decoder of golang.org/x/text, and the functions of
-- packages net and strconv. What a theorem relies on there is a named hypothesis, such as HashLaws.
--
-- Bounds and fuel: an int32 or uint32 is its bit pattern below 2^32, and additions wrap around where the
-- code's do. The loop of allocateClientID runs on fuel, one round more than the registry has entries,
-- which is enough since an entry holds one ID; within 65000 logins its counter does not wrap around. The
-- prefix parser recurs on the levels that maxDepth leaves, and the loop of the legacy parser on as many
-- rounds as there are bytes, of which a round takes two; the loop of a UDP source request on one round
-- more than there are bytes, of which a round takes sixteen. All other loops are by recursion on what
-- they walk over.
--
-- A Go map is an association list, and where the code walks over a map, the order of the list stands for
-- the order that Go picks. Mutexes are not modelled: an operation is one step.
--
-- Not modelled: TCP sockets and frames, the UDP socket and the pings of peers, obfuscation, statistics, the
-- admin API and its pages, packet traces, and the stores behind Load and Save.
pub mod Wire
pub mod Base
pub mod Protocol
pub mod Records
pub mod Samples
pub mod Sources
pub mod Datagram
pub mod Search
pub mod Catalog
pub mod Dynamic
pub mod Parser
pub mod Server
pub mod Peers
pub mod IdChange
pub mod Audit
pub mod Offering
pub mod Lookup
pub mod Limiter
pub mod Udp
pub mod Paging
pub mod Config
