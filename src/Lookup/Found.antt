-- ===== src/Lookup/Found.antt =====
-- Which addresses an answer to a source request can have, and which it has.
use goed2k_server.Base.{
  ℕ, ◌≤◌, ◌≡◌, ◌≢◌, refl, sym, ap, ◌∙◌, Bool, true, false, ◌||◌, List, [], ◌∷◌, Option, none, some,
  length, map, ◌==◌, arith, Bool-cases, Option-cases, inl, inr,
}
use goed2k_server.Base.Int.{eqb_ℤ_iff}
use goed2k_server.Base.Maps.{lookup}
use goed2k_server.Base.Tests.{text_eq, nat_eq, none_not_some, some_injective, if_true, if_false}
use goed2k_server.Base.Text.{Bytes}
use goed2k_server.Catalog.{Catalog}
use goed2k_server.Config.{Config}
use goed2k_server.Dynamic.{DynamicSharedFile}
use goed2k_server.Dynamic.Sources.{source, sources_in}
use goed2k_server.Protocol.{Protocol, Hash, Endpoint}
use goed2k_server.Records.{SourceEntry}
use goed2k_server.Server.{Server, ClientSession}
use goed2k_server.Sources.{FoundSourceEntry, same_key, has_key, dedup, source_limit}
use goed2k_server.Sources.Keys.{
  order_and_cap_sources_distinct, order_and_cap_sources_complete, has_key-append,
}
use goed2k_server.Sources.Order.{order_and_cap_sources_shape}
use goed2k_server.Lookup.{
  plain_source, catalog_source, catalog_sources, client_source, client_sources, session_of,
  endpoints_of, by_client_of, sources_all, reply_sources, parse_source_user_hash,
}

true_not_false : true ≢ false
true_not_false e = cc e

same_key_refl : (k : FoundSourceEntry) → same_key k k ≡ true
same_key_refl k = ground (arith, eqb_ℤ_iff k.port k.port)

or_true : (a : Bool) → (a || true) ≡ true
or_true true = refl
or_true false = refl

either_same : (a b : Bool) {c d : Bool} → a ≡ b → c ≡ d → (a || c) ≡ (b || d)
either_same a b e f = rw (e, f) refl

module _ (p : Protocol) where
  abbrev address_is : FoundSourceEntry → Option Endpoint → Bool
  address_is k none = false
  address_is k (some e) = same_key k (plain_source e)

  -- One of the sources parses to the address of `k`.
  abbrev pub gives : FoundSourceEntry → List SourceEntry → Bool
  gives k [] = false
  gives k (s ∷ ss) = address_is k (p.endpoint_from_string s.host s.port) || gives k ss

  -- The catalog or a client gives the file a source with the address of `k`.
  abbrev pub gives_file : FoundSourceEntry → Catalog → Server → Hash → Bool
  gives_file k c s hash =
      gives k (endpoints_of p (lookup (p.hash_string hash) c.by_hash))
      || gives k (map (λ e. e.1) (by_client_of p (lookup (p.hash_string hash) s.dynamic_files)))

  client_source-address :
      (k : FoundSourceEntry) (b : Bool) (o : Option ClientSession) (e : Endpoint)
      → same_key k (client_source p b o e) ≡ same_key k (plain_source e)
  unfolding client_source
  client_source-address k true none e = refl
  client_source-address k true (some client) e = refl
  client_source-address k false none e = refl
  client_source-address k false (some client) e = refl

  client_sources-gives :
      (k : FoundSourceEntry) (s : Server) (b : Bool) (sources : List (ℕ × SourceEntry))
      → has_key k (client_sources p s b sources) ≡ gives k (map (λ e. e.1) sources)
  unfolding client_sources has_key
  client_sources-gives k s b [] = refl
  client_sources-gives k s b ((id, source) ∷ sources) =
      elim (Option-cases (p.endpoint_from_string source.host source.port)) [
        | inl q ↦ rw (q, client_sources) (client_sources-gives k s b sources)
        | inr (e, q) ↦
            rw (q, client_sources)
              (either_same (same_key k (client_source p b (session_of p s id) e))
                (same_key k (plain_source e)) (client_source-address k b (session_of p s id) e)
                (client_sources-gives k s b sources))
      ]

  module _ (hash_from_string : Bytes → Option Hash) where
    catalog_source-address :
        (k : FoundSourceEntry) (b : Bool) (source : SourceEntry) (e : Endpoint)
        → same_key k (catalog_source p hash_from_string b source e) ≡ same_key k (plain_source e)
    unfolding catalog_source
    catalog_source-address k false source e = refl
    catalog_source-address k true source e =
        elim (Option-cases (parse_source_user_hash p hash_from_string source.user_hash)) [
          | inl q ↦ rw (q, catalog_source) refl
          | inr (hash, q) ↦ rw (q, catalog_source) refl
        ]

    catalog_sources-gives :
        (k : FoundSourceEntry) (b : Bool) (sources : List SourceEntry)
        → has_key k (catalog_sources p hash_from_string b sources) ≡ gives k sources
    unfolding catalog_sources has_key
    catalog_sources-gives k b [] = refl
    catalog_sources-gives k b (source ∷ sources) =
        elim (Option-cases (p.endpoint_from_string source.host source.port)) [
          | inl q ↦ rw (q, catalog_sources) (catalog_sources-gives k b sources)
          | inr (e, q) ↦
              rw (q, catalog_sources)
                (either_same (same_key k (catalog_source p hash_from_string b source e))
                  (same_key k (plain_source e)) (catalog_source-address k b source e)
                  (catalog_sources-gives k b sources))
        ]

    -- A plain and an obfuscated request find the same addresses, those that the catalog or a client
    -- gives the file.
    sources_all-gives :
        (k : FoundSourceEntry) (c : Catalog) (s : Server) (hash : Hash) (b : Bool)
        → has_key k (sources_all p hash_from_string c s hash b) ≡ gives_file k c s hash
    unfolding sources_all
    sources_all-gives k c s hash b =
        has_key-append k _ _
        ∙ either_same _ _
            (catalog_sources-gives k b (endpoints_of p (lookup (p.hash_string hash) c.by_hash)))
            (client_sources-gives k s b
              (by_client_of p (lookup (p.hash_string hash) s.dynamic_files)))

    -- An answer, plain or obfuscated, has at most 255 sources and no more than the configured
    -- number, and an address that it has is one that the catalog or a client gives the file.
    pub reply_sources-gives :
        (cfg : Config) (c : Catalog) (s : Server) (hash : Hash) (b : Bool) (k : FoundSourceEntry)
        → has_key k (reply_sources p hash_from_string cfg c s hash b) ≡ true
        → (length (reply_sources p hash_from_string cfg c s hash b)
            ≤ source_limit cfg.max_sources_per_reply)
          × (length (reply_sources p hash_from_string cfg c s hash b) ≤ 255)
          × (gives_file k c s hash ≡ true)
    unfolding reply_sources
    reply_sources-gives cfg c s hash b k h =
        let all = sources_all p hash_from_string c s hash b in
        let (fits, small, high) = order_and_cap_sources_shape all cfg.max_sources_per_reply in
        let (distinct, only) = order_and_cap_sources_distinct all cfg.max_sources_per_reply in
        (
          fits,
          omega (arith, fits, small),
          elim (Bool-cases (gives_file k c s hash)) [
            | inl g ↦ g
            | inr g ↦ absurd (true_not_false (sym h ∙ only k (sources_all-gives k c s hash b ∙ g)))
          ],
        )

    -- If the distinct addresses found are no more than the configured number, then the answer,
    -- plain or obfuscated, has exactly the addresses that the catalog or a client gives the file.
    pub reply_sources_complete :
        (cfg : Config) (c : Catalog) (s : Server) (hash : Hash) (b : Bool) (k : FoundSourceEntry)
        → length (dedup (sources_all p hash_from_string c s hash b))
          ≤ source_limit cfg.max_sources_per_reply
        → has_key k (reply_sources p hash_from_string cfg c s hash b) ≡ gives_file k c s hash
    unfolding reply_sources
    reply_sources_complete cfg c s hash b k room =
        order_and_cap_sources_complete (sources_all p hash_from_string c s hash b)
          cfg.max_sources_per_reply k room
        ∙ sources_all-gives k c s hash b

  -- A client's source of a file that parses gives the file its address.
  gives-lookup :
      (k : FoundSourceEntry) (id : ℕ) (e : SourceEntry) (sources : List (ℕ × SourceEntry))
      → lookup id sources ≡ some e
      → address_is k (p.endpoint_from_string e.host e.port) ≡ true
      → gives k (map (λ x. x.1) sources) ≡ true
  unfolding lookup
  gives-lookup k id e [] h g = absurd (none_not_some h)
  gives-lookup k id e ((j, x) ∷ sources) h g = elim (Bool-cases (j == id)) [
    | inl b ↦
        let same = some_injective x e (sym (if_true _ _ b) ∙ h) in
        ap
          (λ y.
            address_is k (p.endpoint_from_string y.host y.port) || gives k (map (λ x. x.1) sources))
          same
        ∙ either_same _ true g refl
    | inr b ↦
        either_same _ _ refl (gives-lookup k id e sources (sym (if_false _ _ b) ∙ h) g)
        ∙ or_true (address_is k (p.endpoint_from_string x.host x.port))
  ]

  by_client-sources_in : (o : Option DynamicSharedFile) → by_client_of p o ≡ sources_in o
  by_client-sources_in none = refl
  by_client-sources_in (some shared) = refl

  or_last : (a b : Bool) → b ≡ true → (a || b) ≡ true
  or_last a b h = either_same a a refl h ∙ or_true a

  -- A client's source of a file, if its address parses and the distinct addresses are no more than
  -- the configured number, is in the answer to a request for the file.
  pub reply_sources-source :
      (hash_from_string : Bytes → Option Hash) (cfg : Config) (c : Catalog) (s : Server)
      (hash : Hash) (b : Bool) (id : ℕ) (e : SourceEntry) (ep : Endpoint)
      → source s.dynamic_files (p.hash_string hash) id ≡ some e
      → p.endpoint_from_string e.host e.port ≡ some ep
      → length (dedup (sources_all p hash_from_string c s hash b))
        ≤ source_limit cfg.max_sources_per_reply
      → has_key (plain_source ep) (reply_sources p hash_from_string cfg c s hash b) ≡ true
  unfolding source
  reply_sources-source hash_from_string cfg c s hash b id e ep has parses room =
      let shared = lookup (p.hash_string hash) s.dynamic_files in
      let given =
        gives-lookup (plain_source ep) id e (by_client_of p shared)
          (ap (λ l. lookup id l) (by_client-sources_in shared) ∙ has)
          (rw (parses) (same_key_refl (plain_source ep))) in
      reply_sources_complete hash_from_string cfg c s hash b (plain_source ep) room
      ∙ or_last (gives (plain_source ep) (endpoints_of p (lookup (p.hash_string hash) c.by_hash)))
          (gives (plain_source ep) (map (λ x. x.1) (by_client_of p shared))) given
