-- ===== src/Repomap/Cache.antt =====
-- `TwoTierRepomapCache` of
-- examples/valkey-l2-repomap-cache/repomap_cache.py.
pub mod Bounded
pub mod Tier
pub mod Fallback
pub mod Protocol
pub mod Server
pub mod Coherent
use vibes.Common.{
  ℕ, suc, ◌+◌, Bool, true, false, Option, none, some, List, [], ◌∷◌, ◌++◌, length, leb,
  if◌then◌else◌,
}
use vibes.Common.Texts.{Text, codes}
use vibes.Repomap.Resp.{Bytes, Utf8}
use vibes.Repomap.Store.{Store, get, put, pop}
use vibes.Repomap.Client.{Client, Network, client_get, client_set}
use vibes.Repomap.Json.{Json}
use vibes.Repomap.Record.{AstSymbol, RepomapRecord, loaded, malformed, uncaught, to_dict, from_dict}

pub data CacheTier : Type 0 where
  l1_memory l2_valkey miss_computed : CacheTier

pub record Stats : Type 0 where
  pub l1_hits : ℕ
  pub l2_hits : ℕ
  pub misses : ℕ

pub record TwoTierRepomapCache (S F : Type 0) : Type 0 where
  pub valkey : Client S
  pub l1_capacity : ℕ
  pub l1_cache : Store (RepomapRecord F)
  pub stats : Stats

-- What the cache calls: the digest, the file, `json` with its JSONDecodeError, the parser with its SyntaxError, the visitors of
-- the tree, the clock.
pub record Services (S F Tree : Type 0) : Type 0 where
  pub utf8 : Utf8
  pub network : Network S
  pub sha256 : Text → Text
  pub read_text : Text → Option Text
  pub dumps : Json F → Text
  pub loads : Text → Option (Json F)
  pub parse : Text → Option Tree
  pub extract_symbols : Tree → List AstSymbol
  pub count_lines : Text → ℕ
  pub compute_embedding : Tree → ℕ → List F

abbrev pub new_cache : {S F : Type 0} → Client S → ℕ → TwoTierRepomapCache S F
new_cache client capacity = record {
  valkey = client;
  l1_capacity = capacity;
  l1_cache = [];
  stats = record { l1_hits = 0; l2_hits = 0; misses = 0 };
}

abbrev or_read : Option Text → Option Text → Option Text
or_read (some source_code) read = some source_code
or_read none read = read

-- The oldest entry goes first; of an empty dictionary there is none, and `next` raises.
unfoldable pub store_l1 :
    {F : Type 0}
    → ℕ
    → Store (RepomapRecord F)
    → Text
    → RepomapRecord F
    → Option (Store (RepomapRecord F))
unfolding put pop
store_l1 l1_capacity [] key r = if leb l1_capacity 0 then none else some ((key, r) ∷ [])
store_l1 l1_capacity ((oldest_key, oldest) ∷ l1_cache) key r =
    let full = (oldest_key, oldest) ∷ l1_cache in
    if leb l1_capacity (length full)
    then some (put (pop full oldest_key) key r)
    else some (put full key r)

module _ {S F Tree : Type 0} (services : Services S F Tree) where
  open services use {utf8, network, sha256, read_text, dumps, loads, parse}

  -- What `json.loads` and `from_dict` make of the text that the client has.
  unfoldable pub hydrate : F → Client S → Option Text → Option (Client S × Option (RepomapRecord F))
  unfolding from_dict
  hydrate now client none = some (client, none)
  hydrate now client (some []) = some (client, none)
  hydrate now client (some (c ∷ cached_json)) = elim (loads (c ∷ cached_json)) [
    | none ↦ some (client, none)
    | some input ↦ elim (from_dict now input) [
      | loaded record_read ↦ some (client, some record_read)
      | malformed ↦ some (client, none)
      | uncaught ↦ none
    ]
  ]

  -- `none` is an exception; the state that it leaves is not modelled.
  unfoldable pub try_get_l2 : F → Client S → Text → Option (Client S × Option (RepomapRecord F))
  unfolding client_get hydrate
  try_get_l2 now client cache_key = elim (client_get utf8 network client cache_key) [
    | none ↦ none
    | some (client', cached_json) ↦ hydrate now client' cached_json
  ]

  unfoldable pub compute_record : F → Text → Text → Text → Option (RepomapRecord F)
  compute_record now file_path content digest = elim (parse content) [
    | none ↦ none
    | some tree ↦
        let lines = services.count_lines content in
        some (record {
          file_path = file_path;
          content_sha256 = digest;
          symbols = services.extract_symbols tree;
          line_count = lines;
          embedding = services.compute_embedding tree lines;
          timestamp = now;
        })
  ]

  abbrev pub key_of : Text → Text
  key_of digest = codes "repomap:" ++ digest

  abbrev pub Answer : Type 0
  Answer = Option (TwoTierRepomapCache S F × RepomapRecord F × CacheTier)

  -- The branch of a record that the second tier has.
  unfoldable pub serve_l2 : TwoTierRepomapCache S F → Client S → Text → RepomapRecord F → Answer
  unfolding store_l1
  serve_l2 cache client cache_key l2_record =
      elim (store_l1 cache.l1_capacity cache.l1_cache cache_key l2_record) [
        | none ↦ none
        | some l1 ↦
            let stats = record cache.stats { l2_hits = cache.stats.l2_hits + 1 } in
            some
              (record cache { valkey = client; l1_cache = l1; stats = stats }, l2_record, l2_valkey)
      ]

  -- The end of the branch of a miss, once the record is computed.
  unfoldable pub keep_computed :
      TwoTierRepomapCache S F → Client S → Text → RepomapRecord F → Answer
  unfolding store_l1 client_set to_dict
  keep_computed cache client cache_key r =
      elim (store_l1 cache.l1_capacity cache.l1_cache cache_key r) [
        | none ↦ none
        | some l1 ↦
            elim (client_set utf8 network client cache_key (dumps (to_dict r)) (some 86400)) [
              | none ↦ none
              | some (client', done) ↦
                  let stats = record cache.stats { misses = cache.stats.misses + 1 } in
                  some (
                    record cache { valkey = client'; l1_cache = l1; stats = stats },
                    r,
                    miss_computed,
                  )
            ]
      ]

  -- From the second tier on.
  unfoldable pub look_further : F → TwoTierRepomapCache S F → Text → Text → Answer
  unfolding try_get_l2 serve_l2 keep_computed compute_record
  look_further now cache file_path content =
      let digest = sha256 content in
      elim (try_get_l2 now cache.valkey (key_of digest)) [
        | none ↦ none
        | some (client, some l2_record) ↦ serve_l2 cache client (key_of digest) l2_record
        | some (client, none) ↦ elim (compute_record now file_path content digest) [
          | none ↦ none
          | some r ↦ keep_computed cache client (key_of digest) r
        ]
      ]

  -- `get_repomap` from the content on.
  unfoldable pub look_up : F → TwoTierRepomapCache S F → Text → Text → Answer
  unfolding get look_further
  look_up now cache file_path content = elim (get cache.l1_cache (key_of (sha256 content))) [
    | some r ↦
        let stats = record cache.stats { l1_hits = cache.stats.l1_hits + 1 } in
        some (record cache { stats = stats }, r, l1_memory)
    | none ↦ look_further now cache file_path content
  ]

  unfoldable pub get_repomap : F → TwoTierRepomapCache S F → Text → Option Text → Answer
  unfolding look_up
  get_repomap now cache file_path source_code = elim (or_read source_code (read_text file_path)) [
    | none ↦ none
    | some content ↦ look_up now cache file_path content
  ]
