-- ===== src/Repomap/Cache/Coherent.antt =====
-- Where the records of examples/valkey-l2-repomap-cache/repomap_cache.py come from, over a second
-- tier that can be trusted.
use vibes.Common.{
  ◌+◌, ◌≤◌, Option, none, some, [], ◌∷◌, ◌≡◌, refl, ap, ◌∙◌, ◌⊎◌, inl, inr, Option-cases, All,
}
use vibes.Common.Texts.{Text}
use vibes.Repomap.Store.{get, All-get}
use vibes.Repomap.Client.{Client}
use vibes.Repomap.Cache.{
  TwoTierRepomapCache, Services, CacheTier, l1_memory, l2_valkey, miss_computed, key_of, hydrate,
  try_get_l2, serve_l2, keep_computed, look_further, look_up, get_repomap, compute_record, Answer,
}
use vibes.Repomap.Resp.{IsAscii, IsScalar, IsAscii-IsScalar}
use vibes.Repomap.Json.{Json}
use vibes.Repomap.Record.{RepomapRecord, to_dict}
use vibes.Repomap.Record.Hydrated.{from_dict-to_dict}
use vibes.Repomap.Cache.Tier.{
  IsComputed, IsSerialized, IsGenuine, SecondTier, store_l1_returns, store_l1-All,
}

module _ {S F Tree : Type 0} (services : Services S F Tree) (Trusted : Client S → Type 0) where
  -- Every record in the first tier was computed, and the second can be trusted.
  pub record Coherent (cache : TwoTierRepomapCache S F) : Type 0 where
    pub first_tier : All (λ e. IsComputed services e.0 e.1) cache.l1_cache
    pub second_tier : Trusted cache.valkey

  -- JSON reads back the dictionary of a record that was computed, and writes ASCII, and a digest is
  -- hexadecimal.
  module _ (tier_two : SecondTier services Trusted)
      (reads_back : (key : Text) (r : RepomapRecord F)
        → IsComputed services key r
        → services.loads (services.dumps (to_dict r)) ≡ some (to_dict r))
      (ascii : (v : Json F) → IsAscii (services.dumps v))
      (hexadecimal : (content : Text) → IsAscii (services.sha256 content)) where
    hydrate-Serialized :
        (now : F) (client : Client S) (key s : Text)
        → IsSerialized services key s
        → (hydrate services now client (some s) ≡ some (client, none))
          ⊎ ((r : RepomapRecord F) × (hydrate services now client (some s) ≡ some (client, some r))
              × IsComputed services key r)
    unfolding hydrate
    hydrate-Serialized now client key [] h = inl refl
    hydrate-Serialized now client key (c ∷ s) (r, same, made) =
        let read : services.loads (c ∷ s) ≡ some (to_dict r) =
          ap services.loads same ∙ reads_back key r made in
        inr (r, rw (read, hydrate) (rw (from_dict-to_dict F now r) refl), made)

    hydrate-none :
        (now : F) (client : Client S) → hydrate services now client none ≡ some (client, none)
    unfolding hydrate
    hydrate-none now client = refl

    hydrate-Genuine :
        (now : F) (client : Client S) (key : Text) (cached : Option Text)
        → IsGenuine services key cached
        → (hydrate services now client cached ≡ some (client, none))
          ⊎ ((r : RepomapRecord F) × (hydrate services now client cached ≡ some (client, some r))
              × IsComputed services key r)
    hydrate-Genuine now client key none h = inl (hydrate-none now client)
    hydrate-Genuine now client key (some s) h = hydrate-Serialized now client key s h

    -- What the second tier has is nothing, or a record that was computed.
    try_get_l2_cases :
        (now : F) (client : Client S) (key : Text)
        → Trusted client
        → IsScalar key
        → (client' : Client S) × Trusted client'
          × ((try_get_l2 services now client key ≡ some (client', none))
              ⊎ ((r : RepomapRecord F) × (try_get_l2 services now client key
                    ≡ some (client', some r))
                  × IsComputed services key r))
    unfolding try_get_l2
    try_get_l2_cases now client key trusted scalar =
        let (client', cached, got, kept, genuine) = tier_two.answers client key trusted scalar in
        let read : try_get_l2 services now client key ≡ hydrate services now client' cached =
          rw (got, try_get_l2) refl in
        (
          client',
          kept,
          elim (hydrate-Genuine now client' key cached genuine) [
            | inl empty ↦ inl (read ∙ empty)
            | inr (r, full, made) ↦ inr (r, read ∙ full, made)
          ],
        )

    -- An answer to a call for a content under this key, with what it leaves behind.
    abbrev Good : Text → Answer services → Type 0
    Good key answer =
        (cache : TwoTierRepomapCache S F) × (r : RepomapRecord F) × (tier : CacheTier) × (answer
          ≡ some (cache, r, tier))
        × IsComputed services key r
        × Coherent cache

    serve_l2-Good :
        (cache : TwoTierRepomapCache S F) (client : Client S) (key : Text) (r : RepomapRecord F)
        → Coherent cache
        → Trusted client
        → 1 ≤ cache.l1_capacity
        → IsComputed services key r
        → Good key (serve_l2 services cache client key r)
    unfolding serve_l2
    serve_l2-Good cache client key r ok trusted room made =
        let (l1, kept) = store_l1_returns services cache.l1_capacity cache.l1_cache key r room in
        let all =
          store_l1-All services (IsComputed services) cache.l1_capacity cache.l1_cache l1 key r
            ok.first_tier made kept in
        (
          record cache {
            valkey = client;
            l1_cache = l1;
            stats = record cache.stats { l2_hits = cache.stats.l2_hits + 1 };
          },
          r,
          l2_valkey,
          rw (kept, serve_l2) refl,
          made,
          record { first_tier = all; second_tier = trusted },
        )

    -- The key of a digest has no surrogates.
    key_of-IsScalar : (content : Text) → IsScalar (key_of services (services.sha256 content))
    key_of-IsScalar content =
        let digest = IsAscii-IsScalar (services.sha256 content) (hexadecimal content) in
        (refl, (refl, (refl, (refl, (refl, (refl, (refl, (refl, digest))))))))

    keep_computed-Good :
        (cache : TwoTierRepomapCache S F) (client : Client S) (key : Text) (r : RepomapRecord F)
        → Coherent cache
        → Trusted client
        → 1 ≤ cache.l1_capacity
        → IsScalar key
        → IsComputed services key r
        → Good key (keep_computed services cache client key r)
    unfolding keep_computed
    keep_computed-Good cache client key r ok trusted room scalar made =
        let (l1, kept) = store_l1_returns services cache.l1_capacity cache.l1_cache key r room in
        let all =
          store_l1-All services (IsComputed services) cache.l1_capacity cache.l1_cache l1 key r
            ok.first_tier made kept in
        let (client', done, set, still) =
          tier_two.stores client key (services.dumps (to_dict r)) (some 86400) trusted scalar
            (IsAscii-IsScalar (services.dumps (to_dict r)) (ascii (to_dict r))) (r, refl, made) in
        (
          record cache {
            valkey = client';
            l1_cache = l1;
            stats = record cache.stats { misses = cache.stats.misses + 1 };
          },
          r,
          miss_computed,
          rw (kept, keep_computed) (rw set refl),
          made,
          record { first_tier = all; second_tier = still },
        )

    -- The record of a content that parses.
    abbrev fresh : F → Text → Text → Tree → RepomapRecord F
    fresh now path content tree = record {
      file_path = path;
      content_sha256 = services.sha256 content;
      symbols = services.extract_symbols tree;
      line_count = services.count_lines content;
      embedding = services.compute_embedding tree (services.count_lines content);
      timestamp = now;
    }

    computed_now :
        (now : F) (path content : Text) {tree : Tree}
        → services.parse content ≡ some tree
        → compute_record services now path content (services.sha256 content)
          ≡ some (fresh now path content tree)
    unfolding compute_record
    computed_now now path content parsed = rw (parsed, compute_record) refl

    -- Over a second tier that can be trusted (for keys and texts without surrogates it answers
    -- with nothing or the text of a record computed from a content with the digest of the key,
    -- and stays so), with every record in the first tier computed likewise, with JSON reading
    -- back the dictionary that `to_dict` makes of such a record and writing ASCII, and with
    -- digests in ASCII: with room for one entry and a content that parses, `get_repomap` returns
    -- a record that `_compute_record` gives for some content with the digest of this one,
    -- whatever the tier, and the cache is coherent again.
    pub get_repomap-Coherent :
        (now : F) (cache : TwoTierRepomapCache S F) (path content : Text) {tree : Tree}
        → Coherent cache
        → 1 ≤ cache.l1_capacity
        → services.parse content ≡ some tree
        → (cache' : TwoTierRepomapCache S F) × (r : RepomapRecord F) × (tier : CacheTier)
          × (get_repomap services now cache path (some content) ≡ some (cache', r, tier))
          × IsComputed services (key_of services (services.sha256 content)) r
          × Coherent cache'
    unfolding get_repomap look_up look_further
    get_repomap-Coherent now cache path content ok room parsed =
        let key : Text = key_of services (services.sha256 content) in
        elim (Option-cases (get cache.l1_cache key)) [
          | inl missing ↦
              let scalar = key_of-IsScalar content in
              let (client, trusted, cases) =
                try_get_l2_cases now cache.valkey key ok.second_tier scalar in
              elim cases [
                | inl empty ↦
                    let made = computed_now now path content parsed in
                    let (cache', r, tier, answer, from, good) =
                      keep_computed-Good cache client key _ ok trusted room scalar
                        (now, path, content, made, refl) in
                    (
                      cache',
                      r,
                      tier,
                      rw (missing, get_repomap, look_up)
                          (rw (empty, look_further) (rw made answer)),
                      from,
                      good,
                    )
                | inr (l2_record, found, made) ↦
                    let (cache', r, tier, answer, from, good) =
                      serve_l2-Good cache client key l2_record ok trusted room made in
                    (
                      cache',
                      r,
                      tier,
                      rw (missing, get_repomap, look_up) (rw (found, look_further) answer),
                      from,
                      good,
                    )
              ]
          | inr (stored, hit) ↦ (
            record cache { stats = record cache.stats { l1_hits = cache.stats.l1_hits + 1 } },
            stored,
            l1_memory,
            rw (hit, get_repomap, look_up) refl,
            All-get (IsComputed services) cache.l1_cache key stored ok.first_tier hit,
            record { first_tier = ok.first_tier; second_tier = ok.second_tier },
          )
        ]
