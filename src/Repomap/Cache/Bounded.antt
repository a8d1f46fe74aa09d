-- ===== src/Repomap/Cache/Bounded.antt =====
-- The size of the first tier of examples/valkey-l2-repomap-cache/repomap_cache.py, its counters, and
-- the second call for a content.
use vibes.Common.{
  ℕ, ◌+◌, ◌≤◌, none, some, [], ◌∷◌, length, leb, ◌≡◌, refl, inl, inr, Bool-cases, Option-cases,
  arith, subst,
}
use vibes.Common.Texts.{Text}
use vibes.Repomap.Store.{Store, get, put, pop, length-put, length-pop_first, get-put_self}
use vibes.Repomap.Client.{Client, client_set}
use vibes.Repomap.Record.{RepomapRecord, to_dict}
use vibes.Repomap.Cache.{
  TwoTierRepomapCache, Services, Stats, CacheTier, l1_memory, store_l1, key_of, try_get_l2,
  serve_l2, keep_computed, look_further, look_up, get_repomap, compute_record,
}

abbrev Fits : {F : Type 0} → ℕ → Text → RepomapRecord F → Store (RepomapRecord F) → Type 0
Fits capacity key r l1 = (length l1 ≤ capacity) × (get l1 key ≡ some r)

store_l1-Fits :
    {F : Type 0} (capacity : ℕ) (l1 : Store (RepomapRecord F)) (key : Text) (r : RepomapRecord F)
    {l1' : Store (RepomapRecord F)}
    → length l1 ≤ capacity
    → store_l1 capacity l1 key r ≡ some l1'
    → Fits capacity key r l1'
unfolding store_l1 put
store_l1-Fits capacity [] key r {l1'} h e = elim (Bool-cases (leb capacity 0)) [
  | inl empty ↦ absurd (let x = rw (empty, store_l1) at e in cc x)
  | inr room ↦
      let x = rw (room, store_l1) at e in
      let same : (key, r) ∷ [] ≡ l1' = cc x in
      subst (Fits capacity key r) same (ground arith, get-put_self [] key r)
]
store_l1-Fits capacity ((j, w) ∷ l1) key r {l1'} h e =
    let full : Store (RepomapRecord _) = (j, w) ∷ l1 in
    elim (Bool-cases (leb capacity (length full))) [
      | inl reached ↦
          let x = rw (reached, store_l1) at e in
          let same : put (pop full j) key r ≡ l1' = cc x in
          subst (Fits capacity key r) same (
            omega (arith, length-put (pop full j) key r, length-pop_first j w l1),
            get-put_self (pop full j) key r,
          )
      | inr room ↦
          let x = rw (room, store_l1) at e in
          let same : put full key r ≡ l1' = cc x in
          subst (Fits capacity key r) same
            (ground (arith, length-put full key r), get-put_self full key r)
    ]

-- The calls that were answered.
abbrev pub total : Stats → ℕ
total stats = stats.l1_hits + stats.l2_hits + stats.misses

module _ {S F Tree : Type 0} (services : Services S F Tree) where
  -- What a call leaves behind that was answered: the record is in the first tier, which is no larger
  -- than its capacity, and one counter has gone up by one.
  pub record Served (cache cache' : TwoTierRepomapCache S F) (key : Text) (r : RepomapRecord F)
      : Type 0 where
    pub same_capacity : cache'.l1_capacity ≡ cache.l1_capacity
    pub within : length cache'.l1_cache ≤ cache'.l1_capacity
    pub held : get cache'.l1_cache key ≡ some r
    pub counted : total cache'.stats ≡ total cache.stats + 1

  serve_l2-Served :
      (cache cache' : TwoTierRepomapCache S F) (client : Client S) (key : Text)
      (l2_record r : RepomapRecord F) (tier : CacheTier)
      → length cache.l1_cache ≤ cache.l1_capacity
      → serve_l2 services cache client key l2_record ≡ some (cache', r, tier)
      → Served cache cache' key r
  unfolding serve_l2
  serve_l2-Served cache cache' client key l2_record r tier h e =
      elim (Option-cases (store_l1 cache.l1_capacity cache.l1_cache key l2_record)) [
        | inl bad ↦ absurd (let x = rw (bad, serve_l2) at e in cc x)
        | inr (l1, kept) ↦
            let fits = store_l1-Fits cache.l1_capacity cache.l1_cache key l2_record h kept in
            let x = rw (kept, serve_l2) at e in ground (arith, fits, x)
      ]

  keep_computed-Served :
      (cache cache' : TwoTierRepomapCache S F) (client : Client S) (key : Text)
      (computed r : RepomapRecord F) (tier : CacheTier)
      → length cache.l1_cache ≤ cache.l1_capacity
      → keep_computed services cache client key computed ≡ some (cache', r, tier)
      → Served cache cache' key r
  unfolding keep_computed
  keep_computed-Served cache cache' client key computed r tier h e =
      let set =
        client_set services.utf8 services.network client key (services.dumps (to_dict computed))
          (some 86400) in
      elim (Option-cases (store_l1 cache.l1_capacity cache.l1_cache key computed)) [
        | inl bad ↦ absurd (let x = rw (bad, keep_computed) at e in cc x)
        | inr (l1, kept) ↦
            let x = rw (kept, keep_computed) at e in
            let fits = store_l1-Fits cache.l1_capacity cache.l1_cache key computed h kept in
            elim (Option-cases set) [
              | inl bad ↦ absurd (let y = rw bad at x in cc y)
              | inr (client', done) ↦ let y = rw done at x in ground (arith, fits, y)
            ]
      ]

  look_further-Served :
      (now : F) (cache cache' : TwoTierRepomapCache S F) (path content : Text) (r : RepomapRecord F)
      (tier : CacheTier)
      → length cache.l1_cache ≤ cache.l1_capacity
      → look_further services now cache path content ≡ some (cache', r, tier)
      → Served cache cache' (key_of services (services.sha256 content)) r
  unfolding look_further
  look_further-Served now cache cache' path content r tier h e =
      let key : Text = key_of services (services.sha256 content) in
      elim (Option-cases (try_get_l2 services now cache.valkey key)) [
        | inl bad ↦ absurd (let x = rw (bad, look_further) at e in cc x)
        | inr ((client, some l2_record), found) ↦
            serve_l2-Served cache cache' client key l2_record r tier h
              (rw (found, look_further) at e)
        | inr ((client, none), found) ↦
            let x = rw (found, look_further) at e in
            elim (Option-cases
              (compute_record services now path content (services.sha256 content))) [
                | inl bad ↦ absurd (let y = rw bad at x in cc y)
                | inr (computed, made) ↦
                    keep_computed-Served cache cache' client key computed r tier h (rw made at x)
              ]
      ]

  look_up-Served :
      (now : F) (cache cache' : TwoTierRepomapCache S F) (path content : Text) (r : RepomapRecord F)
      (tier : CacheTier)
      → length cache.l1_cache ≤ cache.l1_capacity
      → look_up services now cache path content ≡ some (cache', r, tier)
      → Served cache cache' (key_of services (services.sha256 content)) r
  unfolding look_up
  look_up-Served now cache cache' path content r tier h e =
      elim (Option-cases (get cache.l1_cache (key_of services (services.sha256 content)))) [
        | inl missing ↦
            look_further-Served now cache cache' path content r tier h (rw (missing, look_up) at e)
        | inr (stored, hit) ↦ let x = rw (hit, look_up) at e in ground (arith, hit, x)
      ]

  -- When the first tier is within its capacity and `get_repomap` returns a record for a content,
  -- the capacity is unchanged, the first tier is within it and has that record under the key of
  -- the content, and the sum of the three counters has grown by one.
  pub get_repomap-Served :
      (now : F) (cache cache' : TwoTierRepomapCache S F) (path content : Text) (r : RepomapRecord F)
      (tier : CacheTier)
      → length cache.l1_cache ≤ cache.l1_capacity
      → get_repomap services now cache path (some content) ≡ some (cache', r, tier)
      → Served cache cache' (key_of services (services.sha256 content)) r
  unfolding get_repomap
  get_repomap-Served now cache cache' path content r tier h e =
      look_up-Served now cache cache' path content r tier h e

  -- The next call for the same content is answered by the first tier, with the same record.
  pub get_repomap-get_repomap :
      (now later : F) (cache cache' : TwoTierRepomapCache S F) (path other content : Text)
      (r : RepomapRecord F) (tier : CacheTier)
      → length cache.l1_cache ≤ cache.l1_capacity
      → get_repomap services now cache path (some content) ≡ some (cache', r, tier)
      → get_repomap services later cache' other (some content)
        ≡ some (
          record cache' { stats = record cache'.stats { l1_hits = cache'.stats.l1_hits + 1 } },
          r,
          l1_memory,
        )
  unfolding get_repomap look_up
  get_repomap-get_repomap now later cache cache' path other content r tier h e =
      let served = get_repomap-Served now cache cache' path content r tier h e in
      rw (served.held, get_repomap, look_up) refl
