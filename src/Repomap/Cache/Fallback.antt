-- ===== src/Repomap/Cache/Fallback.antt =====
-- The fallback store of examples/valkey-l2-repomap-cache/repomap_cache.py as a second tier.
use vibes.Common.{sym, ℕ, true, false, Option, some, ◌≡◌, inl, inr, Option-cases, subst, All}
use vibes.Common.Texts.{Text}
use vibes.Repomap.Store.{Store, get, put, All-put, All-get}
use vibes.Repomap.Client.{Client, client_get, client_set}
use vibes.Repomap.Cache.{Services}
use vibes.Repomap.Cache.Tier.{if_false, IsSerialized, IsGenuine, SecondTier}

module _ {S F Tree : Type 0} (services : Services S F Tree) where
  -- A client without a server, with records that were computed in its store.
  abbrev pub IsLocal : Client S → Type 0
  IsLocal client =
      (client.is_connected ≡ false) × All (λ e. IsSerialized services e.0 e.1) client.fallback_store

  client_get_offline :
      (client : Client S) (key : Text)
      → client.is_connected ≡ false
      → client_get services.utf8 services.network client key
        ≡ some (client, get client.fallback_store key)
  unfolding client_get
  client_get_offline client key off = if_false client.is_connected _ _ off

  client_set_offline :
      (client : Client S) (key value : Text) (ttl : Option ℕ)
      → client.is_connected ≡ false
      → client_set services.utf8 services.network client key value ttl
        ≡ some (record client { fallback_store = put client.fallback_store key value }, true)
  unfolding client_set
  client_set_offline client key value ttl off = if_false client.is_connected _ _ off

  pub genuine :
      (store : Store Text) (key : Text)
      → All (λ e. IsSerialized services e.0 e.1) store
      → IsGenuine services key (get store key)
  genuine store key h = elim (Option-cases (get store key)) [
    | inl missing ↦ subst (IsGenuine services key) (sym missing) tt
    | inr (s, found) ↦
        subst (IsGenuine services key) (sym found)
          (All-get (IsSerialized services) store key s h found)
  ]

  pub fallback-SecondTier : SecondTier services IsLocal
  fallback-SecondTier = record {
    answers = λ client key local scalar. (
      client,
      get client.fallback_store key,
      client_get_offline client key local.0,
      local,
      genuine client.fallback_store key local.1,
    );
    stores = λ client key s ttl local scalar plain made. (
      record client { fallback_store = put client.fallback_store key s },
      true,
      client_set_offline client key s ttl local.0,
      (local.0, All-put (IsSerialized services) client.fallback_store key s local.1 made),
    );
  }
