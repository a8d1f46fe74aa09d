-- ===== src/Repomap/Cache/Tier.antt =====
-- What the cache of examples/valkey-l2-repomap-cache/repomap_cache.py needs of its second tier, and
-- what it does to the first.
use vibes.Common.{
  ℕ, ◌≤◌, Bool, true, false, Option, none, some, [], ◌∷◌, length, leb, ◌≡◌, refl, inl, inr,
  Bool-cases, arith, subst, All, if◌then◌else◌,
}
use vibes.Common.Texts.{Text}
use vibes.Repomap.Store.{Store, put, pop, All-put, All-pop}
use vibes.Repomap.Client.{Client, client_get, client_set}
use vibes.Repomap.Resp.{IsScalar}
use vibes.Repomap.Record.{RepomapRecord, to_dict}
use vibes.Repomap.Cache.{Services, store_l1, key_of, compute_record}

pub if_false : {A : Type 0} (b : Bool) (x y : A) → b ≡ false → (if b then x else y) ≡ y
if_false b x y h = rw h refl

pub if_true : {A : Type 0} (b : Bool) (x y : A) → b ≡ true → (if b then x else y) ≡ x
if_true b x y h = rw h refl

module _ {S F Tree : Type 0} (services : Services S F Tree) where
  -- The record was computed, at some time and for some path, from a content with this digest.
  abbrev pub IsComputed : Text → RepomapRecord F → Type 0
  IsComputed key r =
      (now : F) × (path : Text) × (content : Text) × (compute_record services now path content
          (services.sha256 content)
        ≡ some r)
      × (key ≡ key_of services (services.sha256 content))

  -- The text is that of a record that was computed.
  abbrev pub IsSerialized : Text → Text → Type 0
  IsSerialized key s = (r : RepomapRecord F) × (s ≡ services.dumps (to_dict r)) × IsComputed key r

  -- Nothing, or the text of a record that was computed.
  abbrev pub IsGenuine : Text → Option Text → Type 0
  IsGenuine key none = Unit {0}
  IsGenuine key (some s) = IsSerialized key s

  -- Clients that answer, with texts that were stored, and that stay so, for keys and texts without
  -- surrogates.
  pub record SecondTier (Trusted : Client S → Type 0) : Type 0 where
    pub answers :
        (client : Client S) (key : Text)
        → Trusted client
        → IsScalar key
        → (client' : Client S) × (cached : Option Text) × (client_get services.utf8 services.network
              client key
            ≡ some (client', cached))
          × Trusted client'
          × IsGenuine key cached
    pub stores :
        (client : Client S) (key s : Text) (ttl : Option ℕ)
        → Trusted client
        → IsScalar key
        → IsScalar s
        → IsSerialized key s
        → (client' : Client S) × (done : Bool) × (client_set services.utf8 services.network client
              key s ttl
            ≡ some (client', done))
          × Trusted client'

  pub store_l1_returns :
      (capacity : ℕ) (l1 : Store (RepomapRecord F)) (key : Text) (r : RepomapRecord F)
      → 1 ≤ capacity
      → (l1' : Store (RepomapRecord F)) × (store_l1 capacity l1 key r ≡ some l1')
  unfolding store_l1
  store_l1_returns capacity [] key r h =
      ((key, r) ∷ [], if_false (leb capacity 0) _ _ (ground arith))
  store_l1_returns capacity ((j, w) ∷ l1) key r h =
      let full : Store (RepomapRecord F) = (j, w) ∷ l1 in
      elim (Bool-cases (leb capacity (length full))) [
        | inl reached ↦ (put (pop full j) key r, rw (reached, store_l1) refl)
        | inr room ↦ (put full key r, rw (room, store_l1) refl)
      ]

  pub store_l1-All :
      (P : Text → RepomapRecord F → Type 0) (capacity : ℕ) (l1 l1' : Store (RepomapRecord F))
      (key : Text) (r : RepomapRecord F)
      → All (λ e. P e.0 e.1) l1
      → P key r
      → store_l1 capacity l1 key r ≡ some l1'
      → All (λ e. P e.0 e.1) l1'
  unfolding store_l1
  store_l1-All P capacity [] l1' key r h p e = elim (Bool-cases (leb capacity 0)) [
    | inl empty ↦ absurd (let x = rw (empty, store_l1) at e in cc x)
    | inr room ↦
        let x = rw (room, store_l1) at e in
        let same : (key, r) ∷ [] ≡ l1' = cc x in subst (All (λ e. P e.0 e.1)) same (p, tt)
  ]
  store_l1-All P capacity ((j, w) ∷ l1) l1' key r h p e =
      let full : Store (RepomapRecord F) = (j, w) ∷ l1 in
      elim (Bool-cases (leb capacity (length full))) [
        | inl reached ↦
            let x = rw (reached, store_l1) at e in
            let same : put (pop full j) key r ≡ l1' = cc x in
            subst (All (λ e. P e.0 e.1)) same (All-put P (pop full j) key r (All-pop P full j h) p)
        | inr room ↦
            let x = rw (room, store_l1) at e in
            let same : put full key r ≡ l1' = cc x in
            subst (All (λ e. P e.0 e.1)) same (All-put P full key r h p)
      ]
