-- ===== src/Repomap/Cache/Protocol.antt =====
-- What a server answers to the commands of examples/valkey-l2-repomap-cache/repomap_cache.py, in the
-- wire format.
use vibes.Common.{
  ℕ, suc, ◌<◌, Option, none, some, List, [], ◌∷◌, length, ◌≡◌, ◌⊎◌, All, if◌then◌else◌, ◌∙◌, inl,
  inr, Bool-cases,
}
use vibes.Common.Texts.{Text, codes, join}
use vibes.Common.Decimal.{digits}
use vibes.Repomap.Resp.{Bytes}
use vibes.Repomap.Resp.Wire.{wire_strings, wire_array}
use vibes.Repomap.Cache.{Services}
use vibes.Repomap.Cache.Tier.{if_true, if_false, IsSerialized}

-- The chunks of one reply with these bytes.
abbrev pub Delivers : List Bytes → Bytes → Type 0
Delivers chunks frame = All (λ c. 0 < length c) chunks × (join chunks ≡ frame)

-- The option of SET that limits the lifetime of a key, to one second and `more` of them.
abbrev pub options : Option ℕ → List Bytes
options none = []
options (some more) = codes "EX" ∷ digits (suc more) ∷ []

module _ {S F Tree : Type 0} (services : Services S F Tree) where
  open services use {utf8, network}

  -- The answers to GET: no reply, null, or a text that was stored under the key.
  abbrev pub GetAnswer : Text → Option (List Bytes) → Type 0
  GetAnswer key none = Unit {0}
  GetAnswer key (some chunks) =
      Delivers chunks (codes "$-1\r\n")
      ⊎ ((s : Text) × (b : Bytes) × (utf8.encode s ≡ some b)
          × Delivers chunks (wire_strings (b ∷ []))
          × IsSerialized services key s)

  -- The answers to SET: no reply, or OK.
  abbrev pub SetAnswer : Option (List Bytes) → Type 0
  SetAnswer none = Unit {0}
  SetAnswer (some chunks) = Delivers chunks (codes "+OK\r\n")

  -- What the server documents of the two commands, while it holds only texts that were stored.
  pub record IsHonest (Holds : S → Type 0) : Type 0 where
    pub connects : (s : S) → Holds s → Holds (network.connect s).0
    pub gets :
        (s : S) (key : Text) (k : Bytes)
        → Holds s
        → utf8.encode key ≡ some k
        → (s' : S) × (answer : Option (List Bytes)) × (network.exchange s
              (wire_array (codes "GET" ∷ k ∷ []))
            ≡ (s', answer))
          × Holds s'
          × GetAnswer key answer
    pub sets :
        (s : S) (key value : Text) (k v : Bytes) (lifetime : Option ℕ)
        → Holds s
        → IsSerialized services key value
        → utf8.encode key ≡ some k
        → utf8.encode value ≡ some v
        → (s' : S) × (answer : Option (List Bytes)) × (network.exchange s
              (wire_array (codes "SET" ∷ k ∷ v ∷ options lifetime))
            ≡ (s', answer))
          × Holds s'
          × SetAnswer answer

  -- A request over a connection, if one opens.
  abbrev pub talk : S → Bytes → S × Option (List Bytes)
  talk s request =
      let (opened, connected) = network.connect s in
      if connected then network.exchange opened request else (opened, none)

  module _ (Holds : S → Type 0) (honest : IsHonest Holds) where
    pub get_talk :
        (s : S) (key : Text) (k : Bytes)
        → Holds s
        → utf8.encode key ≡ some k
        → (s' : S) × (answer : Option (List Bytes)) × (talk s (wire_array (codes "GET" ∷ k ∷ []))
            ≡ (s', answer))
          × Holds s'
          × GetAnswer key answer
    get_talk s key k h e = elim (Bool-cases (network.connect s).1) [
      | inl up ↦
          let (s', answer, said, still, kind) =
            honest.gets (network.connect s).0 key k (honest.connects s h) e in
          (s', answer, if_true (network.connect s).1 _ _ up ∙ said, still, kind)
      | inr down ↦ (
        (network.connect s).0,
        none,
        if_false (network.connect s).1 _ _ down,
        honest.connects s h,
        tt,
      )
    ]

    pub set_talk :
        (s : S) (key value : Text) (k v : Bytes) (lifetime : Option ℕ)
        → Holds s
        → IsSerialized services key value
        → utf8.encode key ≡ some k
        → utf8.encode value ≡ some v
        → (s' : S) × (answer : Option (List Bytes)) × (talk s
              (wire_array (codes "SET" ∷ k ∷ v ∷ options lifetime))
            ≡ (s', answer))
          × Holds s'
          × SetAnswer answer
    set_talk s key value k v lifetime h made e f = elim (Bool-cases (network.connect s).1) [
      | inl up ↦
          let (s', answer, said, still, kind) =
            honest.sets (network.connect s).0 key value k v lifetime (honest.connects s h) made e
              f in
          (s', answer, if_true (network.connect s).1 _ _ up ∙ said, still, kind)
      | inr down ↦ (
        (network.connect s).0,
        none,
        if_false (network.connect s).1 _ _ down,
        honest.connects s h,
        tt,
      )
    ]
