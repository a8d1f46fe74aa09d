-- ===== src/Repomap/Cache/Server.antt =====
-- A server as the second tier of examples/valkey-l2-repomap-cache/repomap_cache.py.
use vibes.Common.{
  ℕ, zero, suc, ◌<◌, Bool, true, Option, none, some, List, [], ◌∷◌, ◌≡◌, refl, ap, sym, ◌∙◌, inl,
  inr, arith, subst, All, All-imp, Bool-cases,
}
use mathlib.Core.List.{append-nil}
use vibes.Common.Texts.{Text, codes}
use vibes.Common.Decimal.{digits, digits-IsDigits}
use vibes.Repomap.Resp.{Bytes, IsCodec, Reply, text, nothing, bulk}
use vibes.Repomap.Resp.Chunks.{IsFrame, bulk-IsFrame, read_resp_reply-IsFrame}
use vibes.Repomap.Resp.Lines.{null-IsFrame, ok-IsFrame}
use vibes.Repomap.Resp.Wire.{
  wire_strings, wire_array, bulk-wire_strings, Encoded, encode_resp_command-Encoded,
}
use vibes.Repomap.Store.{get, All-put}
use vibes.Repomap.Client.{
  Client, replied, execute_command, client_get, client_set, expiry, str_of, is_text, store_locally,
}
use vibes.Repomap.Cache.{Services}
use vibes.Repomap.Cache.Tier.{if_true, IsSerialized, IsGenuine, SecondTier}
use vibes.Repomap.Cache.Fallback.{genuine}
use vibes.Repomap.Cache.Protocol.{
  Delivers, options, GetAnswer, SetAnswer, IsHonest, talk, get_talk, set_talk,
}

module _ {S F Tree : Type 0} (services : Services S F Tree) where
  open services use {utf8, network}

  module _ (codec : IsCodec utf8) (Holds : S → Type 0) (honest : IsHonest services Holds) where
    -- A connected client whose server and whose own store hold only texts that were stored.
    abbrev pub IsServed : Client S → Type 0
    IsServed client =
        (client.is_connected ≡ true)
        × Holds client.server
        × All (λ e. IsSerialized services e.0 e.1) client.fallback_store

    string-IsFrame :
        (s : Text) (b : Bytes)
        → utf8.encode s ≡ some b
        → IsFrame utf8 codec (wire_strings (b ∷ [])) (text s)
    string-IsFrame s b e =
        subst (λ frame. IsFrame utf8 codec frame (text s)) (bulk-wire_strings b)
          (subst (λ s. IsFrame utf8 codec (bulk b) (text s)) (codec.decode-encode s e)
            (bulk-IsFrame utf8 codec b))

    delivered :
        (client : Client S) (server : S) (chunks : List Bytes) (frame : Bytes) (reply : Reply)
        → IsFrame utf8 codec frame reply
        → Delivers chunks frame
        → replied utf8 network client (server, some chunks)
          ≡ some (record client { server = server }, reply)
    unfolding replied
    delivered client server chunks frame reply is_frame (h, e) =
        rw
          (
            read_resp_reply-IsFrame utf8 codec frame reply is_frame chunks [] h
                (e ∙ sym (append-nil frame)),
            replied,
          )
          refl

    -- A command whose words have these encodings goes out as their array.
    executed :
        (client : Client S) (cmd : List Text) (bs : List Bytes)
        → Encoded utf8 cmd bs
        → execute_command utf8 network client cmd
          ≡ replied utf8 network client (talk services client.server (wire_array bs))
    unfolding execute_command replied
    executed client cmd bs h =
        let sent = encode_resp_command-Encoded utf8 cmd bs h in
        elim (Bool-cases (network.connect client.server).1) [
          | inl up ↦ rw (up, execute_command) (rw sent refl)
          | inr down ↦ rw (down, execute_command) refl
        ]

    -- What the client makes of the reply to GET, and to SET.
    abbrev after_get : Text → Option (Client S × Reply) → Option (Client S × Option Text)
    after_get key answer = elim answer [
      | none ↦ none
      | some (client', nothing) ↦ some (client', get client'.fallback_store key)
      | some (client', val) ↦ some (client', some (str_of val))
    ]

    abbrev after_set : Text → Text → Option (Client S × Reply) → Option (Client S × Bool)
    after_set key value answer = elim answer [
      | none ↦ none
      | some (client', nothing) ↦ some (store_locally client' key value, true)
      | some (client', val) ↦ some (client', is_text val (codes "OK"))
    ]

    -- The client with the server as a command left it.
    abbrev moved : Client S → S → Client S
    moved client s' = record client { server = s' }

    get_answered :
        (client : Client S) (key : Text) (s' : S) (answer : Option (List Bytes))
        → client.is_connected ≡ true
        → Holds s'
        → All (λ e. IsSerialized services e.0 e.1) client.fallback_store
        → client_get utf8 network client key
          ≡ after_get key (replied utf8 network client (s', answer))
        → GetAnswer services key answer
        → (client' : Client S) × (cached : Option Text) × (client_get utf8 network client key
            ≡ some (client', cached))
          × IsServed client'
          × IsGenuine services key cached
    unfolding replied
    get_answered client key s' none connected still local asked kind = (
      moved client s',
      get client.fallback_store key,
      asked,
      (connected, still, local),
      genuine services client.fallback_store key local,
    )
    get_answered client key s' (some chunks) connected still local asked (inl null) = (
      moved client s',
      get client.fallback_store key,
      asked
          ∙ ap (after_get key)
              (delivered client s' chunks _ nothing (null-IsFrame utf8 codec) null),
      (connected, still, local),
      genuine services client.fallback_store key local,
    )
    get_answered client key s' (some chunks) connected still local asked
          (inr (s, b, e, sent, made)) =
        (
          moved client s',
          some s,
          asked
              ∙ ap (after_get key)
                  (delivered client s' chunks _ (text s) (string-IsFrame s b e) sent),
          (connected, still, local),
          made,
        )

    set_answered :
        (client : Client S) (key s : Text) (ttl : Option ℕ) (s' : S) (answer : Option (List Bytes))
        → client.is_connected ≡ true
        → Holds s'
        → All (λ e. IsSerialized services e.0 e.1) client.fallback_store
        → IsSerialized services key s
        → client_set utf8 network client key s ttl
          ≡ after_set key s (replied utf8 network client (s', answer))
        → SetAnswer services answer
        → (client' : Client S) × (done : Bool) × (client_set utf8 network client key s ttl
            ≡ some (client', done))
          × IsServed client'
    unfolding replied
    set_answered client key s ttl s' none connected still local made asked kind = (
      store_locally (moved client s') key s,
      true,
      asked,
      (connected, still, All-put (IsSerialized services) client.fallback_store key s local made),
    )
    set_answered client key s ttl s' (some chunks) connected still local made asked sent = (
      moved client s',
      is_text (text (codes "OK")) (codes "OK"),
      asked
          ∙ ap (after_set key s)
              (delivered client s' chunks _ (text (codes "OK")) (ok-IsFrame utf8 codec) sent),
      (connected, still, local),
    )

    digits-ascii : (n : ℕ) → All (λ c. c < 128) (digits n)
    digits-ascii n = All-imp _ (λ c. c < 128) (digits n) (λ c h. ground arith) (digits-IsDigits n)

    -- A time to live of 0 is none.
    abbrev lifetime : Option ℕ → Option ℕ
    lifetime none = none
    lifetime (some zero) = none
    lifetime (some (suc n)) = some n

    expiry-Encoded : (ttl : Option ℕ) → Encoded utf8 (expiry ttl) (options (lifetime ttl))
    expiry-Encoded none = tt
    expiry-Encoded (some zero) = tt
    expiry-Encoded (some (suc n)) = (
      codec.encode_ascii (codes "EX") (omega arith),
      (codec.encode_ascii (digits (suc n)) (digits-ascii (suc n)), tt),
    )

    -- With a codec as Python documents it and a server that, reached or not, answers the array of
    -- GET and the key in the wire format with null or a text that was stored under the key, and
    -- that of SET, the key, the text and a lifetime above 0 or none with OK, or does not answer,
    -- in whatever nonempty chunks, and goes on so: a connected client whose server and whose own
    -- store hold only texts that were stored answers `get` of every key without surrogates with
    -- nothing or such a text, and every such `set` of a text without surrogates, and stays so.
    pub server-SecondTier : SecondTier services IsServed
    unfolding client_get client_set
    server-SecondTier = record {
      answers = λ client key (connected, holds, local) scalar.
          let (k, e) = codec.encodes key scalar in
          let (s', answer, said, still, kind) =
            get_talk services Holds honest client.server key k holds e in
          let word = codec.encode_ascii (codes "GET") (omega arith) in
          let ran =
            executed client (codes "GET" ∷ key ∷ []) (codes "GET" ∷ k ∷ []) (word, (e, tt)) in
          get_answered client key s' answer connected still local
            (if_true client.is_connected _ _ connected
              ∙ ap (after_get key) (ran ∙ ap (replied utf8 network client) said))
            kind;
      stores = λ client key s ttl (connected, holds, local) scalar plain made.
          let (k, e) = codec.encodes key scalar in
          let (v, f) = codec.encodes s plain in
          let (s', answer, said, still, kind) =
            set_talk services Holds honest client.server key s k v (lifetime ttl) holds made e f in
          let word = codec.encode_ascii (codes "SET") (omega arith) in
          let ran =
            executed client (codes "SET" ∷ key ∷ s ∷ expiry ttl)
              (codes "SET" ∷ k ∷ v ∷ options (lifetime ttl)) (word, (e, (f, expiry-Encoded ttl))) in
          set_answered client key s ttl s' answer connected still local made
            (if_true client.is_connected _ _ connected
              ∙ ap (after_set key s) (ran ∙ ap (replied utf8 network client) said))
            kind;
    }
