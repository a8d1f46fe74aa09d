-- ===== src/Repomap/Client.antt =====
-- `ValkeyL2Client` of examples/valkey-l2-repomap-cache/repomap_cache.py. What is behind the socket is
-- a parameter: `connect` opens a connection or fails with an OSError, and `exchange` sends the bytes
-- and has the chunks that `recv` returns or, as `none`, an OSError. A result of `none` is a ValueError,
-- of a reply that is no integer or of a text that UTF-8 cannot encode.
use vibes.Common.{ℕ, zero, suc, Bool, true, false, Option, none, some, List, [], ◌∷◌, if◌then◌else◌}
use vibes.Common.Int.{pos, negsuc}
use vibes.Common.Texts.{Text, codes, text_eq}
use vibes.Common.Decimal.{digits}
use vibes.Repomap.Resp.{
  Bytes, Utf8, Reply, text, integer, nothing, encode_resp_command, read_resp_reply,
}
use vibes.Repomap.Store.{Store, get, put, pop}

pub record Network (S : Type 0) : Type 0 where
  pub connect : S → S × Bool
  pub exchange : S → Bytes → S × Option (List Bytes)

-- The client with what is behind its socket.
pub record Client (S : Type 0) : Type 0 where
  pub is_connected : Bool
  pub fallback_store : Store Text
  pub server : S

-- `str(val)`
abbrev pub str_of : Reply → Text
str_of (text s) = s
str_of (integer (pos n)) = digits n
str_of (integer (negsuc n)) = b'-' ∷ digits (suc n)
str_of nothing = codes "None"

-- `val == s`, for a text `s`
abbrev pub is_text : Reply → Text → Bool
is_text (text t) s = text_eq t s
is_text (integer n) s = false
is_text nothing s = false

-- `["EX", str(ttl_seconds)]`, where the time to live is given and not 0
abbrev pub expiry : Option ℕ → List Text
expiry none = []
expiry (some zero) = []
expiry (some (suc n)) = codes "EX" ∷ digits (suc n) ∷ []

-- `self._fallback_store[key] = value`
abbrev pub store_locally : {S : Type 0} → Client S → Text → Text → Client S
store_locally client key value = record client {
  fallback_store = put client.fallback_store key value;
}

module _ (utf8 : Utf8) {S : Type 0} (network : Network S) where
  -- The end of `_execute_command`, from the answer on.
  unfoldable pub replied : Client S → S × Option (List Bytes) → Option (Client S × Reply)
  unfolding read_resp_reply
  replied client (server, none) = some (record client { server = server }, nothing)
  replied client (server, some chunks) = elim (read_resp_reply utf8 chunks) [
    | none ↦ none
    | some reply ↦ some (record client { server = server }, reply)
  ]

  unfoldable pub execute_command : Client S → List Text → Option (Client S × Reply)
  unfolding encode_resp_command replied
  execute_command client cmd =
      let (opened, connected) = network.connect client.server in
      let asked = elim (encode_resp_command utf8 cmd) as (λ _. Option (Client S × Reply)) [
        | none ↦ none
        | some request ↦ replied client (network.exchange opened request)
      ] in
      if connected then asked else some (record client { server = opened }, nothing)

  unfoldable pub check_connection : Client S → Option (Client S)
  unfolding execute_command
  check_connection client = elim (execute_command client (codes "PING" ∷ [])) [
    | none ↦ none
    | some (client', val) ↦ some (record client' { is_connected = is_text val (codes "PONG") })
  ]

  -- `ValkeyL2Client(...)`
  unfoldable pub new_client : S → Option (Client S)
  unfolding check_connection
  new_client server =
      check_connection (record { is_connected = false; fallback_store = []; server = server })

  -- `ValkeyL2Client.get`, with `none` inside for None.
  unfoldable pub client_get : Client S → Text → Option (Client S × Option Text)
  unfolding execute_command get
  client_get client key =
      let asked =
        elim (execute_command client (codes "GET" ∷ key ∷ []))
          as (λ _. Option (Client S × Option Text)) [
            | none ↦ none
            | some (client', nothing) ↦ some (client', get client'.fallback_store key)
            | some (client', val) ↦ some (client', some (str_of val))
          ] in
      if client.is_connected then asked else some (client, get client.fallback_store key)

  unfoldable pub client_set : Client S → Text → Text → Option ℕ → Option (Client S × Bool)
  unfolding execute_command put
  client_set client key value ttl_seconds =
      let cmd = codes "SET" ∷ key ∷ value ∷ expiry ttl_seconds in
      let asked = elim (execute_command client cmd) as (λ _. Option (Client S × Bool)) [
        | none ↦ none
        | some (client', nothing) ↦ some (store_locally client' key value, true)
        | some (client', val) ↦ some (client', is_text val (codes "OK"))
      ] in
      if client.is_connected then asked else some (store_locally client key value, true)

  unfoldable pub client_delete : Client S → Text → Option (Client S × Bool)
  unfolding execute_command pop
  client_delete client key =
      let popped : Client S = record client { fallback_store = pop client.fallback_store key } in
      let asked =
        elim (execute_command popped (codes "DEL" ∷ key ∷ [])) as (λ _. Option (Client S × Bool)) [
          | none ↦ none
          | some (client', val) ↦ some (client', true)
        ] in
      if client.is_connected then asked else some (popped, true)
