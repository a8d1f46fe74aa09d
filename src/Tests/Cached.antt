-- ===== src/Tests/Cached.antt =====
-- Replies in pieces, a cache over the fallback store, and a server.
use vibes.Common.{
  zero, suc, ◌==◌, ◌+◌, if◌then◌else◌, inl, ℕ, false, true, Option, none, some, List, [], ◌∷◌, ◌++◌,
  ◌≡◌, refl, ap, subst, ◌∙◌, arith,
}
use vibes.Common.Texts.{Text, codes, join, text_eq}
use vibes.Common.Decimal.{digits}
use vibes.Repomap.Json.{Json, Members, as_text, as_members, get_member}
use vibes.Repomap.Record.{RepomapRecord, to_dict}
use vibes.Repomap.Resp.{
  Bytes, Utf8, IsCodec, IsAscii, text, nothing, encode_argument, read_resp_reply,
}
use vibes.Repomap.Resp.Wire.{wire_array}
use vibes.Repomap.Resp.Chunks.{read_resp_reply-encode_argument, read_resp_reply_cut}
use vibes.Repomap.Client.{Client}
use vibes.Repomap.Cache.{
  TwoTierRepomapCache, Services, CacheTier, miss_computed, new_cache, key_of, get_repomap,
  compute_record,
}
use vibes.Repomap.Cache.Bounded.{Served, get_repomap-Served}
use vibes.Repomap.Cache.Tier.{IsComputed, SecondTier}
use vibes.Repomap.Cache.Fallback.{IsLocal, fallback-SecondTier}
use vibes.Repomap.Cache.Protocol.{IsHonest, GetAnswer, SetAnswer, options}
use vibes.Repomap.Cache.Server.{IsServed, server-SecondTier}
use vibes.Repomap.Cache.Coherent.{Coherent, get_repomap-Coherent}

-- Bytes as texts.
abbrev plain : Utf8
plain = record { encode = λ s. some s; decode = λ b. b }

plain-IsCodec : IsCodec plain
plain-IsCodec = record {
  encodes = λ s h. (s, refl);
  decode-encode = λ s e. cc e;
  encode_ascii = λ s h. refl;
  decode_ascii = λ b h. refl;
}

abbrev pieces : List Bytes
pieces = codes "$2\r" ∷ codes "\nh" ∷ codes "i\r\n+" ∷ []

abbrev frame : Bytes
frame = codes "$2\r\nhi\r\n"

frame_lem : encode_argument plain (codes "hi") ≡ some frame
unfolding encode_argument digits
frame_lem = refl

pieces_lem : join pieces ≡ frame ++ codes "+"
unfolding join
pieces_lem = refl

read_resp_reply-encode_argument_example : read_resp_reply plain pieces ≡ some (text (codes "hi"))
read_resp_reply-encode_argument_example =
    read_resp_reply-encode_argument plain plain-IsCodec (codes "hi") pieces (codes "+") frame_lem
      (omega arith) pieces_lem

abbrev torn : List Bytes
torn = codes "$2\r" ∷ codes "\nh" ∷ []

torn_lem : join torn ++ codes "i\r\n" ≡ frame
unfolding join
torn_lem = refl

read_resp_reply_cut_example : read_resp_reply plain torn ≡ some nothing
read_resp_reply_cut_example =
    read_resp_reply_cut plain plain-IsCodec (codes "hi") torn (codes "i\r\n") frame_lem
      (omega arith) torn_lem

-- A text in ASCII: each code point in unary, and a full stop.
abbrev strokes : ℕ → Text → Text
strokes zero s = s
strokes (suc n) s = b'x' ∷ strokes n s

abbrev escaped : Text → Text
escaped [] = []
escaped (c ∷ s) = strokes c (b'.' ∷ escaped s)

abbrev unescaped : ℕ → Text → Text
unescaped n [] = []
unescaped n (c ∷ s) =
    let ended = n ∷ unescaped zero s in
    let more = unescaped (suc n) s in if c == b'.' then ended else more

unescaped-strokes :
    (c n : ℕ) (s : Text) → unescaped n (strokes c (b'.' ∷ s)) ≡ (c + n) ∷ unescaped zero s
unescaped-strokes zero n s = ap (λ k. k ∷ unescaped zero s) {x = n} {y = zero + n} (omega arith)
unescaped-strokes (suc c) n s =
    unescaped-strokes c (suc n) s
    ∙ ap (λ k. k ∷ unescaped zero s) {x = c + suc n} {y = suc c + n} (omega arith)

unescaped-escaped : (s : Text) → unescaped zero (escaped s) ≡ s
unescaped-escaped [] = refl
unescaped-escaped (c ∷ s) =
    unescaped-strokes c zero (escaped s)
    ∙ ap (λ k. k ∷ unescaped zero (escaped s)) {x = c + zero} {y = c} (omega arith)
    ∙ ap (λ t. c ∷ t) (unescaped-escaped s)

strokes-IsAscii : (c : ℕ) (s : Text) → IsAscii s → IsAscii (strokes c s)
strokes-IsAscii zero s h = h
strokes-IsAscii (suc c) s h = (omega arith, strokes-IsAscii c s h)

escaped-IsAscii : (s : Text) → IsAscii (escaped s)
escaped-IsAscii [] = tt
escaped-IsAscii (c ∷ s) = strokes-IsAscii c (b'.' ∷ escaped s) (omega arith, escaped-IsAscii s)

-- The record of a file of which only the path is to be told.
abbrev plain_record : Text → RepomapRecord (Unit {0})
plain_record path = record {
  file_path = path;
  content_sha256 = codes "d";
  symbols = [];
  line_count = 0;
  embedding = [];
  timestamp = tt;
}

-- It is written as its path, behind an exclamation mark.
abbrev path_of : Option (Json (Unit {0})) → Option Text
path_of none = none
path_of (some v) = as_text v

abbrev written_members : Option (Members (Unit {0})) → Text
written_members none = codes "?"
written_members (some fields) = elim (path_of (get_member fields (codes "file_path"))) [
  | none ↦ codes "?"
  | some path ↦ b'!' ∷ escaped path
]

abbrev written : Json (Unit {0}) → Text
written v = written_members (as_members v)

written_path-IsAscii :
    (path : Option Text)
    → IsAscii (elim path [ none ↦ codes "?" | some path ↦ b'!' ∷ escaped path ])
written_path-IsAscii none = (omega arith, tt)
written_path-IsAscii (some path) = (omega arith, escaped-IsAscii path)

written_members-IsAscii : (fields : Option (Members (Unit {0}))) → IsAscii (written_members fields)
written_members-IsAscii none = (omega arith, tt)
written_members-IsAscii (some fields) =
    written_path-IsAscii (path_of (get_member fields (codes "file_path")))

written-IsAscii : (v : Json (Unit {0})) → IsAscii (written v)
written-IsAscii v = written_members-IsAscii (as_members v)

abbrev read : Text → Option (Json (Unit {0}))
read [] = none
read (c ∷ s) = some (to_dict (plain_record (unescaped zero s)))

abbrev services : Services (Unit {0}) (Unit {0}) ℕ
services = record {
  utf8 = plain;
  network = record { connect = λ s. (s, false); exchange = λ s b. (s, none) };
  sha256 = λ content. codes "d";
  read_text = λ path. none;
  dumps = written;
  loads = read;
  parse = λ content. some 0;
  extract_symbols = λ tree. [];
  count_lines = λ content. 0;
  compute_embedding = λ tree lines. [];
}

services_read_back :
    (key : Text) (r : RepomapRecord (Unit {0}))
    → IsComputed services key r
    → services.loads (services.dumps (to_dict r)) ≡ some (to_dict r)
unfolding compute_record to_dict get_member text_eq
services_read_back key r (now, path, content, made, same) =
    let equal : plain_record path ≡ r = cc made in
    subst (λ r. read (written (to_dict r)) ≡ some (to_dict r)) equal
      (ap (λ p. some (to_dict (plain_record p))) (unescaped-escaped path))

services_digest : (content : Text) → IsAscii (services.sha256 content)
services_digest content = (omega arith, tt)

abbrev client : Client (Unit {0})
client = record { is_connected = false; fallback_store = []; server = tt }

abbrev cache : TwoTierRepomapCache (Unit {0}) (Unit {0})
cache = new_cache client 2

cache-Coherent : Coherent services (IsLocal services) cache
cache-Coherent = record { first_tier = tt; second_tier = (refl, tt) }

get_repomap-Coherent_example :
    (cache' : TwoTierRepomapCache (Unit {0}) (Unit {0})) × (r : RepomapRecord (Unit {0}))
    × (tier : CacheTier) × (get_repomap services tt cache (codes "a.py") (some (codes "x = 1"))
        ≡ some (cache', r, tier))
    × IsComputed services (key_of services (codes "d")) r
    × Coherent services (IsLocal services) cache'
get_repomap-Coherent_example =
    get_repomap-Coherent services (IsLocal services) (fallback-SecondTier services)
      services_read_back written-IsAscii services_digest tt cache (codes "a.py") (codes "x = 1")
      {tree = 0} cache-Coherent (omega arith) refl

-- A server that keeps nothing: a command of two words is answered with null, any other with OK, each
-- in two pieces.
abbrev reply_to : Bytes → List Bytes
reply_to [] = []
reply_to (star ∷ []) = []
reply_to (star ∷ count ∷ rest) =
    if count == b'2' then codes "$-1" ∷ codes "\r\n" ∷ [] else codes "+OK\r" ∷ codes "\n" ∷ []

abbrev forgetful : Services (Unit {0}) (Unit {0}) ℕ
forgetful = record services {
  network = record { connect = λ s. (s, true); exchange = λ s b. (s, some (reply_to b)) };
}

abbrev Anything : Unit {0} → Type 0
Anything s = Unit {0}

-- The command that stores a text.
abbrev set_command : Bytes → Bytes → Option ℕ → Bytes
set_command k v lifetime = wire_array (codes "SET" ∷ k ∷ v ∷ options lifetime)

forgetful_sets :
    (k v : Bytes) (lifetime : Option ℕ)
    → SetAnswer forgetful (some (reply_to (set_command k v lifetime)))
unfolding wire_array join digits
forgetful_sets k v none = ((omega arith, (omega arith, tt)), refl)
forgetful_sets k v (some n) = ((omega arith, (omega arith, tt)), refl)

forgetful_gets :
    (key : Text) (k : Bytes)
    → GetAnswer forgetful key (some (reply_to (wire_array (codes "GET" ∷ k ∷ []))))
unfolding wire_array join digits
forgetful_gets key k = inl ((omega arith, (omega arith, tt)), refl)

forgetful-IsHonest : IsHonest forgetful Anything
forgetful-IsHonest = record {
  connects = λ s h. tt;
  gets = λ s key k h e.
      (s, some (reply_to (wire_array (codes "GET" ∷ k ∷ []))), refl, tt, forgetful_gets key k);
  sets = λ s key value k v lifetime h made e f.
      (s, some (reply_to (set_command k v lifetime)), refl, tt, forgetful_sets k v lifetime);
}

server-SecondTier_example :
    SecondTier forgetful (IsServed forgetful plain-IsCodec Anything forgetful-IsHonest)
server-SecondTier_example = server-SecondTier forgetful plain-IsCodec Anything forgetful-IsHonest

abbrev computed : RepomapRecord (Unit {0})
computed = plain_record (codes "a.py")

abbrev after : TwoTierRepomapCache (Unit {0}) (Unit {0})
after = record cache {
  valkey = record client {
    fallback_store = (codes "repomap:d", b'!' ∷ escaped (codes "a.py")) ∷ [];
  };
  l1_cache = (codes "repomap:d", computed) ∷ [];
  stats = record cache.stats { misses = 1 };
}

first_call :
    get_repomap services tt cache (codes "a.py") (some (codes "x = 1"))
    ≡ some (after, computed, miss_computed)
unfolding get_repomap to_dict get_member text_eq
first_call = refl

get_repomap-Served_example : Served services cache after (key_of services (codes "d")) computed
get_repomap-Served_example =
    get_repomap-Served services tt cache after (codes "a.py") (codes "x = 1") computed miss_computed
      (omega arith) first_call
