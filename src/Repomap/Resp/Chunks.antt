-- ===== src/Repomap/Resp/Chunks.antt =====
-- A reply that arrives in pieces, for `read_resp_reply` of
-- examples/valkey-l2-repomap-cache/repomap_cache.py.
use vibes.Common.{
  ℕ, ◌<◌, some, List, [], ◌∷◌, ◌++◌, length, All, ◌≡◌, refl, sym, ap, ◌∙◌, ◌⊎◌, inl, inr, arith,
  length-append, Option-cases, subst,
}
use mathlib.Core.List.{append_assoc}
use vibes.Common.Int.{pos}
use vibes.Common.Texts.{Text, join}
use vibes.Repomap.Resp.{
  Bytes, Utf8, IsCodec, Reply, text, nothing, decoded, bulk, encode_argument, decode_resp_response,
  read_loop, read_resp_reply,
}
use vibes.Repomap.Resp.Bulk.{decode_resp_response-bulk, decode_resp_response_prefix, length-bulk}

-- Of two beginnings of one list, the first is a proper beginning of the second, or goes beyond it.
beginnings :
    (a b c d : Bytes)
    → a ++ b ≡ c ++ d
    → ((m : Bytes) × (a ++ m ≡ c) × (0 < length m) × (b ≡ m ++ d)) ⊎ ((m : Bytes) × (a ≡ c ++ m))
beginnings a b [] d e = inr (a, refl)
beginnings [] b (y ∷ c) d e = inl (y ∷ c, refl, omega arith, e)
beginnings (x ∷ a) b (y ∷ c) d e = elim (beginnings a b c d (cc)) [
  | inl (m, same, more, left) ↦ inl (m, cc, more, left)
  | inr (m, same) ↦ inr (m, cc)
]

module _ (utf8 : Utf8) (codec : IsCodec utf8) where
  read_loop_done :
      (buffer : Bytes) (chunks : List Bytes) {value : Reply} {n : ℕ}
      → 0 < n
      → decode_resp_response utf8 buffer ≡ decoded value (pos n)
      → read_loop utf8 buffer chunks ≡ some value
  unfolding read_loop
  read_loop_done buffer [] h e = rw (e, read_loop) (ground (arith, h))
  read_loop_done buffer ([] ∷ chunks) h e = rw (e, read_loop) (ground (arith, h))
  read_loop_done buffer ((c ∷ received) ∷ chunks) h e = rw (e, read_loop) (ground (arith, h))

  read_loop_more :
      (buffer received : Bytes) (c : ℕ) (chunks : List Bytes)
      → decode_resp_response utf8 buffer ≡ decoded nothing (pos 0)
      → read_loop utf8 buffer ((c ∷ received) ∷ chunks)
        ≡ read_loop utf8 (buffer ++ c ∷ received) chunks
  unfolding read_loop
  read_loop_more buffer received c chunks e = rw (e, read_loop) refl

  -- The bytes of a whole reply with this value: with them at its front a buffer is answered, and
  -- any proper beginning of them says that more is to come.
  pub record IsFrame (frame : Bytes) (value : Reply) : Type 0 where
    pub size : 0 < length frame
    pub whole :
        (rest : Bytes)
        → decode_resp_response utf8 (frame ++ rest) ≡ decoded value (pos (length frame))
    pub part :
        (buffer missing : Bytes)
        → buffer ++ missing ≡ frame
        → 0 < length missing
        → decode_resp_response utf8 buffer ≡ decoded nothing (pos 0)

  pub bulk-IsFrame : (b : Bytes) → IsFrame (bulk b) (text (utf8.decode b))
  bulk-IsFrame b = record {
    size = omega (arith, length-bulk utf8 codec b);
    whole = decode_resp_response-bulk utf8 codec b;
    part = decode_resp_response_prefix utf8 codec b;
  }

  encode_argument-IsFrame :
      (arg : Text) {frame : Bytes}
      → encode_argument utf8 arg ≡ some frame
      → IsFrame frame (text arg)
  unfolding encode_argument
  encode_argument-IsFrame arg {frame} h = elim (Option-cases (utf8.encode arg)) [
    | inl bad ↦ absurd (let x = rw (bad, encode_argument) at h in cc x)
    | inr (b, e) ↦
        let x = rw (e, encode_argument) at h in
        let same : bulk b ≡ frame = cc x in
        subst (λ frame. IsFrame frame (text arg)) same
          (subst (λ s. IsFrame (bulk b) (text s)) (codec.decode-encode arg e) (bulk-IsFrame b))
  ]

  module _ (frame : Bytes) (value : Reply) (is_frame : IsFrame frame value) where
    -- A buffer that holds a whole reply is answered.
    whole_answered :
        (buffer more : Bytes) (chunks : List Bytes)
        → buffer ≡ frame ++ more
        → read_loop utf8 buffer chunks ≡ some value
    whole_answered buffer more chunks same =
        read_loop_done buffer chunks {n = length frame} is_frame.size
          (ap (decode_resp_response utf8) same ∙ is_frame.whole more)

    read_loop_complete :
        (buffer : Bytes) (chunks : List Bytes) (rest : Bytes)
        → All (λ c. 0 < length c) chunks
        → buffer ++ join chunks ≡ frame ++ rest
        → read_loop utf8 buffer chunks ≡ some value
    unfolding join
    read_loop_complete buffer [] rest h e = elim (beginnings buffer [] frame rest e) [
      | inl (m, same, more, left) ↦ absurd (omega (arith, ap length left, length-append m rest))
      | inr (m, same) ↦ whole_answered buffer m [] same
    ]
    read_loop_complete buffer ([] ∷ chunks) rest (p, h) e = absurd (omega arith)
    read_loop_complete buffer ((c ∷ received) ∷ chunks) rest (p, h) e =
        elim (beginnings buffer (join ((c ∷ received) ∷ chunks)) frame rest e) [
          | inl (m, same, more, left) ↦
              read_loop_more buffer received c chunks (is_frame.part buffer m same more)
              ∙ read_loop_complete (buffer ++ c ∷ received) chunks rest h
                  (append_assoc buffer (c ∷ received) (join chunks) ∙ e)
          | inr (m, same) ↦ whole_answered buffer m ((c ∷ received) ∷ chunks) same
        ]

    -- However a stream that begins with a whole reply is cut, its value is read.
    pub read_resp_reply-IsFrame :
        (chunks : List Bytes) (rest : Bytes)
        → All (λ c. 0 < length c) chunks
        → join chunks ≡ frame ++ rest
        → read_resp_reply utf8 chunks ≡ some value
    unfolding read_resp_reply
    read_resp_reply-IsFrame chunks rest h e = read_loop_complete [] chunks rest h e

    read_loop_cut :
        (buffer : Bytes) (chunks : List Bytes) (missing : Bytes)
        → 0 < length missing
        → buffer ++ (join chunks ++ missing) ≡ frame
        → read_loop utf8 buffer chunks ≡ some nothing
    unfolding read_loop join
    read_loop_cut buffer [] missing h e = rw (is_frame.part buffer missing e h, read_loop) refl
    read_loop_cut buffer ([] ∷ chunks) missing h e =
        let later : 0 < length (join chunks ++ missing) =
          omega (arith, length-append (join chunks) missing) in
        rw (is_frame.part buffer (join chunks ++ missing) e later, read_loop) refl
    read_loop_cut buffer ((c ∷ received) ∷ chunks) missing h e =
        let left : Bytes = join ((c ∷ received) ∷ chunks) in
        let later : 0 < length (left ++ missing) = omega (arith, length-append left missing) in
        read_loop_more buffer received c chunks (is_frame.part buffer (left ++ missing) e later)
        ∙ read_loop_cut (buffer ++ c ∷ received) chunks missing h (
            append_assoc buffer (c ∷ received) (join chunks ++ missing)
            ∙ ap (λ b. buffer ++ (c ∷ b)) (sym (append_assoc received (join chunks) missing))
            ∙ e)

  -- With a codec as Python documents it, and a text that it encodes: however a stream that begins
  -- with the encoded bulk string is cut into chunks, none of them empty, `read_resp_reply`
  -- returns the text that was encoded.
  pub read_resp_reply-encode_argument :
      (arg : Text) (chunks : List Bytes) (rest : Bytes) {frame : Bytes}
      → encode_argument utf8 arg ≡ some frame
      → All (λ c. 0 < length c) chunks
      → join chunks ≡ frame ++ rest
      → read_resp_reply utf8 chunks ≡ some (text arg)
  read_resp_reply-encode_argument arg chunks rest {frame} encoded =
      read_resp_reply-IsFrame frame (text arg) (encode_argument-IsFrame arg encoded) chunks rest

  -- With a codec as Python documents it, and a text that it encodes: when the peer closes before
  -- the end of the encoded bulk string, however what arrived is cut into chunks,
  -- `read_resp_reply` returns None and no part of the value.
  pub read_resp_reply_cut :
      (arg : Text) (chunks : List Bytes) (missing : Bytes) {frame : Bytes}
      → encode_argument utf8 arg ≡ some frame
      → 0 < length missing
      → join chunks ++ missing ≡ frame
      → read_resp_reply utf8 chunks ≡ some nothing
  unfolding read_resp_reply
  read_resp_reply_cut arg chunks missing {frame} encoded h e =
      read_loop_cut frame (text arg) (encode_argument-IsFrame arg encoded) [] chunks missing h e
