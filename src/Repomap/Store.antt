-- ===== src/Repomap/Store.antt =====
-- Dictionaries keyed by texts as lists of code points, in the order of insertion, for the stores of
-- examples/valkey-l2-repomap-cache/repomap_cache.py.
use vibes.Common.{
  ◌≤◌, ◌+◌, Option, none, some, List, [], ◌∷◌, length, ◌≡◌, refl, if◌then◌else◌, arith, All,
  Bool-cases, inl, inr, subst, sym,
}
use vibes.Common.Texts.{Text, text_eq, text_eq→eq, text_eq_self}

abbrev pub Store {ℓ} : Type ℓ → Type ℓ
Store V = List (Text × V)

module _ {ℓ} {V : Type ℓ} where
  -- `d.get(k)`
  unfoldable pub get : Store V → Text → Option V
  unfolding text_eq
  get [] k = none
  get ((j, v) ∷ d) k = if text_eq j k then some v else get d k

  -- `d[k] = v`
  unfoldable pub put : Store V → Text → V → Store V
  unfolding text_eq
  put [] k v = (k, v) ∷ []
  put ((j, w) ∷ d) k v = if text_eq j k then (j, v) ∷ d else (j, w) ∷ put d k v

  -- `d.pop(k, None)`
  unfoldable pub pop : Store V → Text → Store V
  unfolding text_eq
  pop [] k = []
  pop ((j, w) ∷ d) k = let rest = pop d k in if text_eq j k then d else (j, w) ∷ rest

  pub length-put : (d : Store V) (k : Text) (v : V) → length (put d k v) ≤ length d + 1
  unfolding put
  length-put [] k v = omega arith
  length-put ((j, w) ∷ d) k v = ground (arith, length-put d k v)

  pub length-pop_first : (j : Text) (w : V) (d : Store V) → length (pop ((j, w) ∷ d) j) ≡ length d
  unfolding pop
  length-pop_first j w d = rw (text_eq_self j) refl

  pub get-put_self : (d : Store V) (k : Text) (v : V) → get (put d k v) k ≡ some v
  unfolding get put
  get-put_self [] k v = rw (text_eq_self k) refl
  get-put_self ((j, w) ∷ d) k v = ground (arith, get-put_self d k v)

  -- A property of every entry is kept by the two changes, and holds of what is looked up.
  pub All-put :
      (P : Text → V → Type 0) (d : Store V) (k : Text) (v : V)
      → All (λ e. P e.0 e.1) d
      → P k v
      → All (λ e. P e.0 e.1) (put d k v)
  unfolding put
  All-put P [] k v h p = (p, tt)
  All-put P ((j, w) ∷ d) k v (q, h) p = elim (Bool-cases (text_eq j k)) [
    | inl same ↦ let e : j ≡ k = text_eq→eq j k same in rw same (subst (λ i. P i v) (sym e) p, h)
    | inr other ↦ rw other (q, All-put P d k v h p)
  ]

  pub All-pop :
      (P : Text → V → Type 0) (d : Store V) (k : Text)
      → All (λ e. P e.0 e.1) d
      → All (λ e. P e.0 e.1) (pop d k)
  unfolding pop
  All-pop P [] k h = tt
  All-pop P ((j, w) ∷ d) k (q, h) = elim (Bool-cases (text_eq j k)) [
    | inl same ↦ rw same h
    | inr other ↦ rw other (q, All-pop P d k h)
  ]

  pub All-get :
      (P : Text → V → Type 0) (d : Store V) (k : Text) (v : V)
      → All (λ e. P e.0 e.1) d
      → get d k ≡ some v
      → P k v
  unfolding get
  All-get P [] k v h e = absurd (cc e)
  All-get P ((j, w) ∷ d) k v (q, h) e = elim (Bool-cases (text_eq j k)) [
    | inl same ↦
        let e' = rw (same, get) at e in
        let key : j ≡ k = text_eq→eq j k same in
        let value : w ≡ v = cc e' in subst (λ i. P i v) key (subst (P j) value q)
    | inr other ↦ All-get P d k v h (rw (other, get) at e)
  ]
