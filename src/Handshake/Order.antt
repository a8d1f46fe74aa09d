-- ===== src/Handshake/Order.antt =====
-- The hash of a context does not depend on the order of its lists, in
-- examples/epistemic-context-handshake/context_handshake.py.
use vibes.Common.{true, false, List, [], ◌∷◌, ◌≡◌, refl, ap, sym, ◌∙◌, arith}
use mathlib.Core.List.{Permᴰ}
use vibes.Common.Texts.{Text, text_eq}
use vibes.Common.Sorting.{sort_by, insert_sorted}
use vibes.Handshake.{
  ContextEnvelope, Services, text_le, sorted, compute_context_hash, verify_envelope_integrity,
}

text_le_total : (s t : Text) → text_le s t ≡ false → text_le t s ≡ true
unfolding text_le
text_le_total [] t h = cc
text_le_total (c ∷ s) [] h = refl
text_le_total (c ∷ s) (d ∷ t) h = ground (arith, text_le_total s t)

text_le_antisymm : (s t : Text) → text_le s t ≡ true → text_le t s ≡ true → s ≡ t
unfolding text_le
text_le_antisymm [] [] h k = refl
text_le_antisymm [] (d ∷ t) h k = cc
text_le_antisymm (c ∷ s) [] h k = cc
text_le_antisymm (c ∷ s) (d ∷ t) h k = ground (arith, text_le_antisymm s t)

text_le_trans : (s t u : Text) → text_le s t ≡ true → text_le t u ≡ true → text_le s u ≡ true
unfolding text_le
text_le_trans [] t u h k = refl
text_le_trans (c ∷ s) [] u h k = cc
text_le_trans (c ∷ s) (d ∷ t) [] h k = cc
text_le_trans (c ∷ s) (d ∷ t) (e ∷ u) h k = ground (arith, text_le_trans s t u)

insert_sorted_comm :
    (x y : Text) (zs : List Text)
    → insert_sorted text_le x (insert_sorted text_le y zs)
      ≡ insert_sorted text_le y (insert_sorted text_le x zs)
unfolding insert_sorted
insert_sorted_comm x y [] =
    ground (arith, text_le_total x y, text_le_total y x, text_le_antisymm x y)
insert_sorted_comm x y (z ∷ zs) = ground (
  arith,
  insert_sorted_comm x y zs,
  text_le_total x y,
  text_le_total y x,
  text_le_antisymm x y,
  text_le_trans x y z,
  text_le_trans y x z,
)

sort_by-Perm : {xs ys : List Text} → Permᴰ xs ys → sort_by text_le xs ≡ sort_by text_le ys
unfolding sort_by
sort_by-Perm Permᴰ.nil = refl
sort_by-Perm (Permᴰ.cons {b} {l₁} e h) =
    ap (λ c. insert_sorted text_le c (sort_by text_le l₁)) e
    ∙ ap (insert_sorted text_le b) (sort_by-Perm h)
sort_by-Perm (Permᴰ.swap {a} {b} {a'} {l} e f) =
    insert_sorted_comm a b (sort_by text_le l)
    ∙ ap (λ c. insert_sorted text_le c (insert_sorted text_le a (sort_by text_le l))) f
    ∙ ap (λ c. insert_sorted text_le a' (insert_sorted text_le c (sort_by text_le l))) e
sort_by-Perm (Permᴰ.trans h k) = sort_by-Perm h ∙ sort_by-Perm k

module _ {F : Type 0} (services : Services F) where
  -- When the symbols, the preconditions and the parameters of an envelope are each put in another
  -- order, `verify_envelope_integrity` has the same answer.
  pub verify_envelope_integrity-Perm :
      (envelope : ContextEnvelope F) (symbols preconditions parameters : List Text)
      → Permᴰ envelope.required_symbols symbols
      → Permᴰ envelope.preconditions preconditions
      → Permᴰ envelope.allowed_parameters parameters
      → verify_envelope_integrity services (record envelope {
        required_symbols = symbols;
        preconditions = preconditions;
        allowed_parameters = parameters;
      })
        ≡ verify_envelope_integrity services envelope
  unfolding verify_envelope_integrity compute_context_hash sorted
  verify_envelope_integrity-Perm envelope symbols preconditions parameters p q r =
      ap (λ hash. text_eq hash envelope.context_hash)
        (ap (λ s. services.digest s (sort_by text_le preconditions) (sort_by text_le parameters))
            (sym (sort_by-Perm p))
          ∙ ap
              (λ s.
                services.digest (sort_by text_le envelope.required_symbols) s
                  (sort_by text_le parameters))
              (sym (sort_by-Perm q))
          ∙ ap
              (services.digest (sort_by text_le envelope.required_symbols)
                (sort_by text_le envelope.preconditions))
              (sym (sort_by-Perm r)))
