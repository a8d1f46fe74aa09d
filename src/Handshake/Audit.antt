-- ===== src/Handshake/Audit.antt =====
-- When the audit of examples/epistemic-context-handshake/context_handshake.py passes a response.
use vibes.Common.{
  Bool, true, not, List, [], ◌∷◌, ◌++◌, map, ◌≡◌, refl, ap, sym, ◌∙◌, ◌↔◌, All, arith,
}
use vibes.Common.Texts.{Text, text_eq, is_member, text_eq→eq, text_eq_self}
use vibes.Common.Sorting.{keep}
use vibes.Handshake.{
  ContextEnvelope, SubagentResponse, Services, check_negative_schema_bounds,
  collect_precondition_violations, collect_integrity_violations, verify_envelope_integrity,
  compute_context_hash, audit_epistemic_loss, is_empty, unrecognized, dropped_precondition,
}

-- A comprehension is empty if no element passes its test.
keep_empty :
    (test : Text → Bool) (f : Text → Text) (xs : List Text)
    → is_empty (map f (keep (λ x. not (test x)) xs)) ≡ true
    → All (λ x. test x ≡ true) xs
unfolding keep
keep_empty test f [] h = tt
keep_empty test f (x ∷ xs) h = ground (arith, keep_empty test f xs)

keep_of-All :
    (test : Text → Bool) (xs : List Text)
    → All (λ x. test x ≡ true) xs
    → keep (λ x. not (test x)) xs ≡ []
unfolding keep
keep_of-All test [] h = refl
keep_of-All test (x ∷ xs) (p, h) = rw p (keep_of-All test xs h)

is_empty-append :
    (a b : List Text) → is_empty (a ++ b) ≡ true → (is_empty a ≡ true) × (is_empty b ≡ true)
is_empty-append [] b h = (refl, h)
is_empty-append (x ∷ a) b h = absurd (cc h)

is_empty-append_of :
    (a b : List Text) → is_empty a ≡ true → is_empty b ≡ true → is_empty (a ++ b) ≡ true
is_empty-append_of [] b h k = k
is_empty-append_of (x ∷ a) b h k = absurd (cc h)

module _ {F : Type 0} (services : Services F) (envelope : ContextEnvelope F)
    (response : SubagentResponse) where
  -- The response answers this envelope, which has not been changed, uses no parameter that is not
  -- allowed, and satisfies every precondition.
  abbrev pub Fulfills : Type 0
  Fulfills =
      (envelope.envelope_id ≡ response.envelope_id)
      × (compute_context_hash services envelope.required_symbols envelope.preconditions
            envelope.allowed_parameters
          ≡ envelope.context_hash)
      × All (λ p. is_member p envelope.allowed_parameters ≡ true) response.provided_arguments
      × All (λ p. is_member p response.satisfied_preconditions ≡ true) envelope.preconditions

  integrity_iff : (is_empty (collect_integrity_violations services envelope response) ≡ true) ↔ (
      (text_eq envelope.envelope_id response.envelope_id ≡ true)
      × (verify_envelope_integrity services envelope ≡ true))
  unfolding collect_integrity_violations
  integrity_iff = ground arith

  verify_iff : (verify_envelope_integrity services envelope ≡ true) ↔ (
      compute_context_hash services envelope.required_symbols envelope.preconditions
        envelope.allowed_parameters
      ≡ envelope.context_hash)
  unfolding verify_envelope_integrity
  verify_iff = (text_eq→eq _ _, λ e. rw e (text_eq_self envelope.context_hash))

  -- `audit_epistemic_loss` passes a response exactly when it names the envelope, the envelope's
  -- hash is that of its lists, every argument is an allowed parameter, and every precondition is
  -- among those that are satisfied.
  pub audit_epistemic_loss_iff :
      (signed_at attested_at : F)
      → ((audit_epistemic_loss services envelope response signed_at attested_at).is_valid ≡ true)
        ↔ Fulfills
  unfolding audit_epistemic_loss check_negative_schema_bounds collect_precondition_violations
  audit_epistemic_loss_iff signed_at attested_at =
      let integrity : List Text = collect_integrity_violations services envelope response in
      let schema : List Text = check_negative_schema_bounds envelope response.provided_arguments in
      let dropped : List Text =
        collect_precondition_violations envelope response.satisfied_preconditions in
      let allowed = λ (p : Text). is_member p envelope.allowed_parameters in
      let satisfied = λ (p : Text). is_member p response.satisfied_preconditions in
      (
        λ valid.
            let (front, no_drop) =
              is_empty-append (integrity ++ schema) (map dropped_precondition dropped) valid in
            let (sound, no_extra) = is_empty-append integrity schema front in
            let (answers, unchanged) = integrity_iff.0 sound in
            (
              text_eq→eq envelope.envelope_id response.envelope_id answers,
              verify_iff.0 unchanged,
              keep_empty allowed unrecognized response.provided_arguments no_extra,
              keep_empty satisfied dropped_precondition envelope.preconditions no_drop,
            ),
        λ good.
            let same : text_eq envelope.envelope_id response.envelope_id ≡ true =
              ap (text_eq envelope.envelope_id) (sym good.0) ∙ text_eq_self envelope.envelope_id in
            is_empty-append_of (integrity ++ schema) (map dropped_precondition dropped)
              (is_empty-append_of integrity schema (integrity_iff.1 (same, verify_iff.1 good.1)) (
                ap (λ xs. is_empty (map unrecognized xs))
                  (keep_of-All allowed response.provided_arguments good.2)))
              (ap (λ xs. is_empty (map dropped_precondition xs))
                (keep_of-All satisfied envelope.preconditions good.3)),
      )
