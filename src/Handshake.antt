-- ===== src/Handshake.antt =====
-- The audit of a delegated context, lines 31 to 201 of
-- examples/epistemic-context-handshake/context_handshake.py. The digest of the JSON text, the
-- signature, the clock and the rounded quotient are a parameter.
pub mod Audit
pub mod Order
use vibes.Common.{
  ℕ, ◌+◌, max, Bool, true, false, not, List, [], ◌∷◌, ◌++◌, map, length, take, ltb, ◌==◌,
  if◌then◌else◌, Option, none, some,
}
use vibes.Common.Texts.{Text, codes, text_eq, is_member}
use vibes.Common.Sorting.{keep, sort_by}

-- `F` is the type of the floating point numbers.
pub record ContextEnvelope (F : Type 0) : Type 0 where
  pub envelope_id : Text
  pub parent_agent : Text
  pub target_subagent : Text
  pub required_symbols : List Text
  pub preconditions : List Text
  pub allowed_parameters : List Text
  pub context_hash : Text
  pub created_at : F

-- Of the arguments the audit reads the names.
pub record SubagentResponse : Type 0 where
  pub envelope_id : Text
  pub subagent_id : Text
  pub returned_symbols : List Text
  pub provided_arguments : List Text
  pub satisfied_preconditions : List Text
  pub execution_status : Text

pub record Certificate (F : Type 0) : Type 0 where
  pub status : Text
  pub envelope_id : Text
  pub subagent_id : Text
  pub epistemic_loss : F
  pub signature : Text
  pub attested_at : F

-- The certificate of a response that is not valid is `none`, for `{}`.
pub record HandshakeAuditReport (F : Type 0) : Type 0 where
  pub envelope_id : Text
  pub is_valid : Bool
  pub epistemic_loss : F
  pub violations : List Text
  pub certificate : Option (Certificate F)

-- `digest` is the SHA-256 of the JSON text of symbols, preconditions and parameters; `sign` that of a
-- certificate's fields and a time; `loss` is min(1.0, round(a / b, 4)).
pub record Services (F : Type 0) : Type 0 where
  pub digest : List Text → List Text → List Text → Text
  pub sign : Text → Text → F → F → Text
  pub loss : ℕ → ℕ → F

-- The order of `str`: by the first code point in which two texts differ.
unfoldable pub text_le : Text → Text → Bool
text_le [] t = true
text_le (c ∷ s) [] = false
text_le (c ∷ s) (d ∷ t) = if ltb c d then true else if c == d then text_le s t else false

unfoldable pub sorted : List Text → List Text
unfolding text_le sort_by
sorted = sort_by text_le

abbrev unrecognized : Text → Text
unrecognized param =
    codes "UNRECOGNIZED_PARAMETER: '" ++ (param ++ codes "' not declared in envelope schema")

abbrev dropped_precondition : Text → Text
dropped_precondition dp = codes "DROPPED_PRECONDITION: '" ++ (dp ++ codes "'")

-- The parameters that are not allowed, in the order of the arguments.
unfoldable pub check_negative_schema_bounds :
    {F : Type 0} → ContextEnvelope F → List Text → List Text
unfolding keep is_member
check_negative_schema_bounds envelope arguments =
    map unrecognized (keep (λ param. not (is_member param envelope.allowed_parameters)) arguments)

unfoldable pub collect_precondition_violations :
    {F : Type 0} → ContextEnvelope F → List Text → List Text
unfolding keep is_member
collect_precondition_violations envelope satisfied =
    keep (λ p. not (is_member p satisfied)) envelope.preconditions

abbrev is_empty : List Text → Bool
is_empty [] = true
is_empty (v ∷ violations) = false

module _ {F : Type 0} (services : Services F) where
  unfoldable pub compute_context_hash : List Text → List Text → List Text → Text
  unfolding sorted
  compute_context_hash symbols preconditions parameters =
      services.digest (sorted symbols) (sorted preconditions) (sorted parameters)

  unfoldable pub create_context_envelope :
      Text × Text → List Text → List Text → List Text → F → ContextEnvelope F
  unfolding compute_context_hash
  create_context_envelope (parent_agent, target_subagent) symbols preconditions parameters now =
      let ctx_hash = compute_context_hash symbols preconditions parameters in
      record {
        envelope_id = codes "env-" ++ take 12 ctx_hash;
        parent_agent = parent_agent;
        target_subagent = target_subagent;
        required_symbols = symbols;
        preconditions = preconditions;
        allowed_parameters = parameters;
        context_hash = ctx_hash;
        created_at = now;
      }

  unfoldable pub verify_envelope_integrity : ContextEnvelope F → Bool
  unfolding compute_context_hash text_eq
  verify_envelope_integrity envelope =
      text_eq
        (compute_context_hash envelope.required_symbols envelope.preconditions
          envelope.allowed_parameters)
        envelope.context_hash

  unfoldable pub collect_integrity_violations : ContextEnvelope F → SubagentResponse → List Text
  unfolding verify_envelope_integrity text_eq
  collect_integrity_violations envelope response =
      (if text_eq envelope.envelope_id response.envelope_id
        then []
        else codes "ENVELOPE_ID_MISMATCH" ∷ [])
      ++ (if verify_envelope_integrity envelope
          then []
          else codes "CONTEXT_TAMPERING_DETECTED" ∷ [])

  unfoldable pub calculate_epistemic_loss : ContextEnvelope F → ℕ → ℕ → F
  calculate_epistemic_loss envelope dropped_count schema_violation_count =
      let checks = length envelope.preconditions + length envelope.allowed_parameters in
      services.loss (dropped_count + schema_violation_count) (max 1 checks)

  unfoldable pub generate_handshake_certificate :
      ContextEnvelope F → SubagentResponse → F → F → F → Certificate F
  generate_handshake_certificate envelope response loss signed_at attested_at = record {
    status = codes "ATTESTED";
    envelope_id = envelope.envelope_id;
    subagent_id = response.subagent_id;
    epistemic_loss = loss;
    signature = services.sign envelope.envelope_id response.subagent_id loss signed_at;
    attested_at = attested_at;
  }

  -- The two times are the readings of the clock for a certificate.
  unfoldable pub audit_epistemic_loss :
      ContextEnvelope F → SubagentResponse → F → F → HandshakeAuditReport F
  unfolding check_negative_schema_bounds collect_precondition_violations
      collect_integrity_violations calculate_epistemic_loss generate_handshake_certificate
  audit_epistemic_loss envelope response signed_at attested_at =
      let schema_violations = check_negative_schema_bounds envelope response.provided_arguments in
      let dropped = collect_precondition_violations envelope response.satisfied_preconditions in
      let integrity = collect_integrity_violations envelope response in
      let violations = integrity ++ schema_violations ++ map dropped_precondition dropped in
      let loss = calculate_epistemic_loss envelope (length dropped) (length schema_violations) in
      let certificate =
        generate_handshake_certificate envelope response loss signed_at attested_at in
      record {
        envelope_id = envelope.envelope_id;
        is_valid = is_empty violations;
        epistemic_loss = loss;
        violations = violations;
        certificate = if is_empty violations then some certificate else none;
      }
