-- ===== src/Tests/Delegated.antt =====
-- A context that is handed over and answered.
use vibes.Common.{ℕ, true, List, [], ◌∷◌, ◌++◌, ◌≡◌, refl, ◌↔◌}
use mathlib.Core.List.{Permᴰ}
use mathlib.Core.List.Permᴰ
use vibes.Common.Texts.{Text, codes}
use vibes.Handshake.{
  ContextEnvelope, SubagentResponse, Services, create_context_envelope, verify_envelope_integrity,
  audit_epistemic_loss,
}
use vibes.Handshake.Order.{verify_envelope_integrity-Perm}
use vibes.Handshake.Audit.{Fulfills, audit_epistemic_loss_iff}

-- The first text of each list stands for the digest.
abbrev first : List Text → Text
first [] = []
first (s ∷ texts) = s

abbrev services : Services ℕ
services = record {
  digest = λ symbols preconditions parameters.
      first symbols ++ (first preconditions ++ first parameters);
  sign = λ envelope_id subagent_id loss time. envelope_id;
  loss = λ weight checks. weight;
}

abbrev envelope : ContextEnvelope ℕ
envelope =
    create_context_envelope services (codes "lead", codes "sub") (codes "parse" ∷ codes "emit" ∷ [])
      (codes "clean" ∷ []) (codes "path" ∷ codes "depth" ∷ []) 7

abbrev response : SubagentResponse
response = record {
  envelope_id = envelope.envelope_id;
  subagent_id = codes "sub";
  returned_symbols = [];
  provided_arguments = codes "depth" ∷ [];
  satisfied_preconditions = codes "clean" ∷ [];
  execution_status = codes "done";
}

audit_epistemic_loss_iff_example :
    ((audit_epistemic_loss services envelope response 8 9).is_valid ≡ true)
    ↔ Fulfills services envelope response
audit_epistemic_loss_iff_example = audit_epistemic_loss_iff services envelope response 8 9

verify_envelope_integrity-Perm_example :
    verify_envelope_integrity services (record envelope {
      required_symbols = codes "emit" ∷ codes "parse" ∷ [];
      preconditions = codes "clean" ∷ [];
      allowed_parameters = codes "depth" ∷ codes "path" ∷ [];
    })
    ≡ verify_envelope_integrity services envelope
unfolding create_context_envelope
verify_envelope_integrity-Perm_example =
    verify_envelope_integrity-Perm services envelope (codes "emit" ∷ codes "parse" ∷ [])
      (codes "clean" ∷ []) (codes "depth" ∷ codes "path" ∷ []) (Permᴰ.swap refl refl)
      (Permᴰ.refl (codes "clean" ∷ [])) (Permᴰ.swap refl refl)

audited : (audit_epistemic_loss services envelope response 8 9).is_valid ≡ true
unfolding audit_epistemic_loss create_context_envelope
audited = refl
