-- ===== src/Baseline/Sarif.antt =====
-- The findings of a SARIF log, lines 217 to 274 of tools/finding_baseline.py. Of the log's JSON the
-- texts that the code reads are kept: `none` stands for a key that is missing.
use vibes.Common.{ℕ, zero, suc, String, Option, none, some, List, [], ◌∷◌, ◌++◌}
use vibes.Common.Dict.{Dict}
use vibes.Baseline.{Finding}

-- `location["physicalLocation"]["artifactLocation"]["uri"]`, if all three are there.
pub record SarifResult : Type 0 where
  pub rule : Option String
  pub locations : List (Option String)
  pub message : Option String
  pub partial_fingerprints : Dict String

pub record SarifFinding : Type 0 where
  pub rule_id : String
  pub file_path : String
  pub subject : String
  pub digest : String

abbrev or_empty : Option String → String
or_empty none = ""
or_empty (some s) = s

-- `s[:n]`
abbrev first_chars : ℕ → String → String
first_chars zero s = ""
first_chars (suc n) String.[] = ""
first_chars (suc n) (String.◌∷◌ c s) = String.◌∷◌ c (first_chars n s)

unfoldable pub result_uri : List (Option String) → String
result_uri [] = ""
result_uri (none ∷ locations) = result_uri locations
result_uri (some uri ∷ locations) = uri

unfoldable pub findings_in_run : List SarifResult → List SarifFinding
unfolding result_uri
findings_in_run [] = []
findings_in_run (result ∷ results) =
    let rest = findings_in_run results in
    elim (result.partial_fingerprints) [
      | [] ↦ rest
      | entry ∷ _ ↦
          record {
            rule_id = or_empty result.rule;
            file_path = result_uri result.locations;
            subject = first_chars 80 (or_empty result.message);
            digest = entry.1;
          }
          ∷ rest
    ]

-- The runs of the log.
unfoldable pub read_sarif : List (List SarifResult) → List SarifFinding
unfolding findings_in_run
read_sarif [] = []
read_sarif (run ∷ runs) = findings_in_run run ++ read_sarif runs

abbrev pub sarif_finding : Finding SarifFinding
sarif_finding = record {
  fingerprint = λ f. f.digest;
  rule_id = λ f. f.rule_id;
  file_path = λ f. f.file_path;
  subject = λ f. f.subject;
}
