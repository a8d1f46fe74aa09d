-- ===== src/Tests/Accepted.antt =====
-- A baseline of two findings.
use vibes.Common.{ℕ, String, Option, some, List, [], ◌∷◌, ◌≡◌, refl}
use vibes.Common.Dict.{Dict}
use vibes.Baseline.{BaselineEntry, Document, load_baseline, save_baseline, partition, prune}
use vibes.Baseline.Sarif.{SarifFinding, sarif_finding}
use vibes.Baseline.Resolved.{partition-save_baseline, partition-prune}

abbrev finding : String → String → SarifFinding
finding rule digest = record {
  rule_id = rule;
  file_path = "tools/a.py";
  subject = "f";
  digest = digest;
}

abbrev two : List SarifFinding
two = finding "R2" "d2" ∷ finding "R1" "d1" ∷ []

partition-save_baseline_example :
    (baseline : Dict BaselineEntry) × (load_baseline
        (some (save_baseline sarif_finding two "now").0)
      ≡ some baseline)
    × (partition sarif_finding two baseline ≡ record { new = []; known = two; resolved = [] })
partition-save_baseline_example = partition-save_baseline sarif_finding two "now"

abbrev item : String → Dict String
item digest = ("fingerprint", digest) ∷ ("rule", "R1") ∷ []

-- One of the two entries stands for a finding that is gone.
abbrev old : Option Document
old =
    some
      (record { version = 1; recorded_at = "then"; findings = some (item "d1" ∷ item "gone" ∷ []) })

abbrev entry : String → BaselineEntry
entry digest = record {
  fingerprint = digest;
  rule_id = "R1";
  file_path = "";
  subject = "";
  first_seen = "";
}

abbrev accepted : Dict BaselineEntry
accepted = ("d1", entry "d1") ∷ ("gone", entry "gone") ∷ []

old_loads : load_baseline old ≡ some accepted
unfolding load_baseline
old_loads = refl

partition-prune_example :
    (file' : Option Document) × (removed : ℕ) × (left : Dict BaselineEntry) × (prune old "now"
        (partition sarif_finding two accepted).resolved
      ≡ some (file', removed))
    × (load_baseline file' ≡ some left)
    × (partition sarif_finding two left ≡ record {
      new = (partition sarif_finding two accepted).new;
      known = (partition sarif_finding two accepted).known;
      resolved = [];
    })
partition-prune_example = partition-prune sarif_finding old "now" two old_loads
