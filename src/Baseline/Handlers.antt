-- ===== src/Baseline/Handlers.antt =====
-- The commands of tools/finding_baseline.py on the baseline file, lines 277 to 306, without what
-- they print. A result of `none` is an exception.
use vibes.Common.{ℕ, Bool, ◌&&◌, String, Option, none, some, List, if◌then◌else◌}
use vibes.Baseline.{Document, Partition, load_baseline, partition, save_baseline, prune, is_stale}
use vibes.Baseline.Sarif.{SarifResult, SarifFinding, read_sarif, sarif_finding}

abbrev pub Log : Type 0
Log = List (List SarifResult)

unfoldable pub handle_record : Option Document → Log → String → Option (Option Document × ℕ)
unfolding read_sarif save_baseline
handle_record file source now =
    let (document, written) = save_baseline sarif_finding (read_sarif source) now in
    some (some document, 0)

-- The split that `_handle_status` and `_handle_prune` compute.
unfoldable pub split_of : Option Document → Log → Option (Partition SarifFinding)
unfolding read_sarif partition load_baseline
split_of file source = elim (load_baseline file) [
  | none ↦ none
  | some baseline ↦ some (partition sarif_finding (read_sarif source) baseline)
]

unfoldable pub handle_status : Option Document → Log → Bool → Option (Option Document × ℕ)
unfolding split_of
handle_status file source strict = elim (split_of file source) [
  | none ↦ none
  | some split ↦ some (file, if strict && is_stale split then 1 else 0)
]

unfoldable pub handle_prune : Option Document → Log → String → Option (Option Document × ℕ)
unfolding split_of prune
handle_prune file source now = elim (split_of file source) [
  | none ↦ none
  | some split ↦ elim (prune file now split.resolved) [
    | none ↦ none
    | some (file', removed) ↦ some (file', 0)
  ]
]
