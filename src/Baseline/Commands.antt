-- ===== src/Baseline/Commands.antt =====
-- Sequences of the commands of tools/finding_baseline.py.
use vibes.Common.{ap, true, String, Option, some, [], ◌≡◌, refl}
use vibes.Common.Dict.{Dict}
use vibes.Baseline.{BaselineEntry, Document, load_baseline, partition, save_baseline}
use vibes.Baseline.Sarif.{sarif_finding, read_sarif}
use vibes.Baseline.Handlers.{Log, split_of, handle_record, handle_status, handle_prune}
use vibes.Baseline.Resolved.{partition-save_baseline, partition-prune}

-- A baseline of which nothing is resolved is not stale.
status_fresh :
    (file : Option Document) (source : Log) (baseline : Dict BaselineEntry)
    → load_baseline file ≡ some baseline
    → (partition sarif_finding (read_sarif source) baseline).resolved ≡ []
    → handle_status file source true ≡ some (file, 0)
unfolding handle_status split_of
status_fresh file source baseline loaded fresh =
    rw (loaded, handle_status, split_of) (rw fresh refl)

-- For a baseline file that loads and any SARIF log, the command `prune` exits with 0, and `status
-- --strict` with the same log exits with 0 afterwards.
handle_prune-handle_status :
    (file : Option Document) (source : Log) (now : String) {baseline : Dict BaselineEntry}
    → load_baseline file ≡ some baseline
    → (file' : Option Document) × (handle_prune file source now ≡ some (file', 0))
      × (handle_status file' source true ≡ some (file', 0))
unfolding handle_prune split_of
handle_prune-handle_status file source now loaded =
    let (file', removed, left, pruned, reloaded, split) =
      partition-prune sarif_finding file now (read_sarif source) loaded in
    (
      file',
      rw (loaded, handle_prune, split_of) (rw pruned refl),
      status_fresh file' source left reloaded (ap (λ s. s.resolved) split),
    )

-- The command `record` exits with 0, and so does `status --strict` with the same log afterwards.
pub handle_record-handle_status :
    (file : Option Document) (source : Log) (now : String)
    → (file' : Option Document) × (handle_record file source now ≡ some (file', 0))
      × (handle_status file' source true ≡ some (file', 0))
unfolding handle_record
handle_record-handle_status file source now =
    let (left, reloaded, split) = partition-save_baseline sarif_finding (read_sarif source) now in
    (
      some (save_baseline sarif_finding (read_sarif source) now).0,
      refl,
      status_fresh _ source left reloaded (ap (λ s. s.resolved) split),
    )
