-- ===== src/Baseline.antt =====
-- The accepted findings of the quality gate, tools/finding_baseline.py. The values of the JSON
-- documents that the file reads as texts are texts here.
pub mod Sarif
pub mod Presence
pub mod Resolved
pub mod Handlers
pub mod Commands
use Prim.Native.String.{compare}
use text.Mathlib.Text.{is_le}
use vibes.Common.{
  ℕ, Bool, true, false, not, String, Option, none, some, List, [], ◌∷◌, map, length, if◌then◌else◌,
}
use vibes.Common.Dict.{Dict, contains, get, put, str_eq}
use vibes.Common.Sorting.{keep, sort_by}

abbrev pub baseline_version : ℕ
baseline_version = 1

pub record BaselineEntry : Type 0 where
  pub fingerprint : String
  pub rule_id : String
  pub file_path : String
  pub subject : String
  pub first_seen : String

unfoldable pub to_json : BaselineEntry → Dict String
to_json entry =
    ("fingerprint", entry.fingerprint)
    ∷ ("rule", entry.rule_id)
    ∷ ("file", entry.file_path)
    ∷ ("subject", entry.subject)
    ∷ ("first_seen", entry.first_seen)
    ∷ []

-- `payload.get(key, "")`
abbrev pub get_text : Dict String → String → String
unfolding get
get_text payload key = elim (get payload key) [ none ↦ "" | some s ↦ s ]

-- `none` is the `KeyError` of an entry with no fingerprint.
unfoldable pub from_json : Dict String → Option BaselineEntry
unfolding get get_text
from_json payload = elim (get payload "fingerprint") [
  | none ↦ none
  | some fingerprint ↦ some (record {
    fingerprint = fingerprint;
    rule_id = get_text payload "rule";
    file_path = get_text payload "file";
    subject = get_text payload "subject";
    first_seen = get_text payload "first_seen";
  })
]

-- The document of a baseline file; a file that was edited by hand may have no list of findings.
pub record Document : Type 0 where
  pub version : ℕ
  pub recorded_at : String
  pub findings : Option (List (Dict String))

-- What the code calls of a finding, at the root that it passes on.
pub record Finding {ℓ} (A : Type ℓ) : Type ℓ where
  pub fingerprint : A → String
  pub rule_id : A → String
  pub file_path : A → String
  pub subject : A → String

pub record Partition {ℓ} (A : Type ℓ) : Type ℓ where
  pub new : List A
  pub known : List A
  pub resolved : List BaselineEntry

abbrev pub is_stale {ℓ} : {A : Type ℓ} → Partition A → Bool
is_stale split = elim split.resolved [ [] ↦ false | _ ∷ _ ↦ true ]

-- `[BaselineEntry.from_json(item) for item in items]`
unfoldable pub entries_of : List (Dict String) → Option (List BaselineEntry)
unfolding from_json
entries_of [] = some []
entries_of (item ∷ items) = elim (from_json item) [
  | none ↦ none
  | some entry ↦ elim (entries_of items) [ none ↦ none | some entries ↦ some (entry ∷ entries) ]
]

-- `{entry.fingerprint: entry for entry in entries}`, into the dictionary `acc`
unfoldable pub by_fingerprint : Dict BaselineEntry → List BaselineEntry → Dict BaselineEntry
unfolding put
by_fingerprint acc [] = acc
by_fingerprint acc (entry ∷ entries) = by_fingerprint (put acc entry.fingerprint entry) entries

-- `payload.get("findings", [])`
abbrev pub items_of : Option (List (Dict String)) → List (Dict String)
items_of none = []
items_of (some items) = items

-- The file is `none` where there is none, and the result is `none` where an entry raises.
unfoldable pub load_baseline : Option Document → Option (Dict BaselineEntry)
unfolding entries_of by_fingerprint
load_baseline none = some []
load_baseline (some document) = elim (entries_of (items_of document.findings)) [
  | none ↦ none
  | some entries ↦ some (by_fingerprint [] entries)
]

-- The order of `(e.rule_id, e.file_path, e.fingerprint)`.
abbrev pub le_entry : BaselineEntry → BaselineEntry → Bool
le_entry a b =
    if str_eq a.rule_id b.rule_id
    then if str_eq a.file_path b.file_path
      then is_le (compare a.fingerprint b.fingerprint)
      else is_le (compare a.file_path b.file_path)
    else is_le (compare a.rule_id b.rule_id)

abbrev pub values {ℓ} : {V : Type ℓ} → Dict V → List V
values = map (λ e. e.1)

abbrev pub document_of : String → List BaselineEntry → Document
document_of stamp entries = record {
  version = baseline_version;
  recorded_at = stamp;
  findings = some (map to_json (sort_by le_entry entries));
}

-- The keys of a dictionary differ, so they alone decide.
abbrev pub le_item : String × BaselineEntry → String × BaselineEntry → Bool
le_item a b = is_le (compare a.0 b.0)

-- `set` of the texts of a list
unfoldable pub distinct : List String → List String
unfolding contains
distinct [] = []
distinct (x ∷ xs) = let rest = distinct xs in if contains rest x then rest else x ∷ rest

-- The stamp `now` is that of the clock.
unfoldable pub prune : Option Document → String → List BaselineEntry → Option (Option Document × ℕ)
unfolding load_baseline keep contains distinct
prune file now [] = some (file, 0)
prune file now (entry ∷ entries) =
    let stale = distinct (map (λ e. e.fingerprint) (entry ∷ entries)) in
    elim (load_baseline file) [
      | none ↦ none
      | some baseline ↦
          let kept = values (keep (λ item. not (contains stale item.0)) baseline) in
          some (some (document_of now kept), length stale)
    ]

-- The entries of the baseline whose fingerprint was not seen, in the order of the fingerprints.
unfoldable pub resolved_of : Dict BaselineEntry → List String → List BaselineEntry
unfolding keep sort_by contains
resolved_of baseline seen =
    values (keep (λ item. not (contains seen item.0)) (sort_by le_item baseline))

module _ {ℓ} {A : Type ℓ} (interface : Finding A) where
  open interface use {fingerprint, rule_id, file_path, subject}

  abbrev pub entry_of : String → A → BaselineEntry
  entry_of stamp f = record {
    fingerprint = fingerprint f;
    rule_id = rule_id f;
    file_path = file_path f;
    subject = subject f;
    first_seen = stamp;
  }

  -- The file is written whatever it was.
  unfoldable pub save_baseline : List A → String → Document × ℕ
  unfolding by_fingerprint sort_by to_json
  save_baseline findings stamp =
      let unique = by_fingerprint [] (map (entry_of stamp) findings) in
      (document_of stamp (values unique), length (sort_by le_entry (values unique)))

  -- The loop of `partition`: the new findings and the known ones.
  unfoldable pub split : Dict BaselineEntry → List A → List A × List A
  unfolding get
  split baseline [] = ([], [])
  split baseline (finding ∷ findings) =
      let (new, known) = split baseline findings in
      elim (get baseline (fingerprint finding)) [
        | none ↦ (finding ∷ new, known)
        | some entry ↦ (new, finding ∷ known)
      ]

  unfoldable pub partition : List A → Dict BaselineEntry → Partition A
  unfolding split resolved_of
  partition findings baseline =
      let (new, known) = split baseline findings in
      let seen = map fingerprint findings in
      record { new = new; known = known; resolved = resolved_of baseline seen }
