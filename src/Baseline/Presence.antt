-- ===== src/Baseline/Presence.antt =====
-- Which fingerprints a baseline of tools/finding_baseline.py has after each operation.
use vibes.Common.{
  Bool, true, false, ◌&&◌, ◌||◌, not, String, Option, none, some, List, [], ◌∷◌, map, ◌≡◌, refl,
  All, subst, arith, ap, ◌∙◌, Bool-cases, Option-cases, inl, inr,
}
use text.Mathlib.TextEquality.{eq_iff}
use vibes.Common.Dict.{Dict, contains, get, put, get-put, str_eq}
use vibes.Common.Sorting.{any, keep, sort_by, any-sort_by}
use vibes.Baseline.{
  BaselineEntry, Document, Finding, to_json, from_json, entries_of, by_fingerprint, load_baseline,
  le_entry, values, document_of, distinct, entry_of, save_baseline, split, items_of,
}

-- `k in d`
abbrev pub has {ℓ} : {V : Type ℓ} → Dict V → String → Bool
has d k = elim (get d k) [ none ↦ false | some v ↦ true ]

abbrev pub has_entry : List BaselineEntry → String → Bool
has_entry entries k = any (λ e. str_eq e.fingerprint k) entries

-- Each entry is under its own fingerprint.
abbrev pub WellKeyed : Dict BaselineEntry → Type 0
WellKeyed = All (λ item. item.0 ≡ item.1.fingerprint)

from_json-to_json : (entry : BaselineEntry) → from_json (to_json entry) ≡ some entry
unfolding from_json to_json
from_json-to_json entry = refl

entries_of-to_json :
    (entries : List BaselineEntry) → entries_of (map to_json entries) ≡ some entries
unfolding entries_of
entries_of-to_json [] = refl
entries_of-to_json (entry ∷ entries) =
    ground (arith, from_json-to_json entry, entries_of-to_json entries)

put-WellKeyed :
    (d : Dict BaselineEntry) (e : BaselineEntry) → WellKeyed d → WellKeyed (put d e.fingerprint e)
unfolding put
put-WellKeyed [] e w = (refl, tt)
put-WellKeyed (item ∷ d) e (own, w) = elim (Bool-cases (str_eq item.0 e.fingerprint)) [
  | inl same ↦ rw same (refl, w)
  | inr other ↦ rw other (own, put-WellKeyed d e w)
]

by_fingerprint-WellKeyed :
    (acc : Dict BaselineEntry) (es : List BaselineEntry)
    → WellKeyed acc
    → WellKeyed (by_fingerprint acc es)
unfolding by_fingerprint
by_fingerprint-WellKeyed acc [] w = w
by_fingerprint-WellKeyed acc (e ∷ es) w =
    by_fingerprint-WellKeyed (put acc e.fingerprint e) es (put-WellKeyed acc e w)

has-by_fingerprint :
    (acc : Dict BaselineEntry) (es : List BaselineEntry) (k : String)
    → has (by_fingerprint acc es) k ≡ (has acc k || has_entry es k)
unfolding by_fingerprint any
has-by_fingerprint acc [] k = ground arith
has-by_fingerprint acc (e ∷ es) k =
    let later = has-by_fingerprint (put acc e.fingerprint e) es k in
    let first = get-put acc e.fingerprint k e in ground (arith, later, first)

has_entry-values :
    (d : Dict BaselineEntry) (k : String) → WellKeyed d → has_entry (values d) k ≡ has d k
unfolding any get
has_entry-values [] k w = refl
has_entry-values (item ∷ d) k (own, w) = ground (arith, own, has_entry-values d k w)

-- What is loaded from a document that the code wrote.
abbrev pub reloaded : List BaselineEntry → Dict BaselineEntry
reloaded entries = by_fingerprint [] (sort_by le_entry entries)

pub load_baseline-document_of :
    (stamp : String) (entries : List BaselineEntry)
    → load_baseline (some (document_of stamp entries)) ≡ some (reloaded entries)
unfolding load_baseline
load_baseline-document_of stamp entries =
    ground (arith, entries_of-to_json (sort_by le_entry entries))

pub has-reloaded :
    (entries : List BaselineEntry) (k : String) → has (reloaded entries) k ≡ has_entry entries k
unfolding get
has-reloaded entries k =
    has-by_fingerprint [] (sort_by le_entry entries) k
    ∙ any-sort_by le_entry (λ e. str_eq e.fingerprint k) entries

pub reloaded-WellKeyed : (entries : List BaselineEntry) → WellKeyed (reloaded entries)
reloaded-WellKeyed entries = by_fingerprint-WellKeyed [] (sort_by le_entry entries) tt

pub load_baseline-WellKeyed :
    (file : Option Document) {baseline : Dict BaselineEntry}
    → load_baseline file ≡ some baseline
    → WellKeyed baseline
unfolding load_baseline
load_baseline-WellKeyed none {baseline} e =
    let empty : [] ≡ baseline = cc in subst WellKeyed empty tt
load_baseline-WellKeyed (some document) {baseline} e =
    elim (Option-cases (entries_of (items_of document.findings))) [
      | inl bad ↦ absurd (let x = rw (bad, load_baseline) at e in cc x)
      | inr (entries, good) ↦
          let x = rw (good, load_baseline) at e in
          let same : by_fingerprint [] entries ≡ baseline = cc x in
          subst WellKeyed same (by_fingerprint-WellKeyed [] entries tt)
    ]

has_unique : (es : List BaselineEntry) (k : String) → has (by_fingerprint [] es) k ≡ has_entry es k
unfolding get
has_unique es k = has-by_fingerprint [] es k

-- The entries that are left when some fingerprints are dropped.
pub has-keep :
    (d : Dict BaselineEntry) (dropped : List String) (k : String)
    → WellKeyed d
    → has_entry (values (keep (λ item. not (contains dropped item.0)) d)) k
      ≡ (has d k && not (contains dropped k))
unfolding any keep get
has-keep [] dropped k w = refl
has-keep (item ∷ d) dropped k (own, w) =
    ground (arith, own, has-keep d dropped k w, eq_iff item.0 k)

pub contains-distinct : (xs : List String) (k : String) → contains (distinct xs) k ≡ contains xs k
unfolding contains distinct
contains-distinct [] k = refl
contains-distinct (x ∷ xs) k =
    ground (arith, contains-distinct xs k, contains-distinct xs x, eq_iff x k)

pub contains-fingerprints :
    (entries : List BaselineEntry) (k : String)
    → contains (map (λ e. e.fingerprint) entries) k ≡ has_entry entries k
unfolding contains any
contains-fingerprints [] k = refl
contains-fingerprints (e ∷ entries) k =
    ap (λ b. str_eq e.fingerprint k || b) (contains-fingerprints entries k)

module _ {ℓ} {A : Type ℓ} (interface : Finding A) where
  open interface use {fingerprint}

  abbrev pub fingerprints : List A → List String
  fingerprints = map fingerprint

  has_entry-entry_of :
      (stamp : String) (fs : List A) (k : String)
      → has_entry (map (entry_of interface stamp) fs) k ≡ contains (fingerprints fs) k
  unfolding contains any
  has_entry-entry_of stamp [] k = refl
  has_entry-entry_of stamp (f ∷ fs) k =
      ap (λ b. str_eq (fingerprint f) k || b) (has_entry-entry_of stamp fs k)

  -- A baseline that was saved has just the fingerprints of the findings.
  pub has-save_baseline :
      (stamp : String) (fs : List A)
      → (baseline : Dict BaselineEntry) × (load_baseline (some (save_baseline interface fs stamp).0)
          ≡ some baseline)
        × ((k : String) → has baseline k ≡ contains (fingerprints fs) k)
  unfolding save_baseline
  has-save_baseline stamp fs =
      let unique = by_fingerprint [] (map (entry_of interface stamp) fs) in
      let keyed = by_fingerprint-WellKeyed [] (map (entry_of interface stamp) fs) tt in
      (
        reloaded (values unique),
        load_baseline-document_of stamp (values unique),
        λ k.
            has-reloaded (values unique) k
            ∙ has_entry-values unique k keyed
            ∙ has_unique (map (entry_of interface stamp) fs) k
            ∙ has_entry-entry_of stamp fs k,
      )

  -- Findings that are all in the baseline are known.
  pub split_known :
      (baseline : Dict BaselineEntry) (fs : List A)
      → All (λ f. has baseline (fingerprint f) ≡ true) fs
      → split interface baseline fs ≡ ([], fs)
  unfolding split
  split_known baseline [] h = refl
  split_known baseline (f ∷ fs) (now, later) = ground (arith, split_known baseline fs later)

  -- Two baselines that agree on the findings split them alike.
  pub split_agree :
      (b c : Dict BaselineEntry) (fs : List A)
      → All (λ f. has b (fingerprint f) ≡ has c (fingerprint f)) fs
      → split interface b fs ≡ split interface c fs
  unfolding split
  split_agree b c [] h = refl
  split_agree b c (f ∷ fs) (now, later) = ground (arith, split_agree b c fs later)
