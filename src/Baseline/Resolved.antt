-- ===== src/Baseline/Resolved.antt =====
-- The partition of findings after `save_baseline` and after `prune` of tools/finding_baseline.py.
use vibes.Common.{
  ℕ, true, ◌&&◌, not, String, Option, some, List, [], ◌∷◌, map, ◌≡◌, refl, length, ◌⊎◌, All,
  All-imp, arith, ap, sym, ◌∙◌, inl, inr,
}
use text.Mathlib.TextEquality.{eq_iff}
use vibes.Common.Dict.{Dict, contains, get, str_eq}
use vibes.Common.Sorting.{any, keep, sort_by, any-sort_by, All-sort_by}
use vibes.Baseline.{
  BaselineEntry, Document, Finding, load_baseline, values, document_of, le_item, distinct, prune,
  resolved_of, save_baseline, partition,
}
use vibes.Baseline.Presence.{
  has, has_entry, WellKeyed, reloaded, load_baseline-document_of, has-reloaded,
  load_baseline-WellKeyed, has-keep, contains-distinct, contains-fingerprints, fingerprints,
  has-save_baseline, split_known, split_agree,
}

has-any : (d : Dict BaselineEntry) (k : String) → has d k ≡ any (λ item. str_eq item.0 k) d
unfolding get any
has-any [] k = refl
has-any (item ∷ d) k = ground (arith, has-any d k)

has-sort_by : (d : Dict BaselineEntry) (k : String) → has (sort_by le_item d) k ≡ has d k
has-sort_by d k =
    has-any (sort_by le_item d) k
    ∙ any-sort_by le_item (λ item. str_eq item.0 k) d
    ∙ sym (has-any d k)

-- The resolved entries are those whose fingerprints were not seen.
has_entry-resolved_of :
    (d : Dict BaselineEntry) (seen : List String) (k : String)
    → WellKeyed d
    → has_entry (resolved_of d seen) k ≡ (has d k && not (contains seen k))
unfolding resolved_of
has_entry-resolved_of d seen k w =
    has-keep (sort_by le_item d) seen k (All-sort_by le_item _ d w)
    ∙ ap (λ b. b && not (contains seen k)) (has-sort_by d k)

keys-All :
    (d : Dict BaselineEntry) (seen : List String)
    → ((k : String) → has d k ≡ true → contains seen k ≡ true)
    → All (λ (item : String × BaselineEntry). contains seen item.0 ≡ true) d
unfolding get
keys-All [] seen h = tt
keys-All (item ∷ d) seen h = (
  h item.0 (ground (arith, eq_iff item.0 item.0)),
  keys-All d seen (λ k m. h k (ground (arith, m))),
)

keep_none :
    (d : Dict BaselineEntry) (seen : List String)
    → All (λ (item : String × BaselineEntry). contains seen item.0 ≡ true) d
    → keep (λ item. not (contains seen item.0)) d ≡ []
unfolding keep
keep_none [] seen h = refl
keep_none (item ∷ d) seen (now, later) = rw now (keep_none d seen later)

resolved_of_none :
    (d : Dict BaselineEntry) (seen : List String)
    → ((k : String) → has d k ≡ true → contains seen k ≡ true)
    → resolved_of d seen ≡ []
unfolding resolved_of
resolved_of_none d seen h =
    ap values (keep_none (sort_by le_item d) seen (All-sort_by le_item _ d (keys-All d seen h)))

-- The entries that `prune` keeps.
abbrev kept_of : Dict BaselineEntry → List BaselineEntry → List BaselineEntry
kept_of d gone =
    values (keep (λ item. not (contains (distinct (map (λ e. e.fingerprint) gone)) item.0)) d)

has-kept_of :
    (d : Dict BaselineEntry) (seen : List String) (k : String)
    → WellKeyed d
    → has (reloaded (kept_of d (resolved_of d seen))) k ≡ (has d k && contains seen k)
has-kept_of d seen k w =
    let gone : List BaselineEntry = resolved_of d seen in
    let fps : List String = map (λ e. e.fingerprint) gone in
    let one = has-reloaded (kept_of d gone) k in
    let two = has-keep d (distinct fps) k w in
    let three = contains-distinct fps k ∙ contains-fingerprints gone k in
    let four = has_entry-resolved_of d seen k w in ground (arith, one, two, three, four)

List-cases : (es : List BaselineEntry) → (es ≡ []) ⊎ ((es ≡ []) → ⊥)
List-cases [] = inl refl
List-cases (e ∷ es) = inr (λ h. cc)

prune_nonempty :
    (file : Option Document) (now : String) (d : Dict BaselineEntry) (gone : List BaselineEntry)
    → load_baseline file ≡ some d
    → ((gone ≡ []) → ⊥)
    → (removed : ℕ) × (prune file now gone
        ≡ some (some (document_of now (kept_of d gone)), removed))
unfolding prune
prune_nonempty file now d [] loaded some_gone = absurd (some_gone refl)
prune_nonempty file now d (e ∷ gone) loaded some_gone =
    (length (distinct (map (λ e. e.fingerprint) (e ∷ gone))), rw (loaded, prune) refl)

module _ {ℓ} {A : Type ℓ} (interface : Finding A) where
  open interface use {fingerprint}

  -- Every fingerprint of the findings is among those of the findings.
  seen_in :
      (seen : List String) (fs : List A)
      → ((k : String) → contains (fingerprints interface fs) k ≡ true → contains seen k ≡ true)
      → All (λ f. contains seen (fingerprint f) ≡ true) fs
  unfolding contains
  seen_in seen [] h = tt
  seen_in seen (f ∷ fs) h = (
    h (fingerprint f) (rw ((eq_iff (fingerprint f) (fingerprint f)).1 refl) refl),
    seen_in seen fs (λ k m. h k (ground (arith, m))),
  )

  All-seen :
      (fs : List A) → All (λ f. contains (fingerprints interface fs) (fingerprint f) ≡ true) fs
  All-seen fs = seen_in (fingerprints interface fs) fs (λ k m. m)

  -- The file that `save_baseline` writes for some findings loads, and against it the same
  -- findings are all known, none is new, and no entry is resolved.
  pub partition-save_baseline :
      (fs : List A) (stamp : String)
      → (baseline : Dict BaselineEntry) × (load_baseline (some (save_baseline interface fs stamp).0)
          ≡ some baseline)
        × (partition interface fs baseline ≡ record { new = []; known = fs; resolved = [] })
  unfolding partition
  partition-save_baseline fs stamp =
      let (baseline, loaded, present) = has-save_baseline interface stamp fs in
      let all =
        All-imp _ (λ f. has baseline (fingerprint f) ≡ true) fs (λ f m. present (fingerprint f) ∙ m)
          (All-seen fs) in
      let known = split_known interface baseline fs all in
      let done =
        resolved_of_none baseline (fingerprints interface fs) (λ k h. sym (present k) ∙ h) in
      (baseline, loaded, rw (known, done) refl)

  -- A baseline without the entries that were not seen splits the findings as before.
  partition_again :
      (fs : List A) (baseline left : Dict BaselineEntry)
      → ((k : String) → has left k ≡ (has baseline k && contains (fingerprints interface fs) k))
      → partition interface fs left ≡ record {
        new = (partition interface fs baseline).new;
        known = (partition interface fs baseline).known;
        resolved = [];
      }
  unfolding partition
  partition_again fs baseline left h =
      let agree =
        All-imp _ (λ f. has left (fingerprint f) ≡ has baseline (fingerprint f)) fs
          (λ f m. ground (arith, h (fingerprint f), m)) (All-seen fs) in
      let same = split_agree interface left baseline fs agree in
      let done =
        resolved_of_none left (fingerprints interface fs) (λ k m. ground (arith, h k, m)) in
      rw (same, done) refl

  -- For a baseline file that loads: `prune` by the resolved entries of the partition of some
  -- findings leaves a file that loads, and the partition of the same findings against it has the
  -- same new and the same known findings and nothing resolved.
  pub partition-prune :
      (file : Option Document) (now : String) (fs : List A) {baseline : Dict BaselineEntry}
      → load_baseline file ≡ some baseline
      → (file' : Option Document) × (removed : ℕ) × (left : Dict BaselineEntry) × (prune file now
            (partition interface fs baseline).resolved
          ≡ some (file', removed))
        × (load_baseline file' ≡ some left)
        × (partition interface fs left ≡ record {
          new = (partition interface fs baseline).new;
          known = (partition interface fs baseline).known;
          resolved = [];
        })
  unfolding partition prune
  partition-prune file now fs {baseline} loaded =
      let seen : List String = fingerprints interface fs in
      let w = load_baseline-WellKeyed file loaded in
      elim (List-cases (resolved_of baseline seen)) [
        | inl empty ↦ (file, 0, baseline, rw empty refl, loaded, rw empty refl)
        | inr gone ↦
            let (removed, pruned) =
              prune_nonempty file now baseline (resolved_of baseline seen) loaded gone in
            let kept : List BaselineEntry = kept_of baseline (resolved_of baseline seen) in
            (
              some (document_of now kept),
              removed,
              reloaded kept,
              pruned,
              load_baseline-document_of now kept,
              partition_again fs baseline (reloaded kept) (λ k. has-kept_of baseline seen k w),
            )
      ]
