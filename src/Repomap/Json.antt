-- ===== src/Repomap/Json.antt =====
-- The values that Python's `json` reads and writes, and what
-- examples/valkey-l2-repomap-cache/repomap_cache.py asks of them. Floating point numbers are a type of
-- their own.
use vibes.Common.{ℕ, Bool, Option, none, some, List, [], ◌∷◌, if◌then◌else◌, ◌+◌}
use vibes.Common.Int.{ℤ, pos, negsuc}
use vibes.Common.Texts.{Text, text_eq}

mutual
  pub data Json (F : Type 0) : Type 0 where
    null : Json F
    boolean : Bool → Json F
    integer : ℤ → Json F
    real : F → Json F
    string : Text → Json F
    array : Items F → Json F
    object : Members F → Json F

  pub data Items (F : Type 0) : Type 0 where
    end_of_items : Items F
    item : Json F → Items F → Items F

  pub data Members (F : Type 0) : Type 0 where
    end_of_members : Members F
    member : Text → Json F → Members F → Members F

-- The first of two steps, and the second if it has a value.
abbrev pub then_with : {A B : Type 0} → Option A → (A → Option B) → Option B
then_with none next = none
then_with (some a) next = next a

module _ {F : Type 0} where
  -- `data.get(key)` of a dictionary, and how many keys it has.
  unfoldable pub get_member : Members F → Text → Option (Json F)
  unfolding text_eq
  get_member end_of_members key = none
  get_member (member k v members) key = if text_eq k key then some v else get_member members key

  unfoldable pub count_members : Members F → ℕ
  count_members end_of_members = 0
  count_members (member k v members) = count_members members + 1

  -- A value of the type that a field declares, or `none`.
  abbrev pub as_text : Json F → Option Text
  as_text (string s) = some s
  as_text null = none
  as_text (boolean b) = none
  as_text (integer n) = none
  as_text (real x) = none
  as_text (array xs) = none
  as_text (object fields) = none

  abbrev pub as_count : Json F → Option ℕ
  as_count (integer (pos n)) = some n
  as_count (integer (negsuc n)) = none
  as_count null = none
  as_count (boolean b) = none
  as_count (real x) = none
  as_count (string s) = none
  as_count (array xs) = none
  as_count (object fields) = none

  abbrev pub as_bool : Json F → Option Bool
  as_bool (boolean b) = some b
  as_bool null = none
  as_bool (integer n) = none
  as_bool (real x) = none
  as_bool (string s) = none
  as_bool (array xs) = none
  as_bool (object fields) = none

  abbrev pub as_real : Json F → Option F
  as_real (real x) = some x
  as_real null = none
  as_real (boolean b) = none
  as_real (integer n) = none
  as_real (string s) = none
  as_real (array xs) = none
  as_real (object fields) = none

  abbrev pub as_items : Json F → Option (Items F)
  as_items (array xs) = some xs
  as_items null = none
  as_items (boolean b) = none
  as_items (integer n) = none
  as_items (real x) = none
  as_items (string s) = none
  as_items (object fields) = none

  abbrev pub as_members : Json F → Option (Members F)
  as_members (object fields) = some fields
  as_members null = none
  as_members (boolean b) = none
  as_members (integer n) = none
  as_members (real x) = none
  as_members (string s) = none
  as_members (array xs) = none

  -- Each of the items, read.
  unfoldable pub read_items : {A : Type 0} → (Json F → Option A) → Items F → Option (List A)
  read_items read end_of_items = some []
  read_items read (item x xs) =
      let rest = read_items read xs in
      then_with (read x) (λ a. then_with rest (λ more. some (a ∷ more)))
