-- ===== src/Common/Texts.antt =====
-- Texts that the code walks character by character, as lists of code points, with the methods of
-- Python's `str` that it calls on them.
use Prim.Native.Nat.{ℕ, ◌-◌, ◌+◌, ◌≤◌}
use Prim.Native.Char.{code}
use Prim.Native.String.{String}
use mathlib.Core.Path.{◌≡◌, refl, sym}
use mathlib.Core.Bool.{Bool, true, false, ◌&&◌, ◌||◌}
use mathlib.Core.Option.{Option, none, some}
use mathlib.Core.List.{List, [], ◌∷◌, ◌++◌, append_assoc, append-nil}
use native.Mathlib.Omega.{arith}
use vibes.Common.Tests.{leb, ◌==◌, if◌then◌else◌}
use vibes.Common.Lists.{length, drop, length-append, drop-length_append}

abbrev pub Text : Type 0
Text = List ℕ

abbrev pub codes : String → Text
codes String.[] = []
codes (String.◌∷◌ c s) = code c ∷ codes s

-- `text.startswith(s)`
unfoldable pub starts_with : Text → Text → Bool
starts_with text [] = true
starts_with [] (d ∷ s) = false
starts_with (c ∷ text) (d ∷ s) = c == d && starts_with text s

-- `text.endswith(s)`
unfoldable pub ends_with : Text → Text → Bool
unfolding starts_with
ends_with text s =
    leb (length s) (length text) && starts_with (drop (length text - length s) text) s

-- `text.find(s)`, with `none` for -1
unfoldable pub find : Text → Text → Option ℕ
unfolding starts_with
find [] s = if starts_with [] s then some 0 else none
find (c ∷ text) s =
    let later = find text s in
    if starts_with (c ∷ text) s then some 0 else elim later [ none ↦ none | some i ↦ some (i + 1) ]

-- `s in text`
unfoldable pub occurs : Text → Text → Bool
unfolding find
occurs s text = elim (find text s) [ none ↦ false | some i ↦ true ]

-- A character put before the first line.
abbrev pub on_first_line : ℕ → List Text → List Text
on_first_line c [] = (c ∷ []) ∷ []
on_first_line c (line ∷ lines) = (c ∷ line) ∷ lines

-- `"".join(parts)`
unfoldable pub join : List Text → Text
join [] = []
join (part ∷ parts) = part ++ join parts

-- The characters that `str.strip` removes.
abbrev pub is_space : ℕ → Bool
is_space c =
    (leb 9 c && leb c 13)
    || (leb 28 c && leb c 32)
    || c == 0x85
    || c == 0xA0
    || c == 0x1680
    || (leb 0x2000 c && leb c 0x200A)
    || c == 0x2028
    || c == 0x2029
    || c == 0x202F
    || c == 0x205F
    || c == 0x3000

unfoldable pub rstrip : Text → Text
rstrip [] = []
rstrip (c ∷ text) =
    let rest = rstrip text in if length rest == 0 && is_space c then [] else c ∷ rest

-- `text.strip()`
unfoldable pub strip : Text → Text
unfolding rstrip
strip [] = []
strip (c ∷ text) = let rest = strip text in if is_space c then rest else rstrip (c ∷ text)

-- `text == s`
unfoldable pub text_eq : Text → Text → Bool
text_eq [] [] = true
text_eq [] (d ∷ s) = false
text_eq (c ∷ text) [] = false
text_eq (c ∷ text) (d ∷ s) = c == d && text_eq text s

-- `text in texts`
unfoldable pub is_member : Text → List Text → Bool
unfolding text_eq
is_member text [] = false
is_member text (s ∷ texts) = text_eq s text || is_member text texts

pub length-join_snoc :
    (parts : List Text) (part : Text)
    → length (join (parts ++ part ∷ [])) ≡ length (join parts) + length part
unfolding join
length-join_snoc [] part = omega (arith, length-append part [])
length-join_snoc (p ∷ parts) part = omega (
  arith,
  length-append p (join (parts ++ part ∷ [])),
  length-append p (join parts),
  length-join_snoc parts part,
)

pub join_snoc : (parts : List Text) (part : Text) → join (parts ++ part ∷ []) ≡ join parts ++ part
unfolding join
join_snoc [] part = append-nil part
join_snoc (p ∷ parts) part = rw (join_snoc parts part) (sym (append_assoc p (join parts) part))

starts_with-length : (text s : Text) → starts_with text s ≡ true → length s ≤ length text
unfolding starts_with
starts_with-length text [] h = omega arith
starts_with-length [] (d ∷ s) h = absurd (ground arith)
starts_with-length (c ∷ text) (d ∷ s) h = ground (arith, starts_with-length text s)

-- What `find` finds lies within the text.
pub find-le : (text s : Text) {i : ℕ} → find text s ≡ some i → i + length s ≤ length text
unfolding find
find-le [] s h = ground (arith, starts_with-length [] s)
find-le (c ∷ text) s {i} h =
    ground (arith, starts_with-length (c ∷ text) s, find-le text s {i = i - 1})

starts_with_self : (text : Text) → starts_with text text ≡ true
unfolding starts_with
starts_with_self [] = refl
starts_with_self (c ∷ text) = ground (arith, starts_with_self text)

pub ends_with-append : (a b : Text) → ends_with (a ++ b) b ≡ true
unfolding ends_with
ends_with-append a b =
    let gap : length (a ++ b) - length b ≡ length a = omega (arith, length-append a b) in
    let fits : leb (length b) (length (a ++ b)) ≡ true = ground (arith, length-append a b) in
    rw (fits, gap, drop-length_append a b) (starts_with_self b)

pub text_eq→eq : (s t : Text) → text_eq s t ≡ true → s ≡ t
unfolding text_eq
text_eq→eq [] [] h = refl
text_eq→eq [] (d ∷ t) h = cc
text_eq→eq (c ∷ s) [] h = cc
text_eq→eq (c ∷ s) (d ∷ t) h = ground (arith, text_eq→eq s t)

pub text_eq_self : (text : Text) → text_eq text text ≡ true
unfolding text_eq
text_eq_self [] = refl
text_eq_self (c ∷ text) = ground (arith, text_eq_self text)
