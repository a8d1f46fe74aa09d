-- ===== src/Tests/Damage.antt =====
-- Mutations with a generator that draws the first number there is.
use vibes.Common.{
  ℕ, ◌+◌, String, Option, none, some, ◌++◌, ◌≡◌, refl, arith, ltb, if◌then◌else◌, false, ◌||◌, ◌<◌,
}
use text.Mathlib.Text.{◌==◌ as str_eq}
use vibes.Common.Dict.{get}
use vibes.Common.Int.{pos}
use vibes.Common.Texts.{Text, codes, join}
use vibes.Mutation.{Random, Case, mutators, mutate, m_delete_line}
use vibes.Mutation.Returns.{IsRandom, mutate_returns}

-- It counts what it has drawn.
abbrev first : Random ℕ
first = record {
  randrange = λ drawn start stop. if ltb start stop then some (drawn + 1, start) else none;
  choice = λ drawn size. if ltb 0 size then some (drawn + 1, 0) else none;
}

first_range : (n start stop : ℕ) → start < stop → first.randrange n start stop ≡ some (n + 1, start)
first_range n start stop h = ground arith

first_choice : (n size : ℕ) → 0 < size → first.choice n size ≡ some (n + 1, 0)
first_choice n size h = ground arith

first-IsRandom : IsRandom first
first-IsRandom = record {
  within = λ n start stop h. (n + 1, start, first_range n start stop h, omega arith, h);
  chooses = λ n size h. (n + 1, 0, first_choice n size h, h);
}

abbrev case : Case
case = record { corpus = "python"; text = codes "a\nb\n"; seed = pos 7; origin = codes "generated" }

deletes_the_first_line :
    mutate first case 0 none
    ≡ some (2, record case { text = codes "b\n"; origin = codes "generated+delete_line" })
unfolding mutate m_delete_line join
deletes_the_first_line = refl

mutate_returns_example :
    (name : String) × (mutator : Text → ℕ → Text → Option (ℕ × Text)) × (n1 n2 : ℕ) × (text : Text)
    × (get (mutators first) name ≡ some mutator)
    × ((str_eq name "blank" || str_eq name "widen") ≡ false)
    × (mutator case.text n1 case.text ≡ some (n2, text))
    × (mutate first case 0 none
        ≡ some (n2, record case { text = text; origin = case.origin ++ codes "+" ++ codes name }))
mutate_returns_example = mutate_returns first first-IsRandom case 0 none
