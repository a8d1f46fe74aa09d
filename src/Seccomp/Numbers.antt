-- ===== src/Seccomp/Numbers.antt =====
-- The system call table gives different calls different numbers, so that the number of a denied
-- call leads back to its own action.
use text.Mathlib.TextEquality.{eq_iff}
use vibes.Common.{
  ℕ, ◌%◌, ◌^◌, String, Option, none, some, List, [], ◌∷◌, ◌≡◌, ◌≢◌, refl, Bool, true, false, ◌&&◌,
  ◌<◌, ltb, arith, ◌==◌, if◌then◌else◌, Option-cases, inl, inr,
}
use vibes.Common.Dict.{Dict, contains, get, keys, str_eq}
use vibes.Seccomp.Table.{syscalls, seccomp_ret_allow, x32_syscall_bit}
use vibes.Seccomp.Policy.{ok}
use vibes.Seccomp.Program.{numbered}

-- The first name with a number.
name_of : Dict ℕ → ℕ → Option String
name_of [] n = none
name_of ((j, m) ∷ d) n = if m == n then some j else name_of d n

-- A test that every item of a dictionary passes.
unfoldable pub every : (String → ℕ → Bool) → Dict ℕ → Bool
every p [] = true
every p ((j, m) ∷ d) = p j m && every p d

pub every-get :
    (p : String → ℕ → Bool) (d : Dict ℕ) (k : String) (n : ℕ)
    → every p d ≡ true
    → get d k ≡ some n
    → p k n ≡ true
unfolding every get
every-get p [] k n h e = absurd (ground arith)
every-get p ((j, m) ∷ d) k n h e = ground (arith, eq_iff j k, every-get p d k n)

is_named : Dict ℕ → String → ℕ → Bool
is_named d k n = elim (name_of d n) [ none ↦ false | some j ↦ str_eq j k ]

is_named-table : every (is_named syscalls) syscalls ≡ true
unfolding every is_named name_of syscalls
is_named-table = refl

is_named_unique :
    (d : Dict ℕ) (j k : String) (n : ℕ) → is_named d j n ≡ true → is_named d k n ≡ true → j ≡ k
unfolding is_named
is_named_unique d j k n p q = elim (Option-cases (name_of d n)) [
  | inl e ↦ absurd (ground arith)
  | inr (i, e) ↦ ground (arith, eq_iff i j, eq_iff i k)
]

-- Two calls with one number are one call.
pub syscalls-injective :
    (j k : String) {n : ℕ} → get syscalls j ≡ some n → get syscalls k ≡ some n → j ≡ k
syscalls-injective j k {n} p q =
    is_named_unique syscalls j k n (every-get _ syscalls j n is_named-table p)
      (every-get _ syscalls k n is_named-table q)

numbered-cons :
    (j : String) (w : ℕ) (d : Dict ℕ) {denied : List (ℕ × ℕ)}
    → numbered ((j, w) ∷ d) ≡ ok denied
    → (m : ℕ) × (rest : List (ℕ × ℕ)) × (get syscalls j ≡ some m)
      × (numbered d ≡ ok rest)
      × (denied ≡ (m, w) ∷ rest)
unfolding numbered
numbered-cons j w d h = ground arith

is_plain : String → ℕ → Bool
is_plain k n = ltb n x32_syscall_bit

is_plain-table : every is_plain syscalls ≡ true
unfolding every is_plain syscalls
is_plain-table = refl

-- No tabulated number carries the x32 bit.
pub syscalls-lt-x32 : (k : String) {n : ℕ} → get syscalls k ≡ some n → n < x32_syscall_bit
unfolding is_plain
syscalls-lt-x32 k {n} h = ground (arith, every-get is_plain syscalls k n is_plain-table h)

pub numbered-total :
    (d : Dict ℕ)
    → ((k : String) → contains (keys d) k ≡ true → get syscalls k ≢ none)
    → (denied : List (ℕ × ℕ)) × (numbered d ≡ ok denied)
unfolding numbered contains
numbered-total [] h = ([], refl)
numbered-total ((j, w) ∷ d) h = elim (Option-cases (get syscalls j)) [
  | inl e ↦ absurd (h j (ground (arith, eq_iff j j)) e)
  | inr (m, e) ↦
      let (denied, hd) = numbered-total d (λ k c. h k (ground arith)) in
      ((m, w) ∷ denied, ground arith)
]

-- The verdict of the first denied call with a number, in 32 bits, or the one that lets the call pass.
abbrev pub by_number : List (ℕ × ℕ) → ℕ → ℕ
by_number [] nr = seccomp_ret_allow
by_number ((number, action) ∷ denied) nr =
    if nr == number % 2 ^ 32 then action % 2 ^ 32 else by_number denied nr

pub by_number-denied :
    (d : Dict ℕ) {denied : List (ℕ × ℕ)} (name : String) {a n : ℕ}
    → numbered d ≡ ok denied
    → get d name ≡ some a
    → get syscalls name ≡ some n
    → by_number denied n ≡ a % 2 ^ 32
unfolding get
by_number-denied [] name h e s = absurd (ground arith)
by_number-denied ((j, w) ∷ d) name {a} {n} h e s =
    let (m, rest, sj, hr, eq) = numbered-cons j w d h in
    rw eq (
      ground (
        arith,
        eq_iff j name,
        syscalls-injective j name {n = n},
        by_number-denied d name {a = a} {n = n} hr,
        syscalls-lt-x32 j sj,
        syscalls-lt-x32 name s,
      ))

pub by_number-allowed :
    (d : Dict ℕ) {denied : List (ℕ × ℕ)} (n : ℕ)
    → numbered d ≡ ok denied
    → ((name : String) → get d name ≢ none → get syscalls name ≢ some n)
    → by_number denied n ≡ seccomp_ret_allow
unfolding get numbered
by_number-allowed [] n h free = ground arith
by_number-allowed ((j, w) ∷ d) n h free =
    let (m, rest, sj, hr, eq) = numbered-cons j w d h in
    let tail = by_number-allowed d n hr (λ name kept. free name (ground arith)) in
    let head = free j (ground (arith, eq_iff j j)) in rw eq (ground (arith, syscalls-lt-x32 j sj))
