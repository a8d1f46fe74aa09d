-- ===== src/Wasm/Gas.antt =====
-- The gas of a metered run.
use vibes.Common.{
  ◌↔◌, subst, sym, leb→le, ℕ, ◌+◌, ◌≤◌, String, true, false, List, [], ◌∷◌, ◌≡◌, ◌∙◌, refl, ap,
  arith, leb, ltb, if◌then◌else◌, inl, inr, Bool-cases,
}
use vibes.Wasm.{
  run_metered_workload, report, ExecutionResult, no_trap, gas_exhausted, SandboxEnvironment,
  execute_instruction, step_workload,
}

-- What the instructions cost together.
abbrev pub total_cost : List (String × ℕ) → ℕ
total_cost [] = 0
total_cost ((op, cost) ∷ instructions) = cost + total_cost instructions

-- From a consumption within the budget, a metered run consumes exactly the cost of its
-- instructions and does not trap if the budget allows all of them, and else stops with the gas
-- exhausted and the budget used up.
pub step_workload_lem :
    (env : SandboxEnvironment) (instructions : List (String × ℕ))
    → env.gas_consumed ≤ env.gas_budget
    → step_workload env instructions ≡ (
        if leb (env.gas_consumed + total_cost instructions) env.gas_budget
        then (record env { gas_consumed = env.gas_consumed + total_cost instructions }, no_trap)
        else (record env { gas_consumed = env.gas_budget }, gas_exhausted))
unfolding step_workload execute_instruction
step_workload_lem env [] h =
    let fits : leb (env.gas_consumed + 0) env.gas_budget ≡ true = ground arith in
    rw fits (ap (λ g. (record env { gas_consumed = g }, no_trap)) (omega arith))
step_workload_lem env ((op, cost) ∷ instructions) h =
    elim (Bool-cases (ltb env.gas_budget (env.gas_consumed + cost))) [
      | inl e ↦
          let over : leb (env.gas_consumed + (cost + total_cost instructions)) env.gas_budget
              ≡ false =
            ground (arith, e) in
          let ran : execute_instruction env cost
              ≡ (record env { gas_consumed = env.gas_budget }, gas_exhausted) =
            rw e refl in
          rw (ran, over, step_workload) ran
      | inr e ↦
          let env' : SandboxEnvironment = record env { gas_consumed = env.gas_consumed + cost } in
          let rest = step_workload_lem env' instructions (ground (arith, e)) in
          let sum : env.gas_consumed + cost + total_cost instructions
              ≡ env.gas_consumed + (cost + total_cost instructions) =
            omega arith in
          let ran : execute_instruction env cost ≡ (env', no_trap) = rw e refl in
          rw (ran, step_workload)
            (ap (λ p. step_workload p.0 instructions) ran
              ∙ rest
              ∙ ap
                  (λ g.
                    if leb g env.gas_budget
                    then (record env { gas_consumed = g }, no_trap)
                    else (record env { gas_consumed = env.gas_budget }, gas_exhausted))
                  sum)
    ]

-- What a result says of the run: all the gas is consumed or remains, the pages are as before, and
-- there is no finding just if the budget allows the instructions.
pub record Reports (env : SandboxEnvironment) (instructions : List (String × ℕ))
    (r : ExecutionResult) : Type 0 where
  pub gas : r.gas_consumed + r.gas_remaining ≡ env.gas_budget
  pub pages : r.pages_allocated ≡ env.allocated_pages
  pub clean : (r.findings ≡ []) ↔ (env.gas_consumed + total_cost instructions ≤ env.gas_budget)

-- From a consumption within the budget, `run_metered_workload` returns a result in which the gas
-- consumed and the gas remaining add up to the budget and the pages are as before, with no
-- finding just if the budget allows the instructions.
pub run_metered_workload-Reports :
    (env : SandboxEnvironment) (instructions : List (String × ℕ))
    → env.gas_consumed ≤ env.gas_budget
    → Reports env instructions (run_metered_workload env instructions).1
unfolding run_metered_workload
run_metered_workload-Reports env instructions h =
    let ran = step_workload_lem env instructions h in
    elim (Bool-cases (leb (env.gas_consumed + total_cost instructions) env.gas_budget)) [
      | inl fits ↦
          let le = leb→le _ _ fits in
          subst (λ r. Reports env instructions (report r).1) (sym (rw fits at ran))
            (record { gas = omega (arith, le); pages = refl; clean = ((λ e. le), (λ e. refl)) })
      | inr over ↦
          subst (λ r. Reports env instructions (report r).1) (sym (rw over at ran))
            (record {
              gas = omega arith;
              pages = refl;
              clean = ((λ e. absurd (cc e)), (λ e. absurd (ground (arith, over, e))));
            })
    ]
