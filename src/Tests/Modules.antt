-- ===== src/Tests/Modules.antt =====
-- Small WebAssembly modules and workloads.
use vibes.Common.{ℕ, String, some, List, [], ◌∷◌, ◌++◌, ◌≡◌, ◌≤◌, arith, length, map}
use vibes.Wasm.{run_metered_workload, SandboxEnvironment, read_varuint, parse_section_ids}
use vibes.Wasm.Varuint.{encode, read_varuint-encode}
use vibes.Wasm.Sections.{encode_sections, parse_section_ids-encode_sections, parse_section_ids-ends}
use vibes.Wasm.Gas.{Reports, run_metered_workload-Reports}

read_varuint-encode_example :
    read_varuint (encode 4 624485 ++ 7 ∷ []) ≡ (624485, length (encode 4 624485))
read_varuint-encode_example = read_varuint-encode 4 624485 (7 ∷ []) (omega arith)

-- A type section, an empty function section and a code section.
abbrev sections : List (ℕ × List ℕ)
sections = (1, 96 ∷ 0 ∷ 0 ∷ []) ∷ (3, []) ∷ (10, 4 ∷ 11 ∷ []) ∷ []

parse_section_ids-encode_sections_example :
    parse_section_ids (encode_sections 1 sections) ≡ some (map (λ s. s.0) sections)
parse_section_ids-encode_sections_example =
    parse_section_ids-encode_sections 1 sections (omega arith, (omega arith, (omega arith, tt)))

-- The size of the section goes past the end of the payload.
abbrev overlong : List ℕ
overlong = 1 ∷ 200 ∷ 1 ∷ 5 ∷ []

parse_section_ids-ends_example :
    (ids : List ℕ) × (parse_section_ids overlong ≡ some ids) × (length ids ≤ length overlong)
parse_section_ids-ends_example = parse_section_ids-ends overlong

abbrev small_budget : SandboxEnvironment
small_budget = record { gas_budget = 10; max_pages = 16; allocated_pages = 1; gas_consumed = 2 }

abbrev workload : List (String × ℕ)
workload = ("add", 3) ∷ ("call", 4) ∷ ("add", 3) ∷ []

run_metered_workload-Reports_example :
    Reports small_budget workload (run_metered_workload small_budget workload).1
run_metered_workload-Reports_example =
    run_metered_workload-Reports small_budget workload (omega arith)
