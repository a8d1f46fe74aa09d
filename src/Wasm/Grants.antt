-- ===== src/Wasm/Grants.antt =====
-- The checks of capabilities.
use vibes.Common.{
  String, true, false, none, List, [], ◌∷◌, ◌≡◌, ◌≢◌, ◌↔◌, refl, inl, inr, All, Bool-cases,
}
use vibes.Common.Dict.{contains}
use vibes.Wasm.{CapabilityHandle, verify_wit_imports, matches_network_scope, check_network_dial}

findings-granted :
    (imports granted : List String)
    → verify_wit_imports imports granted ≡ []
    → All (λ req. contains granted req ≡ true) imports
unfolding verify_wit_imports
findings-granted [] granted e = tt
findings-granted (req ∷ imports) granted e = elim (Bool-cases (contains granted req)) [
  | inl h ↦ (h, findings-granted imports granted (rw h at e))
  | inr h ↦ absurd (let x = rw h at e in cc x)
]

granted-findings :
    (imports granted : List String)
    → All (λ req. contains granted req ≡ true) imports
    → verify_wit_imports imports granted ≡ []
unfolding verify_wit_imports
granted-findings [] granted all = refl
granted-findings (req ∷ imports) granted (h, all) = rw h (granted-findings imports granted all)

-- `verify_wit_contract` has no finding just if every import of the contract is granted.
pub verify_wit_imports_iff :
    (imports granted : List String)
    → (verify_wit_imports imports granted ≡ []) ↔ All (λ req. contains granted req ≡ true) imports
verify_wit_imports_iff imports granted =
    (findings-granted imports granted, granted-findings imports granted)

denied-scopes :
    (target : String) (handles : List CapabilityHandle)
    → check_network_dial target handles ≢ none
    → All (λ h. matches_network_scope target h ≡ false) handles
unfolding check_network_dial
denied-scopes target [] e = tt
denied-scopes target (handle ∷ handles) e =
    elim (Bool-cases (matches_network_scope target handle)) [
      | inl h ↦ absurd (e (rw h refl))
      | inr h ↦ (h, denied-scopes target handles (λ x. e (rw h x)))
    ]

scopes-denied :
    (target : String) (handles : List CapabilityHandle)
    → All (λ h. matches_network_scope target h ≡ false) handles
    → check_network_dial target handles ≢ none
unfolding check_network_dial
scopes-denied target [] all e = absurd (cc e)
scopes-denied target (handle ∷ handles) (h, all) e = scopes-denied target handles all (rw h at e)

-- `check_network_dial` denies a target just if no handle is of the network kind with the scope
-- `*` or the target.
pub check_network_dial_iff :
    (target : String) (handles : List CapabilityHandle)
    → (check_network_dial target handles ≢ none)
      ↔ All (λ h. matches_network_scope target h ≡ false) handles
check_network_dial_iff target handles = (denied-scopes target handles, scopes-denied target handles)
