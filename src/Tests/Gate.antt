-- ===== src/Tests/Gate.antt =====
-- Policies and a campaign of the kernel gate.
use vibes.Common.{ℕ, Bool, true, false, some, [], ◌∷◌, ◌≡◌, refl, ◌≤◌}
use vibes.Common.Int.{pos}
use vibes.Common.Texts.{Text, codes, text_eq}
use vibes.Lsm.{
  LsmEvent, LsmPolicy, Platform, Address, file_open, block, default_policy, evaluate_event,
  blocked_path_prefixes,
}
use vibes.Lsm.Campaign.{run_fuzz_campaign}
use vibes.Lsm.Policies.{Tightens, is_subset, evaluate_event-Tightens}
use vibes.Lsm.Contained.{KnowsCampaign, run_fuzz_campaign-contained}

abbrev address : Bool → Text → Address
address local text = record {
  is_loopback = local;
  is_private = true;
  is_link_local = false;
  text = text;
}

-- Every address but one is private, and texts have no capitals.
abbrev platform : Platform
platform = record {
  lower = λ s. s;
  ip_address = λ s. some (address (text_eq s (codes "127.0.0.1")) s);
}

abbrev secret : LsmEvent
secret = record {
  hook = file_open;
  comm = codes "cat";
  target = codes " /etc/shadow";
  flags = pos 0;
  uid = pos 1000;
  pid = pos 1001;
}

abbrev strict : LsmPolicy
strict = record default_policy {
  allowed_binaries = codes "git" ∷ [];
  blocked_paths = codes "/srv" ∷ blocked_path_prefixes;
}

strict-Tightens : Tightens default_policy strict
unfolding is_subset
strict-Tightens = record {
  fewer_allowed = refl;
  more_blocked = refl;
  more_paths = refl;
  still_loopback = refl;
}

secret_blocked : (evaluate_event platform secret (some default_policy)).verdict ≡ block
unfolding evaluate_event
secret_blocked = refl

evaluate_event-Tightens_example : (evaluate_event platform secret (some strict)).verdict ≡ block
evaluate_event-Tightens_example =
    evaluate_event-Tightens platform secret default_policy strict strict-Tightens secret_blocked

platform-KnowsCampaign : KnowsCampaign platform
unfolding text_eq
platform-KnowsCampaign = record {
  lower_nc = refl;
  lower_socat = refl;
  lower_compiler = refl;
  lower_root = refl;
  ten = (_, refl, refl, refl);
  sixteen = (_, refl, refl, refl);
  local = (_, refl, refl, refl);
  unique_local = (_, refl, refl, refl);
}

abbrev both : ℕ → ℕ → ℕ × ℕ
both blocked total = (blocked, total)

run_fuzz_campaign-contained_example :
    ((run_fuzz_campaign platform both (some strict)).monotonically_contained ≡ true)
    × (14 ≤ (run_fuzz_campaign platform both (some strict)).blocked_probes)
    × ((run_fuzz_campaign platform both (some strict)).total_probes ≡ 15)
run_fuzz_campaign-contained_example =
    run_fuzz_campaign-contained platform platform-KnowsCampaign both strict strict-Tightens
