-- ===== src/Limits/Tests.antt =====
-- Examples for the rate limit.
use xmdm.Common.{
  ℕ, suc, ◌-◌, ◌+◌, ◌≡◌, refl, List, [], ◌∷◌, true, ◌==◌, if◌then◌else◌, none, some, ltb, Among,
  arith,
}
use xmdm.Common.Int.{pos}
use xmdm.Common.Maps.{lookup}
use xmdm.Limits.{RateLimitRule, Request, Float, Bucket, applies, match_from, match_rule}
use xmdm.Limits.Rules.{NoneLonger, match_rule-longest}
use xmdm.Limits.Buckets.{IsExact, allow_times, first_yes, allow_times-first_yes}

abbrev login_rule : RateLimitRule
login_rule = record {
  name = "login";
  method = "POST";
  path_prefix = "/api/login";
  burst = pos 2;
  refill_interval = pos 1000000000;
  retry_after = pos 5000000000;
}

abbrev api_rule : RateLimitRule
api_rule = record login_rule { name = "api"; path_prefix = "/api" }

abbrev login_request : Request
login_request = record { method = "POST"; path = "/api/login"; remote_addr = "10.0.0.1:99" }

less_first : (n : ℕ) → suc n - 1 ≡ n
less_first n = omega arith

-- Whole tokens.
abbrev whole : Float
whole = record {
  F = ℕ;
  of_int = λ n. n;
  ratio = λ a b. 0;
  min = λ a b. if ltb a b then a else b;
  plus = λ a b. a + b;
  below_one = λ a. a == 0;
  less_one = λ a. a - 1;
  is_positive = λ a. ltb 0 a;
  ceil_seconds = λ d. 5;
}

whole-IsExact : IsExact whole 2
whole-IsExact = record { below = λ n le. refl; less = λ n le. less_first n }

abbrev two_rules : List RateLimitRule
two_rules = api_rule ∷ login_rule ∷ []

found_login : match_rule login_request two_rules ≡ some login_rule
unfolding match_rule match_from applies
found_login = refl

match_rule-longest_example :
    (applies login_request login_rule ≡ true)
    × Among login_rule two_rules
    × NoneLonger login_request login_rule two_rules
match_rule-longest_example = match_rule-longest login_request two_rules login_rule found_login

no_bucket : lookup {A = Bucket whole} "login|10.0.0.1" [] ≡ none
unfolding lookup
no_bucket = refl

allow_times-first_yes_example : allow_times whole "login|10.0.0.1" login_rule 7 3 [] ≡ first_yes 2 3
allow_times-first_yes_example =
    allow_times-first_yes whole "login|10.0.0.1" login_rule 1 7 whole-IsExact refl (omega arith) 3
      [] no_bucket
