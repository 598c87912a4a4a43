-- ===== src/Limits/Buckets.antt =====
-- How many requests a token bucket of server/internal/httpx/rate_limit.go lets through at once.
use xmdm.Common.{
  ℕ, zero, suc, ◌-◌, ◌≤◌, ◌<◌, ◌==◌, lt→ltb, ◌≡◌, refl, ap, List, [], ◌∷◌, String, Bool, true,
  false, none, some, ltb, arith,
}
use xmdm.Common.Int.{ℤ, pos, pos_part, leb_ℤ}
use xmdm.Common.Maps.{lookup, put, lookup-put}
use xmdm.Database.Rows.{Time}
use xmdm.Limits.{RateLimitRule, Float, Bucket, refilled, taken, allow_found, allow}

-- Whole numbers of tokens up to the burst are exact.
pub record IsExact (float : Float) (burst : ℕ) : Type 0 where
  pub below : (n : ℕ) → n ≤ burst → float.below_one (float.of_int n) ≡ (n == 0)
  pub less : (n : ℕ) → suc n ≤ burst → float.less_one (float.of_int (suc n)) ≡ float.of_int n

module _ (float : Float) where
  -- The answers to `n` requests of one key at one time.
  unfoldable pub allow_times :
      String → RateLimitRule → Time → ℕ → List (String × Bucket float) → List Bool
  allow_times key rule now zero buckets = []
  allow_times key rule now (suc n) buckets =
      let (allowed, rest) = allow float key rule now buckets in
      allowed ∷ allow_times key rule now n rest

-- `n` answers, of which the first `k` are yes.
unfoldable pub first_yes : ℕ → ℕ → List Bool
first_yes k zero = []
first_yes zero (suc n) = false ∷ first_yes zero n
first_yes (suc k) (suc n) = true ∷ first_yes k n

same_time : (n : ℕ) → ltb n n ≡ false
same_time n = ground arith

some_left : (n : ℕ) → (suc n == 0) ≡ false
some_left n = ground arith

some_burst : (n : ℕ) (burst : ℤ) → burst ≡ pos (suc n) → leb_ℤ burst (pos 0) ≡ false
some_burst n burst bursts = rw bursts (ground arith)

less_first : (n : ℕ) (burst : ℤ) → burst ≡ pos (suc n) → pos_part burst - 1 ≡ n
less_first n burst bursts = rw bursts (omega arith)

module _ (float : Float) (key : String) (rule : RateLimitRule) (burst : ℕ) (now : Time)
    (exact : IsExact float (suc burst)) (bursts : rule.burst ≡ pos (suc burst))
    (later : 0 < now) where
  allow_left :
      (k n : ℕ) (buckets : List (String × Bucket float))
      → k ≤ suc burst
      → lookup key buckets ≡ some (record { tokens = float.of_int k; last = now })
      → allow_times float key rule now n buckets ≡ first_yes k n
  unfolding allow_times first_yes allow allow_found refilled taken
  allow_left k zero buckets le held = refl
  allow_left zero (suc n) buckets le held =
      rw
        (
          some_burst burst rule.burst bursts,
          held,
          lt→ltb 0 now later,
          same_time now,
          exact.below 0 (omega arith),
        )
        (ap (◌∷◌ false) (
          allow_left zero n (put key (record { tokens = float.of_int 0; last = now }) buckets) le
            (lookup-put key (record { tokens = float.of_int 0; last = now }) buckets)))
  allow_left (suc k) (suc n) buckets le held =
      rw
        (
          some_burst burst rule.burst bursts,
          held,
          lt→ltb 0 now later,
          same_time now,
          exact.below (suc k) le,
          some_left k,
          exact.less k le,
        )
        (ap (◌∷◌ true) (
          allow_left k n (put key (record { tokens = float.of_int k; last = now }) buckets)
            (omega (arith, le))
            (lookup-put key (record { tokens = float.of_int k; last = now }) buckets)))

  -- Of the requests of a key that has no bucket, all at one time, as many as the burst are allowed,
  -- the first ones, and the rest are not, if the rule has a burst, numbers up to the burst are exact
  -- and the time is not zero.
  pub allow_times-first_yes :
      (n : ℕ) (buckets : List (String × Bucket float))
      → lookup key buckets ≡ none
      → allow_times float key rule now n buckets ≡ first_yes (suc burst) n
  unfolding allow_times first_yes allow allow_found
  allow_times-first_yes zero buckets absent = refl
  allow_times-first_yes (suc n) buckets absent =
      rw (some_burst burst rule.burst bursts, absent, less_first burst rule.burst bursts)
        (ap (◌∷◌ true) (
          allow_left burst n (put key (record { tokens = float.of_int burst; last = now }) buckets)
            (omega arith)
            (lookup-put key (record { tokens = float.of_int burst; last = now }) buckets)))
