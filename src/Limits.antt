-- ===== src/Limits.antt =====
-- server/internal/httpx/rate_limit.go: which rule a request falls under, the token bucket of its key,
-- and what a request over its limit is answered. A bucket holds floating-point tokens; their
-- arithmetic is a parameter, as is `net.SplitHostPort`. The buckets are under a mutex, so that
-- requests come one after the other. `Prefix` is `path_prefix` here.
pub mod Buckets
pub mod Rules
mod Tests
use Prim.Native.String.{◌++◌, len}
use xmdm.Common.{
  ℕ, ◌-◌, List, [], ◌∷◌, String, Bool, true, false, ◌&&◌, ◌||◌, not, Option, none, some,
  if◌then◌else◌, str_eq, starts_with, ltb,
}
use xmdm.Common.Int.{ℤ, pos, pos_part, leb_ℤ}
use xmdm.Common.Maps.{lookup, put}
use xmdm.Database.Rows.{Time}

-- `RateLimitRule`; durations in nanoseconds
pub record RateLimitRule : Type 0 where
  pub name : String
  pub method : String
  pub path_prefix : String
  pub burst : ℤ
  pub refill_interval : ℤ
  pub retry_after : ℤ

-- What the limiter reads of a request.
pub record Request : Type 0 where
  pub method : String
  pub path : String
  pub remote_addr : String

-- The floating-point numbers of a bucket: `float64(n)`, `elapsed.Seconds() / interval.Seconds()`,
-- `math.Min(a, b)`, `a + b`, `a < 1`, `a - 1`, `0 < a` and `math.Ceil(d.Seconds())`.
pub record Float : Type 1 where
  pub F : Type 0
  pub of_int : ℕ → F
  pub ratio : ℕ → ℕ → F
  pub min : F → F → F
  pub plus : F → F → F
  pub below_one : F → Bool
  pub less_one : F → F
  pub is_positive : F → Bool
  pub ceil_seconds : ℕ → ℕ

-- The rule fits the method and the path.
unfoldable pub applies : Request → RateLimitRule → Bool
applies r rule =
    (str_eq rule.method "" || str_eq rule.method r.method)
    && (str_eq rule.path_prefix "" || starts_with r.path rule.path_prefix)

abbrev pub longer : Option RateLimitRule → RateLimitRule → Bool
longer none rule = true
longer (some matched) rule = ltb (len matched.path_prefix) (len rule.path_prefix)

-- The loop of `matchRule`.
unfoldable pub match_from :
    Request → Option RateLimitRule → List RateLimitRule → Option RateLimitRule
match_from r matched [] = matched
match_from r matched (rule ∷ rules) =
    match_from r (if applies r rule && longer matched rule then some rule else matched) rules

-- `matchRule`
unfoldable pub match_rule : Request → List RateLimitRule → Option RateLimitRule
match_rule r rules = match_from r none rules

-- `rateLimitKey`
unfoldable pub rate_limit_key : (String → Option String) → String → Request → String
rate_limit_key split_host scope r =
    let host : String = elim (split_host r.remote_addr) [ none ↦ r.remote_addr | some h ↦ h ] in
    (if str_eq scope "" then r.method ++ " " ++ r.path else scope) ++ "|" ++ host

module _ (float : Float) where
  open float use {F, of_int, ratio, min, plus, below_one, less_one, is_positive}

  pub record Bucket : Type 0 where
    pub tokens : F
    pub last : Time

  -- The tokens after a time that passed.
  unfoldable pub topped_up : RateLimitRule → ℕ → F → F
  topped_up rule elapsed tokens =
      let interval =
        if leb_ℤ rule.refill_interval (pos 0) then 1000000000 else pos_part rule.refill_interval in
      let refill = ratio elapsed interval in
      if is_positive refill then min (of_int (pos_part rule.burst)) (plus tokens refill) else tokens

  -- The time that passed refills the bucket; a time of zero was never set.
  unfoldable pub refilled : RateLimitRule → Time → Bucket → Bucket
  unfolding topped_up
  refilled rule now b =
      let last = if ltb 0 b.last then b.last else now in
      if ltb last now
      then record { tokens = topped_up rule (now - last) b.tokens; last = now }
      else record { tokens = b.tokens; last = last }

  -- A request takes a token, where there is one.
  unfoldable pub taken : Bucket → Bool × Bucket
  taken b =
      if below_one b.tokens then (false, b) else (true, record b { tokens = less_one b.tokens })

  -- What `allow` does with the bucket of the key; a rule without a burst allows everything
  unfoldable pub allow_found : RateLimitRule → Time → Option Bucket → Bool × Bucket
  unfolding refilled taken
  allow_found rule now none =
      (true, record { tokens = of_int (pos_part rule.burst - 1); last = now })
  allow_found rule now (some b) = taken (refilled rule now b)

  -- `allow`
  unfoldable pub allow :
      String → RateLimitRule → Time → List (String × Bucket) → Bool × List (String × Bucket)
  allow key rule now buckets =
      if leb_ℤ rule.burst (pos 0)
      then (true, buckets)
      else let (allowed, b) = allow_found rule now (lookup key buckets) in
        (allowed, put key b buckets)

  -- `strconvDurationSeconds` of the positive duration
  unfoldable pub retry_seconds : RateLimitRule → ℕ
  retry_seconds rule =
      let retry_after =
        if leb_ℤ rule.retry_after (pos 0) then 1000000000 else pos_part rule.retry_after in
      let seconds = float.ceil_seconds retry_after in if ltb seconds 1 then 1 else seconds

  -- `ServeHTTP`: the seconds to wait, where the request is not passed on
  unfoldable pub serve_http :
      (String → Option String)
      → Request
      → List RateLimitRule
      → Time
      → List (String × Bucket)
      → Option ℕ × List (String × Bucket)
  serve_http split_host r rules now buckets = elim (match_rule r rules) [
    | none ↦ (none, buckets)
    | some rule ↦
        let (allowed, rest) = allow (rate_limit_key split_host rule.name r) rule now buckets in
        (if allowed then none else some (retry_seconds rule), rest)
  ]
