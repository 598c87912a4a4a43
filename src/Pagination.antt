-- ===== src/Pagination.antt =====
-- server/internal/pagination/pagination.go, and the page parameters of
-- server/internal/httpx/http.go. `int` is a 64-bit integer: a product of two leaves its low bits.
pub mod Bounds
mod Tests
use xmdm.Common.{
  ℕ, ◌+◌, ◌-◌, ◌*◌, ◌/◌, ◌%◌, ◌^◌, ◌≤◌, Bool, ◌&&◌, ◌||◌, Option, none, some, if◌then◌else◌,
}
use xmdm.Common.Int.{ℤ, pos, negsuc, pos_part, neg_part, sub_ℕ, ltb_ℤ, leb_ℤ, signed}

abbrev pub default_limit : ℤ
default_limit = pos 25

pub record Params : Type 0 where
  pub limit : ℤ
  pub offset : ℤ

-- The first two tests of `Normalize`: the limit that stands in for one that is not positive.
unfoldable pub effective_default : ℤ → ℤ → ℤ
effective_default given max_limit =
    let chosen = if leb_ℤ given (pos 0) then default_limit else given in
    if ltb_ℤ (pos 0) max_limit && ltb_ℤ max_limit chosen then max_limit else chosen

-- `Normalize`
unfoldable pub normalize : Params → ℤ → ℤ → Params
unfolding effective_default
normalize params given max_limit =
    let limit =
      if leb_ℤ params.limit (pos 0) then effective_default given max_limit else params.limit in
    record {
      limit = if ltb_ℤ (pos 0) max_limit && ltb_ℤ max_limit limit then max_limit else limit;
      offset = if ltb_ℤ params.offset (pos 0) then pos 0 else params.offset;
    }

-- `Offset`: `(page - 1) * limit` in 64 bits
unfoldable pub offset : ℤ → ℤ → ℤ
offset page limit =
    if leb_ℤ page (pos 1) || leb_ℤ limit (pos 0)
    then pos 0
    else signed ((pos_part page - 1) * pos_part limit)

-- `Page`
unfoldable pub page : ℤ → ℤ → ℤ
page offset limit =
    if leb_ℤ limit (pos 0)
    then pos 1
    else let start = if ltb_ℤ offset (pos 0) then pos 0 else offset in
      signed (pos_part start / pos_part limit + 1)

-- What `strconv.Atoi` made of a query value, `none` where it failed or the value was blank
abbrev pub positive_or : Option ℤ → ℤ → ℤ
positive_or none given = given
positive_or (some n) given = if ltb_ℤ (pos 0) n then n else given

-- `RequestPaginationParams`
unfoldable pub request_pagination_params : Option ℤ → Option ℤ → ℤ → Params
unfolding normalize offset
request_pagination_params page limit max_limit =
    let params =
      normalize (record { limit = positive_or limit default_limit; offset = pos 0 }) default_limit
        max_limit in
    record params { offset = offset (positive_or page (pos 1)) params.limit }
