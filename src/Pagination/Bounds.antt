-- ===== src/Pagination/Bounds.antt =====
-- What the pages of server/internal/pagination/pagination.go promise.
use native.Mathlib.Nat.{mul-div_cancel}
use xmdm.Common.{ℕ, ◌+◌, ◌-◌, ◌*◌, ◌/◌, ◌≤◌, ◌<◌, ◌≡◌, ap, ◌∙◌, arith}
use xmdm.Common.Int.{ℤ, pos, pos_part, neg_part, half_range}
use xmdm.Pagination.{Params, effective_default, normalize, offset, page}

-- A page that the database can be asked for: a positive limit that is at most the given one, and an
-- offset that is not negative.
pub record IsBounded (p : Params) (max_limit : ℕ) : Type 0 where
  pub limit_nonneg : neg_part p.limit ≡ 0
  pub limit_pos : 0 < pos_part p.limit
  pub limit_le : pos_part p.limit ≤ max_limit
  pub offset_nonneg : neg_part p.offset ≡ 0

effective_default_bounds :
    (given : ℤ) (max_limit : ℕ)
    → 0 < max_limit
    → (neg_part (effective_default given (pos max_limit)) ≡ 0)
      × (0 < pos_part (effective_default given (pos max_limit)))
      × (pos_part (effective_default given (pos max_limit)) ≤ max_limit)
unfolding effective_default
effective_default_bounds given m h = ground arith

-- Whatever the parameters and the default are, `Normalize` with a positive maximum gives such a page.
pub normalize-IsBounded :
    (p : Params) (given : ℤ) (max_limit : ℕ)
    → 0 < max_limit
    → IsBounded (normalize p given (pos max_limit)) max_limit
unfolding normalize
normalize-IsBounded p given m h = ground (arith, effective_default_bounds given m h)

-- With a positive maximum, a page that `Normalize` gave stays as it is, whatever the defaults are.
pub normalize_idem :
    (p : Params) (given given' : ℤ) (max_limit : ℕ)
    → 0 < max_limit
    → normalize (normalize p given (pos max_limit)) given' (pos max_limit)
      ≡ normalize p given (pos max_limit)
unfolding normalize
normalize_idem p given given' m h = ground arith

offset_lem :
    (n limit : ℕ)
    → 0 < n
    → 0 < limit
    → (n - 1) * limit < half_range
    → offset (pos n) (pos limit) ≡ pos ((n - 1) * limit)
unfolding offset
offset_lem n limit h k f = ground arith

page_lem :
    (start limit : ℕ)
    → 0 < limit
    → start / limit + 1 < half_range
    → page (pos start) (pos limit) ≡ pos (start / limit + 1)
unfolding page
page_lem start limit k f = ground arith

-- For a positive page that fits an `int` and a positive limit: the page of the offset that `Offset`
-- computed is the page it was computed for, where the product fits an `int`.
page-offset :
    (n limit : ℕ)
    → 0 < n
    → n < half_range
    → 0 < limit
    → (n - 1) * limit < half_range
    → page (offset (pos n) (pos limit)) (pos limit) ≡ pos n
page-offset n limit h b k f =
    let back : (n - 1) * limit / limit ≡ n - 1 = mul-div_cancel (n - 1) k in
    ap (λ o. page o (pos limit)) (offset_lem n limit h k f)
    ∙ (page_lem ((n - 1) * limit) limit k (rw back (omega arith)) ∙ ap pos (rw back (omega arith)))
