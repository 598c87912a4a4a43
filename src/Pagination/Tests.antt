-- ===== src/Pagination/Tests.antt =====
-- Pages of server/internal/pagination/pagination.go at given numbers.
use xmdm.Common.{◌≡◌, refl, none, some}
use xmdm.Common.Int.{pos, negsuc}
use xmdm.Pagination.{
  Params, default_limit, effective_default, normalize, offset, request_pagination_params,
}

abbrev wild_page : Params
wild_page = record { limit = pos 5000; offset = negsuc 2 }

normalize-wild_page :
    normalize wild_page default_limit (pos 100) ≡ record { limit = pos 100; offset = pos 0 }
unfolding normalize effective_default
normalize-wild_page = refl

third_page :
    request_pagination_params (some (pos 3)) none (pos 100)
    ≡ record { limit = pos 25; offset = pos 50 }
unfolding request_pagination_params normalize effective_default offset
third_page = refl
