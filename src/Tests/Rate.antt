-- ===== src/Tests/Rate.antt =====
-- The rate limiter on a concrete request.
use g_da_client.Common.{
  ◌-◌, ◌≡◌, ◌↔◌, refl, true, false, [], ◌∷◌, Bytes, bytes_eq, Map, ok, some, lookup, insert, delete,
  str_beq,
}
use g_da_client.RateLimit.{
  GlobalRateParams, RateBucketParams, get_bucket_level, update_levels, is_allowlisted,
  allow_request, IsCovered, HasWithin, allow_request_lem,
}

program : Unit {0}
unfolding lookup insert delete str_beq get_bucket_level update_levels is_allowlisted allow_request
program = tt

abbrev params : GlobalRateParams
params = record { bucket_sizes = 10 ∷ []; count_failed = false }

abbrev user : Bytes
user = 1 ∷ []

abbrev held : RateBucketParams
held = record { bucket_levels = 3 ∷ []; last_request_time = 100 }

abbrev left : RateBucketParams
left = record { bucket_levels = 1 ∷ []; last_request_time = 104 }

abbrev store : Map Bytes RateBucketParams
store = (user, held) ∷ []

not_listed : is_allowlisted str_beq [] user ≡ false
unfolding program
not_listed = refl

lookup-user : lookup user store ≡ some held
unfolding program
lookup-user = refl

-- Three were left, four have come in, and the request costs six.
allowed_once :
    allow_request str_beq params [] user (6 ∷ []) 104 store ≡ ok (true, (user, left) ∷ [])
unfolding program
allowed_once = refl

allow_request_lem_example :
    ((true ≡ true) ↔ IsCovered (10 ∷ []) (3 ∷ []) (6 ∷ []) (104 - 100))
    × HasWithin params user true 104 ((user, left) ∷ [])
allow_request_lem_example =
    allow_request_lem str_beq params [] user (6 ∷ []) 104 store ((user, left) ∷ []) held true
      not_listed lookup-user allowed_once
