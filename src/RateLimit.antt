-- ===== src/RateLimit.antt =====
-- common/ratelimit/limiter.go over the local store of common/store/local_store.go. Durations are in
-- nanoseconds and never negative; sums of them stay far below 2^63. What a request costs each bucket
-- is computed in floating point, and is an argument here; so is the substring test of the Go library.
-- The store never evicts here, while the LRU cache of the source does at its capacity.
use g_da_client.Common.{
  ℕ, ◌+◌, ◌-◌, ◌≤◌, ◌<◌, Bool, true, false, ◌&&◌, ◌||◌, Option, none, some, List, [], ◌∷◌, Bytes,
  bytes_eq, Map, Result, ok, err, lookup, insert, lookup-insert_self, ltb, if◌then◌else◌, ◌≡◌, ◌↔◌,
  refl, subst, arith, Result-cases, Bool-cases, inl, inr,
}
use g_da_client.Disperser.Status.{Error, index_out_of_range}

-- `GlobalRateParams`; the multipliers are part of what a request costs.
pub record GlobalRateParams : Type 0 where
  pub bucket_sizes : List ℕ
  pub count_failed : Bool

pub record RateBucketParams : Type 0 where
  pub bucket_levels : List ℕ
  pub last_request_time : ℕ

-- `getBucketLevel`: `-` on ℕ stops at 0, as the source does.
unfoldable pub get_bucket_level : ℕ → ℕ → ℕ → ℕ → ℕ
get_bucket_level level size interval deduction =
    let new_level = level + interval - deduction in if ltb size new_level then size else new_level

-- The loop over the buckets: the new levels, and whether all are above 0. A level or a multiplier
-- that is missing panics.
unfoldable pub update_levels : List ℕ → List ℕ → List ℕ → ℕ → Result Error (List ℕ × Bool)
update_levels [] levels costs interval = ok (levels, true)
update_levels (size ∷ sizes) [] costs interval = err index_out_of_range
update_levels (size ∷ sizes) (level ∷ levels) [] interval = err index_out_of_range
update_levels (size ∷ sizes) (level ∷ levels) (cost ∷ costs) interval =
    elim (update_levels sizes levels costs interval) [
      | err e ↦ err e
      | ok (rest, allowed) ↦
          let new_level = get_bucket_level level size interval cost in
          ok (new_level ∷ rest, ltb 0 new_level && allowed)
    ]

abbrev pub or_full : List ℕ → ℕ → Option RateBucketParams → RateBucketParams
or_full sizes now none = record { bucket_levels = sizes; last_request_time = now }
or_full sizes now (some p) = p

unfoldable pub is_allowlisted : (Bytes → Bytes → Bool) → List Bytes → Bytes → Bool
is_allowlisted contains [] requester = false
is_allowlisted contains (id ∷ ids) requester =
    contains requester id || is_allowlisted contains ids requester

-- A refused request writes the levels through the slice that the store shares, and not the time.
abbrev pub write_levels : Bytes → List ℕ → Map Bytes RateBucketParams → Map Bytes RateBucketParams
write_levels requester levels store = elim (lookup requester store) [
  | none ↦ store
  | some p ↦ insert requester (record p { bucket_levels = levels }) store
]

-- `AllowRequest`; `costs` are the deductions of the buckets.
unfoldable pub allow_request :
    (Bytes → Bytes → Bool)
    → GlobalRateParams
    → List Bytes
    → Bytes
    → List ℕ
    → ℕ
    → Map Bytes RateBucketParams
    → Result Error (Bool × Map Bytes RateBucketParams)
allow_request contains params allowlist requester costs now store =
    let p = or_full params.bucket_sizes now (lookup requester store) in
    let interval = now - p.last_request_time in
    if is_allowlisted contains allowlist requester
    then ok (true, store)
    else elim (update_levels params.bucket_sizes p.bucket_levels costs interval) [
      | err e ↦ err e
      | ok (levels, allowed) ↦
          if allowed || params.count_failed
          then ok (
            allowed,
            insert requester (record { bucket_levels = levels; last_request_time = now }) store,
          )
          else ok (allowed, write_levels requester levels store)
    ]

-- Every level is within its bucket.
abbrev pub IsWithin : List ℕ → List ℕ → Type 0
IsWithin [] levels = Unit
IsWithin (size ∷ sizes) [] = ⊥
IsWithin (size ∷ sizes) (level ∷ levels) = (level ≤ size) × IsWithin sizes levels

-- What is in every bucket after the interval covers more than the cost.
abbrev pub IsCovered : List ℕ → List ℕ → List ℕ → ℕ → Type 0
IsCovered [] levels costs interval = Unit
IsCovered (size ∷ sizes) [] costs interval = ⊥
IsCovered (size ∷ sizes) (level ∷ levels) [] interval = ⊥
IsCovered (size ∷ sizes) (level ∷ levels) (cost ∷ costs) interval =
    (0 < size) × (cost < level + interval) × IsCovered sizes levels costs interval

-- The entry of a requester after a request.
abbrev pub HasWithin : GlobalRateParams → Bytes → Bool → ℕ → Map Bytes RateBucketParams → Type 0
HasWithin params requester allowed now store =
    (p : RateBucketParams) × (lookup requester store ≡ some p)
    × IsWithin params.bucket_sizes p.bucket_levels
    × (allowed ≡ true → p.last_request_time ≡ now)

-- The levels that the loop leaves are within their buckets, and the request is allowed exactly when
-- no bucket is of size 0 and what each holds, with the time since the last request, is more than
-- the request costs.
update_levels_lem :
    (sizes levels costs : List ℕ) (interval : ℕ) (out : List ℕ) (allowed : Bool)
    → update_levels sizes levels costs interval ≡ ok (out, allowed)
    → IsWithin sizes out × ((allowed ≡ true) ↔ IsCovered sizes levels costs interval)
unfolding update_levels get_bucket_level
update_levels_lem [] levels costs interval out allowed h = ground arith
update_levels_lem (size ∷ sizes) [] costs interval out allowed h = absurd (ground arith)
update_levels_lem (size ∷ sizes) (level ∷ levels) [] interval out allowed h = absurd (ground arith)
update_levels_lem (size ∷ sizes) (level ∷ levels) (cost ∷ costs) interval out allowed h =
    elim (Result-cases (update_levels sizes levels costs interval)) [
      | inr (e, fails) ↦ absurd (ground arith)
      | inl ((rest, more), fine) ↦
          let (within, iff) = update_levels_lem sizes levels costs interval rest more fine in
          let new_level = get_bucket_level level size interval cost in
          let levels_out : new_level ∷ rest ≡ out = ground arith in
          let all_out : (ltb 0 new_level && more) ≡ allowed = ground arith in
          let bounded : new_level ≤ size = ground arith in
          let positive : ltb 0 new_level ≡ true → (0 < size) × (cost < level + interval) =
            λ e. ground arith in
          let enough : 0 < size → cost < level + interval → ltb 0 new_level ≡ true =
            λ a b. ground arith in
          (
            subst (IsWithin (size ∷ sizes)) levels_out (bounded, within),
            (
              λ yes. let (a, b) = positive (ground arith) in (a, b, iff.0 (ground arith)),
              λ covered.
                  let first = enough covered.0 covered.1 in
                  let others = iff.1 covered.2 in ground arith,
            ),
          )
    ]

-- A requester who is not on the list, and has an entry in the store, is allowed exactly when no
-- bucket is of size 0 and what each bucket holds, with the time since the last request, is more than
-- the request costs. Afterwards the levels of the entry are within the buckets, and the time is
-- that of the request if it was allowed.
pub allow_request_lem :
    (contains : Bytes → Bytes → Bool) (params : GlobalRateParams) (allowlist : List Bytes)
    (requester : Bytes) (costs : List ℕ) (now : ℕ) (store store' : Map Bytes RateBucketParams)
    (p : RateBucketParams) (allowed : Bool)
    → is_allowlisted contains allowlist requester ≡ false
    → lookup requester store ≡ some p
    → allow_request contains params allowlist requester costs now store ≡ ok (allowed, store')
    → ((allowed ≡ true)
        ↔ IsCovered params.bucket_sizes p.bucket_levels costs (now - p.last_request_time))
      × HasWithin params requester allowed now store'
unfolding allow_request
allow_request_lem contains params allowlist requester costs now store store' p allowed off here h =
    let interval = now - p.last_request_time in
    elim (Result-cases (update_levels params.bucket_sizes p.bucket_levels costs interval)) [
      | inr (e, fails) ↦ absurd (ground arith)
      | inl ((levels, fits), fine) ↦
          let (within, iff) =
            update_levels_lem params.bucket_sizes p.bucket_levels costs interval levels fits fine in
          let same : fits ≡ allowed = ground arith in
          (
            subst (λ a. (a ≡ true) ↔ IsCovered params.bucket_sizes p.bucket_levels costs interval)
                same iff,
            elim (Bool-cases (fits || params.count_failed)) [
              | inl counted ↦
                  let fresh : RateBucketParams = record {
                    bucket_levels = levels;
                    last_request_time = now;
                  } in
                  (
                    fresh,
                    ground (arith, lookup-insert_self requester fresh store),
                    within,
                    λ yes. refl,
                  )
              | inr dropped ↦
                  let kept : RateBucketParams = record p { bucket_levels = levels } in
                  (
                    kept,
                    ground (arith, lookup-insert_self requester kept store),
                    within,
                    λ yes. absurd (ground arith),
                  )
            ],
          )
    ]
