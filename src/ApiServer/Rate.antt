-- ===== src/ApiServer/Rate.antt =====
-- The rate limiter of disperser/apiserver/server.go over any sequence of requests.
use g_da_client.Common.{
  ℕ, ◌+◌, ◌-◌, ◌<◌, ◌≤◌, true, false, ◌&&◌, Option, none, some, List, [], ◌∷◌, Bytes, bytes_eq,
  lookup, lookup-insert, ltb, ◌==◌, str_beq_iff, if◌then◌else◌, ◌≡◌, refl, ap, subst, str_beq, ◌∙◌,
  arith, Bool-cases, Option-cases, inl, inr,
}
use g_da_client.ApiServer.{
  TinyRateLimiter, ClientRateLimiterManager, interval, allow, get_rate_limiter, allow_client,
}

-- The times at which requests of the client were allowed.
abbrev pub allowed_times : Bytes → List (Bytes × ℕ) → ClientRateLimiterManager → List ℕ
allowed_times client [] m = []
allowed_times client ((c, now) ∷ calls) m =
    let later = allowed_times client calls (allow_client c now m).1 in
    if (allow_client c now m).0 && (c == client) then now ∷ later else later

-- Each time is at least the gap after the one before.
abbrev pub IsSpaced : ℕ → Option ℕ → List ℕ → Type 0
IsSpaced gap last [] = Unit
IsSpaced gap none (t ∷ ts) = IsSpaced gap (some t) ts
IsSpaced gap (some last) (t ∷ ts) = (last + gap ≤ t) × IsSpaced gap (some t) ts

get_rate_limiter-allow_client :
    (client c : Bytes) (now : ℕ) (m : ClientRateLimiterManager)
    → get_rate_limiter client (allow_client c now m).1
      ≡ (if c == client then (allow now (get_rate_limiter c m)).1 else get_rate_limiter client m)
unfolding get_rate_limiter allow_client
get_rate_limiter-allow_client client c now m =
    ground (arith, lookup-insert c client (allow now (get_rate_limiter c m)).1 m.clients)

-- What a limiter that has answered keeps.
allow_lem :
    (now : ℕ) (limiter : TinyRateLimiter)
    → ((allow now limiter).1.max_requests ≡ limiter.max_requests)
      × ((allow now limiter).1.last_request
          ≡ (if (allow now limiter).0 then some now else limiter.last_request))
unfolding allow
allow_lem now limiter = elim (Option-cases limiter.last_request) [
  | inl new ↦ ground arith
  | inr (last, old) ↦ ground arith
]

late_enough :
    (now last : ℕ) (limiter : TinyRateLimiter)
    → 0 < interval limiter.max_requests
    → limiter.last_request ≡ some last
    → (allow now limiter).0 ≡ true
    → last + interval limiter.max_requests ≤ now
unfolding allow
late_enough now last limiter positive old allowed =
    elim (Bool-cases (ltb (now - last) (interval limiter.max_requests))) [
      | inl early ↦ absurd (ground arith)
      | inr late ↦ ground arith
    ]

IsSpaced-first :
    (gap now : ℕ) (last : Option ℕ) (ts : List ℕ)
    → ((p : ℕ) → last ≡ some p → p + gap ≤ now)
    → IsSpaced gap (some now) ts
    → IsSpaced gap last (now ∷ ts)
IsSpaced-first gap now none ts late h = h
IsSpaced-first gap now (some p) ts late h = (late p refl, h)

allow_client-answer :
    (c client : Bytes) (now : ℕ) (m : ClientRateLimiterManager)
    → c ≡ client
    → (allow_client c now m).0 ≡ (allow now (get_rate_limiter client m)).0
unfolding allow_client
allow_client-answer c client now m h = ap (λ d. (allow now (get_rate_limiter d m)).0) h

spaced :
    (client : Bytes) (gap : ℕ) (calls : List (Bytes × ℕ)) (m : ClientRateLimiterManager)
    → 0 < gap
    → interval (get_rate_limiter client m).max_requests ≡ gap
    → IsSpaced gap (get_rate_limiter client m).last_request (allowed_times client calls m)
spaced client gap [] m positive fits = tt
spaced client gap ((c, now) ∷ calls) m positive fits =
    let m' = (allow_client c now m).1 in
    let mine = get_rate_limiter client m in
    let moved = get_rate_limiter-allow_client client c now m in
    elim (Bool-cases (str_beq c client)) [
      | inr other ↦
          let same : get_rate_limiter client m' ≡ mine = ground arith in
          let rest =
            spaced client gap calls m' positive (ap (λ l. interval l.max_requests) same ∙ fits) in
          let said : (allow_client c now m).0 && str_beq c client ≡ false = ground arith in
          rw said
            (subst (λ l. IsSpaced gap l.last_request (allowed_times client calls m')) same rest)
      | inl own ↦
          let is : c ≡ client = (str_beq_iff c client).0 own in
          let same : get_rate_limiter client m' ≡ (allow now mine).1 =
            ground (arith, moved, ap (λ d. (allow now (get_rate_limiter d m)).1) is) in
          let (rate, last) = allow_lem now mine in
          let rest =
            spaced client gap calls m' positive
              (ap (λ l. interval l.max_requests) same ∙ ap interval rate ∙ fits) in
          let answer = allow_client-answer c client now m is in
          let kept = ap (λ l. l.last_request) same ∙ last in
          elim (Bool-cases (allow now mine).0) [
            | inl allowed ↦
                let said : (allow_client c now m).0 && str_beq c client ≡ true = ground arith in
                rw said (
                  IsSpaced-first gap now mine.last_request (allowed_times client calls m')
                    (λ p e.
                      subst (λ g. p + g ≤ now) fits
                        (late_enough now p mine (omega arith) e allowed))
                    (subst (λ l. IsSpaced gap l (allowed_times client calls m'))
                      (kept ∙ ap (λ x. if x then some now else mine.last_request) allowed) rest))
            | inr refused ↦
                let said : (allow_client c now m).0 && str_beq c client ≡ false = ground arith in
                rw said (
                  subst (λ l. IsSpaced gap l (allowed_times client calls m'))
                    (kept ∙ ap (λ x. if x then some now else mine.last_request) refused) rest)
          ]
    ]

-- From a manager with no clients, and a rate of at most 6 * 10^10 requests a minute: whatever requests
-- come, by whatever clients, and at whatever times, two of a client that are allowed are at least a
-- minute divided by the rate apart.
pub allowed_times-IsSpaced :
    (client : Bytes) (max_requests : ℕ) (calls : List (Bytes × ℕ))
    → 0 < interval max_requests
    → IsSpaced
        (interval max_requests)
        none
        (allowed_times client calls (record { clients = []; max_requests = max_requests }))
unfolding get_rate_limiter lookup
allowed_times-IsSpaced client max_requests calls positive =
    spaced client (interval max_requests) calls
      (record { clients = []; max_requests = max_requests }) positive refl
