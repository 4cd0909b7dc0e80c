-- ===== src/RateLimit/Laws.antt =====
-- The bound of the sliding window (src/rate_limit/window_limiter.rs).
-- A request that was let through: its bucket and its time.
use mathlib.Core.Path.{subst}
use sn_netplay_serv.Base.{
  ltb, leb, ◌==◌, if◌then◌else◌, Bool-cases, length, Result, ok, err, ℕ, ◌+◌, ◌≤◌, ◌<◌, ◌≡◌, refl,
  sym, inl, inr, Bool, true, false, ◌&&◌, List, [], ◌∷◌, ◌++◌, arith,
}
use sn_netplay_serv.Base.Bytes.{bytes_eq, bytes_eq_to}
use sn_netplay_serv.RateLimit.{
  RateLimitPolicy, RateLimitAction, limit_for, same_action, rate_limit_window, RateLimitBucket,
  same_bucket, RateLimitBuckets, drop_expired, set_bucket, check_at, create_room, web_socket_join,
  room_status,
}

abbrev pub Accepted : Type 0
Accepted = List (RateLimitBucket × ℕ)

unfoldable pub is_ok : {E A : Type 0} → Result E A → Bool
is_ok (ok a) = true
is_ok (err e) = false

-- The requests that the limiter lets through, the last first.
unfoldable pub run_limiter : RateLimitPolicy → RateLimitBuckets → Accepted → Accepted → Accepted
unfolding is_ok
run_limiter policy buckets accepted [] = accepted
run_limiter policy buckets accepted ((b, now) ∷ more) =
    let r = check_at policy buckets b now in
    run_limiter policy r.0 (if is_ok r.1 then (b, now) ∷ accepted else accepted) more

-- The requests come in the order of their times.
abbrev pub IsOrdered : ℕ → Accepted → Type 0
IsOrdered last [] = Unit
IsOrdered last ((b, now) ∷ more) = (last ≤ now) × IsOrdered now more

-- How many requests of a bucket came after `a`, and how many in the minute behind `a`.
unfoldable pub count_after : RateLimitBucket → ℕ → Accepted → ℕ
count_after b a [] = 0
count_after b a ((c, t) ∷ more) =
    (if same_bucket c b && ltb a t then 1 else 0) + count_after b a more

unfoldable pub count_within : RateLimitBucket → ℕ → Accepted → ℕ
count_within b a [] = 0
count_within b a ((c, t) ∷ more) =
    (if same_bucket c b && ltb a t && leb t (a + rate_limit_window) then 1 else 0)
    + count_within b a more

entries_after : ℕ → List ℕ → ℕ
entries_after a [] = 0
entries_after a (t ∷ more) = (if ltb a t then 1 else 0) + entries_after a more

within-after :
    (b : RateLimitBucket) (a : ℕ) (xs : Accepted) → count_within b a xs ≤ count_after b a xs
unfolding count_within count_after
within-after b a [] = omega arith
within-after b a ((c, t) ∷ xs) =
    let rest = within-after b a xs in
    elim (Bool-cases (same_bucket c b && ltb a t)) [
      | inl hit ↦ ground (arith, rest)
      | inr miss ↦ ground (arith, rest)
    ]

entries-length : (a : ℕ) (xs : List ℕ) → entries_after a xs ≤ length xs
unfolding entries_after
entries-length a [] = omega arith
entries-length a (t ∷ xs) = ground (arith, entries-length a xs)

-- What is popped came too early to count.
expired-after :
    (now a : ℕ) (xs : List ℕ)
    → now ≤ a + rate_limit_window
    → entries_after a (drop_expired now xs) ≡ entries_after a xs
unfolding entries_after drop_expired
expired-after now a [] h = refl
expired-after now a (t ∷ xs) h = ground (arith, expired-after now a xs h)

entries-push :
    (a now : ℕ) (xs : List ℕ) → a < now → entries_after a (xs ++ now ∷ []) ≡ entries_after a xs + 1
unfolding entries_after
entries-push a now [] h = ground arith
entries-push a now (t ∷ xs) h = omega (arith, entries-push a now xs h)

entries-append : (a now : ℕ) (xs : List ℕ) → entries_after a xs ≤ entries_after a (xs ++ now ∷ [])
unfolding entries_after
entries-append a now [] = omega arith
entries-append a now (t ∷ xs) = omega (arith, entries-append a now xs)

-- What the limiter has let through up to `last`, against its table.
record Bounded (policy : RateLimitPolicy) (buckets : RateLimitBuckets) (xs : Accepted) (last : ℕ)
    : Type 0 where
  kept :
      (b : RateLimitBucket) (a : ℕ)
      → last ≤ a + rate_limit_window
      → count_after b a xs ≤ entries_after a (buckets b)
  limited : (b : RateLimitBucket) (a : ℕ) → count_within b a xs ≤ limit_for policy b.action

same_action-to : (a b : RateLimitAction) → same_action a b ≡ true → a ≡ b
unfolding same_action
same_action-to create_room create_room h = refl
same_action-to create_room web_socket_join h = absurd (cc)
same_action-to create_room room_status h = absurd (cc)
same_action-to web_socket_join create_room h = absurd (cc)
same_action-to web_socket_join web_socket_join h = refl
same_action-to web_socket_join room_status h = absurd (cc)
same_action-to room_status create_room h = absurd (cc)
same_action-to room_status web_socket_join h = absurd (cc)
same_action-to room_status room_status h = refl

same_bucket-to : (b c : RateLimitBucket) → same_bucket b c ≡ true → b ≡ c
unfolding same_bucket
same_bucket-to b c h =
    let both : (same_action b.action c.action ≡ true) × (bytes_eq b.key c.key ≡ true) =
      ground arith in
    let action = same_action-to b.action c.action both.0 in
    let key = bytes_eq_to b.key c.key both.1 in λ i. record { action = action i; key = key i }

-- A bucket after its expired entries are dropped and others appended.
kept-set :
    (buckets : RateLimitBuckets) (b c : RateLimitBucket) (entries : List ℕ) (a now : ℕ)
    → now ≤ a + rate_limit_window
    → entries_after a (drop_expired now (buckets b)) ≤ entries_after a entries
    → entries_after a (buckets c) ≤ entries_after a (set_bucket b entries buckets c)
unfolding set_bucket
kept-set buckets b c entries a now h more = elim (Bool-cases (same_bucket b c)) [
  | inr other ↦ rw (other, set_bucket) (omega arith)
  | inl same ↦
      rw (same, set_bucket)
        (subst (λ d. entries_after a (buckets d) ≤ entries_after a entries)
          (same_bucket-to b c same) (omega (arith, more, expired-after now a (buckets b) h)))
]

pass-Bounded :
    (policy : RateLimitPolicy) (buckets : RateLimitBuckets) (xs : Accepted) (last now : ℕ)
    → last ≤ now
    → Bounded policy buckets xs last
    → Bounded policy buckets xs now
pass-Bounded policy buckets xs last now later inv = record {
  kept = λ b a h. inv.kept b a (omega (arith, h, later));
  limited = inv.limited;
}

full-Bounded :
    (policy : RateLimitPolicy) (buckets : RateLimitBuckets) (xs : Accepted) (last now : ℕ)
    (b : RateLimitBucket)
    → last ≤ now
    → Bounded policy buckets xs last
    → Bounded policy (set_bucket b (drop_expired now (buckets b)) buckets) xs now
full-Bounded policy buckets xs last now b later inv = record {
  kept = λ c a h. omega (
    arith,
    inv.kept c a (omega (arith, h, later)),
    kept-set buckets b c (drop_expired now (buckets b)) a now h (omega arith),
  );
  limited = inv.limited;
}

accept-Bounded :
    (policy : RateLimitPolicy) (buckets : RateLimitBuckets) (xs : Accepted) (last now : ℕ)
    (b : RateLimitBucket)
    → last ≤ now
    → length (drop_expired now (buckets b)) < limit_for policy b.action
    → Bounded policy buckets xs last
    → Bounded policy
        (set_bucket b (drop_expired now (buckets b) ++ now ∷ []) buckets)
        ((b, now) ∷ xs)
        now
unfolding count_after count_within set_bucket
accept-Bounded policy buckets xs last now b later room inv = record {
  kept = λ c a h.
      let old = inv.kept c a (omega (arith, h, later)) in
      let entries = drop_expired now (buckets b) in
      let grown =
        kept-set buckets b c (entries ++ now ∷ []) a now h (entries-append a now entries) in
      elim (Bool-cases (same_bucket b c && ltb a now)) [
        | inr miss ↦ rw miss (omega (arith, old, grown))
        | inl hit ↦
            let same : same_bucket b c ≡ true = ground arith in
            let before : a < now = ground arith in
            let e = same_bucket-to b c same in
            let old' : count_after c a xs ≤ entries_after a (buckets b) =
              subst (λ d. count_after c a xs ≤ entries_after a (buckets d)) (sym e) old in
            rw (hit, same, set_bucket)
              (omega
                (arith, old', expired-after now a (buckets b) h, entries-push a now entries before))
      ];
  limited = λ c a.
      elim (Bool-cases (same_bucket b c && ltb a now && leb now (a + rate_limit_window))) [
        | inr miss ↦ rw miss (omega (arith, inv.limited c a))
        | inl hit ↦
            let same : same_bucket b c ≡ true = ground arith in
            let within : now ≤ a + rate_limit_window = ground arith in
            let e = same_bucket-to b c same in
            let old = inv.kept c a (omega (arith, within, later)) in
            let old' : count_after c a xs ≤ entries_after a (buckets b) =
              subst (λ d. count_after c a xs ≤ entries_after a (buckets d)) (sym e) old in
            let entries = drop_expired now (buckets b) in
            let room' : length entries < limit_for policy c.action =
              subst (λ d. length entries < limit_for policy d.action) e room in
            rw hit (
              omega (
                arith,
                old',
                within-after c a xs,
                expired-after now a (buckets b) within,
                entries-length a entries,
                room',
              ))
      ];
}

check-Bounded :
    (policy : RateLimitPolicy) (buckets : RateLimitBuckets) (xs : Accepted) (last now : ℕ)
    (b : RateLimitBucket)
    → last ≤ now
    → Bounded policy buckets xs last
    → Bounded policy
        (check_at policy buckets b now).0
        (if is_ok (check_at policy buckets b now).1 then (b, now) ∷ xs else xs)
        now
unfolding check_at is_ok
check-Bounded policy buckets xs last now b later inv =
    elim (Bool-cases (limit_for policy b.action == 0)) [
      | inl never ↦ rw (never, check_at) (pass-Bounded policy buckets xs last now later inv)
      | inr some_limit ↦
          elim (Bool-cases
            (leb (limit_for policy b.action) (length (drop_expired now (buckets b))))) [
              | inl full ↦
                  rw (some_limit, full, check_at)
                    (full-Bounded policy buckets xs last now b later inv)
              | inr room ↦
                  rw (some_limit, room, check_at)
                    (accept-Bounded policy buckets xs last now b later (ground arith) inv)
            ]
    ]

run-Bounded :
    (policy : RateLimitPolicy) (buckets : RateLimitBuckets) (xs calls : Accepted) (last : ℕ)
    → IsOrdered last calls
    → Bounded policy buckets xs last
    → (b : RateLimitBucket) (a : ℕ)
    → count_within b a (run_limiter policy buckets xs calls) ≤ limit_for policy b.action
unfolding run_limiter
run-Bounded policy buckets xs [] last ordered inv b a = inv.limited b a
run-Bounded policy buckets xs ((c, now) ∷ calls) last (later, rest) inv b a =
    run-Bounded policy (check_at policy buckets c now).0
      (if is_ok (check_at policy buckets c now).1 then (c, now) ∷ xs else xs) calls now rest
      (check-Bounded policy buckets xs last now c later inv) b a

-- Of requests that come in the order of their times to a limiter that starts empty, no more than the
-- action's limit are let through for one action and key in any sixty seconds.
pub run_limiter-limited :
    (policy : RateLimitPolicy) (calls : Accepted) (b : RateLimitBucket) (a : ℕ)
    → IsOrdered 0 calls
    → count_within b a (run_limiter policy (λ c. []) [] calls) ≤ limit_for policy b.action
unfolding count_after count_within
run_limiter-limited policy calls b a ordered =
    run-Bounded policy (λ c. []) [] calls 0 ordered
      record { kept = λ c d h. omega arith; limited = λ c d. omega arith } b a
