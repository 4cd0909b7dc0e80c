-- ===== src/RateLimit.antt =====
-- src/rate_limit/policy.rs and window_limiter.rs: the sliding-window request limiter. Times are
-- nanoseconds of the process clock; the bucket table is a function from actions and keys. A check is
-- made under the limiter's lock.
pub mod Laws
use sn_netplay_serv.Base.{
  leb, ◌==◌, if◌then◌else◌, length, Result, ok, err, ℕ, ◌+◌, ◌-◌, Bool, true, false, ◌&&◌, List, [],
  ◌∷◌, ◌++◌,
}
use sn_netplay_serv.Base.Bytes.{bytes_eq}
use sn_netplay_serv.Base.Chars.{Chars}

pub record RateLimitPolicy : Type 0 where
  pub create_room_per_minute : ℕ
  pub websocket_join_per_minute : ℕ
  pub room_status_per_minute : ℕ

-- `RateLimitPolicy::default`
abbrev pub default_policy : RateLimitPolicy
default_policy = record {
  create_room_per_minute = 12;
  websocket_join_per_minute = 30;
  room_status_per_minute = 120;
}

pub data RateLimitAction : Type 0 where
  create_room web_socket_join room_status : RateLimitAction

-- `limit_for`
unfoldable pub limit_for : RateLimitPolicy → RateLimitAction → ℕ
limit_for policy create_room = policy.create_room_per_minute
limit_for policy web_socket_join = policy.websocket_join_per_minute
limit_for policy room_status = policy.room_status_per_minute

-- `a == b` on actions
unfoldable pub same_action : RateLimitAction → RateLimitAction → Bool
same_action create_room create_room = true
same_action web_socket_join web_socket_join = true
same_action room_status room_status = true
same_action _ _ = false

-- `RATE_LIMIT_WINDOW`, sixty seconds
abbrev pub rate_limit_window : ℕ
rate_limit_window = 60_000_000_000

pub record RateLimitExceeded : Type 0 where
  pub action : RateLimitAction
  pub retry_after : ℕ

pub record RateLimitBucket : Type 0 where
  pub action : RateLimitAction
  pub key : Chars

unfoldable pub same_bucket : RateLimitBucket → RateLimitBucket → Bool
unfolding same_action
same_bucket a b = same_action a.action b.action && bytes_eq a.key b.key

abbrev pub RateLimitBuckets : Type 0
RateLimitBuckets = RateLimitBucket → List ℕ

-- The loop that pops the entries up to the cutoff `now - RATE_LIMIT_WINDOW`.
unfoldable pub drop_expired : ℕ → List ℕ → List ℕ
drop_expired now [] = []
drop_expired now (t ∷ more) =
    let rest = drop_expired now more in if leb (t + rate_limit_window) now then rest else t ∷ more

-- The wait until the oldest entry leaves the window.
unfoldable pub retry_after_oldest : ℕ → List ℕ → ℕ
retry_after_oldest now [] = rate_limit_window
retry_after_oldest now (oldest ∷ more) = rate_limit_window - (now - oldest)

-- One entry of the bucket table replaced.
unfoldable pub set_bucket : RateLimitBucket → List ℕ → RateLimitBuckets → RateLimitBuckets
unfolding same_bucket
set_bucket b entries buckets c = if same_bucket b c then entries else buckets c

-- `check_at`, the bucket table that is left and the answer.
unfoldable pub check_at :
    RateLimitPolicy
    → RateLimitBuckets
    → RateLimitBucket
    → ℕ
    → RateLimitBuckets × Result RateLimitExceeded (Unit {0})
unfolding limit_for drop_expired retry_after_oldest set_bucket
check_at policy buckets b now =
    let limit = limit_for policy b.action in
    let entries = drop_expired now (buckets b) in
    if limit == 0
    then (buckets, err record { action = b.action; retry_after = rate_limit_window })
    else if leb limit (length entries)
    then (
      set_bucket b entries buckets,
      err record { action = b.action; retry_after = retry_after_oldest now entries },
    )
    else (set_bucket b (entries ++ now ∷ []) buckets, ok tt)
