-- ===== src/EClaim/RateLimit.antt =====
-- The login rate limiter: src/eclaim/auth/ratelimit.py. A time is a number of ticks of the clock, of
-- which a second has `per_second`; a comparison with `now - window` is written with a sum, since the
-- difference may be negative. A bucket is an association list and a deque a list, oldest first.
pub mod Window
pub mod Calls
pub mod Counting
pub mod History
pub mod Waiting
use one_capture.Prelude.{
  ℕ, suc, ◌+◌, ◌-◌, ◌*◌, ◌/◌, Bool, true, false, not, Option, none, some, List, [], ◌∷◌, ◌++◌,
  if◌then◌else◌, leb, ltb, length, lookup, insert, remove_key, ◌==◌, list_eq, nat_eq,
}
use one_capture.Prelude.Text.{Text}

abbrev pub Bucket : Type 0
Bucket = List (Text × List ℕ)

pub record LoginRateLimiter : Type 0 where
  pub max_attempts : ℕ
  pub window_seconds : ℕ
  pub per_second : ℕ
  pub ip : Bucket
  pub email : Bucket

-- The window in ticks.
unfoldable pub window : LoginRateLimiter → ℕ
window l = l.window_seconds * l.per_second

-- `_prune(dq, now - window)`
unfoldable pub prune : ℕ → ℕ → List ℕ → List ℕ
prune window now [] = []
prune window now (t ∷ ts) =
    let rest = prune window now ts in if leb (t + window) now then rest else t ∷ ts

-- `max(int(window - (now - oldest)) + 1, 1)`, whose argument of `int` is not negative
unfoldable pub retry_after : ℕ → ℕ → ℕ → ℕ → ℕ
retry_after per_second window now oldest = (oldest + window - now) / per_second + 1

-- The outcome for a pruned deque: the bucket, and how long to wait.
unfoldable pub judge_deque : LoginRateLimiter → ℕ → Text → Bucket → List ℕ → Bucket × Option ℕ
judge_deque l now key bucket [] = (remove_key key bucket, none)
judge_deque l now key bucket (t ∷ ts) = (
  insert key (t ∷ ts) bucket,
  if leb l.max_attempts (length (t ∷ ts))
      then some (retry_after l.per_second (window l) now t)
      else none,
)

-- One round of the loop of `check`.
unfoldable pub check_deque :
    LoginRateLimiter → ℕ → Text → Bucket → Option (List ℕ) → Bucket × Option ℕ
check_deque l now key bucket none = (bucket, none)
check_deque l now key bucket (some []) = (bucket, none)
check_deque l now key bucket (some (t ∷ ts)) =
    judge_deque l now key bucket (prune (window l) now (t ∷ ts))

unfoldable pub check_bucket : LoginRateLimiter → ℕ → Text → Bucket → Bucket × Option ℕ
check_bucket l now key bucket = check_deque l now key bucket (lookup key bucket)

unfoldable pub check_email :
    LoginRateLimiter → Text → ℕ → Bucket × Option ℕ → LoginRateLimiter × Option ℕ
check_email l email now (ips, some wait) = (record l { ip = ips }, some wait)
check_email l email now (ips, none) =
    let (emails, wait) = check_bucket l now email l.email in
    (record l { ip = ips; email = emails }, wait)

-- `check(ip, email)` at this time: the limiter, and `retry_after` where it raises RateLimited
unfoldable pub check : LoginRateLimiter → Text → Text → ℕ → LoginRateLimiter × Option ℕ
check l ip email now = check_email l email now (check_bucket l now ip l.ip)

-- `bucket[key]` of a defaultdict
abbrev pub deque_of : Text → Bucket → List ℕ
deque_of key bucket = elim (lookup key bucket) [ none ↦ [] | some ts ↦ ts ]

-- `record_failure(ip, email)` at this time
unfoldable pub record_failure : LoginRateLimiter → Text → Text → ℕ → LoginRateLimiter
record_failure l ip email now = record l {
  ip = insert ip (deque_of ip l.ip ++ now ∷ []) l.ip;
  email = insert email (deque_of email l.email ++ now ∷ []) l.email;
}

-- `record_success(ip, email)`
unfoldable pub record_success : LoginRateLimiter → Text → LoginRateLimiter
record_success l email = record l { email = remove_key email l.email }
