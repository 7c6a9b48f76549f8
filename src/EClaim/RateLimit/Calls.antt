-- ===== src/EClaim/RateLimit/Calls.antt =====
-- Sequences of calls of the limiter of src/eclaim/auth/ratelimit.py, at times that do not go back.
use mathlib.Core.Path.{subst}
use one_capture.Prelude.{
  ℕ, ◌+◌, ◌≤◌, sym, Option, none, some, List, [], ◌∷◌, ◌++◌, if_either, arith, leb, lookup, insert,
  lookup-insert, remove_key, lookup-remove_key, All-append, ◌==◌, list_eq, nat_eq,
}
use one_capture.Prelude.Text.{Text}
use one_capture.EClaim.RateLimit.{
  Bucket, LoginRateLimiter, window, prune, judge_deque, check_deque, check_bucket, check_email,
  check, deque_of, record_failure, record_success,
}
use one_capture.EClaim.RateLimit.Window.{IsOrdered}

-- One call, at a time.
pub data Call (now : ℕ) : LoginRateLimiter → LoginRateLimiter → Type 0 where
  checks : {l : LoginRateLimiter} (ip email : Text) → Call now l (check l ip email now).0
  fails : {l : LoginRateLimiter} (ip email : Text) → Call now l (record_failure l ip email now)
  succeeds : {l : LoginRateLimiter} (email : Text) → Call now l (record_success l email)

-- The limiters that calls lead to, with the time of the last call.
pub data Calls (first : LoginRateLimiter) : ℕ → LoginRateLimiter → Type 0 where
  begin : Calls first 0 first
  next :
      {now later : ℕ} {l l' : LoginRateLimiter}
      → Calls first now l
      → now ≤ later
      → Call later l l'
      → Calls first later l'

-- Every deque of a bucket is in order.
abbrev pub OrderedBucket : ℕ → Bucket → Type 0
OrderedBucket now bucket = (key : Text) → IsOrdered now (deque_of key bucket)

abbrev pub Ordered : ℕ → LoginRateLimiter → Type 0
Ordered now l = OrderedBucket now l.ip × OrderedBucket now l.email

IsOrdered-later :
    (now later : ℕ) (ts : List ℕ) → now ≤ later → IsOrdered now ts → IsOrdered later ts
IsOrdered-later now later [] le h = tt
IsOrdered-later now later (t ∷ ts) le h =
    (omega (arith, h.0, le), h.1, IsOrdered-later now later ts le h.2)

IsOrdered-append : (now : ℕ) (ts : List ℕ) → IsOrdered now ts → IsOrdered now (ts ++ now ∷ [])
IsOrdered-append now [] h = (omega arith, tt, tt)
IsOrdered-append now (t ∷ ts) h =
    (h.0, All-append _ ts (now ∷ []) h.1 (h.0, tt), IsOrdered-append now ts h.2)

prune-IsOrdered : (w now : ℕ) (ts : List ℕ) → IsOrdered now ts → IsOrdered now (prune w now ts)
unfolding prune
prune-IsOrdered w now [] h = tt
prune-IsOrdered w now (t ∷ ts) h =
    if_either (IsOrdered now) (leb (t + w) now) (prune-IsOrdered w now ts h.2) h

-- The deque of a key that a bucket may lack.
abbrev or_empty : Option (List ℕ) → List ℕ
or_empty o = elim o [ none ↦ [] | some ts ↦ ts ]

insert-Ordered :
    (now : ℕ) (key : Text) (ts : List ℕ) (bucket : Bucket)
    → IsOrdered now ts
    → OrderedBucket now bucket
    → OrderedBucket now (insert key ts bucket)
insert-Ordered now key ts bucket h every j =
    subst (λ o. IsOrdered now (or_empty o)) (sym (lookup-insert key j ts bucket))
      (if_either (λ o. IsOrdered now (or_empty o)) (key == j) h (every j))

remove_key-Ordered :
    (now : ℕ) (key : Text) (bucket : Bucket)
    → OrderedBucket now bucket
    → OrderedBucket now (remove_key key bucket)
remove_key-Ordered now key bucket every j =
    subst (λ o. IsOrdered now (or_empty o)) (sym (lookup-remove_key key j bucket))
      (if_either (λ o. IsOrdered now (or_empty o)) (key == j) tt (every j))

judge_deque-Ordered :
    (l : LoginRateLimiter) (now : ℕ) (key : Text) (bucket : Bucket) (ts : List ℕ)
    → IsOrdered now ts
    → OrderedBucket now bucket
    → OrderedBucket now (judge_deque l now key bucket ts).0
unfolding judge_deque
judge_deque-Ordered l now key bucket [] h every = remove_key-Ordered now key bucket every
judge_deque-Ordered l now key bucket (t ∷ ts) h every =
    insert-Ordered now key (t ∷ ts) bucket h every

check_deque-Ordered :
    (l : LoginRateLimiter) (now : ℕ) (key : Text) (bucket : Bucket) (o : Option (List ℕ))
    → IsOrdered now (or_empty o)
    → OrderedBucket now bucket
    → OrderedBucket now (check_deque l now key bucket o).0
unfolding check_deque
check_deque-Ordered l now key bucket none h every = every
check_deque-Ordered l now key bucket (some []) h every = every
check_deque-Ordered l now key bucket (some (t ∷ ts)) h every =
    judge_deque-Ordered l now key bucket (prune (window l) now (t ∷ ts))
      (prune-IsOrdered (window l) now (t ∷ ts) h) every

check_bucket-Ordered :
    (l : LoginRateLimiter) (now : ℕ) (key : Text) (bucket : Bucket)
    → OrderedBucket now bucket
    → OrderedBucket now (check_bucket l now key bucket).0
unfolding check_bucket
check_bucket-Ordered l now key bucket every =
    check_deque-Ordered l now key bucket (lookup key bucket) (every key) every

check_email-Ordered :
    (l : LoginRateLimiter) (email : Text) (now : ℕ) (r : Bucket × Option ℕ)
    → OrderedBucket now r.0
    → OrderedBucket now l.email
    → Ordered now (check_email l email now r).0
unfolding check_email
check_email-Ordered l email now (ips, some wait) hi he = (hi, he)
check_email-Ordered l email now (ips, none) hi he =
    (hi, check_bucket-Ordered l now email l.email he)

Call-Ordered : {now : ℕ} {l l' : LoginRateLimiter} → Call now l l' → Ordered now l → Ordered now l'
unfolding check record_failure record_success
Call-Ordered {now} {l} (checks ip email) h =
    check_email-Ordered l email now (check_bucket l now ip l.ip)
      (check_bucket-Ordered l now ip l.ip h.0) h.1
Call-Ordered {now} {l} (fails ip email) h = (
  insert-Ordered now ip _ l.ip (IsOrdered-append now (deque_of ip l.ip) (h.0 ip)) h.0,
  insert-Ordered now email _ l.email (IsOrdered-append now (deque_of email l.email) (h.1 email))
      h.1,
)
Call-Ordered {now} {l} (succeeds email) h = (h.0, remove_key-Ordered now email l.email h.1)

pub Ordered-later :
    (now later : ℕ) (l : LoginRateLimiter) → now ≤ later → Ordered now l → Ordered later l
Ordered-later now later l le h = (
  λ key. IsOrdered-later now later (deque_of key l.ip) le (h.0 key),
  λ key. IsOrdered-later now later (deque_of key l.email) le (h.1 key),
)

pub Calls-Ordered :
    {first l : LoginRateLimiter} {now : ℕ} → Calls first now l → Ordered 0 first → Ordered now l
Calls-Ordered begin h = h
Calls-Ordered (next {now} {later} {l} calls le call) h =
    Call-Ordered call (Ordered-later now later l le (Calls-Ordered calls h))
