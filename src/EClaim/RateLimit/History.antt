-- ===== src/EClaim/RateLimit/History.antt =====
-- The limiter of src/eclaim/auth/ratelimit.py against the history of failed sign-ins, which does
-- not know its buckets.
use mathlib.Core.Path.{subst}
use one_capture.Prelude.{
  ℕ, ◌≤◌, ◌≡◌, refl, sym, ap, ◌∙◌, ◌||◌, Option, none, some, List, [], ◌∷◌, ◌++◌, if◌then◌else◌,
  arith, length, lookup, is_some, ◌==◌, list_eq, nat_eq,
}
use one_capture.Prelude.Text.{Text}
use one_capture.EClaim.RateLimit.{
  Bucket, LoginRateLimiter, window, check_deque, check_bucket, check_email, check, deque_of,
  record_failure, record_success,
}
use one_capture.EClaim.RateLimit.Window.{IsOrdered, recent, count, is_full, check-is_full}
use one_capture.EClaim.RateLimit.Counting.{
  Counted, insert-Counted, remove_key-Counted, check_deque-recent,
}
use one_capture.EClaim.RateLimit.Calls.{
  Call, checks, fails, succeeds, Calls, begin, next, Ordered, OrderedBucket, Calls-Ordered,
  Ordered-later,
}

-- The failures from an address, after one more call.
abbrev ip_after : {now : ℕ} {l l' : LoginRateLimiter} → Call now l l' → Text → List ℕ → List ℕ
ip_after (checks ip email) key log = log
ip_after {now} (fails ip email) key log = if ip == key then log ++ now ∷ [] else log
ip_after (succeeds email) key log = log

-- The failures for an email since its last success, after one more call.
abbrev email_after : {now : ℕ} {l l' : LoginRateLimiter} → Call now l l' → Text → List ℕ → List ℕ
email_after (checks ip email) key log = log
email_after {now} (fails ip email) key log = if email == key then log ++ now ∷ [] else log
email_after (succeeds email) key log = if email == key then [] else log

-- The times of the failed sign-ins from an address.
abbrev pub ip_failures : {first l : LoginRateLimiter} {now : ℕ} → Calls first now l → Text → List ℕ
ip_failures begin key = []
ip_failures (next calls le call) key = ip_after call key (ip_failures calls key)

-- The times of the failed sign-ins for an email since the last that succeeded.
abbrev pub email_failures :
    {first l : LoginRateLimiter} {now : ℕ} → Calls first now l → Text → List ℕ
email_failures begin key = []
email_failures (next calls le call) key = email_after call key (email_failures calls key)

-- Both buckets count what the histories do.
record Faithful (w now : ℕ) (l : LoginRateLimiter) (ips emails : Text → List ℕ) : Type 0 where
  same_window : window l ≡ w
  by_ip : Counted w now l.ip ips
  by_email : Counted w now l.email emails

check_bucket-Counted :
    (l : LoginRateLimiter) (w now : ℕ) (key : Text) (bucket : Bucket) (log : Text → List ℕ)
    → window l ≡ w
    → OrderedBucket now bucket
    → Counted w now bucket log
    → Counted w now (check_bucket l now key bucket).0 log
unfolding Counted check_bucket
check_bucket-Counted l w now key bucket log same ordered counted j later le =
    subst
      (λ v.
        recent v later (deque_of j (check_deque l now key bucket (lookup key bucket)).0)
        ≡ recent v later (deque_of j bucket))
      same (check_deque-recent l now later key j bucket (lookup key bucket) refl (ordered key) le)
    ∙ counted j later le

check_email-Faithful :
    (l : LoginRateLimiter) (w now : ℕ) (email : Text) (r : Bucket × Option ℕ)
    (ips emails : Text → List ℕ)
    → Ordered now l
    → Counted w now r.0 ips
    → Faithful w now l ips emails
    → Faithful w now (check_email l email now r).0 ips emails
unfolding check_email window
check_email-Faithful l w now email (bucket, some wait) ips emails ordered counted h = record {
  same_window = h.same_window;
  by_ip = counted;
  by_email = h.by_email;
}
check_email-Faithful l w now email (bucket, none) ips emails ordered counted h = record {
  same_window = h.same_window;
  by_ip = counted;
  by_email =
      check_bucket-Counted l w now email l.email emails (unfold window in h.same_window) ordered.1
        h.by_email;
}

Call-Faithful :
    {now : ℕ} {l l' : LoginRateLimiter} (call : Call now l l') (w : ℕ) (ips emails : Text → List ℕ)
    → Ordered now l
    → Faithful w now l ips emails
    → Faithful w now l'
        (λ key. ip_after call key (ips key))
        (λ key. email_after call key (emails key))
unfolding check record_failure record_success window
Call-Faithful {now} {l} (checks ip email) w ips emails ordered h =
    check_email-Faithful l w now email (check_bucket l now ip l.ip) ips emails ordered
      (check_bucket-Counted l w now ip l.ip ips (unfold window in h.same_window) ordered.0 h.by_ip)
      h
Call-Faithful {now} {l} (fails ip email) w ips emails ordered h = record {
  same_window = h.same_window;
  by_ip = insert-Counted w now ip l.ip ips h.by_ip;
  by_email = insert-Counted w now email l.email emails h.by_email;
}
Call-Faithful {now} {l} (succeeds email) w ips emails ordered h = record {
  same_window = h.same_window;
  by_ip = h.by_ip;
  by_email = remove_key-Counted w now email l.email emails h.by_email;
}

Faithful-later :
    (w now later : ℕ) (l : LoginRateLimiter) (ips emails : Text → List ℕ)
    → now ≤ later
    → Faithful w now l ips emails
    → Faithful w later l ips emails
unfolding Counted
Faithful-later w now later l ips emails le h = record {
  same_window = h.same_window;
  by_ip = λ key last le'. h.by_ip key last (omega (arith, le, le'));
  by_email = λ key last le'. h.by_email key last (omega (arith, le, le'));
}

-- A limiter that has seen no call.
unfoldable pub IsFresh : LoginRateLimiter → Type 0
IsFresh l = (l.ip ≡ []) × (l.email ≡ [])

fresh_bucket : (now : ℕ) (bucket : Bucket) → bucket ≡ [] → OrderedBucket now bucket
fresh_bucket now bucket h key = subst (λ (b : Bucket). IsOrdered now (deque_of key b)) (sym h) tt

IsFresh-Ordered : (l : LoginRateLimiter) → IsFresh l → Ordered 0 l
unfolding IsFresh
IsFresh-Ordered l fresh = (fresh_bucket 0 l.ip fresh.0, fresh_bucket 0 l.email fresh.1)

Calls-Faithful :
    {first l : LoginRateLimiter} {now : ℕ} (calls : Calls first now l)
    → IsFresh first
    → Faithful (window first) now l (ip_failures calls) (email_failures calls)
unfolding IsFresh Counted
Calls-Faithful {first} begin fresh = record {
  same_window = refl;
  by_ip =
      λ key later le. ap {A = Bucket} (λ b. recent (window first) later (deque_of key b)) fresh.0;
  by_email =
      λ key later le. ap {A = Bucket} (λ b. recent (window first) later (deque_of key b)) fresh.1;
}
Calls-Faithful {first} (next {now} {later} {l} calls le call) fresh =
    let start = IsFresh-Ordered first fresh in
    Call-Faithful call (window first) (ip_failures calls) (email_failures calls)
      (Ordered-later now later l le (Calls-Ordered calls start))
      (Faithful-later (window first) now later l (ip_failures calls) (email_failures calls) le
        (Calls-Faithful calls fresh))

check_email-limit :
    (l : LoginRateLimiter) (email : Text) (now : ℕ) (r : Bucket × Option ℕ)
    → (check_email l email now r).0.max_attempts ≡ l.max_attempts
unfolding check_email
check_email-limit l email now (bucket, some wait) = refl
check_email-limit l email now (bucket, none) = refl

Call-limit : {now : ℕ} {l l' : LoginRateLimiter} → Call now l l' → l'.max_attempts ≡ l.max_attempts
unfolding check record_failure record_success
Call-limit {now} {l} (checks ip email) = check_email-limit l email now (check_bucket l now ip l.ip)
Call-limit (fails ip email) = refl
Call-limit (succeeds email) = refl

Calls-limit :
    {first l : LoginRateLimiter} {now : ℕ} → Calls first now l → l.max_attempts ≡ first.max_attempts
Calls-limit begin = refl
Calls-limit (next calls le call) = Call-limit call ∙ Calls-limit calls

-- How many of these times the window counts.
abbrev pub in_window : LoginRateLimiter → ℕ → List ℕ → ℕ
in_window l now ts = length (recent (window l) now ts)

-- Whatever calls of `check`, `record_failure` and `record_success` a fresh limiter has seen, at times
-- that do not go back, the next `check` raises exactly when the sliding window is full for the
-- address or the email: when the failures from the address, or those for the email since its last
-- success, that are younger than the window are at least `max_attempts`, and at least one.
pub Calls-check :
    {first l : LoginRateLimiter} {now : ℕ} (calls : Calls first now l)
    → IsFresh first
    → (later : ℕ) → now ≤ later
    → (ip email : Text)
    → is_some (check l ip email later).1 ≡ (
        is_full first.max_attempts (in_window first later (ip_failures calls ip))
        || is_full first.max_attempts (in_window first later (email_failures calls email)))
unfolding IsFresh Counted
Calls-check {first} {l} {now} calls fresh later le ip email =
    let start = IsFresh-Ordered first fresh in
    let ordered = Ordered-later now later l le (Calls-Ordered calls start) in
    let h = Calls-Faithful calls fresh in
    let ips =
      ap (λ (w : ℕ). length (recent w later (deque_of ip l.ip))) h.same_window
      ∙ ap length (h.by_ip ip later le) in
    let emails =
      ap (λ (w : ℕ). length (recent w later (deque_of email l.email))) h.same_window
      ∙ ap length (h.by_email email later le) in
    check-is_full l ip email later (ordered.0 ip) (ordered.1 email)
    ∙ ap (λ n. is_full l.max_attempts n || is_full l.max_attempts (count l later email l.email)) ips
    ∙ ap
        (λ n.
          is_full l.max_attempts (in_window first later (ip_failures calls ip))
          || is_full l.max_attempts n)
        emails
    ∙ ap
        (λ m.
          is_full m (in_window first later (ip_failures calls ip))
          || is_full m (in_window first later (email_failures calls email)))
        (Calls-limit calls)
