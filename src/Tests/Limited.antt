-- ===== src/Tests/Limited.antt =====
-- Two failed sign-ins, and a third attempt within the minute. A second has ten ticks.
use one_capture.Prelude.{◌≡◌, refl, ◌∷◌, ◌||◌, ◌⊎◌, some, [], is_some, arith, list_eq, nat_eq}
use one_capture.Prelude.Text.{codes}
use one_capture.EClaim.RateLimit.{
  LoginRateLimiter, check, check_email, check_bucket, check_deque, judge_deque, prune, window,
  retry_after, record_failure, deque_of,
}
use one_capture.EClaim.RateLimit.Window.{IsOrdered, is_full}
use one_capture.EClaim.RateLimit.Waiting.{Waits, check-Waits}
use one_capture.EClaim.RateLimit.Calls.{Calls, begin, next, fails}
use one_capture.EClaim.RateLimit.History.{
  ip_failures, email_failures, in_window, IsFresh, Calls-check,
}

abbrev fresh : LoginRateLimiter
fresh = record { max_attempts = 2; window_seconds = 60; per_second = 10; ip = []; email = [] }

abbrev once : LoginRateLimiter
once = record_failure fresh (codes "ip") (codes "ann") 100

abbrev twice : LoginRateLimiter
twice = record_failure once (codes "ip") (codes "ann") 200

abbrev two_failures : Calls fresh 200 twice
two_failures =
    next (next begin (omega arith) (fails (codes "ip") (codes "ann"))) (omega arith)
      (fails (codes "ip") (codes "ann"))

-- A third attempt at 700, when the window of 600 ticks has both failures.
Calls-check_example : is_some (check twice (codes "ip") (codes "bob") 700).1 ≡ (
    is_full 2 (in_window fresh 700 (ip_failures two_failures (codes "ip")))
    || is_full 2 (in_window fresh 700 (email_failures two_failures (codes "bob"))))
Calls-check_example =
    Calls-check two_failures (unfold IsFresh in (refl, refl)) 700 (omega arith) (codes "ip")
      (codes "bob")

both_counted : ip_failures two_failures (codes "ip") ≡ 100 ∷ 200 ∷ []
both_counted = refl

raised : (check twice (codes "ip") (codes "bob") 300).1 ≡ some 41
unfolding check check_email check_bucket check_deque judge_deque prune window retry_after
    record_failure
raised = refl

ip-IsOrdered : IsOrdered 300 (deque_of (codes "ip") twice.ip)
unfolding record_failure
ip-IsOrdered = (omega arith, (omega arith, tt), (omega arith, tt, tt))

email-IsOrdered : IsOrdered 300 (deque_of (codes "bob") twice.email)
unfolding record_failure
email-IsOrdered = tt

check-Waits_example :
    Waits twice 300 (codes "ip") twice.ip 41 ⊎ Waits twice 300 (codes "bob") twice.email 41
check-Waits_example =
    check-Waits twice (codes "ip") (codes "bob") 300 (unfold record_failure in omega arith)
      ip-IsOrdered email-IsOrdered raised
