-- ===== src/EClaim/RateLimit/Waiting.antt =====
-- How long the limiter of src/eclaim/auth/ratelimit.py tells a caller to wait.
use mathlib.Core.Path.{subst}
use native.Mathlib.Nat.{div-add-mod, mod-lt, mul-add}
use one_capture.Prelude.{
  ℕ, ◌+◌, ◌-◌, ◌*◌, ◌/◌, ◌≤◌, ◌<◌, ◌≡◌, refl, sym, ap, ◌∙◌, Bool, true, false, ◌⊎◌, inl, inr,
  Option, none, some, List, [], ◌∷◌, if◌then◌else◌, arith, leb, ltb, ltb→lt, keep, Bool-cases,
  length, lookup, eq_of_some, list_eq, nat_eq,
}
use one_capture.Prelude.Text.{Text}
use one_capture.EClaim.RateLimit.{
  Bucket, LoginRateLimiter, window, prune, retry_after, judge_deque, check_deque, check_bucket,
  check_email, check, deque_of,
}
use one_capture.EClaim.RateLimit.Window.{IsOrdered, recent, prune-recent}

-- This is the least whole number of seconds after which the oldest attempt that the window counts is
-- older than the window.
pub record Waits (l : LoginRateLimiter) (now : ℕ) (key : Text) (bucket : Bucket) (seconds : ℕ)
    : Type 0 where
  pub oldest : ℕ
  pub others : List ℕ
  pub counted : recent (window l) now (deque_of key bucket) ≡ oldest ∷ others
  pub enough : oldest + window l < now + l.per_second * seconds
  pub before : ℕ
  pub one_more : seconds ≡ before + 1
  pub needed : now + l.per_second * before ≤ oldest + window l

wait_enough : (p w now t : ℕ) → 0 < p → t + w < now + p * retry_after p w now t
unfolding retry_after
wait_enough p w now t pos =
    let x = t + w - now in
    let parts = div-add-mod x p in
    let small = mod-lt x pos in rw (mul-add p (x / p) 1) (omega (arith, parts, small))

wait_needed : (p w now t : ℕ) → now < t + w → now + p * ((t + w - now) / p) ≤ t + w
wait_needed p w now t young = let parts = div-add-mod (t + w - now) p in omega (arith, parts, young)

keep-head : (p : ℕ → Bool) (ts : List ℕ) {t : ℕ} {rest : List ℕ} → keep p ts ≡ t ∷ rest → p t ≡ true
keep-head p [] h = cc
keep-head p (u ∷ us) {t} {rest} h = elim (Bool-cases (p u)) [
  | inl hit ↦ (let same = rw hit at h in ap p (sym (head_eq same)) ∙ hit)
  | inr miss ↦ keep-head p us (rw miss at h)
]
  where
    head_eq : {a b : ℕ} {xs ys : List ℕ} → ◌≡◌ {A = List ℕ} (a ∷ xs) (b ∷ ys) → a ≡ b
    head_eq e = cc

judge_deque-Waits :
    (l : LoginRateLimiter) (now : ℕ) (key : Text) (bucket : Bucket) (ts : List ℕ) {seconds : ℕ}
    → 0 < l.per_second
    → recent (window l) now (deque_of key bucket) ≡ ts
    → (judge_deque l now key bucket ts).1 ≡ some seconds
    → Waits l now key bucket seconds
unfolding judge_deque
judge_deque-Waits l now key bucket [] pos same h = cc
judge_deque-Waits l now key bucket (t ∷ ts) {seconds} pos same h =
    let told = chosen (leb l.max_attempts (length (t ∷ ts))) h in
    record {
      oldest = t;
      others = ts;
      counted = same;
      enough =
          subst (λ n. t + window l < now + l.per_second * n) told
            (wait_enough l.per_second (window l) now t pos);
      before = (t + window l - now) / l.per_second;
      one_more = sym told ∙ unfold retry_after in refl;
      needed = wait_needed l.per_second (window l) now t (
          ltb→lt now (t + window l)
            (keep-head (λ u. ltb now (u + window l)) (deque_of key bucket) same));
    }
  where
    chosen : {w n : ℕ} (b : Bool) → (if b then some w else none) ≡ some n → w ≡ n
    chosen true e = eq_of_some e
    chosen false e = cc

check_deque-Waits :
    (l : LoginRateLimiter) (now : ℕ) (key : Text) (bucket : Bucket) (o : Option (List ℕ))
    {seconds : ℕ}
    → 0 < l.per_second
    → lookup key bucket ≡ o
    → IsOrdered now (deque_of key bucket)
    → (check_deque l now key bucket o).1 ≡ some seconds
    → Waits l now key bucket seconds
unfolding check_deque
check_deque-Waits l now key bucket none pos has ordered h = cc
check_deque-Waits l now key bucket (some []) pos has ordered h = cc
check_deque-Waits l now key bucket (some (t ∷ ts)) pos has ordered h =
    let whole = ap {B = List ℕ} (λ o. elim o [ none ↦ [] | some us ↦ us ]) has in
    judge_deque-Waits l now key bucket (prune (window l) now (t ∷ ts)) pos
      (sym (prune-recent (window l) now (deque_of key bucket) ordered)
        ∙ ap (prune (window l) now) whole)
      h

check_email-Waits :
    (l : LoginRateLimiter) (ip email : Text) (now : ℕ) (r : Bucket × Option ℕ) {seconds : ℕ}
    → (check_email l email now r).1 ≡ some seconds
    → (r.1 ≡ some seconds) ⊎ ((check_bucket l now email l.email).1 ≡ some seconds)
unfolding check_email
check_email-Waits l ip email now (ips, some wait) h = inl h
check_email-Waits l ip email now (ips, none) h = inr h

-- When `check` raises, the number of seconds that it gives is, for the address or for the email, the
-- least whole number after which the oldest attempt that was counted for it is older than the
-- window: after so many seconds it is, and one second earlier it is not. An attempt that is as old
-- as the window leaves it, so that where this comes about on a full second, the number is one more
-- than that of the seconds until then. The conditions are that a second has ticks, and that the
-- times of the two deques are in order and not in the future.
pub check-Waits :
    (l : LoginRateLimiter) (ip email : Text) (now : ℕ) {seconds : ℕ}
    → 0 < l.per_second
    → IsOrdered now (deque_of ip l.ip)
    → IsOrdered now (deque_of email l.email)
    → (check l ip email now).1 ≡ some seconds
    → Waits l now ip l.ip seconds ⊎ Waits l now email l.email seconds
unfolding check check_bucket
check-Waits l ip email now pos ordered_ip ordered_email h =
    elim (check_email-Waits l ip email now (check_bucket l now ip l.ip) h) [
      | inl by_ip ↦ inl (check_deque-Waits l now ip l.ip (lookup ip l.ip) pos refl ordered_ip by_ip)
      | inr by_email ↦ inr (
          check_deque-Waits l now email l.email (lookup email l.email) pos refl ordered_email
            by_email)
    ]
