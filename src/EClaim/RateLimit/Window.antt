-- ===== src/EClaim/RateLimit/Window.antt =====
-- The limiter of src/eclaim/auth/ratelimit.py against a sliding window: what it refuses, for how long,
-- and what every sequence of calls keeps.
use one_capture.Prelude.{
  ℕ, suc, ◌+◌, ◌≤◌, ◌<◌, ◌≡◌, refl, sym, ap, ◌∙◌, Bool, true, false, ◌&&◌, ◌||◌, inl, inr, Option,
  none, some, List, [], ◌∷◌, if◌then◌else◌, arith, leb, ltb, length, lookup, keep, is_some, All,
  Bool-cases, lt→ltb, list_eq, nat_eq,
}
use one_capture.Prelude.Text.{Text}
use one_capture.EClaim.RateLimit.{
  Bucket, LoginRateLimiter, window, prune, judge_deque, check_deque, check_bucket, check_email,
  check, deque_of,
}

-- Each time is at most the later ones, and at most `now`.
abbrev pub IsOrdered : ℕ → List ℕ → Type 0
IsOrdered now [] = Unit {0}
IsOrdered now (t ∷ ts) = (t ≤ now) × All (λ u. t ≤ u) ts × IsOrdered now ts

-- The attempts that the window still counts.
abbrev pub recent : ℕ → ℕ → List ℕ → List ℕ
recent window now ts = keep (λ t. ltb now (t + window)) ts

later_recent :
    (window now t : ℕ) (ts : List ℕ)
    → All (λ u. t ≤ u) ts
    → now < t + window
    → recent window now ts ≡ ts
later_recent window now t [] h lt = refl
later_recent window now t (u ∷ us) h lt =
    ap (λ b. if b then u ∷ recent window now us else recent window now us)
      (lt→ltb now (u + window) (omega (arith, h.0, lt)))
    ∙ ap (λ rest. u ∷ rest) (later_recent window now t us h.1 lt)

is_old : (window now t : ℕ) → leb (t + window) now ≡ true → ltb now (t + window) ≡ false
is_old window now t h = ground arith

is_young : (window now t : ℕ) → leb (t + window) now ≡ false → now < t + window
is_young window now t h = ground arith

-- On ordered times, `_prune` leaves exactly the attempts in the window.
pub prune-recent :
    (window now : ℕ) (ts : List ℕ) → IsOrdered now ts → prune window now ts ≡ recent window now ts
unfolding prune
prune-recent window now [] h = refl
prune-recent window now (t ∷ ts) h = elim (Bool-cases (leb (t + window) now)) [
  | inl old ↦
      ap (λ b. if b then prune window now ts else t ∷ ts) old
      ∙ prune-recent window now ts h.2
      ∙ sym (
          ap (λ b. if b then t ∷ recent window now ts else recent window now ts)
            (is_old window now t old))
  | inr young ↦
      ap (λ b. if b then prune window now ts else t ∷ ts) young
      ∙ ap (λ rest. t ∷ rest) (sym (later_recent window now t ts h.1 (is_young window now t young)))
      ∙ sym (
          ap (λ b. if b then t ∷ recent window now ts else recent window now ts)
            (lt→ltb now (t + window) (is_young window now t young)))
]

-- How many attempts of a key the window counts.
abbrev pub count : LoginRateLimiter → ℕ → Text → Bucket → ℕ
count l now key bucket = length (recent (window l) now (deque_of key bucket))

-- The limit is reached, and by at least one attempt.
abbrev pub is_full : ℕ → ℕ → Bool
is_full limit n = ltb 0 n && leb limit n

one_full : (limit n : ℕ) → leb limit (suc n) ≡ is_full limit (suc n)
one_full limit n = ground arith

judge_deque-is_full :
    (l : LoginRateLimiter) (now : ℕ) (key : Text) (bucket : Bucket) (ts : List ℕ)
    → is_some (judge_deque l now key bucket ts).1 ≡ is_full l.max_attempts (length ts)
unfolding judge_deque
judge_deque-is_full l now key bucket [] = refl
judge_deque-is_full l now key bucket (t ∷ ts) =
    by_limit _ (leb l.max_attempts (length (t ∷ ts))) ∙ one_full l.max_attempts (length ts)
  where
    by_limit : (w : ℕ) (b : Bool) → is_some (if b then some w else none) ≡ b
    by_limit w true = refl
    by_limit w false = refl

check_deque-is_full :
    (l : LoginRateLimiter) (now : ℕ) (key : Text) (bucket : Bucket) (o : Option (List ℕ))
    → IsOrdered now (elim o [ none ↦ [] | some ts ↦ ts ])
    → is_some (check_deque l now key bucket o).1
      ≡ is_full l.max_attempts
          (length (recent (window l) now (elim o [ none ↦ [] | some ts ↦ ts ])))
unfolding check_deque
check_deque-is_full l now key bucket none h = refl
check_deque-is_full l now key bucket (some []) h = refl
check_deque-is_full l now key bucket (some (t ∷ ts)) h =
    judge_deque-is_full l now key bucket (prune (window l) now (t ∷ ts))
    ∙ ap (λ us. is_full l.max_attempts (length us)) (prune-recent (window l) now (t ∷ ts) h)

check_email-is_some :
    (l : LoginRateLimiter) (email : Text) (now : ℕ) (r : Bucket × Option ℕ)
    → is_some (check_email l email now r).1
      ≡ (is_some r.1 || is_some (check_bucket l now email l.email).1)
unfolding check_email
check_email-is_some l email now (ips, some wait) = refl
check_email-is_some l email now (ips, none) = refl

-- `check` raises exactly when the sliding window is full for the address or for the email: when the
-- attempts recorded under it in the last `window_seconds` are at least `max_attempts`, and one at
-- least. The condition is that the times of the two deques are in order and not in the future.
pub check-is_full :
    (l : LoginRateLimiter) (ip email : Text) (now : ℕ)
    → IsOrdered now (deque_of ip l.ip)
    → IsOrdered now (deque_of email l.email)
    → is_some (check l ip email now).1 ≡ (
        is_full l.max_attempts (count l now ip l.ip)
        || is_full l.max_attempts (count l now email l.email))
unfolding check check_bucket
check-is_full l ip email now ordered_ip ordered_email =
    check_email-is_some l email now (check_bucket l now ip l.ip)
    ∙ ap (λ b. b || is_some (check_bucket l now email l.email).1)
        (check_deque-is_full l now ip l.ip (lookup ip l.ip) ordered_ip)
    ∙ ap (λ b. is_full l.max_attempts (count l now ip l.ip) || b)
        (check_deque-is_full l now email l.email (lookup email l.email) ordered_email)
