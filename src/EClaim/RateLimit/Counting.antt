-- ===== src/EClaim/RateLimit/Counting.antt =====
-- How the buckets of src/eclaim/auth/ratelimit.py keep what the sliding window counts.
use mathlib.Core.Path.{subst}
use one_capture.Prelude.{
  ℕ, ◌+◌, ◌≤◌, ◌≡◌, refl, sym, ap, ◌∙◌, Bool, true, false, inl, inr, Option, none, some, List, [],
  ◌∷◌, ◌++◌, if◌then◌else◌, arith, ltb, lookup, insert, lookup-insert, remove_key,
  lookup-remove_key, Bool-cases, ◌==◌, list_eq, nat_eq, beq_sound,
}
use one_capture.Prelude.Text.{Text}
use one_capture.EClaim.RateLimit.{
  Bucket, LoginRateLimiter, window, judge_deque, check_deque, deque_of,
}
use one_capture.EClaim.RateLimit.Window.{IsOrdered, recent, prune-recent}

-- From now on, the window counts as many in a bucket's deques as in a history.
unfoldable pub Counted : ℕ → ℕ → Bucket → (Text → List ℕ) → Type 0
Counted w now bucket log =
    (key : Text) (later : ℕ)
    → now ≤ later
    → recent w later (deque_of key bucket) ≡ recent w later (log key)

recent-append :
    (w now : ℕ) (xs ys : List ℕ) → recent w now (xs ++ ys) ≡ recent w now xs ++ recent w now ys
recent-append w now [] ys = refl
recent-append w now (x ∷ xs) ys = elim (Bool-cases (ltb now (x + w))) [
  | inl young ↦ rw young (ap (λ zs. x ∷ zs) (recent-append w now xs ys))
  | inr old ↦ rw old (recent-append w now xs ys)
]

-- What has left the window now is not in it later.
recent-recent :
    (w now later : ℕ) (ts : List ℕ)
    → now ≤ later
    → recent w later (recent w now ts) ≡ recent w later ts
recent-recent w now later [] le = refl
recent-recent w now later (t ∷ ts) le = elim (Bool-cases (ltb now (t + w))) [
  | inl young ↦
      rw young
        (ap (λ zs. if ltb later (t + w) then t ∷ zs else zs) (recent-recent w now later ts le))
  | inr old ↦ rw (old, gone t old) (recent-recent w now later ts le)
]
  where
    gone : (t : ℕ) → ltb now (t + w) ≡ false → ltb later (t + w) ≡ false
    gone t old = ground (arith, le)

deque_of-insert :
    (key j : Text) (ts : List ℕ) (bucket : Bucket)
    → deque_of j (insert key ts bucket) ≡ (if key == j then ts else deque_of j bucket)
deque_of-insert key j ts bucket =
    ap {B = List ℕ} (λ o. elim o [ none ↦ [] | some us ↦ us ]) (lookup-insert key j ts bucket)
    ∙ by_key (key == j)
  where
    by_key :
        (b : Bool)
        → (elim (if b then some ts else lookup j bucket) [ none ↦ [] | some us ↦ us ])
          ≡ (if b then ts else deque_of j bucket)
    by_key true = refl
    by_key false = refl

deque_of-remove_key :
    (key j : Text) (bucket : Bucket)
    → deque_of j (remove_key key bucket) ≡ (if key == j then [] else deque_of j bucket)
deque_of-remove_key key j bucket =
    ap {B = List ℕ} (λ o. elim o [ none ↦ [] | some us ↦ us ]) (lookup-remove_key key j bucket)
    ∙ by_key (key == j)
  where
    by_key :
        (b : Bool)
        → (elim (if b then none else lookup j bucket) [ none ↦ [] | some us ↦ us ])
          ≡ (if b then [] else deque_of j bucket)
    by_key true = refl
    by_key false = refl

-- A failure is counted in the bucket as in the history.
pub insert-Counted :
    (w now : ℕ) (key : Text) (bucket : Bucket) (log : Text → List ℕ)
    → Counted w now bucket log
    → Counted w now
        (insert key (deque_of key bucket ++ now ∷ []) bucket)
        (λ j. if key == j then log j ++ now ∷ [] else log j)
unfolding Counted
insert-Counted w now key bucket log same j later le = elim (Bool-cases (key == j)) [
  | inl hit ↦
      (let here = ap (λ (k : Text). recent w later (deque_of k bucket)) (beq_sound key j hit) in
        ap (recent w later) (deque_of-insert key j _ bucket)
        ∙ rw hit (
            recent-append w later (deque_of key bucket) (now ∷ [])
            ∙ ap (λ xs. xs ++ recent w later (now ∷ [])) (here ∙ same j later le)
            ∙ sym (recent-append w later (log j) (now ∷ []))))
  | inr miss ↦ ap (recent w later) (deque_of-insert key j _ bucket) ∙ rw miss (same j later le)
]

pub remove_key-Counted :
    (w now : ℕ) (key : Text) (bucket : Bucket) (log : Text → List ℕ)
    → Counted w now bucket log
    → Counted w now (remove_key key bucket) (λ j. if key == j then [] else log j)
unfolding Counted
remove_key-Counted w now key bucket log same j later le = elim (Bool-cases (key == j)) [
  | inl hit ↦ ap (recent w later) (deque_of-remove_key key j bucket) ∙ rw hit refl
  | inr miss ↦ ap (recent w later) (deque_of-remove_key key j bucket) ∙ rw miss (same j later le)
]

judge_deque-deque :
    (l : LoginRateLimiter) (now : ℕ) (key j : Text) (bucket : Bucket) (ts : List ℕ)
    → deque_of j (judge_deque l now key bucket ts).0 ≡ (if key == j then ts else deque_of j bucket)
unfolding judge_deque
judge_deque-deque l now key j bucket [] = deque_of-remove_key key j bucket
judge_deque-deque l now key j bucket (t ∷ ts) = deque_of-insert key j (t ∷ ts) bucket

-- A check forgets nothing that a later window counts.
pub check_deque-recent :
    (l : LoginRateLimiter) (now later : ℕ) (key j : Text) (bucket : Bucket) (o : Option (List ℕ))
    → lookup key bucket ≡ o
    → IsOrdered now (deque_of key bucket)
    → now ≤ later
    → recent (window l) later (deque_of j (check_deque l now key bucket o).0)
      ≡ recent (window l) later (deque_of j bucket)
unfolding check_deque
check_deque-recent l now later key j bucket none has ordered le = refl
check_deque-recent l now later key j bucket (some []) has ordered le = refl
check_deque-recent l now later key j bucket (some (t ∷ ts)) has ordered le =
    elim (Bool-cases (key == j)) [
      | inl hit ↦
          (let whole = ap {B = List ℕ} (λ o. elim o [ none ↦ [] | some us ↦ us ]) has in
            let ordered' = subst (IsOrdered now) whole ordered in
            let here = ap (λ (k : Text). deque_of k bucket) (beq_sound key j hit) in
            ap (recent (window l) later) (judge_deque-deque l now key j bucket _)
            ∙ rw hit (
                ap (recent (window l) later) (prune-recent (window l) now (t ∷ ts) ordered')
                ∙ recent-recent (window l) now later (t ∷ ts) le
                ∙ ap (recent (window l) later) (sym whole ∙ here)))
      | inr miss ↦
          ap (recent (window l) later) (judge_deque-deque l now key j bucket _) ∙ rw miss refl
    ]
