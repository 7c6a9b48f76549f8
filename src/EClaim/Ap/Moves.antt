-- ===== src/EClaim/Ap/Moves.antt =====
-- Where the status of a bill can go, over any sequence of requests.
use mathlib.Core.Path.{subst}
use one_capture.Prelude.{
  ◌≡◌, refl, sym, ap, ◌∙◌, Bool, true, false, Option, some, List, [], ◌∷◌, ◌++◌, if◌then◌else◌,
  arith, Bool-cases, inl, inr, ◌==◌, list_eq, nat_eq, beq_sound, beq_self, eq_of_some,
}
use one_capture.Prelude.Text.{Text}
use one_capture.EClaim.Sod.{Uuid}
use one_capture.EClaim.Ap.{Status, paid, rejected, ApInvoice, Session, put_row}
use one_capture.EClaim.Ap.Effects.{may_move, bill_at, Effect, none_changed, one_added, one_moved}
use one_capture.EClaim.Ap.Effects.Preparing.{
  create_invoice-Effect, create_from_intake-Effect, code_line-Effect, edit_header-Effect,
  add_line-Effect, remove_line-Effect,
}
use one_capture.EClaim.Ap.Effects.Deciding.{
  submit_for_approval-Effect, approve-Effect, release_hold-Effect, mark_paid-Effect,
  unapprove-Effect, reject-Effect, mark_posted-Effect,
}
use one_capture.EClaim.Ap.Lifecycle.{
  Step, Reach, creates, files, codes_line, edits, adds, removes, submits, decides, releases, pays,
  reopens, rejects, posts, start, next,
}

-- Moves of the lifecycle, one after the other.
pub data Travels (from : Status) : Status → Type 0 where
  stays : Travels from from
  goes : {via to : Status} → Travels from via → may_move via to ≡ true → Travels from to

-- The bill under an id is still there, and its status came along the lifecycle.
pub record Continues (i : ApInvoice) (id : Uuid) (after : List ApInvoice) : Type 0 where
  pub now : ApInvoice
  pub found : bill_at after id ≡ some now
  pub along : Travels i.status now.status

bill_at-append :
    (id : Uuid) (is : List ApInvoice) (new : ApInvoice) {i : ApInvoice}
    → bill_at is id ≡ some i
    → bill_at (is ++ new ∷ []) id ≡ some i
bill_at-append id [] new h = cc
bill_at-append id (x ∷ xs) new h = elim (Bool-cases (x.id == id)) [
  | inl hit ↦ rw hit (rw hit at h)
  | inr miss ↦ rw miss (bill_at-append id xs new (rw miss at h))
]

pub bill_at-put_row :
    (new : ApInvoice) (is : List ApInvoice) {i : ApInvoice}
    → bill_at is new.id ≡ some i
    → bill_at (put_row new is) new.id ≡ some new
unfolding put_row
bill_at-put_row new [] h = cc
bill_at-put_row new (x ∷ xs) h = elim (Bool-cases (x.id == new.id)) [
  | inl hit ↦ rw (hit, beq_self new.id) refl
  | inr miss ↦ rw (miss, miss) (bill_at-put_row new xs (rw miss at h))
]

bill_at-put_other :
    (id : Uuid) (new : ApInvoice) (is : List ApInvoice)
    → (new.id == id) ≡ false
    → bill_at (put_row new is) id ≡ bill_at is id
unfolding put_row
bill_at-put_other id new [] h = refl
bill_at-put_other id new (x ∷ xs) h = elim (Bool-cases (x.id == new.id)) [
  | inl hit ↦
      (let same = ap (λ (u : Uuid). u == id) (beq_sound x.id new.id hit) ∙ h in
        rw (hit, h, same) (bill_at-put_other id new xs h))
  | inr miss ↦ rw miss (ap (λ o. if x.id == id then some x else o) (bill_at-put_other id new xs h))
]

Effect-Continues :
    {before after : List ApInvoice}
    → Effect before after
    → (id : Uuid) (i : ApInvoice) → bill_at before id ≡ some i
    → Continues i id after
Effect-Continues (none_changed e) id i h = record { now = i; found = rw e h; along = stays }
Effect-Continues {before} (one_added new e) id i h = record {
  now = i;
  found = rw e (bill_at-append id before new h);
  along = stays;
}
Effect-Continues {before} (one_moved old new at_id may e) id i h =
    elim (Bool-cases (new.id == id)) [
      | inl hit ↦
          (let same = beq_sound new.id id hit in
            let is_old = eq_of_some (sym at_id ∙ (ap (bill_at before) same ∙ h)) in
            record {
              now = new;
              found = rw e (
                  subst (λ u. bill_at (put_row new before) u ≡ some new) same
                    (bill_at-put_row new before at_id));
              along =
                  goes stays
                    (subst (λ (x : ApInvoice). may_move x.status new.status ≡ true) is_old may);
            })
      | inr miss ↦ record {
        now = i;
        found = rw e (bill_at-put_other id new before miss ∙ h);
        along = stays;
      }
    ]

module _ (before_clock : Text → Text) (strptime : Text → Text → Option Text) where
  Step-Effect : {s s' : Session} → Step before_clock strptime s s' → Effect s.invoices s'.invoices
  Step-Effect (creates fresh actor a new h) = create_invoice-Effect _ fresh actor a h
  Step-Effect (files fresh actor intake filed new h) =
      create_from_intake-Effect before_clock strptime _ fresh actor intake h
  Step-Effect (codes_line line_id coder actor a h) = code_line-Effect _ line_id coder actor a h
  Step-Effect (edits id editor actor a h) = edit_header-Effect _ id editor actor a h
  Step-Effect (adds fresh id editor actor a h) = add_line-Effect _ fresh id editor actor a h
  Step-Effect (removes line_id editor actor h) = remove_line-Effect _ line_id editor actor h
  Step-Effect (submits id actor p h) = submit_for_approval-Effect _ id actor p h
  Step-Effect (decides id p actor now) = approve-Effect _ id p actor now
  Step-Effect (releases id actor h) = release_hold-Effect _ id actor h
  Step-Effect (pays id actor payer h) = mark_paid-Effect _ id actor payer h
  Step-Effect (reopens id editor actor h) = unapprove-Effect _ id editor actor h
  Step-Effect (rejects id actor reason h) = reject-Effect _ id actor reason h
  Step-Effect (posts id i r found h) = mark_posted-Effect _ id i r found h

Travels-trans : {p q r : Status} → Travels p q → Travels q r → Travels p r
Travels-trans first stays = first
Travels-trans first (goes more last) = goes (Travels-trans first more) last

module _ (before_clock : Text → Text) (strptime : Text → Text → Option Text) where
  -- A bill is still there after requests, and its status came by moves of `may_move`.
  Reach-Continues :
      {s s' : Session}
      → Reach before_clock strptime s s'
      → (id : Uuid) (i : ApInvoice) → bill_at s.invoices id ≡ some i
      → Continues i id s'.invoices
  Reach-Continues start id i h = record { now = i; found = h; along = stays }
  Reach-Continues (next reach step) id i h =
      let before = Reach-Continues reach id i h in
      let after =
        Effect-Continues (Step-Effect before_clock strptime step) id before.now before.found in
      record {
        now = after.now;
        found = after.found;
        along = Travels-trans before.along after.along;
      }

abbrev pub is_final : Status → Bool
is_final paid = true
is_final rejected = true
is_final _ = false

final_stays : (p q : Status) → is_final p ≡ true → may_move p q ≡ true → q ≡ p
final_stays p q h m = ground arith

Travels-final : {p q : Status} → is_final p ≡ true → Travels p q → q ≡ p
Travels-final h stays = refl
Travels-final {p} h (goes {via} {to} more last) =
    let same = Travels-final h more in
    final_stays p to h (subst (λ v. may_move v to ≡ true) same last)

module _ (before_clock : Text → Text) (strptime : Text → Text → Option Text) where
  -- A paid bill stays paid and a rejected one stays rejected, over every sequence of requests.
  pub Reach-final :
      {s s' : Session}
      → Reach before_clock strptime s s'
      → (id : Uuid) (i : ApInvoice) → bill_at s.invoices id ≡ some i
      → is_final i.status ≡ true
      → (now : ApInvoice) × (bill_at s'.invoices id ≡ some now) × (now.status ≡ i.status)
  Reach-final reach id i h final =
      let later = Reach-Continues before_clock strptime reach id i h in
      (later.now, later.found, Travels-final final later.along)
