-- ===== src/ErpSync/Review/Deciding.antt =====
-- What the actions of src/erpsync/review/service.py make of a staged row, and when they go through.
use mathlib.Core.Path.{subst}
use one_capture.Prelude.{
  ℕ, ◌≡◌, refl, sym, ap, ◌∙◌, Bool, true, false, not, ◌&&◌, inl, inr, Option, some, arith,
  not-false, ◌==◌, list_eq, nat_eq, find_first-Among, beq_sound,
}
use one_capture.Prelude.Text.{Text, codes}
use one_capture.Prelude.Result.{ok, >>=-eq-ok, ok-injective, or_raise, guard-eq-ok, or_raise-some}
use one_capture.Prelude.Rows.{row_at, put_row, row_at-put_self}
use one_capture.Decimal.{Decimal}
use one_capture.Core.Carbon.{tco2e}
use one_capture.EClaim.Sod.{Uuid, is_id, Principal, can_access_client}
use one_capture.ErpSync.Ledger.{
  Status, flagged, approved, dismissed, released, status_beq, ErpsyncEntry, Session, EventType,
  entry_approved, entry_dismissed, is_apart, passes_checks, id_of,
}
use one_capture.ErpSync.Ledger.Evolution.{may_move, Follows, Evolves, IsTable, put_row-Evolves}
use one_capture.ErpSync.Review.{
  is_reviewable, tonnes_overflow, RemapInput, check_can_review, get_entry, require_reviewable,
  audit, flush, approved_entry, approve, recompute_basis, remapped_entry, remap, dismissed_entry,
  dismiss,
}

reviewable_approved : (q : Status) → is_reviewable q ≡ true → may_move q approved ≡ true
reviewable_approved q h = ground arith

reviewable_dismissed : (q : Status) → is_reviewable q ≡ true → may_move q dismissed ≡ true
reviewable_dismissed q h = ground arith

flagged_open : (q : Status) → status_beq q flagged ≡ true → q ≡ flagged
flagged_open q h = ground arith

-- The maker of a row is not the one who may review it.
pub check_can_review-apart :
    (entry : ErpsyncEntry) (reviewer : Principal) {u : Unit {0}}
    → check_can_review entry reviewer ≡ ok u
    → is_id entry.edited_by_user_id reviewer.user_id ≡ false
unfolding check_can_review
check_can_review-apart entry reviewer h =
    let h1 = (guard-eq-ok (reviewer.base_role == codes "viewer") _ _ h).1 in
    let h2 = (guard-eq-ok (not (can_access_client reviewer entry.client_id)) _ _ h1).1 in
    (guard-eq-ok (is_id entry.edited_by_user_id reviewer.user_id) _ _ h2).0

keep_rest : (a b c d e : Bool) → (a && b && c && d) ≡ true → e ≡ true → (e && b && c && d) ≡ true
keep_rest a b c d e h g = ground arith

pub approved_entry-Follows :
    (reviewer : Principal) (now : ℕ) (new_note : Option Text) (r : ErpsyncEntry)
    → is_reviewable r.status ≡ true
    → is_id r.edited_by_user_id reviewer.user_id ≡ false
    → Follows r (approved_entry reviewer now new_note r)
unfolding approved_entry passes_checks is_apart
approved_entry-Follows reviewer now new_note r h apart = record {
  same_id = refl;
  same_grain = refl;
  moves = inr (reviewable_approved r.status h);
  orderly = λ o. record {
    unreviewed = λ n. cc;
    reviewed = λ n. refl;
    checked = keep_rest _ _ _ _ _ o.checked (ap not apart);
  };
}

pub dismissed_entry-Follows :
    (reviewer : Principal) (now : ℕ) (new_note : Option Text) (r : ErpsyncEntry)
    → is_reviewable r.status ≡ true
    → is_id r.edited_by_user_id reviewer.user_id ≡ false
    → Follows r (dismissed_entry reviewer now new_note r)
unfolding dismissed_entry passes_checks is_apart
dismissed_entry-Follows reviewer now new_note r h apart = record {
  same_id = refl;
  same_grain = refl;
  moves = inr (reviewable_dismissed r.status h);
  orderly = λ o. record {
    unreviewed = λ n. cc;
    reviewed = λ n. refl;
    checked = keep_rest _ _ _ _ _ o.checked (ap not apart);
  };
}

remapped_entry-Follows :
    (mapping : RemapInput) (quality : Text) (tonnes : Decimal) (reviewer : Principal)
    (r : ErpsyncEntry)
    → status_beq r.status flagged ≡ true
    → passes_checks (remapped_entry mapping quality tonnes reviewer r) ≡ true
    → Follows r (remapped_entry mapping quality tonnes reviewer r)
unfolding remapped_entry
remapped_entry-Follows mapping quality tonnes reviewer r h pass = record {
  same_id = refl;
  same_grain = refl;
  moves = inl refl;
  orderly = λ o. record { unreviewed = o.unreviewed; reviewed = o.reviewed; checked = pass };
}

-- An action that went through: it changed one row, which follows the old one.
pub record Acted (s s' : Session) (id : Uuid) (reviewer : Principal)
    (make : ErpsyncEntry → ErpsyncEntry) : Type 0 where
  pub old : ErpsyncEntry
  pub found : row_at id_of s.entries id ≡ some old
  pub allowed : check_can_review old reviewer ≡ ok tt
  pub entries_eq : s'.entries ≡ put_row id_of (make old) s.entries
  pub ledger_eq : s'.ledger ≡ s.ledger
  pub batches_eq : s'.batches ≡ s.batches
  pub follows : Follows old (make old)
  pub unreleased : status_beq (make old).status released ≡ false

pub Acted-Evolves :
    {s s' : Session} {id : Uuid} {reviewer : Principal} {make : ErpsyncEntry → ErpsyncEntry}
    → IsTable s.entries
    → Acted s s' id reviewer make
    → Evolves s.entries s'.entries
Acted-Evolves {s} {s'} {id} {reviewer} {make} t a =
    subst (Evolves s.entries) (sym a.entries_eq)
      (put_row-Evolves s.entries id a.old (make a.old) t a.found a.follows)

flush-ok :
    (new : ErpsyncEntry) (s : Session) {f : Session}
    → flush new s ≡ ok f
    → (passes_checks new ≡ true) × (f ≡ record s { entries = put_row id_of new s.entries })
unfolding flush
flush-ok new s h =
    let (pass, h1) = guard-eq-ok (not (passes_checks new)) _ _ h in
    (not-false (passes_checks new) pass, sym (ok-injective h1))

-- The session after a flush and an event.
logged :
    (new : ErpsyncEntry) (s : Session) {f s' : Session} (event : EventType) (reviewer : Principal)
    → f ≡ record s { entries = put_row id_of new s.entries }
    → audit new event reviewer f ≡ s'
    → (s'.entries ≡ put_row id_of new s.entries) × (s'.ledger ≡ s.ledger) × (s'.batches ≡ s.batches)
unfolding audit
logged new s event reviewer flushed done = (
  sym (ap (λ (t : Session). t.entries) done) ∙ ap (λ (t : Session). t.entries) flushed,
  sym (ap (λ (t : Session). t.ledger) done) ∙ ap (λ (t : Session). t.ledger) flushed,
  sym (ap (λ (t : Session). t.batches) done) ∙ ap (λ (t : Session). t.batches) flushed,
)

-- The changed row stands where the old one stood.
pub Acted-row_at :
    {s s' : Session} {id : Uuid} {reviewer : Principal} {make : ErpsyncEntry → ErpsyncEntry}
    → (a : Acted s s' id reviewer make) → row_at id_of s'.entries id ≡ some (make a.old)
Acted-row_at {s} {s'} {id} {reviewer} {make} a =
    let same =
      a.follows.same_id
      ∙ beq_sound a.old.id id (find_first-Among (λ q. q.id == id) s.entries a.found).1 in
    let before = subst (λ u. row_at id_of s.entries u ≡ some a.old) (sym same) a.found in
    let stands = row_at-put_self id_of (make a.old) s.entries before in
    ap (λ rows. row_at id_of rows id) a.entries_eq
    ∙ subst (λ u. row_at id_of (put_row id_of (make a.old) s.entries) u ≡ some (make a.old)) same
        stands

pub approve-Acted :
    (s : Session) (id : Uuid) (reviewer : Principal) (now : ℕ) (new_note : Option Text)
    {s' : Session} {e : ErpsyncEntry}
    → approve s id reviewer now new_note ≡ ok (s', e)
    → Acted s s' id reviewer (approved_entry reviewer now new_note)
unfolding approve get_entry require_reviewable
approve-Acted s id reviewer now new_note {s'} {e} h =
    let (old, got, h1) = >>=-eq-ok (get_entry s id) _ h in
    let (pending, h2) = guard-eq-ok (not (is_reviewable old.status)) _ _ h1 in
    let (u, can, h3) = >>=-eq-ok (check_can_review old reviewer) _ h2 in
    let (f, stored, h4) = >>=-eq-ok (flush (approved_entry reviewer now new_note old) s) _ h3 in
    let after =
      logged _ s (entry_approved old.status new_note) reviewer (flush-ok _ s stored).1
        (ap (λ (p : Session × ErpsyncEntry). p.0) (ok-injective h4)) in
    record {
      old = old;
      found = or_raise-some _ _ got;
      allowed = can;
      entries_eq = after.0;
      ledger_eq = after.1;
      batches_eq = after.2;
      follows =
          approved_entry-Follows reviewer now new_note old (not-false _ pending)
            (check_can_review-apart old reviewer can);
      unreleased = unfold approved_entry in refl;
    }

pub dismiss-Acted :
    (s : Session) (id : Uuid) (reviewer : Principal) (now : ℕ) (event_type : Text)
    (new_note : Option Text) {s' : Session} {e : ErpsyncEntry}
    → dismiss s id reviewer now event_type new_note ≡ ok (s', e)
    → Acted s s' id reviewer (dismissed_entry reviewer now new_note)
unfolding dismiss get_entry require_reviewable
dismiss-Acted s id reviewer now event_type new_note {s'} {e} h =
    let (old, got, h1) = >>=-eq-ok (get_entry s id) _ h in
    let (pending, h2) = guard-eq-ok (not (is_reviewable old.status)) _ _ h1 in
    let (u, can, h3) = >>=-eq-ok (check_can_review old reviewer) _ h2 in
    let (f, stored, h4) = >>=-eq-ok (flush (dismissed_entry reviewer now new_note old) s) _ h3 in
    let after =
      logged _ s (entry_dismissed event_type old.status new_note) reviewer (flush-ok _ s stored).1
        (ap (λ (p : Session × ErpsyncEntry). p.0) (ok-injective h4)) in
    record {
      old = old;
      found = or_raise-some _ _ got;
      allowed = can;
      entries_eq = after.0;
      ledger_eq = after.1;
      batches_eq = after.2;
      follows =
          dismissed_entry-Follows reviewer now new_note old (not-false _ pending)
            (check_can_review-apart old reviewer can);
      unreleased = unfold dismissed_entry in refl;
    }

flagged_unreleased : (q : Status) → status_beq q flagged ≡ true → status_beq q released ≡ false
flagged_unreleased q h = ground arith

-- What a remap that went through has worked out.
pub record Remapped (s s' : Session) (id : Uuid) (mapping : RemapInput) (reviewer : Principal)
    : Type 0 where
  pub units : Decimal
  pub quality : Text
  pub tonnes : Decimal
  pub basis_eq : recompute_basis mapping ≡ ok (units, quality)
  pub tonnes_eq : tco2e units mapping.factor_value ≡ some tonnes
  pub acted : Acted s s' id reviewer (remapped_entry mapping quality tonnes reviewer)
  pub was_flagged : status_beq acted.old.status flagged ≡ true

pub remap-Remapped :
    (s : Session) (id : Uuid) (mapping : RemapInput) (reviewer : Principal) {s' : Session}
    {e : ErpsyncEntry}
    → remap s id mapping reviewer ≡ ok (s', e)
    → Remapped s s' id mapping reviewer
unfolding remap get_entry
remap-Remapped s id mapping reviewer {s'} {e} h =
    let (old, got, h1) = >>=-eq-ok (get_entry s id) _ h in
    let (pending, h2) = guard-eq-ok (not (status_beq old.status flagged)) _ _ h1 in
    let (u, can, h3) = >>=-eq-ok (check_can_review old reviewer) _ h2 in
    let ((units, quality), basis, h4) = >>=-eq-ok (recompute_basis mapping) _ h3 in
    let (tonnes, weighed, h5) =
      >>=-eq-ok (or_raise (tco2e units mapping.factor_value) tonnes_overflow) _ h4 in
    let (f, stored, h6) =
      >>=-eq-ok (flush (remapped_entry mapping quality tonnes reviewer old) s) _ h5 in
    let pass = flush-ok _ s stored in
    let after =
      logged _ s _ reviewer pass.1 (ap (λ (p : Session × ErpsyncEntry). p.0) (ok-injective h6)) in
    let is_flagged = not-false _ pending in
    record {
      units = units;
      quality = quality;
      tonnes = tonnes;
      basis_eq = basis;
      tonnes_eq = or_raise-some _ _ weighed;
      acted = record {
        old = old;
        found = or_raise-some _ _ got;
        allowed = can;
        entries_eq = after.0;
        ledger_eq = after.1;
        batches_eq = after.2;
        follows = remapped_entry-Follows mapping quality tonnes reviewer old is_flagged pass.0;
        unreleased = unfold remapped_entry in flagged_unreleased old.status is_flagged;
      };
      was_flagged = is_flagged;
    }
