-- ===== src/ErpSync/Review.antt =====
-- The review of staged rows: src/erpsync/review/service.py.
pub mod Leaf
pub mod Deciding
pub mod Outcomes
use one_capture.Prelude.{
  ℕ, Bool, true, false, not, ◌&&◌, ◌||◌, Option, none, some, List, [], ◌∷◌, ◌++◌, if◌then◌else◌,
  keep, contains, ◌==◌, list_eq, nat_eq, leb,
}
use one_capture.Prelude.Text.{Text, codes, or_default}
use one_capture.Prelude.Result.{Result, ok, err, ◌>>=◌, raise_if, or_raise}
use one_capture.Prelude.Rows.{put_row, row_at}
use one_capture.Prelude.Sorting.{sorted}
use one_capture.Decimal.{Decimal}
use one_capture.Decimal.Format.{format_f}
use one_capture.Core.Carbon.{tco2e}
use one_capture.Core.Json.{text_leb}
use one_capture.EClaim.Sod.{Uuid, is_id, exceeds, Principal, can_access_client}
use one_capture.ErpSync.Ledger.{
  Status, clean, held, flagged, approved, dismissed, released, status_beq, ErpsyncEntry, EventType,
  entry_approved, entry_remapped, entry_dismissed, AuditEvent, Session, passes_checks, id_of,
}

-- `status in REVIEWABLE`
abbrev pub is_reviewable : Status → Bool
is_reviewable held = true
is_reviewable flagged = true
is_reviewable _ = false

-- The messages of `ReviewSoDViolation`, as data.
pub data ReviewSodViolation : Type 0 where
  viewer_reviews no_client_grant reviews_own_edit : ReviewSodViolation
  over_authority : Option Decimal → Option Decimal → ReviewSodViolation

pub data ReviewError : Type 0 where
  entry_not_found : Uuid → ReviewError
  illegal_review_state : Status → ReviewError
  violation : ReviewSodViolation → ReviewError
  quantity_required amount_required : ReviewError
  -- decimal.InvalidOperation of the calculation
  tonnes_overflow : ReviewError
  -- IntegrityError of the flush
  check_failed : ReviewError

pub record RemapInput : Type 0 where
  pub category : Text
  pub scope : Text
  pub basis : Text
  pub factor_ref : Text
  pub factor_value : Decimal
  pub quantity : Option Decimal
  pub uom : Option Text
  pub amount : Option Decimal

-- `check_can_review(entry, reviewer)`
unfoldable pub check_can_review : ErpsyncEntry → Principal → Result ReviewError (Unit {0})
check_can_review entry reviewer = do
  _ ← raise_if (reviewer.base_role == codes "viewer") (violation viewer_reviews)
  _ ← raise_if (not (can_access_client reviewer entry.client_id)) (violation no_client_grant)
  _ ← raise_if (is_id entry.edited_by_user_id reviewer.user_id) (violation reviews_own_edit)
  raise_if (exceeds entry.amount reviewer.authority_limit)
      (violation (over_authority entry.amount reviewer.authority_limit))

-- `get_entry(session, entry_id)`
unfoldable pub get_entry : Session → Uuid → Result ReviewError ErpsyncEntry
get_entry s entry_id = or_raise (row_at id_of s.entries entry_id) (entry_not_found entry_id)

abbrev status_text : Status → Text
status_text clean = codes "clean"
status_text held = codes "held"
status_text flagged = codes "flagged"
status_text approved = codes "approved"
status_text dismissed = codes "dismissed"
status_text released = codes "released"

-- The order of (client_id, status, created_at).
queue_leb : ErpsyncEntry → ErpsyncEntry → Bool
queue_leb a b =
    if a.client_id == b.client_id
    then (if status_beq a.status b.status
        then leb a.created_at b.created_at
        else text_leb (status_text a.status) (status_text b.status))
    else text_leb a.client_id b.client_id

-- `review_queue(session, client_ids)`
unfoldable pub review_queue : Session → List Uuid → List ErpsyncEntry
unfolding queue_leb
review_queue s client_ids =
    sorted queue_leb (λ e. e)
      (keep (λ e. contains client_ids e.client_id && is_reviewable e.status) s.entries)

-- `_require_reviewable(entry)`
unfoldable pub require_reviewable : ErpsyncEntry → Result ReviewError (Unit {0})
require_reviewable entry =
    raise_if (not (is_reviewable entry.status)) (illegal_review_state entry.status)

-- `reviewer.email or str(reviewer.user_id)`
unfoldable pub actor_of : Principal → Text
actor_of p = elim p.email [ none ↦ p.user_id | some email ↦ or_default email p.user_id ]

-- `_audit(session, entry, event_type, reviewer, detail)`
unfoldable pub audit : ErpsyncEntry → EventType → Principal → Session → Session
audit entry event reviewer s = record s {
  events =
      s.events
      ++ record {
        entity_type = codes "erpsync_entry";
        entity_id = entry.id;
        event = event;
        actor = actor_of reviewer;
      }
        ∷ [];
}

-- `session.flush()` of the changed row, under the CHECKs of its table
unfoldable pub flush : ErpsyncEntry → Session → Result ReviewError Session
flush new s = do
  _ ← raise_if (not (passes_checks new)) check_failed
  ok (record s { entries = put_row id_of new s.entries })

-- The new note if there is one, else the one of before.
abbrev or_kept : Option Text → Option Text → Option Text
or_kept none kept = kept
or_kept (some new_note) kept = some new_note

unfoldable pub approved_entry : Principal → ℕ → Option Text → ErpsyncEntry → ErpsyncEntry
approved_entry reviewer now new_note entry = record entry {
  status = approved;
  reviewed_by_user_id = some reviewer.user_id;
  reviewed_at = some now;
  review_note = or_kept new_note entry.review_note;
}

-- `approve(session, entry_id, reviewer, note)`
unfoldable pub approve :
    Session → Uuid → Principal → ℕ → Option Text → Result ReviewError (Session × ErpsyncEntry)
approve s entry_id reviewer now new_note = do
  entry ← get_entry s entry_id
  _ ← require_reviewable entry
  _ ← check_can_review entry reviewer
  let new = approved_entry reviewer now new_note entry
  flushed ← flush new s
  ok (audit new (entry_approved entry.status new_note) reviewer flushed, new)

-- `_recompute_basis(mapping)`
unfoldable pub recompute_basis : RemapInput → Result ReviewError (Decimal × Text)
recompute_basis mapping =
    if mapping.basis == codes "activity"
    then (do
      quantity ← or_raise mapping.quantity quantity_required
      ok (quantity, codes "measured"))
    else (do amount ← or_raise mapping.amount amount_required; ok (amount, codes "estimated"))

abbrev or_amount : Option Decimal → Option Decimal → Option Decimal
or_amount none kept = kept
or_amount (some amount) kept = some amount

unfoldable pub remapped_entry :
    RemapInput → Text → Decimal → Principal → ErpsyncEntry → ErpsyncEntry
remapped_entry mapping data_quality tonnes reviewer entry = record entry {
  category = mapping.category;
  scope = mapping.scope;
  basis = mapping.basis;
  factor_ref = mapping.factor_ref;
  factor_value = mapping.factor_value;
  quantity = mapping.quantity;
  uom = mapping.uom;
  amount = or_amount mapping.amount entry.amount;
  data_quality = data_quality;
  tco2e = tonnes;
  edited_by_user_id = some reviewer.user_id;
}

-- `remap(session, entry_id, mapping, reviewer)`
unfoldable pub remap :
    Session → Uuid → RemapInput → Principal → Result ReviewError (Session × ErpsyncEntry)
remap s entry_id mapping reviewer = do
  entry ← get_entry s entry_id
  _ ← raise_if (not (status_beq entry.status flagged)) (illegal_review_state entry.status)
  _ ← check_can_review entry reviewer
  (units, data_quality) ← recompute_basis mapping
  tonnes ← or_raise (tco2e units mapping.factor_value) tonnes_overflow
  let new = remapped_entry mapping data_quality tonnes reviewer entry
  flushed ← flush new s
  ok (
    audit new (entry_remapped mapping.factor_ref mapping.scope (format_f tonnes)) reviewer flushed,
    new,
  )

unfoldable pub dismissed_entry : Principal → ℕ → Option Text → ErpsyncEntry → ErpsyncEntry
dismissed_entry reviewer now new_note entry = record entry {
  status = dismissed;
  reviewed_by_user_id = some reviewer.user_id;
  reviewed_at = some now;
  review_note = new_note;
}

-- `dismiss(session, entry_id, reviewer, event_type, note)`
unfoldable pub dismiss :
    Session
    → Uuid
    → Principal
    → ℕ
    → Text
    → Option Text
    → Result ReviewError (Session × ErpsyncEntry)
dismiss s entry_id reviewer now event_type new_note = do
  entry ← get_entry s entry_id
  _ ← require_reviewable entry
  _ ← check_can_review entry reviewer
  let new = dismissed_entry reviewer now new_note entry
  flushed ← flush new s
  ok (audit new (entry_dismissed event_type entry.status new_note) reviewer flushed, new)
