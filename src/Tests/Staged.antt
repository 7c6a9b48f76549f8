-- ===== src/Tests/Staged.antt =====
-- A flagged line from its import over its review to the ledger. The digest of a text is its length.
use one_capture.Prelude.{
  ◌^◌, ◌-◌, true, false, ℕ, ◌+◌, ◌≡◌, refl, true, ◌&&◌, Option, none, some, List, [], ◌∷◌, map,
  length, IsDistinct, list_eq, nat_eq, not,
}
use one_capture.Prelude.Int.{pos, negsuc, ◌+ℤ◌}
use one_capture.Prelude.Lifecycle.{Travels}
use one_capture.Prelude.Rows.{row_at, put_row}
use one_capture.Prelude.Sorting.{sorted, insert_sorted}
use one_capture.Prelude.Text.{Text, codes}
use one_capture.Prelude.Result.{Result, ok, err}
use one_capture.Decimal.{
  of_ℕ, dec_gtb, quantize_micro, rescale, div_thousand, mul, fix, strip_zeros, add,
}
use one_capture.Core.Carbon.{tco2e, quantise_tco2e}
use one_capture.Core.Release.{canonical_hash_default, canonical_hash, stamp}
use one_capture.EClaim.Sod.{Uuid, Principal, can_access_client}
use one_capture.ErpSync.Domain.{s2, spend, estimated, EmissionEntry}
use one_capture.ErpSync.Pipeline.{needs_review}
use one_capture.ErpSync.Ledger.{
  entry_for, entry_approved, entry_dismissed, flagged, ErpsyncEntry, ReleaseBatch, Session,
  PgStagingStore, StagedRow, IntegrityError, id_of, passes_checks, is_apart, insert_entry,
  insert_all, to_values, values_from, review_status, scope_value, basis_value, quality_value, stage,
  batch_by_hash, add_batch, released, status_beq, dismissed,
}
use one_capture.ErpSync.Ledger.Evolution.{IsOrderly, IsTable, may_move}
use one_capture.ErpSync.Review.{
  ReviewError, violation, reviews_own_edit, RemapInput, check_can_review, get_entry,
  require_reviewable, audit, flush, actor_of, approved_entry, approve, recompute_basis,
  remapped_entry, remap, dismissed_entry, dismiss,
}
use one_capture.ErpSync.Review.Leaf.{promises, is_mapped, carbon_leaf_state, carbon_leaf_state_lem}
use one_capture.ErpSync.Review.Outcomes.{approve-dismiss_go_through, remap_then_refused}
use one_capture.ErpSync.Release.{
  release_clean, takes, release_read, release_batch, in_savepoint, fits_column, fits_ledger,
  rows_for, batch_of, release_rows, release_row, released_entry, projection, total_from,
}
use one_capture.ErpSync.Release.Ending.{Ending, digest_for}
use one_capture.ErpSync.Release.Outcome.{release_clean-Outcome}
use one_capture.ErpSync.Release.Twice.{release_clean_twice}
use one_capture.ErpSync.Lifecycle.{Reach, begin, next, stages, approves, releases}
use one_capture.ErpSync.Lifecycle.Restaging.{stage_twice}
use one_capture.ErpSync.Lifecycle.Ledger.{IsSound}
use one_capture.ErpSync.Lifecycle.Reached.{is_final, Reach-IsSound, Reach-final_of_row}

abbrev short_digest : Text → Text
short_digest t = length t ∷ []

abbrev power_line : EmissionEntry
power_line = record {
  line_key = (codes "c", codes "7", pos 0);
  doc_entry = codes "7";
  line_num = pos 0;
  doc_number = none;
  category = codes "electricity";
  scope = s2;
  basis = spend;
  data_quality = estimated;
  quantity = none;
  uom = none;
  amount = some (of_ℕ 150);
  factor_ref = codes "grid";
  factor_value = of_ℕ 2;
  factor_version = codes "MY-2026.1";
  rule_id = codes "r1";
  rule_version = codes "1";
  tco2e = of_ℕ 1;
  source_hash = codes "h";
  notes = [];
}

abbrev staging : PgStagingStore
staging = record { firm_id = codes "f"; client_id = codes "c"; now = 5 }

abbrev power_rows : List StagedRow
power_rows = (power_line, needs_review) ∷ []

abbrev first_ids : ℕ → Uuid
first_ids n = codes "e1"

-- Another import draws other ids.
abbrev later_ids : ℕ → Uuid
later_ids n = codes "e2"

abbrev nothing_staged : Session
nothing_staged = record { entries = []; ledger = []; batches = []; events = [] }

abbrev after : {E A : Type 0} → Session → Result E (Session × A) → Session
after s (ok r) = r.0
after s (err e) = s

abbrev reviewer : Principal
reviewer = record {
  user_id = codes "bob";
  firm_id = codes "f";
  base_role = codes "manager";
  allowed_client_ids = codes "c" ∷ [];
  authority_limit = some (of_ℕ 500);
  email = none;
}

abbrev staged_line : Session
staged_line = after nothing_staged (stage staging first_ids power_rows nothing_staged)

abbrev approved_line : Session
approved_line = after staged_line (approve staged_line (codes "e1") reviewer 9 none)

staged_ok : stage staging first_ids power_rows nothing_staged ≡ ok (staged_line, 1)
unfolding stage values_from insert_all insert_entry passes_checks is_apart to_values review_status
    scope_value basis_value quality_value
staged_ok = refl

stage_twice_example :
    (length staged_line.entries ≡ length nothing_staged.entries + 1)
    × (stage staging later_ids power_rows staged_line ≡ ok (staged_line, 0))
unfolding stage values_from insert_all insert_entry passes_checks is_apart to_values review_status
    scope_value basis_value quality_value
stage_twice_example = stage_twice staging first_ids power_rows nothing_staged staged_ok later_ids

approved_ok :
    approve staged_line (codes "e1") reviewer 9 none
    ≡ ok (
      approved_line,
      approved_entry reviewer 9 none (to_values staging (codes "e1") (power_line, needs_review)),
    )
unfolding stage values_from insert_all insert_entry passes_checks is_apart to_values review_status
    scope_value basis_value quality_value approve get_entry require_reviewable check_can_review
    flush approved_entry audit actor_of can_access_client dec_gtb
approved_ok = refl

abbrev staged_row : ErpsyncEntry
staged_row = to_values staging (codes "e1") (power_line, needs_review)

unseen-IsOrderly : IsOrderly staged_row
unfolding stage values_from insert_all insert_entry passes_checks is_apart to_values review_status
    scope_value basis_value quality_value
unseen-IsOrderly = record { unreviewed = λ h. refl; reviewed = λ h. cc; checked = refl }

staged-IsTable : IsTable staged_line.entries
unfolding stage values_from insert_all insert_entry passes_checks is_apart to_values review_status
    scope_value basis_value quality_value
staged-IsTable = record {
  distinct_ids = (refl, tt);
  distinct_grains = (refl, tt);
  orderly = (unseen-IsOrderly, tt);
}

staged_found : row_at id_of staged_line.entries (codes "e1") ≡ some staged_row
unfolding stage values_from insert_all insert_entry passes_checks is_apart to_values review_status
    scope_value basis_value quality_value
staged_found = refl

may_review : check_can_review staged_row reviewer ≡ ok tt
unfolding check_can_review can_access_client dec_gtb to_values
may_review = refl

approve-dismiss_go_through_example :
    (approve staged_line (codes "e1") reviewer 9 none ≡ (
      let new = approved_entry reviewer 9 none staged_row in
      ok (
        audit new
            (entry_approved flagged none)
            reviewer
            (record staged_line { entries = put_row id_of new staged_line.entries }),
        new,
      )))
    × (dismiss staged_line (codes "e1") reviewer 9 (codes "dismissed") none ≡ (
        let new = dismissed_entry reviewer 9 none staged_row in
        ok (
          audit new
              (entry_dismissed (codes "dismissed") flagged none)
              reviewer
              (record staged_line { entries = put_row id_of new staged_line.entries }),
          new,
        )))
unfolding to_values review_status
approve-dismiss_go_through_example =
    approve-dismiss_go_through staged_line (codes "e1") reviewer 9 (codes "dismissed") none
      staged_row staged-IsTable staged_found refl may_review

abbrev correction : RemapInput
correction = record {
  category = codes "diesel";
  scope = codes "scope_1";
  basis = codes "activity";
  factor_ref = codes "diesel-l";
  factor_value = of_ℕ 3;
  quantity = some (of_ℕ 20);
  uom = some (codes "L");
  amount = none;
}

abbrev remapped_line : Session
remapped_line = after staged_line (remap staged_line (codes "e1") correction reviewer)

abbrev outcome_entry : ErpsyncEntry → Result ReviewError (Session × ErpsyncEntry) → ErpsyncEntry
outcome_entry e (ok r) = r.1
outcome_entry e (err x) = e

remapped_ok :
    remap staged_line (codes "e1") correction reviewer
    ≡ ok (
      remapped_line,
      outcome_entry staged_row (remap staged_line (codes "e1") correction reviewer),
    )
unfolding stage values_from insert_all insert_entry passes_checks is_apart to_values review_status
    scope_value basis_value quality_value approve get_entry require_reviewable check_can_review
    flush approved_entry audit actor_of can_access_client dec_gtb remap recompute_basis
    remapped_entry tco2e quantise_tco2e quantize_micro rescale ◌+ℤ◌ div_thousand mul fix strip_zeros
remapped_ok = refl

remap_then_refused_example :
    (approve remapped_line (codes "e1") reviewer 9 none ≡ err (violation reviews_own_edit))
    × (dismiss remapped_line (codes "e1") reviewer 9 (codes "dismissed") none
        ≡ err (violation reviews_own_edit))
    × (remap remapped_line (codes "e1") correction reviewer ≡ err (violation reviews_own_edit))
remap_then_refused_example =
    remap_then_refused staged_line (codes "e1") correction reviewer remapped_ok 9
      (codes "dismissed") none correction

carbon_leaf_state_lem_example :
    (let leaf = carbon_leaf_state staged_row.status (some staged_row.category) in
      ((promises leaf.tooltip && not (status_beq staged_row.status released))
        ≡ takes staged_row.client_id staged_row)
      × (leaf.muted
          ≡ (is_mapped (some staged_row.category) && status_beq staged_row.status dismissed))
      × (leaf.carbon ≡ is_mapped (some staged_row.category)))
carbon_leaf_state_lem_example = carbon_leaf_state_lem staged_row

abbrev posted_line : Session
posted_line =
    after approved_line
      (release_clean short_digest (codes "b1") approved_line (codes "f") (codes "c") (codes "bob"))

abbrev posted_batch : Result IntegrityError (Session × Option ReleaseBatch) → Option ReleaseBatch
posted_batch (ok r) = r.1
posted_batch (err e) = none

release_ok :
    release_clean short_digest (codes "b1") approved_line (codes "f") (codes "c") (codes "bob")
    ≡ ok (
      posted_line,
      posted_batch (
          release_clean short_digest
            (codes "b1")
            approved_line
            (codes "f")
            (codes "c")
            (codes "bob")),
    )
unfolding stage values_from insert_all insert_entry passes_checks is_apart to_values review_status
    scope_value basis_value quality_value approve get_entry require_reviewable check_can_review
    flush approved_entry audit actor_of can_access_client dec_gtb release_clean release_read
    release_batch in_savepoint add_batch batch_by_hash rows_for sorted insert_sorted takes batch_of
    release_rows release_row released_entry canonical_hash_default canonical_hash projection stamp
    total_from add put_row fits_column fits_ledger entry_for
release_ok = refl

approved_ids : IsDistinct (map id_of approved_line.entries)
unfolding stage values_from insert_all insert_entry passes_checks is_apart to_values review_status
    scope_value basis_value quality_value approve get_entry require_reviewable check_can_review
    flush approved_entry audit actor_of can_access_client dec_gtb put_row
approved_ids = (refl, tt)

abbrev release_result : Session × Option ReleaseBatch
release_result = (
  posted_line,
  posted_batch
      (release_clean short_digest (codes "b1") approved_line (codes "f") (codes "c") (codes "bob")),
)

release_clean-Outcome_example :
    Ending short_digest approved_line
      (codes "c")
      (release_clean short_digest (codes "b1") approved_line (codes "f") (codes "c") (codes "bob"))
release_clean-Outcome_example =
    release_clean-Outcome short_digest approved_line (codes "b1") (codes "f") (codes "c")
      (codes "bob") approved_ids

no_batch_yet :
    batch_by_hash approved_line (codes "c") (digest_for short_digest approved_line (codes "c"))
    ≡ none
unfolding stage values_from insert_all insert_entry passes_checks is_apart to_values review_status
    scope_value basis_value quality_value approve get_entry require_reviewable check_can_review
    flush approved_entry audit actor_of can_access_client dec_gtb batch_by_hash
no_batch_yet = refl

release_clean_twice_example :
    release_clean short_digest (codes "b2") posted_line (codes "f") (codes "c") (codes "ann")
    ≡ ok (posted_line, none)
release_clean_twice_example =
    release_clean_twice short_digest approved_line (codes "b1") (codes "f") (codes "c")
      (codes "bob") approved_ids no_batch_yet release_ok (codes "b2") (codes "f") (codes "ann")

-- The line is staged, approved and released.
whole_life : Reach short_digest nothing_staged posted_line
whole_life =
    next
      (next (next begin (stages staging first_ids power_rows 1 staged_ok)) (
        approves (codes "e1") reviewer 9 none (approved_entry reviewer 9 none staged_row)
          approved_ok))
      (releases (codes "b1") (codes "f") (codes "c") (codes "bob") release_result.1 release_ok)

empty-IsSound : IsSound short_digest nothing_staged
empty-IsSound = record {
  table = record { distinct_ids = tt; distinct_grains = tt; orderly = tt };
  distinct_keys = tt;
  checked = tt;
  backed = tt;
  posted = tt;
}

Reach-IsSound_example : IsSound short_digest posted_line
Reach-IsSound_example = Reach-IsSound short_digest whole_life empty-IsSound

staged-IsSound : IsSound short_digest staged_line
staged-IsSound =
    Reach-IsSound short_digest (next begin (stages staging first_ids power_rows 1 staged_ok))
      empty-IsSound

-- From the staged line on.
rest_of_life : Reach short_digest staged_line posted_line
rest_of_life =
    next
      (next begin (
        approves (codes "e1") reviewer 9 none (approved_entry reviewer 9 none staged_row)
          approved_ok))
      (releases (codes "b1") (codes "f") (codes "c") (codes "bob") release_result.1 release_ok)

Reach-final_of_row_example :
    (now : ErpsyncEntry) × (row_at id_of posted_line.entries (codes "e1") ≡ some now)
    × Travels may_move staged_row.status now.status
    × (is_final staged_row.status ≡ true → now.status ≡ staged_row.status)
Reach-final_of_row_example =
    Reach-final_of_row short_digest rest_of_life staged-IsSound (codes "e1") staged_row staged_found

-- The least number of tonnes that the ledger refuses, and the greatest that it takes.
too_large : fits_column (of_ℕ (10 ^ 10)) ≡ false
unfolding fits_column dec_gtb
too_large = refl

just_fits :
    fits_column (record { negative = false; coefficient = 10 ^ 16 - 1; exponent = negsuc 5 }) ≡ true
unfolding fits_column dec_gtb
just_fits = refl
