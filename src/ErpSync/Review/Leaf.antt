-- ===== src/ErpSync/Review/Leaf.antt =====
-- The carbon leaf of a staged row: src/erpsync/review/leaf.py. A label or a tooltip is what it
-- claims of the row, as data.
use one_capture.Prelude.{
  ◌≡◌, refl, sym, ap, ◌∙◌, beq_self, Bool, true, false, not, ◌&&◌, ◌||◌, Option, none, some, ◌==◌,
  list_eq, nat_eq, if◌then◌else◌,
}
use one_capture.Prelude.Text.{Text, codes, or_default}
use one_capture.ErpSync.Release.{is_releasable, takes}
use one_capture.ErpSync.Review.{is_reviewable}
use one_capture.ErpSync.Ledger.{
  Status, clean, held, flagged, approved, dismissed, released, status_beq, ErpsyncEntry,
}

-- The tooltips, by what they say.
pub data Tooltip : Type 0 where
  will_not_post posted posts_on_release posts_once_approved carbon_related : Tooltip
  posts_without_figure not_carbon_related : Tooltip

-- The labels.
pub data Label : Type 0 where
  label_related label_unrelated : Label

pub record LeafState : Type 0 where
  pub carbon : Bool
  pub muted : Bool
  pub label : Label
  pub tooltip : Tooltip

-- `category or UNMAPPED`
abbrev or_unmapped : Option Text → Text
or_unmapped none = codes "UNMAPPED"
or_unmapped (some category) = or_default category (codes "UNMAPPED")

unfoldable pub is_mapped : Option Text → Bool
is_mapped category = not (or_unmapped category == codes "UNMAPPED")

-- `carbon_leaf_state` after its first line, on the statuses that the table allows
unfoldable pub leaf_of : Bool → Status → LeafState
leaf_of mapped status =
    if mapped
    then (if status_beq status dismissed
        then record { carbon = true; muted = true; label = label_related; tooltip = will_not_post }
        else if status_beq status released
        then record { carbon = true; muted = false; label = label_related; tooltip = posted }
        else if is_releasable status
        then record {
          carbon = true;
          muted = false;
          label = label_related;
          tooltip = posts_on_release;
        }
        else if is_reviewable status
        then record {
          carbon = true;
          muted = false;
          label = label_related;
          tooltip = posts_once_approved;
        }
        else record {
          carbon = true;
          muted = false;
          label = label_related;
          tooltip = carbon_related;
        })
    else (if is_releasable status || status_beq status released
        then record {
          carbon = false;
          muted = false;
          label = label_unrelated;
          tooltip = posts_without_figure;
        }
        else record {
          carbon = false;
          muted = false;
          label = label_unrelated;
          tooltip = not_carbon_related;
        })

-- `carbon_leaf_state(status, category)`
unfoldable pub carbon_leaf_state : Status → Option Text → LeafState
carbon_leaf_state status category = leaf_of (is_mapped category) status

-- A tooltip that promises a posting still to come.
abbrev pub promises : Tooltip → Bool
promises posts_on_release = true
promises posts_without_figure = true
promises _ = false

by_status :
    (m : Bool) (q : Status)
    → ((promises (leaf_of m q).tooltip && not (status_beq q released)) ≡ is_releasable q)
      × ((leaf_of m q).muted ≡ (m && status_beq q dismissed))
      × ((leaf_of m q).carbon ≡ m)
unfolding leaf_of
by_status true clean = (refl, refl, refl)
by_status true held = (refl, refl, refl)
by_status true flagged = (refl, refl, refl)
by_status true approved = (refl, refl, refl)
by_status true dismissed = (refl, refl, refl)
by_status true released = (refl, refl, refl)
by_status false clean = (refl, refl, refl)
by_status false held = (refl, refl, refl)
by_status false flagged = (refl, refl, refl)
by_status false approved = (refl, refl, refl)
by_status false dismissed = (refl, refl, refl)
by_status false released = (refl, refl, refl)

-- The leaf of a staged row is honest: for a row that is not yet released it promises a posting on
-- release exactly when `release_clean` takes the row for its client, and it is muted, as a leaf
-- that will not post, exactly when the row is mapped and dismissed.
pub carbon_leaf_state_lem :
    (r : ErpsyncEntry)
    → (let leaf = carbon_leaf_state r.status (some r.category) in
        ((promises leaf.tooltip && not (status_beq r.status released)) ≡ takes r.client_id r)
        × (leaf.muted ≡ (is_mapped (some r.category) && status_beq r.status dismissed))
        × (leaf.carbon ≡ is_mapped (some r.category)))
unfolding carbon_leaf_state takes
carbon_leaf_state_lem r =
    let (promised, muted, related) = by_status (is_mapped (some r.category)) r.status in
    (promised ∙ ap (λ b. b && is_releasable r.status) (sym (beq_self r.client_id)), muted, related)
