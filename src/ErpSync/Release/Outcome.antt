-- ===== src/ErpSync/Release/Outcome.antt =====
-- What `release_clean` of src/erpsync/release/service.py returns and leaves behind.
use mathlib.Core.Path.{subst}
use one_capture.Prelude.{
  ◌≡◌, refl, sym, ap, ◌∙◌, Bool, true, false, ◌&&◌, ◌||◌, inl, inr, Option, none, some, List, [],
  ◌∷◌, ◌++◌, if◌then◌else◌, arith, ◌==◌, list_eq, nat_eq, IsDistinct, map, keep, any, Bool-cases,
  find_first, length, not, is_some,
}
use one_capture.Prelude.Text.{Text}
use one_capture.Prelude.Result.{Result, ok, err, ◌>>=◌, raise_if}
use one_capture.Prelude.Sorting.{length-sorted}
use one_capture.EClaim.Sod.{Uuid}
use one_capture.ErpSync.Ledger.{
  ErpsyncEntry, LedgerEntry, ReleaseBatch, Session, IntegrityError, out_of_range, entry_for,
  batch_taken, id_of, batch_by_hash, add_batch,
}
use one_capture.ErpSync.Release.{
  takes, release_leb, rows_for, release_row, release_rows, batch_of, anchored, in_savepoint,
  fits_column, fits_ledger, ledger_entry, post_entry, release_batch, release_read, release_clean,
}
use one_capture.ErpSync.Release.Sweep.{release_rows-settled}
use one_capture.ErpSync.Release.Ending.{
  digest_for, NewBatch, nothing, repeated, released, Ending, returns, large_total, large_row,
}
use one_capture.ErpSync.Release.Posting.{Posted, post_all-Posted, release_rows-ledger}

any-find_first :
    {A : Type 0} (p : A → Bool) (xs : List A)
    → any p xs ≡ true
    → (x : A) × (find_first p xs ≡ some x)
any-find_first p [] h = cc
any-find_first p (y ∷ ys) h = elim (Bool-cases (p y)) [
  | inl hit ↦ (y, ap (λ b. if b then some y else find_first p ys) hit)
  | inr miss ↦
      (let (x, found) = any-find_first p ys (ap (λ b. b || any p ys) (sym miss) ∙ h) in
        (x, ap (λ b. if b then some y else find_first p ys) miss ∙ found))
]

nil-of-length : {A : Type 0} (xs : List A) → length xs ≡ 0 → xs ≡ []
nil-of-length [] h = refl
nil-of-length (x ∷ xs) h = absurd (ground (arith, h))

length-rows_for :
    (s : Session) (client_id : Uuid)
    → length (rows_for s client_id) ≡ length (keep (takes client_id) s.entries)
unfolding rows_for
length-rows_for s client_id =
    length-sorted release_leb (λ row. row) (keep (takes client_id) s.entries)

module _ (sha256 : Text → Text) where
  fits_ledger-any :
      (batch : ReleaseBatch) (rows : List ErpsyncEntry) (ledger : List LedgerEntry)
      → fits_ledger sha256 batch rows ledger ≡ false
      → any (λ r. not (fits_column r.tco2e)) rows ≡ true
  unfolding fits_ledger
  fits_ledger-any batch [] ledger h = cc
  fits_ledger-any batch (row ∷ rows) ledger h =
      let new = ledger_entry sha256 batch.firm_id batch.client_id batch.id row in
      by_row (is_some (entry_for ledger new.idempotency_key)) (fits_column row.tco2e) _ h
        (fits_ledger-any batch rows (post_entry new ledger))
    where
      by_row :
          {c : Bool} (posted fits rest : Bool)
          → ((posted || fits) && rest) ≡ false
          → (rest ≡ false → c ≡ true)
          → (not fits || c) ≡ true
      by_row posted fits rest h later = ground (arith, later)

  find_first-any-false :
      {A : Type 0} (p : A → Bool) (xs : List A) → any p xs ≡ false → find_first p xs ≡ none
  find_first-any-false p [] h = refl
  find_first-any-false p (y ∷ ys) h = ground (arith, find_first-any-false p ys)

  -- A batch of this client with this content is there already.
  abbrev has_batch : Session → Uuid → Text → Bool
  has_batch s client_id digest =
      any (λ b. b.client_id == client_id && b.batch_hash == digest) s.batches

  add_batch-eq :
      (batch : ReleaseBatch) (s : Session) (b : Bool)
      → has_batch s batch.client_id batch.batch_hash ≡ b
      → add_batch batch s
        ≡ (raise_if b batch_taken >>= λ _. ok (record s { batches = s.batches ++ batch ∷ [] }))
  unfolding add_batch
  add_batch-eq batch s b same =
      ap (λ c. raise_if c batch_taken >>= λ _. ok (record s { batches = s.batches ++ batch ∷ [] }))
        same

  abbrev saved :
      ReleaseBatch
      → Text
      → List ErpsyncEntry
      → Session
      → Result IntegrityError (Session × Option ReleaseBatch)
  saved batch actor rows s =
      in_savepoint sha256 (add_batch batch s) (batch_by_hash s batch.client_id batch.batch_hash)
        batch actor rows s

  saved-taken :
      (batch : ReleaseBatch) (actor : Text) (rows : List ErpsyncEntry) (s : Session)
      (prior : ReleaseBatch)
      → has_batch s batch.client_id batch.batch_hash ≡ true
      → batch_by_hash s batch.client_id batch.batch_hash ≡ some prior
      → saved batch actor rows s ≡ ok (s, some prior)
  unfolding in_savepoint
  saved-taken batch actor rows s prior taken found =
      ap
        (λ r.
          in_savepoint sha256 r (batch_by_hash s batch.client_id batch.batch_hash) batch actor rows
            s)
        (add_batch-eq batch s true taken)
      ∙ ap (λ f. in_savepoint sha256 (err batch_taken) f batch actor rows s) found

  saved-free :
      (batch : ReleaseBatch) (actor : Text) (rows : List ErpsyncEntry) (s : Session)
      → has_batch s batch.client_id batch.batch_hash ≡ false
      → saved batch actor rows s ≡ (
          if fits_ledger sha256 batch rows s.ledger
          then ok (
            anchored sha256 batch (
                release_rows sha256 batch actor rows
                  (record s { batches = s.batches ++ batch ∷ [] })),
            some batch,
          )
          else err out_of_range)
  unfolding in_savepoint
  saved-free batch actor rows s free =
      ap
        (λ r.
          in_savepoint sha256 r (batch_by_hash s batch.client_id batch.batch_hash) batch actor rows
            s)
        (add_batch-eq batch s false free)

  release_rows-batches :
      (batch : ReleaseBatch) (actor : Text) (rows : List ErpsyncEntry) (s : Session)
      → (release_rows sha256 batch actor rows s).batches ≡ s.batches
  unfolding release_rows release_row
  release_rows-batches batch actor [] s = refl
  release_rows-batches batch actor (row ∷ rows) s =
      release_rows-batches batch actor rows (release_row sha256 batch actor row s)

  anchored-NewBatch :
      (s : Session) (batch_id firm_id client_id : Uuid) (actor : Text)
      → IsDistinct (map id_of s.entries)
      → has_batch s client_id (digest_for sha256 s client_id) ≡ false
      → (let batch = batch_of sha256 batch_id firm_id client_id actor (rows_for s client_id) in
          (fits_column batch.total_tco2e ≡ true)
          → fits_ledger sha256 batch (rows_for s client_id) s.ledger ≡ true
          → NewBatch sha256 s
              (anchored sha256 batch (
                release_rows sha256 batch actor
                  (rows_for s client_id)
                  (record s { batches = s.batches ++ batch ∷ [] })))
              client_id
              batch)
  unfolding batch_of batch_by_hash rows_for
  anchored-NewBatch s batch_id firm_id client_id actor distinct free total_fits rows_fit =
      let batch = batch_of sha256 batch_id firm_id client_id actor (rows_for s client_id) in
      let with_batch = record s { batches = s.batches ++ batch ∷ [] } in
      record {
        of_client = refl;
        hashes = refl;
        counts = length-rows_for s client_id;
        sums = refl;
        new = find_first-any-false _ s.batches free;
        batches_eq = release_rows-batches batch actor (rows_for s client_id) with_batch;
        entries_eq = release_rows-settled sha256 batch actor with_batch client_id distinct;
        posted =
            subst (Posted sha256 batch (rows_for s client_id) s.ledger)
              (sym (release_rows-ledger sha256 batch actor (rows_for s client_id) with_batch))
              (post_all-Posted sha256 batch (rows_for s client_id) s.ledger);
        total_fits = total_fits;
        rows_fit = rows_fit;
      }

  -- The end of a release whose batch is new.
  free-Ending :
      (s : Session) (batch_id firm_id client_id : Uuid) (actor : Text)
      → IsDistinct (map id_of s.entries)
      → has_batch s client_id (digest_for sha256 s client_id) ≡ false
      → (let batch = batch_of sha256 batch_id firm_id client_id actor (rows_for s client_id) in
          fits_column batch.total_tco2e ≡ true
          → Ending sha256 s client_id (saved batch actor (rows_for s client_id) s))
  free-Ending s batch_id firm_id client_id actor distinct free total_fits =
      let batch = batch_of sha256 batch_id firm_id client_id actor (rows_for s client_id) in
      let ran = saved-free batch actor (rows_for s client_id) s (unfold batch_of in free) in
      subst (Ending sha256 s client_id) (sym ran)
        (elim (Bool-cases (fits_ledger sha256 batch (rows_for s client_id) s.ledger)) [
          | inl fits ↦ rw fits (
              returns _ (
                released _ batch (
                  anchored-NewBatch s batch_id firm_id client_id actor distinct free total_fits
                    fits)))
          | inr large ↦
              rw large (large_row (fits_ledger-any batch (rows_for s client_id) s.ledger large))
        ])

  saved-Ending :
      (s : Session) (batch_id firm_id client_id : Uuid) (actor : Text)
      → IsDistinct (map id_of s.entries)
      → (let batch = batch_of sha256 batch_id firm_id client_id actor (rows_for s client_id) in
          fits_column batch.total_tco2e ≡ true
          → Ending sha256 s client_id (saved batch actor (rows_for s client_id) s))
  saved-Ending s batch_id firm_id client_id actor distinct total_fits =
      let batch = batch_of sha256 batch_id firm_id client_id actor (rows_for s client_id) in
      elim (Bool-cases (has_batch s client_id (digest_for sha256 s client_id))) [
        | inl taken ↦
            (let (prior, found) =
                any-find_first
                  (λ (b : ReleaseBatch).
                    b.client_id == client_id && b.batch_hash == digest_for sha256 s client_id)
                  s.batches taken in
              subst (Ending sha256 s client_id)
                (sym (
                  saved-taken batch actor (rows_for s client_id) s prior (unfold batch_of in taken)
                    (unfold batch_of batch_by_hash in found)))
                (returns (s, some prior) (repeated prior (unfold batch_by_hash in found))))
        | inr free ↦ free-Ending s batch_id firm_id client_id actor distinct free total_fits
      ]

  release_batch-Ending :
      (s : Session) (batch_id firm_id client_id : Uuid) (actor : Text)
      → IsDistinct (map id_of s.entries)
      → Ending sha256 s client_id (
          release_batch sha256
            (batch_of sha256 batch_id firm_id client_id actor (rows_for s client_id))
            actor
            (rows_for s client_id)
            s)
  unfolding release_batch
  release_batch-Ending s batch_id firm_id client_id actor distinct =
      let batch = batch_of sha256 batch_id firm_id client_id actor (rows_for s client_id) in
      elim (Bool-cases (fits_column batch.total_tco2e)) [
        | inl fits ↦ rw fits (saved-Ending s batch_id firm_id client_id actor distinct fits)
        | inr large ↦ rw large (large_total (unfold batch_of in large))
      ]

  release_read-Ending :
      (rows : List ErpsyncEntry) (s : Session) (batch_id firm_id client_id : Uuid) (actor : Text)
      → rows ≡ rows_for s client_id
      → IsDistinct (map id_of s.entries)
      → Ending sha256 s client_id (release_read sha256 batch_id s firm_id client_id actor rows)
  unfolding release_read
  release_read-Ending [] s batch_id firm_id client_id actor read distinct =
      returns (s, none)
        (nothing (nil-of-length _ (sym (length-rows_for s client_id) ∙ ap length (sym read))))
  release_read-Ending (row ∷ rows) s batch_id firm_id client_id actor read distinct =
      subst
        (λ rs.
          Ending sha256 s client_id
            (release_batch sha256 (batch_of sha256 batch_id firm_id client_id actor rs) actor rs s))
        (sym read) (release_batch-Ending s batch_id firm_id client_id actor distinct)

  -- A release ends in one of two ways. It is refused, with an error of the database that nothing
  -- catches, only if the sum over the releasable rows, or the number of one of these rows, has more
  -- than ten digits before the point. Otherwise it returns, in one of three ways. No row of the
  -- client is releasable: it returns None and changes nothing. A batch of the same content exists:
  -- it returns that one and changes nothing. Or it returns a new batch with the hash, the number
  -- and the sum of exactly the releasable rows; those rows and no others become released; the
  -- ledger keeps its entries, gets entries only for those rows, and has the key of each; and the
  -- columns hold the sum and each number that was posted. The condition is the table's primary key:
  -- no two staged rows have the same id.
  pub release_clean-Outcome :
      (s : Session) (batch_id firm_id client_id : Uuid) (actor : Text)
      → IsDistinct (map id_of s.entries)
      → Ending sha256 s client_id (release_clean sha256 batch_id s firm_id client_id actor)
  unfolding release_clean
  release_clean-Outcome s batch_id firm_id client_id actor distinct =
      release_read-Ending (rows_for s client_id) s batch_id firm_id client_id actor refl distinct
