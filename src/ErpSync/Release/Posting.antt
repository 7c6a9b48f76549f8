-- ===== src/ErpSync/Release/Posting.antt =====
-- What `release_clean` of src/erpsync/release/service.py writes into the ledger.
use mathlib.Core.Path.{subst}
use one_capture.Prelude.{
  ◌≡◌, refl, sym, ap, ◌∙◌, Bool, true, false, ◌||◌, inl, inr, Option, some, List, [], ◌∷◌, ◌++◌,
  if◌then◌else◌, ◌==◌, list_eq, nat_eq, beq_self, beq_sym, Among, All, All-append, append_nil,
  append_assoc, All-map, contains-append_left, contains-append_right, IsDistinct,
  IsDistinct-append_one, map, Bool-cases, contains, is_some, find_first,
}
use one_capture.Prelude.Text.{Text}
use one_capture.Prelude.Sweep.{map-append}
use one_capture.ErpSync.Ledger.{ErpsyncEntry, LedgerEntry, ReleaseBatch, Session, entry_for}
use one_capture.ErpSync.Release.{
  release_row, release_rows, idempotency_key, ledger_entry, post_entry,
}

abbrev pub key_of : LedgerEntry → Text
key_of l = l.idempotency_key

-- The ledger has an entry under this key.
abbrev pub has_key : List LedgerEntry → Text → Bool
has_key ledger k = is_some (entry_for ledger k)

has_key-contains :
    (ledger : List LedgerEntry) (k : Text) → has_key ledger k ≡ contains (map key_of ledger) k
unfolding entry_for
has_key-contains [] k = refl
has_key-contains (l ∷ ls) k =
    is_some-if (l.idempotency_key == k) l (find_first (λ x. x.idempotency_key == k) ls)
    ∙ ap (λ b. b || is_some (find_first (λ x. x.idempotency_key == k) ls))
        (beq_sym l.idempotency_key k)
    ∙ ap (λ b. k == l.idempotency_key || b) (has_key-contains ls k)
  where
    is_some-if :
        {A : Type 0} (b : Bool) (a : A) (o : Option A)
        → is_some (if b then some a else o) ≡ (b || is_some o)
    is_some-if true a o = refl
    is_some-if false a o = refl

pub has_key-append :
    (ledger : List LedgerEntry) (more : List LedgerEntry) (k : Text)
    → has_key ledger k ≡ true
    → has_key (ledger ++ more) k ≡ true
has_key-append ledger more k h =
    has_key-contains (ledger ++ more) k
    ∙ ap (λ ks. contains ks k) (map-append key_of ledger more)
    ∙ contains-append_left k (map key_of ledger) (map key_of more)
        (sym (has_key-contains ledger k) ∙ h)

has_key-append_own :
    (ledger : List LedgerEntry) (l : LedgerEntry)
    → has_key (ledger ++ l ∷ []) l.idempotency_key ≡ true
has_key-append_own ledger l =
    has_key-contains (ledger ++ l ∷ []) l.idempotency_key
    ∙ ap (λ ks. contains ks l.idempotency_key) (map-append key_of ledger (l ∷ []))
    ∙ contains-append_right l.idempotency_key (map key_of ledger) (l.idempotency_key ∷ [])
        (ap (λ b. b || false) (beq_self l.idempotency_key))

module _ (sha256 : Text → Text) (batch : ReleaseBatch) where
  -- The postings of a run of rows.
  pub post_all : List ErpsyncEntry → List LedgerEntry → List LedgerEntry
  post_all [] ledger = ledger
  post_all (row ∷ rows) ledger =
      post_all rows
        (post_entry (ledger_entry sha256 batch.firm_id batch.client_id batch.id row) ledger)

  pub release_rows-ledger :
      (actor : Text) (rows : List ErpsyncEntry) (s : Session)
      → (release_rows sha256 batch actor rows s).ledger ≡ post_all rows s.ledger
  unfolding release_rows post_all
  release_rows-ledger actor [] s = refl
  release_rows-ledger actor (row ∷ rows) s =
      release_rows-ledger actor rows (release_row sha256 batch actor row s)
      ∙ ap (post_all rows) (unfold release_row in refl)

  -- Old entries stay, keys stay distinct, every row has its key, and what is new comes from a row.
  pub record Posted (rows : List ErpsyncEntry) (before after : List LedgerEntry) : Type 0 where
    pub more : List LedgerEntry
    pub grows : after ≡ before ++ more
    pub keyed :
        All (λ row. has_key after (idempotency_key sha256 batch.client_id row.id) ≡ true) rows
    pub from_rows :
        All
          (λ l.
            (row : ErpsyncEntry) × Among row rows
            × (l ≡ ledger_entry sha256 batch.firm_id batch.client_id batch.id row))
          more
    pub distinct : IsDistinct (map key_of before) → IsDistinct (map key_of after)

  -- One posting: nothing when the key is there, else the new entry.
  record Grown (new : LedgerEntry) (before after : List LedgerEntry) : Type 0 where
    added : List LedgerEntry
    grows : after ≡ before ++ added
    own : All (λ l. l ≡ new) added
    keyed : has_key after new.idempotency_key ≡ true
    distinct : IsDistinct (map key_of before) → IsDistinct (map key_of after)

  post_entry-Grown :
      (new : LedgerEntry) (ledger : List LedgerEntry) → Grown new ledger (post_entry new ledger)
  unfolding post_entry
  post_entry-Grown new ledger = elim (Bool-cases (has_key ledger new.idempotency_key)) [
    | inl there ↦
        subst (λ b. Grown new ledger (if b then ledger else ledger ++ new ∷ [])) (sym there)
          (record {
            added = [];
            grows = append_nil ledger;
            own = tt;
            keyed = there;
            distinct = λ d. d;
          })
    | inr missing ↦
        subst (λ b. Grown new ledger (if b then ledger else ledger ++ new ∷ [])) (sym missing)
          (record {
            added = new ∷ [];
            grows = refl;
            own = (refl, tt);
            keyed = has_key-append_own ledger new;
            distinct = λ d.
                subst (λ ks. IsDistinct ks) (sym (map-append key_of ledger (new ∷ [])))
                  (IsDistinct-append_one (map key_of ledger) new.idempotency_key d
                    (sym (has_key-contains ledger new.idempotency_key) ∙ missing));
          })
  ]

  pub post_all-Posted :
      (rows : List ErpsyncEntry) (ledger : List LedgerEntry)
      → Posted rows ledger (post_all rows ledger)
  unfolding post_all
  post_all-Posted [] ledger = record {
    more = [];
    grows = append_nil ledger;
    keyed = tt;
    from_rows = tt;
    distinct = λ d. d;
  }
  post_all-Posted (row ∷ rows) ledger =
      let new = ledger_entry sha256 batch.firm_id batch.client_id batch.id row in
      let one = post_entry-Grown new ledger in
      let rest = post_all-Posted rows (post_entry new ledger) in
      record {
        more = one.added ++ rest.more;
        grows =
            rest.grows
            ∙ ap (λ ls. ls ++ rest.more) one.grows
            ∙ append_assoc ledger one.added rest.more;
        keyed = (
          ap (λ ls. has_key ls (idempotency_key sha256 batch.client_id row.id)) rest.grows
              ∙ has_key-append (post_entry new ledger) rest.more
                  (idempotency_key sha256 batch.client_id row.id)
                  (unfold ledger_entry in one.keyed),
          rest.keyed,
        );
        from_rows =
            All-append _ one.added rest.more
              (All-map (λ l own. (row, inl refl, own)) one.added one.own)
              (All-map (λ l back. (back.0, inr back.1, back.2)) rest.more rest.from_rows);
        distinct = λ d. rest.distinct (one.distinct d);
      }
