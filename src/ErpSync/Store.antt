-- ===== src/ErpSync/Store.antt =====
-- The idempotency store: src/erpsync/persistence/store.py. The JSON of an entry is pydantic's: its
-- dump and its reader are parameters.
pub mod Commit
use one_capture.Prelude.{
  ℕ, ◌+◌, Bool, true, false, ◌&&◌, not, Option, none, some, List, [], ◌∷◌, ◌++◌, map, if◌then◌else◌,
  keep, contains, ◌==◌, list_eq, nat_eq, nat_beq,
}
use one_capture.Prelude.Text.{Text}
use one_capture.ErpSync.Domain.{LineKey, key_eq, EmissionEntry}

-- `path` tells whether a file is given; `file` is what stands in it.
pub record Store (Raw : Type 0) : Type 0 where
  pub path : Bool
  pub entries : List EmissionEntry
  pub keys : List LineKey
  pub file : Option (List Raw)

module _ {Raw : Type 0} where
  -- `known_keys(client_id)`
  abbrev pub known_keys : Store Raw → Text → List LineKey
  known_keys s client_id = keep (λ k. k.0 == client_id) s.keys

  -- `entries(client_id)`
  abbrev entries_of : Store Raw → Text → List EmissionEntry
  entries_of s client_id = keep (λ e. e.line_key.0 == client_id) s.entries

  -- The body of the loop of `commit`.
  abbrev pub commit_one : Store Raw × ℕ → EmissionEntry → Store Raw × ℕ
  commit_one (s, added) entry = if contains s.keys entry.line_key then (s, added) else (
    record s { keys = entry.line_key ∷ s.keys; entries = s.entries ++ entry ∷ [] },
    added + 1,
  )

  unfoldable pub commit_all : Store Raw × ℕ → List EmissionEntry → Store Raw × ℕ
  commit_all acc [] = acc
  commit_all acc (e ∷ es) = commit_all (commit_one acc e) es

module _ {Raw : Type 0} (dump : EmissionEntry → Raw) where
  -- `_persist()`
  abbrev persist : Store Raw → Store Raw
  persist s = record s { file = some (map dump s.entries) }

  -- `commit(entries)`
  unfoldable pub commit : Store Raw → List EmissionEntry → Store Raw × ℕ
  unfolding commit_all
  commit s entries =
      let (s', added) = commit_all (s, 0) entries in
      (if not (nat_beq added 0) && s'.path then persist s' else s', added)

module _ {Raw : Type 0} (validate : Raw → EmissionEntry) where
  pub load_raw : List EmissionEntry → List LineKey → List Raw → List EmissionEntry × List LineKey
  load_raw es ks [] = (es, ks)
  load_raw es ks (r ∷ rs) = load_raw (es ++ validate r ∷ []) ((validate r).line_key ∷ ks) rs

  -- `Store(path)`: `_load` when the file is there.
  pub open_store : Bool → Option (List Raw) → Store Raw
  unfolding load_raw
  open_store true (some raws) =
      let (es, ks) = load_raw [] [] raws in
      record { path = true; entries = es; keys = ks; file = some raws }
  open_store path file = record { path = path; entries = []; keys = []; file = file }
