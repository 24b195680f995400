-- ===== src/Cleanup/Journal.antt =====
-- The cleanup journal, and `read_cleanup_records` of
-- packages/nanolab/src/nanolab/tasks/soak/teardown.py, which validates all of it before it selects
-- the records that are still owned.
pub mod Steps
pub mod Select
use nanolab.Prelude.{
  ℕ, ◌*◌, String, Bool, true, false, ◌&&◌, ◌||◌, not, Option, none, some, List, [], ◌∷◌, ltb, leb,
  if◌then◌else◌, ◌==◌, text_equality, number_equality, contains, Dict, values, Result, ok, err,
  ◌>>=◌,
}
use nanolab.Prelude.Dicts.{get, put, remove}

-- What `record.get(key)` yields: a text, an integer that is not negative, or any other value, by a
-- number that tells such values apart.
pub data Field : Type 0 where
  absent : Field
  text : String → Field
  number : ℕ → Field
  other : ℕ → Field

abbrev pub field_beq : Field → Field → Bool
field_beq absent absent = true
field_beq (text s) (text t) = s == t
field_beq (number m) (number n) = m == n
field_beq (other m) (other n) = m == n
field_beq _ _ = false

-- The value of a retained record: what a Compose project was acquired with and the digest of its
-- file, the mark of an acquisition that failed, or what a function adapter stores.
pub data Value : Type 0 where
  owned_compose : (expected compose_sha256 : String) → Value
  unknown_acquisition : Value
  owned_function : String → Value

pub record Entry : Type 0 where
  pub schema_version : Field
  pub workflow_id : Field
  pub run_id : Field
  pub kind : Field
  pub resource : Field
  pub order : Field
  pub value : Value

-- The record that `retain` writes.
abbrev pub entry_of : String → ℕ → String → Value → Entry
entry_of run_id order title value = record {
  schema_version = number 3;
  workflow_id = text "soak-owned-cleanup";
  run_id = text run_id;
  kind = text "retained";
  resource = text title;
  order = number order;
  value = value;
}

-- A line of the file: nothing but blanks, a JSON object, another JSON document, or a text that
-- `_json` refuses.
pub data Line : Type 0 where
  blank : Line
  entry : Entry → Line
  not_an_object corrupt : Line

pub data Error : Type 0 where
  -- read_cleanup_records
  no_regular_journal journal_too_long invalid_json unsupported_record no_identity : Error
  other_run re_retention duplicate_retained invalid_order several_runs ambiguous_order : Error
  -- CleanupState
  bad_journal_path release_only file_exists io_error duplicate_identity unknown_title : Error
  -- the Compose resource
  preserving_platform invalid_compose_file acquisition_failed identity_differs : Error
  compose_file_changed command_failed : Error

pub record Scan : Type 0 where
  pub retained : Dict Entry
  pub history : Dict Entry
  pub released : List String

abbrev pub fresh_scan : Scan
fresh_scan = record { retained = []; history = []; released = [] }

is_order : Field → Bool
is_order (number n) = true
is_order _ = false

-- `previous` belongs to another workflow or run than the release.
abbrev foreign : Option Entry → Entry → Bool
foreign none e = false
foreign (some p) e = not (field_beq e.workflow_id p.workflow_id && field_beq e.run_id p.run_id)

abbrev is_retained : Option Entry → Bool
is_retained none = false
is_retained (some e) = true

scan_released : Scan → Entry → String → Result Error Scan
scan_released s e title =
    if foreign (get title s.retained) e
    then err other_run
    else ok (record s { released = title ∷ s.released; retained = remove title s.retained })

scan_retained : Scan → Entry → String → Result Error Scan
unfolding is_order
scan_retained s e title =
    if contains title s.released
    then err re_retention
    else if is_retained (get title s.retained)
    then err duplicate_retained
    else if is_order e.order
    then ok (record s { retained = put title e s.retained; history = put title e s.history })
    else err invalid_order

-- `title = record.get("resource")`, which has to be a text that is not empty.
abbrev with_title : Field → (String → Result Error Scan) → Result Error Scan
with_title (text title) f = if title == "" then err no_identity else f title
with_title _ f = err no_identity

-- One turn of the loop over the lines.
scan_line : Scan → Line → Result Error Scan
unfolding scan_released scan_retained
scan_line s blank = ok s
scan_line s corrupt = err invalid_json
scan_line s not_an_object = err unsupported_record
scan_line s (entry e) =
    if field_beq e.schema_version (number 3)
    then (if field_beq e.kind (text "retained")
        then with_title e.resource (scan_retained s e)
        else if field_beq e.kind (text "released")
        then with_title e.resource (scan_released s e)
        else ok s)
    else err unsupported_record

pub scan : Scan → List Line → Result Error Scan
scan s [] = ok s
scan s (l ∷ ls) = scan_line s l >>= λ s'. scan s' ls

abbrev pub order_of : Entry → ℕ
order_of e = elim e.order [ number n ↦ n | _ ↦ 0 ]

abbrev is_name : Field → Bool
is_name (text s) = not (s == "")
is_name _ = false

same_run : Entry → List Entry → Bool
same_run e [] = true
same_run e (f ∷ fs) =
    (field_beq e.workflow_id f.workflow_id && field_beq e.run_id f.run_id) && same_run e fs

single_run : List Entry → Bool
unfolding same_run
single_run [] = true
single_run (e ∷ es) = same_run e es && (is_name e.workflow_id && is_name e.run_id)

has_order : ℕ → List Entry → Bool
has_order n [] = false
has_order n (e ∷ es) = order_of e == n || has_order n es

orders_differ : List Entry → Bool
unfolding has_order
orders_differ [] = true
orders_differ (e ∷ es) = not (has_order (order_of e) es) && orders_differ es

-- `sorted(records, key=lambda item: item["order"])`
insert_by_order : Entry → List Entry → List Entry
insert_by_order e [] = e ∷ []
insert_by_order e (f ∷ fs) =
    if leb (order_of e) (order_of f) then e ∷ f ∷ fs else f ∷ insert_by_order e fs

sort_by_order : List Entry → List Entry
unfolding insert_by_order
sort_by_order [] = []
sort_by_order (e ∷ es) = insert_by_order e (sort_by_order es)

select_records : List Entry → Result Error (List Entry)
unfolding single_run orders_differ sort_by_order
select_records records =
    if single_run records
    then (if orders_differ records then ok (sort_by_order records) else err ambiguous_order)
    else err several_runs

pub data File : Type 0 where
  missing symlink : File
  regular : List Line → File

abbrev pub byte_limit : ℕ
byte_limit = 8 * 1024 * 1024

-- `size` gives the bytes that the lines take in the file.
module _ (size : List Line → ℕ) where
  unfoldable pub read_cleanup_records : File → Bool → Result Error (List Entry)
  unfolding scan scan_line select_records
  read_cleanup_records missing include_released = err no_regular_journal
  read_cleanup_records symlink include_released = err no_regular_journal
  read_cleanup_records (regular lines) include_released =
      if ltb byte_limit (size lines)
      then err journal_too_long
      else (scan fresh_scan lines >>= λ s.
          select_records (values (if include_released then s.history else s.retained)))
