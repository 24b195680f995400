-- ===== src/Cleanup/State.antt =====
-- The class CleanupState of packages/nanolab/src/nanolab/tasks/soak/retention.py. The state and the
-- file are passed along; what a system call does is an argument of the operation that makes it.
pub mod Effects
pub mod Invariant
pub mod Recovery
use mathlib.Core.List.{foldl}
use nanolab.Prelude.{
  ℕ, ◌-◌, String, Bool, true, false, ◌||◌, not, Option, none, some, List, [], ◌∷◌, ◌++◌, leb,
  if◌then◌else◌, ◌==◌, text_equality, number_equality, contains, length, Dict, Result, ok, err,
  ◌>>=◌,
}
use nanolab.Prelude.Dicts.{get, put, remove}
use nanolab.Cleanup.Journal.{
  entry_of, text, Value, unknown_acquisition, Entry, Line, entry, corrupt, Error, bad_journal_path,
  release_only, file_exists, io_error, duplicate_identity, unknown_title, preserving_platform, File,
  missing, regular, read_cleanup_records,
}

pub record CleanupState : Type 0 where
  pub run_id : String
  pub failed : Bool
  pub records : Dict Entry
  pub prepared : Bool
  pub titles : List String
  pub replay : Bool

pub record World : Type 0 where
  pub state : CleanupState
  pub open state use *
  pub file : File

-- What a method leaves behind when it returns or raises.
abbrev pub Outcome : Type 0
Outcome = Result Error (Unit {0}) × World

-- A method that may raise: what was changed before the exception stays changed.
abbrev pub Exec : Type 0
Exec = World → Outcome

-- `mkdir`, `open("xb")` and the calls of `fsync` in `prepare`: all of them succeed, none makes the
-- file, or the file is there and a later call raises.
pub data Create : Type 0 where
  created uncreatable unsynced_directory : Create

-- `os.open`, `write`, `flush` and `fsync` in `_append`: all succeed, nothing is written, the line is
-- written and a later call raises, or a part of the line is written that is no JSON document.
pub data Write : Type 0 where
  written refused unsynced torn : Write

abbrev pub title_limit : ℕ
title_limit = 1_000_000

-- `__init__`: `named` and `absolute` are the two tests on the path; `run_id` is the fresh uuid.
unfoldable pub init : Bool → Bool → String → Result Error CleanupState
init named absolute run_id =
    if not named || not absolute
    then err bad_journal_path
    else ok (record {
      run_id = run_id;
      failed = false;
      records = [];
      prepared = false;
      titles = [];
      replay = false;
    })

abbrev title_of : Entry → String
title_of e = elim e.resource [ text t ↦ t | _ ↦ "" ]

abbrev add_title : Dict Entry → Entry → Dict Entry
add_title d e = put (title_of e) e d

-- `{record["resource"]: record for record in records}`
by_title : List Entry → Dict Entry
by_title = foldl add_title []

-- `restore`; the constructor has taken the path.
unfoldable pub restore : (List Line → ℕ) → String → File → Result Error CleanupState
unfolding by_title
restore size run_id file = do
  records ← read_cleanup_records size file false
  ok (record {
    run_id = run_id;
    failed = false;
    records = by_title records;
    prepared = true;
    titles = [];
    replay = true;
  })

abbrev pub set_failed : World → World
set_failed w = record w { state = record w.state { failed = true } }

make_file : Create → File → World → Outcome
make_file created missing w =
    (ok tt, record w { state = record w.state { prepared = true }; file = regular [] })
make_file unsynced_directory missing w = (err io_error, record w { file = regular [] })
make_file uncreatable file w = (err io_error, w)
make_file _ file w = (err file_exists, w)

unfoldable pub prepare : Create → Exec
unfolding make_file
prepare io w =
    if w.replay
    then (err release_only, w)
    else if w.prepared
    then (ok tt, w)
    else make_file io w.file w

-- `_append`. The file is opened without O_CREAT, and with O_NOFOLLOW.
append_to : Write → File → Entry → World → Outcome
append_to written (regular lines) e w = (ok tt, record w { file = regular (lines ++ entry e ∷ []) })
append_to unsynced (regular lines) e w =
    (err io_error, record w { file = regular (lines ++ entry e ∷ []) })
append_to torn (regular lines) e w =
    (err io_error, record w { file = regular (lines ++ corrupt ∷ []) })
append_to _ _ e w = (err io_error, w)

-- `except BaseException: self.failed = True; raise`
abbrev pub failing : Outcome → Outcome
failing (ok _, w) = (ok tt, w)
failing (err e, w) = (err e, set_failed w)

-- The part of `retain` behind `prepare`.
register : Write → String → Value → Exec
unfolding append_to
register io title value w =
    if contains title w.titles || leb title_limit (length w.titles)
    then (err duplicate_identity, set_failed w)
    else (let e = entry_of w.run_id (title_limit - length w.titles) title value in
        failing (
          append_to io w.file e (record w {
            state = record w.state { titles = title ∷ w.titles; records = put title e w.records };
          })))

abbrev then_register : Write → String → Value → Outcome → Outcome
then_register io title value (ok _, w) = register io title value w
then_register io title value (err e, w) = (err e, w)

unfoldable pub retain : Create → Write → String → Value → Exec
unfolding register prepare
retain c io title value w = then_register io title value (prepare c w)

abbrev forget : String → Outcome → Outcome
forget title (ok _, w) =
    (ok tt, record w { state = record w.state { records = remove title w.records } })
forget title (err e, w) = (err e, set_failed w)

confirm : Write → String → Option Entry → Exec
unfolding append_to
confirm io title none w = (err unknown_title, w)
confirm io title (some e) w =
    forget title (append_to io w.file (record e { kind = text "released" }) w)

unfoldable pub released : Write → String → Exec
unfolding confirm
released io title w = confirm io title (get title w.records) w

-- The exception of the second registration only adds a note to the first.
unfoldable pub unknown_acquisition_of : Create → Write → String → Exec
unfolding retain
unknown_acquisition_of c io title w =
    (ok tt, (retain c io title unknown_acquisition (set_failed w)).1)

abbrev pub any_other : String → Dict Entry → Bool
any_other title [] = false
any_other title ((t, _) ∷ d) = not (t == title) || any_other title d

unfoldable pub require_compose_release : String → World → Result Error (Unit {0})
require_compose_release title w =
    if w.failed || any_other title w.records then err preserving_platform else ok tt

-- The calls that the adapters make on one shared instance.
pub data Call : Type 0 where
  prepare_call : Create → Call
  retain_call : Create → Write → String → Value → Call
  released_call : Write → String → Call
  unknown_call : Create → Write → String → Call

unfoldable pub call : Call → Exec
unfolding prepare retain released unknown_acquisition_of
call (prepare_call c) w = prepare c w
call (retain_call c io title value) w = retain c io title value w
call (released_call io title) w = released io title w
call (unknown_call c io title) w = unknown_acquisition_of c io title w

-- An exception ends its own call only.
unfoldable pub run : List Call → World → World
unfolding call
run [] w = w
run (c ∷ cs) w = run cs (call c w).1
