-- ===== src/Cleanup/State/Invariant.antt =====
-- Every call on a CleanupState keeps memory and journal together.
use nanolab.Prelude.{
  String, ◌-◌, ◌<◌, ◌≡◌, refl, ◌≢◌, inl, inr, false, some, List, [], ◌∷◌, arith, text_equality,
  ◌||◌, contains, length, leb, if_ind, All, ok, err, Option-cases, subst, sym,
}
use nanolab.Prelude.Dicts.{get, put}
use nanolab.Cleanup.Journal.{
  text, Value, unknown_acquisition, Entry, entry_of, Line, File, missing, regular,
}
use nanolab.Cleanup.Disk.{
  AllOurs, AllOurs-put, AllOurs-remove, Disk, Disk-fail, Disk-torn, Disk-claim, Disk-adopt,
  Disk-unacknowledged, Disk-drop,
}
use nanolab.Cleanup.State.{
  World, Outcome, then_register, Create, created, uncreatable, unsynced_directory, Write, written,
  unsynced, torn, title_limit, set_failed, append_to, failing, forget, make_file, prepare, register,
  retain, confirm, released, Call, prepare_call, retain_call, released_call, unknown_call, call,
  run,
}

abbrev pub lines_of : File → List Line
lines_of (regular lines) = lines
lines_of _ = []

pub record Inv (w : World) : Type 0 where
  pub named : w.run_id ≢ ""
  pub ours : AllOurs w.run_id w.titles w.records
  pub disk : Disk w.run_id w.failed w.titles w.records (lines_of w.file)

abbrev Kept : Outcome → Type 0
Kept (_, w) = Inv w

Inv-set_failed : (w : World) → Inv w → Inv (set_failed w)
Inv-set_failed w i = record { named = i.named; ours = i.ours; disk = Disk-fail _ _ _ _ _ i.disk }

make_file-Inv : (c : Create) (w : World) → Inv w → Inv (make_file c w.file w).1
unfolding make_file
make_file-Inv c w i = go c w.file refl
  where
    go : (c : Create) (f : File) → w.file ≡ f → Inv (make_file c f w).1
    go created missing e = record { named = i.named; ours = i.ours; disk = rw e at i.disk }
    go unsynced_directory missing e = record {
      named = i.named;
      ours = i.ours;
      disk = rw e at i.disk;
    }
    go uncreatable _ e = i
    go created _ e = i
    go unsynced_directory _ e = i

prepare-Inv : (c : Create) (w : World) → Inv w → Inv (prepare c w).1
unfolding prepare
prepare-Inv c w i =
    if_ind Kept w.replay (λ _. i) (λ _. if_ind Kept w.prepared (λ _. i) (λ _. make_file-Inv c w i))

module _ (title : String) (value : Value) (w : World) (named : title ≢ "") (i : Inv w)
    (new : contains title w.titles ≡ false) (room : length w.titles < title_limit) where
  abbrev record_of : Entry
  record_of = entry_of w.run_id (title_limit - length w.titles) title value

  abbrev claimed : World
  claimed = record w {
    state = record w.state { titles = title ∷ w.titles; records = put title record_of w.records };
  }

  still_ours : AllOurs w.run_id (title ∷ w.titles) (put title record_of w.records)
  still_ours = AllOurs-put w.run_id title w.titles w.records _ value named i.ours

  lost : Inv (set_failed claimed)
  lost = record {
    named = i.named;
    ours = still_ours;
    disk = Disk-claim _ _ _ _ _ i.disk title value named new room;
  }

  claimed-Inv :
      (io : Write) (f : File) → w.file ≡ f → Inv (failing (append_to io f record_of claimed)).1
  unfolding append_to
  claimed-Inv written (regular lines) e = record {
    named = i.named;
    ours = still_ours;
    disk = Disk-adopt _ _ _ _ lines (rw e at i.disk) title value named new room;
  }
  claimed-Inv unsynced (regular lines) e = record {
    named = i.named;
    ours = still_ours;
    disk =
        Disk-fail _ _ _ _ _ (Disk-adopt _ _ _ _ lines (rw e at i.disk) title value named new room);
  }
  claimed-Inv torn (regular lines) e = record {
    named = i.named;
    ours = still_ours;
    disk = Disk-torn _ _ _ _ lines (rw e at i.disk) _ _;
  }
  claimed-Inv _ _ e = lost

register-Inv :
    (io : Write) (title : String) (value : Value) (w : World)
    → title ≢ ""
    → Inv w
    → Inv (register io title value w).1
unfolding register
register-Inv io title value w named i =
    if_ind Kept (contains title w.titles || leb title_limit (length w.titles))
      (λ _. Inv-set_failed w i)
      (λ accepted. claimed-Inv title value w named i (ground arith) (ground arith) io w.file refl)

retain-Inv :
    (c : Create) (io : Write) (title : String) (value : Value) (w : World)
    → title ≢ ""
    → Inv w
    → Inv (retain c io title value w).1
unfolding retain
retain-Inv c io title value w named i = go (prepare c w) (prepare-Inv c w i)
  where
    go : (r : Outcome) → Kept r → Kept (then_register io title value r)
    go (ok _, w') i' = register-Inv io title value w' named i'
    go (err _, w') i' = i'

confirm-Inv :
    (io : Write) (title : String) (e : Entry) (w : World)
    → get title w.records ≡ some e
    → Inv w
    → (f : File) → w.file ≡ f
    → Inv (forget title (append_to io f (record e { kind = text "released" }) w)).1
unfolding append_to
confirm-Inv written title e w live i (regular lines) q = record {
  named = i.named;
  ours = AllOurs-remove w.run_id title w.titles w.records i.ours;
  disk = Disk-drop _ _ _ _ lines (rw q at i.disk) title e i.ours live;
}
confirm-Inv unsynced title e w live i (regular lines) q = record {
  named = i.named;
  ours = i.ours;
  disk = Disk-unacknowledged _ _ _ _ lines (rw q at i.disk) title e i.ours live;
}
confirm-Inv torn title e w live i (regular lines) q = record {
  named = i.named;
  ours = i.ours;
  disk = Disk-torn _ _ _ _ lines (rw q at i.disk) _ _;
}
confirm-Inv _ title e w live i _ q = Inv-set_failed w i

pub released-Inv : (io : Write) (title : String) (w : World) → Inv w → Inv (released io title w).1
unfolding released
released-Inv io title w i = elim (Option-cases (get title w.records)) [
  | inl absent ↦ subst (λ o. Inv (confirm io title o w).1) (sym absent) i
  | inr (e, live) ↦
      subst (λ o. Inv (confirm io title o w).1) (sym live)
        (confirm-Inv io title e w live i w.file refl)
]

-- The title of a call that acquires.
abbrev pub IsNamed : Call → Type 0
IsNamed (retain_call _ _ title _) = title ≢ ""
IsNamed (unknown_call _ _ title) = title ≢ ""
IsNamed _ = Unit

call-Inv : (c : Call) (w : World) → IsNamed c → Inv w → Inv (call c w).1
unfolding call
call-Inv (prepare_call c) w _ i = prepare-Inv c w i
call-Inv (retain_call c io title value) w named i = retain-Inv c io title value w named i
call-Inv (released_call io title) w _ i = released-Inv io title w i
call-Inv (unknown_call c io title) w named i =
    retain-Inv c io title unknown_acquisition (set_failed w) named (Inv-set_failed w i)

pub run-Inv : (cs : List Call) (w : World) → All IsNamed cs → Inv w → Inv (run cs w)
unfolding run
run-Inv [] w named i = i
run-Inv (c ∷ cs) w named i = run-Inv cs (call c w).1 named.1 (call-Inv c w named.0 i)
