-- ===== src/Offload/Reconciled.antt =====
-- When the offload counters reconcile.
use nanolab.Prelude.{
  ℕ, ◌+◌, ◌≤◌, ◌<◌, ◌≡◌, ◌↔◌, refl, Bool, true, false, List, [], ◌∷◌, String, Result, ok, err,
  length, ◌==◌, number_equality, arith, All,
}
use nanolab.Offload.{
  Readings, OffloadFailure, control_offloaded, control_in_cloud, offload_failed, retried, value_of,
  unread_of, check_close, check_some, check_at_most, check_absent, collect, checks_of, failures_of,
  passed,
}

-- Two counters that were read lie within the tolerance.
abbrev pub Close : ℕ → Result String ℕ → Result String ℕ → Type 0
Close tolerance (ok a) (ok b) = (a ≤ b + tolerance) × (b ≤ a + tolerance)
Close tolerance _ _ = ⊥

-- A counter that was read is at most the tolerance.
abbrev pub AtMost : ℕ → Result String ℕ → Type 0
AtMost tolerance (ok n) = n ≤ tolerance
AtMost tolerance (err e) = ⊥

abbrev pub Positive : Result String ℕ → Type 0
Positive (ok n) = 0 < n
Positive (err e) = ⊥

-- The offloadable function's requests agree with the edge's successes, the offloaded requests with the
-- edge's count and with the cloud's; the offloads of the control function and the retries of both
-- functions are counted up to the tolerance, not required to be zero; the cloud does not know the
-- control function, and no offload failure is exposed.
pub record Reconciled (tolerance : ℕ) (r : Readings) : Type 0 where
  pub served : Close tolerance r.k6_offloadable_requests r.edge_success_offloadable
  pub offloaded : Positive r.k6_offloaded_requests
  pub counted : Close tolerance r.k6_offloaded_requests r.edge_offload_total
  pub arrived : Close tolerance r.edge_offload_total r.cloud_success_offloadable
  pub end_to_end : Close tolerance r.k6_offloaded_requests r.cloud_success_offloadable
  pub control_stays : AtMost tolerance r.edge_offload_control
  pub control_absent : r.cloud_mentions_control ≡ false
  pub none_failed : r.edge_exposes_failures ≡ false
  pub no_retries : AtMost tolerance r.edge_retries_offloadable
  pub no_control_retries : AtMost tolerance r.edge_retries_control

abbrev IsEmpty : List OffloadFailure → Type 0
IsEmpty fs = fs ≡ []

collect-IsEmpty : (parts : List (List OffloadFailure)) → collect parts ≡ [] → All IsEmpty parts
unfolding collect
collect-IsEmpty [] h = tt
collect-IsEmpty ([] ∷ more) h = (refl, collect-IsEmpty more h)
collect-IsEmpty ((f ∷ fs) ∷ more) h = absurd (ground arith)

IsEmpty-collect : (parts : List (List OffloadFailure)) → All IsEmpty parts → collect parts ≡ []
unfolding collect
IsEmpty-collect [] h = refl
IsEmpty-collect (fs ∷ more) (nothing, rest) = rw nothing (IsEmpty-collect more rest)

-- Two readings without a failure.
near-Close :
    (tolerance : ℕ) (a b : Result String ℕ)
    → (IsEmpty (unread_of a)
        × IsEmpty (unread_of b)
        × IsEmpty (check_close tolerance (value_of a) (value_of b)))
      ↔ Close tolerance a b
near-Close tolerance (ok a) (ok b) = ground arith
near-Close tolerance (ok a) (err e) = ground arith
near-Close tolerance (err e) b = ground arith

within-AtMost :
    (tolerance : ℕ) (f : OffloadFailure) (a : Result String ℕ)
    → (IsEmpty (unread_of a) × IsEmpty (check_at_most tolerance f (value_of a)))
      ↔ AtMost tolerance a
within-AtMost tolerance f (ok a) = ground arith
within-AtMost tolerance f (err e) = ground arith

some-Positive :
    (a : Result String ℕ) → (IsEmpty (unread_of a) × IsEmpty (check_some (value_of a))) ↔ Positive a
some-Positive (ok a) = ground arith
some-Positive (err e) = ground arith

check_absent-IsEmpty : (f : OffloadFailure) (b : Bool) → IsEmpty (check_absent f b) ↔ (b ≡ false)
check_absent-IsEmpty f b = ground arith

length-IsEmpty : (fs : List OffloadFailure) → ((length fs == 0) ≡ true) ↔ IsEmpty fs
length-IsEmpty [] = ground arith
length-IsEmpty (f ∷ fs) = ground arith

-- A run passes exactly when every counter was read and they reconcile: up to the tolerance, also
-- offloads of the control function and retries of either function are accepted.
pub passed_iff :
    (tolerance : ℕ) (r : Readings) → (passed tolerance r ≡ true) ↔ Reconciled tolerance r
unfolding passed failures_of
passed_iff tolerance r = (forth, back)
  where
    forth : passed tolerance r ≡ true → Reconciled tolerance r
    forth h =
        let (
          served,
          (
            edge,
            (
              near,
              (
                k6,
                (
                  some_load,
                  (
                    counted,
                    (
                      cloud,
                      (
                        near2,
                        (
                          near3,
                          (
                            near4,
                            (
                              control,
                              (stays, (absent, (failed, (retries, (few, (retries2, (few2, _))))))),
                            ),
                          ),
                        ),
                      ),
                    ),
                  ),
                ),
              ),
            ),
          ),
        ) =
          collect-IsEmpty (checks_of tolerance r)
            ((length-IsEmpty (failures_of tolerance r)).0 h) in
        record {
          served = (near-Close tolerance _ _).0 (served, edge, near);
          offloaded = (some-Positive _).0 (k6, some_load);
          counted = (near-Close tolerance _ _).0 (k6, counted, near2);
          arrived = (near-Close tolerance _ _).0 (counted, cloud, near3);
          end_to_end = (near-Close tolerance _ _).0 (k6, cloud, near4);
          control_stays = (within-AtMost tolerance control_offloaded _).0 (control, stays);
          control_absent = (check_absent-IsEmpty control_in_cloud _).0 absent;
          none_failed = (check_absent-IsEmpty offload_failed _).0 failed;
          no_retries = (within-AtMost tolerance retried _).0 (retries, few);
          no_control_retries = (within-AtMost tolerance retried _).0 (retries2, few2);
        }

    back : Reconciled tolerance r → passed tolerance r ≡ true
    back c =
        let (served, edge, near) =
          (near-Close tolerance r.k6_offloadable_requests r.edge_success_offloadable).1 c.served in
        let (k6, some_load) = (some-Positive r.k6_offloaded_requests).1 c.offloaded in
        let (_, counted, near2) =
          (near-Close tolerance r.k6_offloaded_requests r.edge_offload_total).1 c.counted in
        let (_, cloud, near3) =
          (near-Close tolerance r.edge_offload_total r.cloud_success_offloadable).1 c.arrived in
        let (_, _, near4) =
          (near-Close tolerance r.k6_offloaded_requests r.cloud_success_offloadable).1
            c.end_to_end in
        let (control, stays) =
          (within-AtMost tolerance control_offloaded r.edge_offload_control).1 c.control_stays in
        let (retries, few) =
          (within-AtMost tolerance retried r.edge_retries_offloadable).1 c.no_retries in
        let (retries2, few2) =
          (within-AtMost tolerance retried r.edge_retries_control).1 c.no_control_retries in
        (length-IsEmpty _).1 (
          IsEmpty-collect (checks_of tolerance r) (
            served,
            (
              edge,
              (
                near,
                (
                  k6,
                  (
                    some_load,
                    (
                      counted,
                      (
                        cloud,
                        (
                          near2,
                          (
                            near3,
                            (
                              near4,
                              (
                                control,
                                (
                                  stays,
                                  (
                                    (check_absent-IsEmpty control_in_cloud
                                          r.cloud_mentions_control).1
                                        c.control_absent,
                                    (
                                      (check_absent-IsEmpty offload_failed
                                            r.edge_exposes_failures).1
                                          c.none_failed,
                                      (retries, (few, (retries2, (few2, tt)))),
                                    ),
                                  ),
                                ),
                              ),
                            ),
                          ),
                        ),
                      ),
                    ),
                  ),
                ),
              ),
            ),
          ))
