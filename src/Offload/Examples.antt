-- ===== src/Offload/Examples.antt =====
-- A run that reconciles.
use nanolab.Prelude.{◌≡◌, ◌↔◌, refl, true, false, ok, err}
use nanolab.Offload.{Readings, passed, failures_of, collect}
use nanolab.Offload.Reconciled.{Reconciled, passed_iff}

abbrev readings : Readings
readings = record {
  k6_offloadable_requests = ok 1000;
  edge_success_offloadable = ok 998;
  k6_offloaded_requests = ok 400;
  edge_offload_total = ok 401;
  cloud_success_offloadable = ok 400;
  edge_offload_control = ok 0;
  edge_retries_offloadable = ok 0;
  edge_retries_control = ok 0;
  cloud_mentions_control = false;
  edge_exposes_failures = false;
}

passed_test : passed 5 readings ≡ true
unfolding passed failures_of collect
passed_test = refl

-- Without the cloud's counter the run does not pass.
unread_test :
    passed 5 (record readings { cloud_success_offloadable = err "missing required counter" })
    ≡ false
unfolding passed failures_of collect
unread_test = refl

-- As many offloads of the control function and retries as the tolerance still pass, one more does not.
tolerated_test :
    passed 5 (record readings { edge_offload_control = ok 5; edge_retries_offloadable = ok 5 })
    ≡ true
unfolding passed failures_of collect
tolerated_test = refl

exceeded_test : passed 5 (record readings { edge_offload_control = ok 6 }) ≡ false
unfolding passed failures_of collect
exceeded_test = refl

passed_iff_example : (passed 5 readings ≡ true) ↔ Reconciled 5 readings
passed_iff_example = passed_iff 5 readings
