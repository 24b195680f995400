-- ===== src/Concurrency/Watcher.antt =====
-- ConcurrencyWatcher of concurrency.py: how scrapes become the series that is judged. The clock and the
-- probe are arguments: one poll is the time that the clock read, and what the probe returned.
pub mod Series
use nanolab.Prelude.{
  ℕ, zero, suc, ◌+◌, ◌-◌, ◌≤◌, ◌≡◌, refl, Bool, true, false, not, ◌&&◌, ◌||◌, Option, none, some,
  List, [], ◌∷◌, ◌++◌, if◌then◌else◌, ltb, String, arith, length, Result, ok, err,
}
use nanolab.Concurrency.Samples.{ConcurrencyReading, ConcurrencySample}

-- The operations on floats that the watcher calls.
pub record Floats (F : Type 0) : Type 0 where
  pub minus : F → F → F
  pub over_count : F → ℕ → F
  pub count_over : ℕ → F → F
  pub is_positive : F → Bool
  pub is_negative : F → Bool
  pub is_zero : F → Bool
  pub round_to : F → ℕ → F

pub record Watcher (F : Type 0) : Type 0 where
  pub samples : List (ConcurrencySample F)
  pub previous : Option (ConcurrencyReading F)
  pub previous_at : Option F
  pub started_at : Option F
  pub errors : List String
  pub running : Bool

pub record Poll (F : Type 0) : Type 0 where
  pub now : F
  pub scrape : Result String (ConcurrencyReading F)

-- What `_interval` returns.
pub record Interval (F : Type 0) : Type 0 where
  pub mean_latency_ms : Option F
  pub throughput_rps : Option F
  pub mean_queue_wait_ms : Option F

pub data AlreadyStarted : Type 0 where
  already_started : AlreadyStarted

abbrev pub fresh : {F : Type 0} → Watcher F
fresh = record {
  samples = [];
  previous = none;
  previous_at = none;
  started_at = none;
  errors = [];
  running = false;
}

abbrev idle_interval : {F : Type 0} → Interval F
idle_interval = record { mean_latency_ms = none; throughput_rps = none; mean_queue_wait_ms = none }

-- `max(0.0, reading.rejected - previous.rejected)`: subtraction on ℕ stops at 0.
abbrev pub rejected_since_previous :
    {F : Type 0} → Option (ConcurrencyReading F) → ConcurrencyReading F → ℕ
rejected_since_previous none reading = 0
rejected_since_previous (some previous) reading = reading.rejected - previous.rejected

module _ {F : Type 0} (floats : Floats F) where
  -- `round(now - (self._started_at or now), 3)`: a start at 0.0 counts as none.
  abbrev elapsed_since : Option F → F → F
  elapsed_since none now = floats.round_to (floats.minus now now) 3
  elapsed_since (some started) now =
      floats.round_to (floats.minus now (if floats.is_zero started then now else started)) 3

  abbrev mean_queue_wait : ConcurrencyReading F → ConcurrencyReading F → Option F
  mean_queue_wait previous reading =
      if not (ltb previous.queue_wait_count reading.queue_wait_count)
        || floats.is_negative
            (floats.minus reading.queue_wait_total_ms previous.queue_wait_total_ms)
      then none
      else some (
          floats.round_to
            (floats.over_count
              (floats.minus reading.queue_wait_total_ms previous.queue_wait_total_ms)
              (reading.queue_wait_count - previous.queue_wait_count))
            2)

  abbrev closed_interval : ConcurrencyReading F → F → ConcurrencyReading F → F → Interval F
  closed_interval previous previous_at reading now =
      if not (ltb previous.latency_count reading.latency_count)
        || not
            (floats.is_positive (floats.minus reading.latency_total_ms previous.latency_total_ms))
        || not (floats.is_positive (floats.minus now previous_at))
      then idle_interval
      else record {
        mean_latency_ms = some (
            floats.round_to
              (floats.over_count (floats.minus reading.latency_total_ms previous.latency_total_ms)
                (reading.latency_count - previous.latency_count))
              2);
        throughput_rps = some (
            floats.round_to
              (floats.count_over (reading.latency_count - previous.latency_count)
                (floats.minus now previous_at))
              1);
        mean_queue_wait_ms = mean_queue_wait previous reading;
      }

  abbrev interval : Option (ConcurrencyReading F) → Option F → ConcurrencyReading F → F → Interval F
  interval (some previous) (some previous_at) reading now =
      closed_interval previous previous_at reading now
  interval _ _ reading now = idle_interval

  abbrev new_sample : Watcher F → F → ConcurrencyReading F → Interval F → ConcurrencySample F
  new_sample w now reading i = record {
    elapsed_seconds = elapsed_since w.started_at now;
    effective = reading.effective;
    in_flight = reading.in_flight;
    mean_latency_ms = i.mean_latency_ms;
    throughput_rps = i.throughput_rps;
    queue_depth = reading.queue_depth;
    mean_queue_wait_ms = i.mean_queue_wait_ms;
    rejected = rejected_since_previous w.previous reading;
  }

  abbrev accept : Watcher F → F → Result String (ConcurrencyReading F) → Watcher F
  accept w now (err e) = record w { errors = w.errors ++ e ∷ [] }
  accept w now (ok reading) = record w {
    samples =
        w.samples ++ new_sample w now reading (interval w.previous w.previous_at reading now) ∷ [];
    previous = some reading;
    previous_at = some now;
  }

  -- `_sample`
  unfoldable pub sample : Watcher F → Poll F → Watcher F
  sample w poll = accept w poll.now poll.scrape

  -- `_loop`, for the polls until the stop event is set.
  unfoldable pub loop : Watcher F → List (Poll F) → Watcher F
  loop w [] = w
  loop w (poll ∷ polls) = loop (sample w poll) polls

  -- `start` at a time of the clock, with the opening poll.
  unfoldable pub start : Watcher F → F → Poll F → Result AlreadyStarted (Watcher F)
  unfolding sample
  start w now opening =
      if w.running
      then err already_started
      else ok (record (sample (record w { started_at = some now }) opening) { running = true })

  unfoldable pub stop : Watcher F → Watcher F
  stop w = record w { running = false }
