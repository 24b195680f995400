-- ===== src/Retry.antt =====
-- packages/nanolab/src/nanolab/release/remote_retry.py: the retry of an operation whose connection died.
-- The operation is what each of its calls gives, by the number of the call; `return_code` is the
-- attribute of that name of a result. The pauses are recorded in order.
pub mod Attempts
mod Examples
use nanolab.Prelude.{
  ℕ, zero, suc, ◌+◌, ◌*◌, Bool, true, false, not, ◌&&◌, List, [], ◌∷◌, if◌then◌else◌, Result, ok,
  err, min, ◌==◌, number_equality,
}

pub data ℤ : Type 0 where
  pos negsuc : ℕ → ℤ

-- `getattr(result, "return_code", None)`: nothing, an object that is no `int`, a `bool`, which Python
-- counts as an `int`, or a number.
pub data ReturnCode : Type 0 where
  absent foreign : ReturnCode
  boolean : Bool → ReturnCode
  integer : ℤ → ReturnCode

abbrev pub connection_dead : ℤ
connection_dead = negsuc 0

abbrev pub same_number : ℤ → ℤ → Bool
same_number (pos m) (pos n) = m == n
same_number (negsuc m) (negsuc n) = m == n
same_number _ _ = false

-- The test of a return code; whether the attempt is the last one is asked in `turn`.
unfoldable pub is_dead : ReturnCode → Bool
is_dead (integer n) = same_number n connection_dead
is_dead _ = false

-- How a call of `retry_on_connection_death` ends. With no attempt at all the loop falls through.
pub data End (E T : Type 0) : Type 0 where
  returned : T → End E T
  raised : E → End E T
  unreachable : End E T

pub record Trace (E T : Type 0) : Type 0 where
  pub sleeps : List ℕ
  pub end : End E T

module _ {E T : Type 0} where
  -- `sleep(min(5 * attempt, 30))`, then the rest of the loop.
  abbrev after_pause : ℕ → Trace E T → Trace E T
  after_pause attempt t = record { sleeps = min (5 * attempt) 30 ∷ t.sleeps; end = t.end }

module _ {E T : Type 0} (return_code : T → ReturnCode) where
  -- One turn, by what the operation gave, with the rest of the loop.
  abbrev turn : ℕ → Bool → Result E T → Trace E T → Trace E T
  turn attempt last (err e) rest =
      if last then record { sleeps = []; end = raised e } else after_pause attempt rest
  turn attempt last (ok result) rest =
      if is_dead (return_code result) && not last
      then after_pause attempt rest
      else record { sleeps = []; end = returned result }

module _ {E T : Type 0} (return_code : T → ReturnCode) (operation : ℕ → Result E T) where
  -- The attempts from a number on, that many of them.
  retry_from : ℕ → ℕ → Trace E T
  retry_from attempt zero = record { sleeps = []; end = unreachable }
  retry_from attempt (suc n) =
      turn return_code attempt (n == 0) (operation attempt) (retry_from (suc attempt) n)

  unfoldable pub retry_on_connection_death : ℕ → Trace E T
  unfolding retry_from
  retry_on_connection_death attempts = retry_from 1 attempts
