-- ===== src/Retry/Examples.antt =====
-- A connection that dies twice.
use nanolab.Prelude.{
  ℕ, ◌≡◌, refl, true, [], ◌∷◌, String, Result, ok, err, arith, if◌then◌else◌, ltb,
}
use nanolab.Retry.{
  ReturnCode, boolean, integer, pos, negsuc, returned, is_dead, retry_on_connection_death,
}
use nanolab.Retry.Attempts.{Made, retry_on_connection_death-Made}

-- The results are return codes.
abbrev code : ReturnCode → ReturnCode
code c = c

abbrev flaky : ℕ → Result String ReturnCode
flaky i =
    if ltb i 2
    then err "no route"
    else (if ltb i 3 then ok (integer (negsuc 0)) else ok (integer (pos 1)))

retry_test :
    retry_on_connection_death code flaky 4
    ≡ record { sleeps = 5 ∷ 10 ∷ []; end = returned (integer (pos 1)) }
unfolding retry_on_connection_death is_dead
retry_test = refl

-- A `bool` is no return code of a dead connection.
boolean_test :
    retry_on_connection_death {E = String} code (λ _. ok (boolean true)) 4
    ≡ record { sleeps = []; end = returned (boolean true) }
unfolding retry_on_connection_death is_dead
boolean_test = refl

retry_on_connection_death-Made_example :
    Made code flaky 1 4 (retry_on_connection_death code flaky 4)
retry_on_connection_death-Made_example = retry_on_connection_death-Made code flaky 4 (omega arith)
