-- ===== src/Future/Tests.antt =====
-- A future at concrete inputs.
use kafka_python.Common.{ℕ, List, [], ◌∷◌, ◌≡◌, refl}
use kafka_python.Errors.{kafka_error}
use kafka_python.Future
use kafka_python.Future.{Call, callback}
use kafka_python.Future.Runs.{
  Step, success, failure, add_callback, add_both, run, expected, run_lem,
}

abbrev steps : List (Step ℕ)
steps = add_callback 1 ∷ success 42 ∷ add_both 2 ∷ failure kafka_error ∷ []

abbrev outcome : List (Call ℕ)
outcome = callback 1 42 ∷ callback 2 42 ∷ []

expected_calls : expected [] [] steps ≡ outcome
expected_calls = refl

run_example : (run Future.init steps).calls ≡ expected [] [] steps
run_example = run_lem steps
