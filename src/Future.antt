-- ===== src/Future.antt =====
-- kafka/future.py: a result that comes later, with its callbacks.
pub mod Runs
mod Tests
use kafka_python.Common.{
  ℕ, Bool, true, false, not, ◌&&◌, Option, none, some, List, [], ◌∷◌, ◌++◌, is_some, map,
  if◌then◌else◌,
}
use kafka_python.Errors.{Exc, assertion_error}
use kafka_python.Exec.{Exec, ok, err}

-- A callback is a number that names it. What the callbacks raise is logged and goes no further.
pub data Call (V : Type 0) : Type 0 where
  callback : ℕ → V → Call V
  errback : ℕ → Exc → Call V

-- `calls` has the calls of callbacks and errbacks that were made, oldest first.
pub record Future (V : Type 0) : Type 0 where
  pub is_done : Bool
  pub value : Option V
  pub exception : Option Exc
  pub callbacks : List ℕ
  pub errbacks : List ℕ
  pub calls : List (Call V)

module _ {V : Type 0} where
  unfoldable pub init : Future V
  init = record {
    is_done = false;
    value = none;
    exception = none;
    callbacks = [];
    errbacks = [];
    calls = [];
  }

  unfoldable pub succeeded : Future V → Bool
  succeeded s = s.is_done && not (is_some s.exception)

  unfoldable pub failed : Future V → Bool
  failed s = s.is_done && is_some s.exception

  -- `_call_backs`, for the two kinds
  unfoldable pub call_callbacks : List ℕ → Option V → List (Call V)
  call_callbacks fs none = []
  call_callbacks fs (some v) = map (λ f. callback f v) fs

  unfoldable pub call_errbacks : List ℕ → Option Exc → List (Call V)
  call_errbacks fs none = []
  call_errbacks fs (some e) = map (λ f. errback f e) fs

  unfoldable pub success : V → Exec (Future V) (Unit {0})
  success v s = if s.is_done then (err assertion_error, s) else (
    ok tt,
    record s {
      value = some v;
      is_done = true;
      calls = s.calls ++ call_callbacks s.callbacks (some v);
    },
  )

  unfoldable pub failure : Exc → Exec (Future V) (Unit {0})
  failure e s = if s.is_done then (err assertion_error, s) else (
    ok tt,
    record s {
      exception = some e;
      is_done = true;
      calls = s.calls ++ call_errbacks s.errbacks (some e);
    },
  )

  unfoldable pub add_callback : ℕ → Future V → Future V
  add_callback f s =
      if not s.is_done
      then record s { callbacks = s.callbacks ++ f ∷ [] }
      else if succeeded s
      then record s { calls = s.calls ++ call_callbacks (f ∷ []) s.value }
      else s

  unfoldable pub add_errback : ℕ → Future V → Future V
  add_errback f s =
      if not s.is_done
      then record s { errbacks = s.errbacks ++ f ∷ [] }
      else if failed s
      then record s { calls = s.calls ++ call_errbacks (f ∷ []) s.exception }
      else s

  unfoldable pub add_both : ℕ → Future V → Future V
  add_both f s = add_errback f (add_callback f s)
