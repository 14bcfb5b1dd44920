-- ===== src/Future/Runs.antt =====
-- Any order of completions and registrations, with each callback called as the outcome says.
use mathlib.Core.List.{append_assoc, append-nil, map-append}
use kafka_python.Common.{ℕ, true, false, none, some, List, [], ◌∷◌, ◌++◌, map, ◌≡◌, refl, sym, ◌∙◌}
use kafka_python.Errors.{Exc}
use kafka_python.Future
use kafka_python.Future.{Future, Call, callback, errback, call_callbacks, call_errbacks}

pub data Step (V : Type 0) : Type 0 where
  success : V → Step V
  failure : Exc → Step V
  add_callback add_errback add_both : ℕ → Step V

module _ {V : Type 0} where
  unfoldable pub step : Future V → Step V → Future V
  step s (success v) = (Future.success v s).1
  step s (failure e) = (Future.failure e s).1
  step s (add_callback f) = Future.add_callback f s
  step s (add_errback f) = Future.add_errback f s
  step s (add_both f) = Future.add_both f s

  unfoldable pub run : Future V → List (Step V) → Future V
  run s [] = s
  run s (c ∷ cs) = run (step s c) cs

  -- The callbacks, and the errbacks, that the steps add.
  abbrev pub callbacks_of : List (Step V) → List ℕ
  callbacks_of [] = []
  callbacks_of (add_callback f ∷ cs) = f ∷ callbacks_of cs
  callbacks_of (add_both f ∷ cs) = f ∷ callbacks_of cs
  callbacks_of (_ ∷ cs) = callbacks_of cs

  abbrev pub errbacks_of : List (Step V) → List ℕ
  errbacks_of [] = []
  errbacks_of (add_errback f ∷ cs) = f ∷ errbacks_of cs
  errbacks_of (add_both f ∷ cs) = f ∷ errbacks_of cs
  errbacks_of (_ ∷ cs) = errbacks_of cs

  -- The calls to expect: the first completion decides, and calls what is added before and after.
  abbrev pub expected : List ℕ → List ℕ → List (Step V) → List (Call V)
  expected fs gs [] = []
  expected fs gs (success v ∷ cs) = map (λ f. callback f v) (fs ++ callbacks_of cs)
  expected fs gs (failure e ∷ cs) = map (λ g. errback g e) (gs ++ errbacks_of cs)
  expected fs gs (add_callback f ∷ cs) = expected (fs ++ f ∷ []) gs cs
  expected fs gs (add_errback g ∷ cs) = expected fs (gs ++ g ∷ []) cs
  expected fs gs (add_both f ∷ cs) = expected (fs ++ f ∷ []) (gs ++ f ∷ []) cs

  -- A future that succeeded, that failed, and that waits.
  abbrev with_value : V → List ℕ → List ℕ → List (Call V) → Future V
  with_value v fs gs l = record {
    is_done = true;
    value = some v;
    exception = none;
    callbacks = fs;
    errbacks = gs;
    calls = l;
  }

  abbrev with_exception : Exc → List ℕ → List ℕ → List (Call V) → Future V
  with_exception e fs gs l = record {
    is_done = true;
    value = none;
    exception = some e;
    callbacks = fs;
    errbacks = gs;
    calls = l;
  }

  abbrev waiting : List ℕ → List ℕ → Future V
  waiting fs gs = record {
    is_done = false;
    value = none;
    exception = none;
    callbacks = fs;
    errbacks = gs;
    calls = [];
  }

  run-with_value :
      (v : V) (fs gs : List ℕ) (l : List (Call V)) (cs : List (Step V))
      → (run (with_value v fs gs l) cs).calls ≡ l ++ map (λ f. callback f v) (callbacks_of cs)
  unfolding run step Future.success Future.failure Future.add_callback Future.add_errback
      Future.add_both Future.succeeded Future.failed call_callbacks call_errbacks
  run-with_value v fs gs l [] = sym (append-nil l)
  run-with_value v fs gs l (success w ∷ cs) = run-with_value v fs gs l cs
  run-with_value v fs gs l (failure e ∷ cs) = run-with_value v fs gs l cs
  run-with_value v fs gs l (add_callback f ∷ cs) =
      run-with_value v fs gs (l ++ callback f v ∷ []) cs ∙ append_assoc l _ _
  run-with_value v fs gs l (add_errback f ∷ cs) = run-with_value v fs gs l cs
  run-with_value v fs gs l (add_both f ∷ cs) =
      run-with_value v fs gs (l ++ callback f v ∷ []) cs ∙ append_assoc l _ _

  run-with_exception :
      (e : Exc) (fs gs : List ℕ) (l : List (Call V)) (cs : List (Step V))
      → (run (with_exception e fs gs l) cs).calls ≡ l ++ map (λ g. errback g e) (errbacks_of cs)
  unfolding run step Future.success Future.failure Future.add_callback Future.add_errback
      Future.add_both Future.succeeded Future.failed call_callbacks call_errbacks
  run-with_exception e fs gs l [] = sym (append-nil l)
  run-with_exception e fs gs l (success w ∷ cs) = run-with_exception e fs gs l cs
  run-with_exception e fs gs l (failure w ∷ cs) = run-with_exception e fs gs l cs
  run-with_exception e fs gs l (add_callback f ∷ cs) = run-with_exception e fs gs l cs
  run-with_exception e fs gs l (add_errback f ∷ cs) =
      run-with_exception e fs gs (l ++ errback f e ∷ []) cs ∙ append_assoc l _ _
  run-with_exception e fs gs l (add_both f ∷ cs) =
      run-with_exception e fs gs (l ++ errback f e ∷ []) cs ∙ append_assoc l _ _

  run-waiting :
      (fs gs : List ℕ) (cs : List (Step V)) → (run (waiting fs gs) cs).calls ≡ expected fs gs cs
  unfolding run step Future.success Future.failure Future.add_callback Future.add_errback
      Future.add_both Future.succeeded Future.failed call_callbacks call_errbacks
  run-waiting fs gs [] = refl
  run-waiting fs gs (success v ∷ cs) =
      run-with_value v fs gs (map (λ f. callback f v) fs) cs
      ∙ sym (map-append (λ f. callback f v) fs (callbacks_of cs))
  run-waiting fs gs (failure e ∷ cs) =
      run-with_exception e fs gs (map (λ g. errback g e) gs) cs
      ∙ sym (map-append (λ g. errback g e) gs (errbacks_of cs))
  run-waiting fs gs (add_callback f ∷ cs) = run-waiting (fs ++ f ∷ []) gs cs
  run-waiting fs gs (add_errback f ∷ cs) = run-waiting fs (gs ++ f ∷ []) cs
  run-waiting fs gs (add_both f ∷ cs) = run-waiting (fs ++ f ∷ []) (gs ++ f ∷ []) cs

  -- Whatever the order in which a future is completed and its callbacks are added, the first
  -- completion decides: a success calls each callback once with the value, in the order in which
  -- they are added, before and after it, and no errback; a failure calls the errbacks so, and no
  -- callback; and without a completion nothing is called.
  pub run_lem : (cs : List (Step V)) → (run Future.init cs).calls ≡ expected [] [] cs
  unfolding Future.init
  run_lem cs = run-waiting [] [] cs
