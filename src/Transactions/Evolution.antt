-- ===== src/Transactions/Evolution.antt =====
-- How the manager may change: along the allowed transitions, with the error and the queue in step.
pub mod Handlers
pub mod Calls
use kafka_python.Common.{ℕ, ◌+◌, ◌≤◌, ◌<◌, ◌≡◌, refl, Bool, true, false, ◌||◌, Option, none, some}
use kafka_python.Common.{List, [], ◌∷◌, arith, All, All-map, is_some, Bool-cases, inl, inr}
use kafka_python.Errors.{Exc, kafka_error}
use kafka_python.Exec.{ok, err, pure, raise, gets, modify, when, ◌>>=◌, ◌>>◌}
use kafka_python.Exec.Steps.{IsPreorder, Steps}
use kafka_python.Transactions.State.{
  TransactionState, uninitialized, initializing, ready, in_transaction, committing_transaction,
  aborting_transaction, abortable_error, fatal_error,
}
use kafka_python.Transactions.State.{is_transition_valid, rank}
use kafka_python.Transactions.Requests.{Handler, Kind, Request, Pending, heappush, priority}
use kafka_python.Transactions.Manager.{
  TransactionManager, M, transition_to, enter, enqueue_request, done, new_handler,
}
use kafka_python.Transactions.Queue.{IsOrdered, IsNumbered, All-heappush, heappush-IsOrdered}

-- From one state to another by allowed transitions, each to a target in `P`.
pub data Reaches (P : TransactionState → Bool) (s : TransactionState)
    : TransactionState → Type 0 where
  here : Reaches P s s
  next :
      {t : TransactionState} (u : TransactionState)
      → Reaches P s t
      → is_transition_valid t u ≡ true
      → P u ≡ true
      → Reaches P s u

pub Reaches-trans :
    {P : TransactionState → Bool} {s t u : TransactionState}
    → Reaches P s t
    → Reaches P t u
    → Reaches P s u
Reaches-trans p here = p
Reaches-trans p (next u q e k) = next u (Reaches-trans p q) e k

-- Any target.
abbrev pub any : TransactionState → Bool
any _ = true

-- The targets of the handlers.
abbrev pub only_ready : TransactionState → Bool
only_ready ready = true
only_ready _ = false

abbrev pub is_error_state : TransactionState → Bool
is_error_state abortable_error = true
is_error_state fatal_error = true
is_error_state _ = false

-- Between calls: an error is recorded exactly in the two error states, and the queue is ordered.
pub record IsConsistent (s : TransactionManager) : Type 0 where
  pub errors : is_some s.last_error ≡ is_error_state s.current_state
  pub ordered : IsOrdered s.pending_requests
  pub numbered : All (IsNumbered s.pending_requests_sort_id) s.pending_requests

pub record Evolves (P : TransactionState → Bool) (s t : TransactionManager) : Type 0 where
  pub path : Reaches P s.current_state t.current_state
  pub consistent : IsConsistent s → IsConsistent t

pub Evolves-preorder : {P : TransactionState → Bool} → IsPreorder (Evolves P)
Evolves-preorder = record {
  refl_at = λ s. record { path = here; consistent = λ c. c };
  trans_at = λ h k. record {
    path = Reaches-trans h.path k.path;
    consistent = λ c. k.consistent (h.consistent c);
  };
}

-- A change of the other fields.
abbrev pub SameCore : TransactionManager → TransactionManager → Type 0
SameCore s t =
    (t.current_state ≡ s.current_state)
    × (t.last_error ≡ s.last_error)
    × (t.pending_requests ≡ s.pending_requests)
    × (t.pending_requests_sort_id ≡ s.pending_requests_sort_id)

pub SameCore-Evolves :
    {P : TransactionState → Bool} (s t : TransactionManager) → SameCore s t → Evolves P s t
SameCore-Evolves s t (a, b, c, d) = record {
  path = rw a here;
  consistent = λ k. record {
    errors = rw (a, b) k.errors;
    ordered = rw c k.ordered;
    numbered = rw (c, d) k.numbered;
  };
}

pub modify-Evolves :
    {P : TransactionState → Bool} (f : TransactionManager → TransactionManager)
    → ((s : TransactionManager) → SameCore s (f s))
    → Steps (Evolves P) (modify f)
unfolding ◌>>=◌
modify-Evolves f h = record { at = λ s. SameCore-Evolves s (f s) (h s) }

pub done-Evolves :
    {P : TransactionState → Bool} (i : ℕ) (e : Option Exc) → Steps (Evolves P) (done i e)
unfolding done
done-Evolves i e = record { at = λ s. SameCore-Evolves s _ (refl, refl, refl, refl) }

pub new_handler-Evolves :
    {P : TransactionState → Bool} (k : Kind) (r : Request) → Steps (Evolves P) (new_handler k r)
unfolding new_handler
new_handler-Evolves k r = record { at = λ s. SameCore-Evolves s _ (refl, refl, refl, refl) }

-- `enter` is called for a target that is allowed.
enter-path :
    {P : TransactionState → Bool} (t : TransactionState) (e : Option Exc) (s : TransactionManager)
    → is_transition_valid s.current_state t ≡ true
    → P t ≡ true
    → Reaches P s.current_state (enter t e s).1.current_state
unfolding enter
enter-path t (some e) s h k = next t here h k
enter-path uninitialized none s h k = next uninitialized here h k
enter-path initializing none s h k = next initializing here h k
enter-path ready none s h k = next ready here h k
enter-path in_transaction none s h k = next in_transaction here h k
enter-path committing_transaction none s h k = next committing_transaction here h k
enter-path aborting_transaction none s h k = next aborting_transaction here h k
enter-path abortable_error none s h k = here
enter-path fatal_error none s h k = here

enter-errors :
    (t : TransactionState) (e : Option Exc) (s : TransactionManager)
    → is_some s.last_error ≡ is_error_state s.current_state
    → is_some (enter t e s).1.last_error ≡ is_error_state (enter t e s).1.current_state
unfolding enter
enter-errors t e s h = ground arith

enter-queue :
    (t : TransactionState) (e : Option Exc) (s : TransactionManager)
    → ((enter t e s).1.pending_requests ≡ s.pending_requests)
      × ((enter t e s).1.pending_requests_sort_id ≡ s.pending_requests_sort_id)
unfolding enter
enter-queue t e s = ground arith

enter-Evolves :
    {P : TransactionState → Bool} (t : TransactionState) (e : Option Exc) (s : TransactionManager)
    → is_transition_valid s.current_state t ≡ true
    → P t ≡ true
    → Evolves P s (enter t e s).1
enter-Evolves t e s h p = record {
  path = enter-path t e s h p;
  consistent = λ k. record {
    errors = enter-errors t e s k.errors;
    ordered = rw ((enter-queue t e s).0) k.ordered;
    numbered = rw ((enter-queue t e s).0, (enter-queue t e s).1) k.numbered;
  };
}

transition_to_valid :
    (t : TransactionState) (e : Option Exc) (s : TransactionManager)
    → is_transition_valid s.current_state t ≡ true
    → transition_to t e s ≡ enter t e s
unfolding transition_to
transition_to_valid t e s h = rw h

transition_to_invalid :
    (t : TransactionState) (e : Option Exc) (s : TransactionManager)
    → is_transition_valid s.current_state t ≡ false
    → transition_to t e s ≡ (err kafka_error, s)
unfolding transition_to
transition_to_invalid t e s h = rw h

-- Every change of state is checked against the table first.
pub transition_to-Evolves :
    {P : TransactionState → Bool} (t : TransactionState) (e : Option Exc)
    → P t ≡ true
    → Steps (Evolves P) (transition_to t e)
transition_to-Evolves t e p = record {
  at = λ s. elim (Bool-cases (is_transition_valid s.current_state t)) [
    | inl h ↦ rw (transition_to_valid t e s h) (enter-Evolves t e s h p)
    | inr h ↦ rw (transition_to_invalid t e s h) (Evolves-preorder.refl_at s)
  ];
}

IsNumbered-suc : (n : ℕ) (h : List Pending) → All (IsNumbered n) h → All (IsNumbered (n + 1)) h
IsNumbered-suc n h a = All-map (IsNumbered n) (IsNumbered (n + 1)) h (λ p k. omega arith) a

-- A request that is enqueued is numbered after all that were enqueued before it.
pub enqueue_request-Evolves :
    {P : TransactionState → Bool} (h : Handler) → Steps (Evolves P) (enqueue_request h)
unfolding enqueue_request
enqueue_request-Evolves h = record {
  at = λ s. record {
    path = here;
    consistent = λ k.
        let n = s.pending_requests_sort_id in
        record {
          errors = k.errors;
          ordered =
              heappush-IsOrdered s.pending_requests _
                (All-map (IsNumbered n) (λ q. q.sort_id < n + 1) s.pending_requests
                  (λ p j. omega arith) k.numbered)
                k.ordered;
          numbered =
              All-heappush (IsNumbered (n + 1)) s.pending_requests _
                (IsNumbered-suc n s.pending_requests k.numbered) (omega arith, refl);
        };
  };
}

pub ruleset evolution_rules = (
  Evolves-preorder, modify-Evolves, done-Evolves, new_handler-Evolves, transition_to-Evolves,
  enqueue_request-Evolves,
)
