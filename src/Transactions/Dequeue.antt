-- ===== src/Transactions/Dequeue.antt =====
-- Which request `next_request_handler` hands to the sender thread.
use kafka_python.Transactions.Evolution.Calls.{add_new_partitions-Evolves}
use kafka_python.Transactions.Evolution.{IsConsistent}
use kafka_python.Transactions.State.{rank}
use kafka_python.Transactions.Queue.{IsOrdered, IsNumbered}
use kafka_python.Common.{
  ◌≡◌, refl, Bool, true, false, List, [], ◌∷◌, arith, All, All-map, Option, none, some, Bool-cases,
  inl, inr, subst, ◌&&◌, not, ℕ, ◌≤◌,
}
use kafka_python.Exec.{ok, ◌>>◌, ◌>>=◌, pure, Result, modify, gets}
use kafka_python.Transactions.Requests.{
  Handler, Pending, is_end_txn, is_find_coordinator, before, priority,
}
use kafka_python.Transactions.Manager.{
  TransactionManager, add_partitions_to_transaction_handler, enqueue_request, complete_transaction,
  has_error, has_abortable_error, done,
}
use kafka_python.Transactions.Calls.{add_new_partitions}
use kafka_python.Transactions.NextRequest.{
  next_request_handler, next_in, maybe_terminate_request_with_error, deliver, skip_end_txn,
}

-- The manager after the first `if` of `next_request_handler`.
abbrev prepared : TransactionManager → TransactionManager
prepared s = (add_new_partitions s).1

-- The part of the method below the first `if`, which never raises.
next_request_handler_lem :
    (b : Bool) (s : TransactionManager)
    → next_request_handler b s ≡ next_in b (prepared s).pending_requests (prepared s)
unfolding next_request_handler add_partitions_to_transaction_handler enqueue_request
    add_new_partitions ◌>>=◌
next_request_handler_lem b s = ground arith

-- While batches are incomplete no EndTxn is handed out.
next_in_no_end_txn :
    (q : List Pending) (s : TransactionManager) {h : Handler}
    → (next_in true q s).0 ≡ ok (some h)
    → is_end_txn h.kind ≡ false
unfolding next_in ◌>>=◌
next_in_no_end_txn q s e = ground arith

-- `h` is handed out with `left` in the queue, where the head was `head` and `rest` followed: it was
-- the first or, behind an EndTxn that is not sent, the second.
data Taken (head : Handler) (rest : List Pending) (h : Handler) (left : List Pending) : Type 0 where
  first : h ≡ head → left ≡ rest → Taken head rest h left
  second :
      (r : Pending) (l : List Pending)
      → rest ≡ r ∷ l
      → h ≡ r.handler
      → left ≡ l
      → Taken head rest h left

skip-Taken :
    (q : List Pending) (head : Handler) (s : TransactionManager) {h : Handler}
    → s.pending_requests ≡ q
    → (skip_end_txn head s).0 ≡ ok (some h)
    → Taken head q h (skip_end_txn head s).1.pending_requests
unfolding skip_end_txn complete_transaction ◌>>=◌
skip-Taken [] head s p e = absurd (ground arith)
skip-Taken (r ∷ l) head s p e = second r l refl (ground arith) (ground arith)

deliver_skip :
    (started : Bool) (head : Handler)
    → is_end_txn head.kind && not started ≡ true
    → deliver false started head ≡ skip_end_txn head
unfolding deliver
deliver_skip started head e = rw e

deliver_pass :
    (started : Bool) (head : Handler)
    → is_end_txn head.kind && not started ≡ false
    → deliver false started head ≡ pure (some head)
unfolding deliver
deliver_pass started head e = rw e

deliver-Taken :
    (terminated started : Bool) (head : Handler) (s : TransactionManager) {h : Handler}
    → (deliver terminated started head s).0 ≡ ok (some h)
    → Taken head s.pending_requests h (deliver terminated started head s).1.pending_requests
deliver-Taken true started head s e = absurd (unfold deliver ◌>>=◌ in ground arith)
deliver-Taken false started head s {h} e = elim (Bool-cases (is_end_txn head.kind && not started)) [
  | inl k ↦
      let e' : (skip_end_txn head s).0 ≡ ok (some h) = rw (deliver_skip started head k) at e in
      rw (deliver_skip started head k) (skip-Taken s.pending_requests head s refl e')
  | inr k ↦
      let e' : (pure (some head) s).0 ≡ ok (some h) = rw (deliver_pass started head k) at e in
      rw (deliver_pass started head k) (unfold ◌>>=◌ in first (ground (arith, e')) refl)
]

-- `maybe_terminate_request_with_error` never raises, and leaves the queue alone.
terminate_lem :
    (head : Handler) (s : TransactionManager)
    → (t : Bool) × (s' : TransactionManager) × (maybe_terminate_request_with_error head s
        ≡ (ok t, s'))
      × (s'.pending_requests ≡ s.pending_requests)
unfolding maybe_terminate_request_with_error has_error has_abortable_error ◌>>=◌
terminate_lem head s =
    elim (Bool-cases
      (has_error s && not (has_abortable_error s && is_find_coordinator head.kind))) [
        | inl e ↦ (true, (done head.result s.last_error s).1, rw e, unfold done in refl)
        | inr e ↦ (false, s, rw e, refl)
      ]

-- The part of `next_of` behind its test.
abbrev pop_and_deliver :
    Pending → List Pending → TransactionManager → Result (Option Handler) × TransactionManager
pop_and_deliver p rest = do
  modify λ s. record s { pending_requests = rest }
  terminated ← maybe_terminate_request_with_error p.handler
  started ← gets λ s. s.transaction_started
  deliver terminated started p.handler

pop_and_deliver_lem :
    (p : Pending) (rest : List Pending) (s : TransactionManager)
    → (t : Bool) × (s' : TransactionManager) × (pop_and_deliver p rest s
        ≡ deliver t s'.transaction_started p.handler s')
      × (s'.pending_requests ≡ rest)
unfolding ◌>>=◌
pop_and_deliver_lem p rest s =
    let (t, s', e, k) = terminate_lem p.handler (record s { pending_requests = rest }) in
    (t, s', rw e, k)

next_in_waits :
    (b : Bool) (p : Pending) (rest : List Pending)
    → is_end_txn p.handler.kind && b ≡ true
    → next_in b (p ∷ rest) ≡ pure none
unfolding next_in
next_in_waits b p rest k = rw k

next_in_goes :
    (b : Bool) (p : Pending) (rest : List Pending)
    → is_end_txn p.handler.kind && b ≡ false
    → next_in b (p ∷ rest) ≡ pop_and_deliver p rest
unfolding next_in
next_in_goes b p rest k = rw k

next_in-Taken :
    (b : Bool) (p : Pending) (rest : List Pending) (s : TransactionManager) {h : Handler}
    → (next_in b (p ∷ rest) s).0 ≡ ok (some h)
    → Taken p.handler rest h (next_in b (p ∷ rest) s).1.pending_requests
next_in-Taken b p rest s {h} e = elim (Bool-cases (is_end_txn p.handler.kind && b)) [
  | inl k ↦ absurd (nothing (rw (next_in_waits b p rest k) at e))
  | inr k ↦
      let (t, s', run, left) = pop_and_deliver_lem p rest s in
      let e' : (deliver t s'.transaction_started p.handler s').0 ≡ ok (some h) =
        rw (next_in_goes b p rest k, run) at e in
      rw (next_in_goes b p rest k, run)
        (subst
          (λ l.
            Taken p.handler l h (deliver t s'.transaction_started p.handler s').1.pending_requests)
          left (deliver-Taken t s'.transaction_started p.handler s' e'))
]
  where
    nothing : (pure none s).0 ≡ ok (some h) → ⊥
    nothing e = unfold ◌>>=◌ in cc

-- No entry of `l` has a lower priority value than `h`.
abbrev pub IsFirst : Handler → List Pending → Type 0
IsFirst h l = All (λ q. rank (priority h.kind) ≤ q.rank_of) l

IsFirst-before :
    (n : ℕ) (p : Pending) (l : List Pending)
    → IsNumbered n p
    → All (λ q. before p q ≡ true) l
    → IsFirst p.handler l
IsFirst-before n p l k a =
    All-map (λ q. before p q ≡ true) (λ q. rank (priority p.handler.kind) ≤ q.rank_of) l
      (λ q e. ground arith) a

Taken-IsFirst :
    {p : Pending} {rest left : List Pending} {h : Handler} (n : ℕ)
    → Taken p.handler rest h left
    → IsOrdered (p ∷ rest)
    → All (IsNumbered n) (p ∷ rest)
    → IsFirst h left
Taken-IsFirst {p} {rest} n (first e k) o a = rw (e, k) (IsFirst-before n p rest a.0 o.0)
Taken-IsFirst n (second r l q e k) o a =
    let o' : IsOrdered (r ∷ l) = subst IsOrdered q o.1 in
    let a' : All (IsNumbered n) (r ∷ l) = subst (All (IsNumbered n)) q a.1 in
    rw (e, k) (IsFirst-before n r l a'.0 o'.0)

next_in-IsFirst :
    (b : Bool) (q : List Pending) (s : TransactionManager) (n : ℕ) {h : Handler}
    → IsOrdered q
    → All (IsNumbered n) q
    → (next_in b q s).0 ≡ ok (some h)
    → IsFirst h (next_in b q s).1.pending_requests
next_in-IsFirst b [] s n o a e = absurd (unfold next_in ◌>>=◌ in cc)
next_in-IsFirst b (p ∷ rest) s n o a e = Taken-IsFirst n (next_in-Taken b p rest s e) o a

-- In a consistent manager the request that is handed out has a priority value that is at most that
-- of every request left in the queue.
pub next_request_handler-IsFirst :
    (b : Bool) (s : TransactionManager) {h : Handler}
    → IsConsistent s
    → (next_request_handler b s).0 ≡ ok (some h)
    → IsFirst h (next_request_handler b s).1.pending_requests
next_request_handler-IsFirst b s {h} k e =
    let c = (add_new_partitions-Evolves.at s).consistent k in
    let e' : (next_in b (prepared s).pending_requests (prepared s)).0 ≡ ok (some h) =
      rw (next_request_handler_lem b s) at e in
    rw (next_request_handler_lem b s) (
      next_in-IsFirst b (prepared s).pending_requests (prepared s)
        (prepared s).pending_requests_sort_id c.ordered c.numbered e')

-- While the accumulator has incomplete batches, no EndTxn is handed out.
pub next_request_handler_no_end_txn :
    (s : TransactionManager) {h : Handler}
    → (next_request_handler true s).0 ≡ ok (some h)
    → is_end_txn h.kind ≡ false
next_request_handler_no_end_txn s e =
    next_in_no_end_txn (prepared s).pending_requests (prepared s)
      (rw (next_request_handler_lem true s) at e)
