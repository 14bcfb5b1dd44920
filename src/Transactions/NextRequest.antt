-- ===== src/Transactions/NextRequest.antt =====
-- `TransactionManager.next_request_handler`: the handler that the sender thread takes next.
use kafka_python.Common.{Bool, true, false, not, ◌&&◌, Option, none, some}
use kafka_python.Common.{List, [], ◌∷◌, if◌then◌else◌}
use kafka_python.Common.Eq.{int_eq}
use kafka_python.Exec.{ok, pure, gets, modify, when, ◌>>=◌, ◌>>◌}
use kafka_python.Structs.{tp_eq}
use kafka_python.Transactions.State.{state_eq}
use kafka_python.Transactions.Requests.{Handler, Pending, is_end_txn, is_find_coordinator}
use kafka_python.Transactions.Manager.{
  M, has_error, has_fatal_error, has_abortable_error, done, complete_transaction,
}
use kafka_python.Transactions.Calls.{add_new_partitions}

-- `_maybe_terminate_request_with_error`: true if the request was failed
unfoldable pub maybe_terminate_request_with_error : Handler → M Bool
unfolding has_error has_abortable_error done
maybe_terminate_request_with_error h = do
  failed ← gets has_error
  abortable ← gets has_abortable_error
  error ← gets λ s. s.last_error
  if failed && not (abortable && is_find_coordinator h.kind)
      then (do done h.result error; pure true)
      else pure false

-- `heapq.heappop` under `except IndexError`
abbrev pub pop_from : List Pending → M (Option Handler)
pop_from [] s = (ok none, s)
pop_from (p ∷ rest) s = (ok (some p.handler), record s { pending_requests = rest })

unfoldable pub pop_or_none : M (Option Handler)
pop_or_none s = pop_from s.pending_requests s

-- The branch of an EndTxn when nothing was added to the transaction.
unfoldable pub skip_end_txn : Handler → M (Option Handler)
unfolding pop_or_none done
skip_end_txn h = do
  done h.result none
  fatal ← gets has_fatal_error
  when (not fatal) complete_transaction
  pop_or_none

-- What becomes of the handler that was popped.
unfoldable pub deliver : Bool → Bool → Handler → M (Option Handler)
unfolding skip_end_txn
deliver terminated started h =
    if terminated
    then pure none
    else if is_end_txn h.kind && not started
    then skip_end_txn h
    else pure (some h)

-- The part below the peek at the head `p` of the queue.
unfoldable pub next_of : Bool → Pending → List Pending → M (Option Handler)
unfolding maybe_terminate_request_with_error deliver
next_of has_incomplete_batches p rest =
    if is_end_txn p.handler.kind && has_incomplete_batches then pure none else (do
      modify λ s. record s { pending_requests = rest }
      terminated ← maybe_terminate_request_with_error p.handler
      started ← gets λ s. s.transaction_started
      deliver terminated started p.handler)

-- The head of the queue, or nothing to send.
unfoldable pub next_in : Bool → List Pending → M (Option Handler)
unfolding next_of
next_in has_incomplete_batches [] = pure none
next_in has_incomplete_batches (p ∷ rest) = next_of has_incomplete_batches p rest

unfoldable pub next_request_handler : Bool → M (Option Handler)
unfolding next_in add_new_partitions
next_request_handler has_incomplete_batches = do
  add_new_partitions
  queue ← gets λ s. s.pending_requests
  next_in has_incomplete_batches queue
