-- ===== src/Transactions/Complete.antt =====
-- `on_complete`, the callback of a request's future, and `authentication_failed`.
use kafka_python.Common.{not, Option, none, some, List, [], ◌∷◌, if◌then◌else◌}
use kafka_python.Common.Int.{ℤ}
use kafka_python.Common.Eq.{◌==◌, int_eq}
use kafka_python.Errors.{Exc, for_code, kafka_error, kafka_connection_error, runtime_error}
use kafka_python.Errors.{unsupported_version}
use kafka_python.Exec.{pure, gets, ◌>>=◌, ◌>>◌}
use kafka_python.Transactions.Requests.{
  CoordType, Kind, Handler, Pending, Response, ResponseOrExc, response, exception, no_response,
}
use kafka_python.Transactions.Requests
use kafka_python.Transactions.Manager.{M, lookup_coordinator}
use kafka_python.Transactions.Calls.{clear_in_flight}
use kafka_python.Transactions.Handlers.{
  fatal_error, reenqueue, coordinator_type, coordinator_key, handle_init_producer_id,
  handle_add_partitions, handle_find_coordinator, handle_end_txn,
}
use kafka_python.Transactions.Offsets.{handle_add_offsets, handle_txn_offset_commit}

-- The method `handle_response` of each class.
unfoldable pub handle_response_of : Kind → Handler → Response → M (Unit {0})
handle_response_of Requests.init_producer_id h r =
    handle_init_producer_id h (for_code r.error_code) r
handle_response_of Requests.add_partitions_to_txn h r = handle_add_partitions h r
handle_response_of Requests.end_txn h r = handle_end_txn h (for_code r.error_code)
handle_response_of (Requests.find_coordinator t key) h r =
    handle_find_coordinator t h (for_code r.error_code) r
handle_response_of (Requests.add_offsets_to_txn group_id offsets) h r =
    handle_add_offsets group_id offsets h (for_code r.error_code)
handle_response_of (Requests.txn_offset_commit group_id) h r = handle_txn_offset_commit h r

unfoldable pub handle_response : Handler → Response → M (Unit {0})
handle_response h r = handle_response_of h.kind h r

-- `if self.needs_coordinator(): _lookup_coordinator(coordinator_type, coordinator_key)`
unfoldable pub lookup_if_needed : Option CoordType → Handler → M (Unit {0})
lookup_if_needed none h = pure tt
lookup_if_needed (some t) h = do key ← gets (coordinator_key h.kind); lookup_coordinator t key

unfoldable pub complete_with : Handler → ResponseOrExc → M (Unit {0})
complete_with h (response r) = handle_response h r
complete_with h (exception kafka_connection_error) = do
  lookup_if_needed (coordinator_type h.kind) h
  reenqueue h
complete_with h (exception unsupported_version) = fatal_error h unsupported_version
complete_with h (exception e) = fatal_error h kafka_error
complete_with h no_response = fatal_error h kafka_error

unfoldable pub on_complete : Handler → ℤ → ResponseOrExc → M (Unit {0})
on_complete h correlation_id r = do
  expected ← gets λ s. s.in_flight_correlation_id
  if not (correlation_id == expected)
      then fatal_error h runtime_error
      else (do clear_in_flight; complete_with h r)

-- `authentication_failed`: `request.fatal_error(exc)` for every pending request
unfoldable pub fail_all : Exc → List Pending → M (Unit {0})
fail_all e [] = pure tt
fail_all e (p ∷ rest) = do fatal_error p.handler e; fail_all e rest

unfoldable pub authentication_failed : Exc → M (Unit {0})
authentication_failed e = do queue ← gets λ s. s.pending_requests; fail_all e queue
