-- ===== src/Accumulator/Batch/Final.antt =====
-- The final state of a batch and the future of its records.
use kafka_python.Common.{
  ℕ, ◌≡◌, refl, sym, ◌∙◌, Bool, true, false, List, [], ◌∷◌, Option, none, some, is_some, Bool-cases,
  inl, inr, if◌then◌else◌, not, ◌&&◌,
}
use kafka_python.Common.Int.{negsuc}
use kafka_python.Future
use kafka_python.Errors.{Exc}
use kafka_python.Exec.{Result, ok, err}
use kafka_python.Structs.{TopicPartition}
use kafka_python.Future.{Future, success, failure}
use kafka_python.Accumulator.Batch.{
  FinalState, aborted, failed, succeeded, Builder, Produced, ProducerBatch, init, abort, abort_in,
  done, done_in, retry, try_append, complete_future, then_true, appended, final_of,
}

-- The calls on a batch, with the time where it is read.
pub data Step : Type 0 where
  append : ℕ → List ℕ → Step
  retry_at : ℕ → Step
  abort_with : Exc → Step
  done_with : Produced → Option Exc → Step

abbrev pub is_success : Option FinalState → Bool
is_success (some succeeded) = true
is_success _ = false

module _ {Records : Type 0} (builder : Builder Records) where
  -- What a call leaves, whether it returns or raises.
  abbrev pub step : Step → ProducerBatch Records → ProducerBatch Records
  step (append now bytes) b = (try_append builder now bytes b).1
  step (retry_at now) b = retry now b
  step (abort_with e) b = (abort e b).1
  step (done_with produced e) b = (done produced e b).1

  unfoldable pub run : List Step → ProducerBatch Records → ProducerBatch Records
  run [] b = b
  run (s ∷ ss) b = run ss (step s b)

module _ {Records : Type 0} where
  -- The future is done exactly in a final state, with an exception exactly if that is not a success.
  abbrev pub IsSettled : ProducerBatch Records → Type 0
  IsSettled b =
      (b.produce_future.is_done ≡ is_some b.final_state)
      × (is_some b.produce_future.exception
          ≡ (is_some b.final_state && not (is_success b.final_state)))

  -- What a call may change: a final state stays, and the batch is settled after it.
  abbrev Moves : ProducerBatch Records → ProducerBatch Records → Type 0
  Moves b c = IsSettled c × ((f : FinalState) → b.final_state ≡ some f → c.final_state ≡ some f)

  complete-IsSettled :
      (produced : Produced) (e : Option Exc) (f : FinalState) (b : ProducerBatch Records)
      → b.produce_future.is_done ≡ false
      → is_some b.produce_future.exception ≡ false
      → is_some e ≡ not (is_success (some f))
      → IsSettled (complete_future produced e (record b { final_state = some f })).1
  unfolding complete_future success failure
  complete-IsSettled produced none f b d x h = rw d (refl, x ∙ h)
  complete-IsSettled produced (some e) f b d x h = rw d (refl, h)

  final_state-complete_future :
      (produced : Produced) (e : Option Exc) (b : ProducerBatch Records)
      → (complete_future produced e b).1.final_state ≡ b.final_state
  unfolding complete_future
  final_state-complete_future produced e b = elim (Bool-cases b.produce_future.is_done) [
    | inl c ↦ rw c refl
    | inr c ↦ rw c refl
  ]

  -- A batch without a final state completes its future by the call that sets one.
  sets :
      (produced : Produced) (e : Option Exc) (f : FinalState) (b : ProducerBatch Records)
      → IsSettled b
      → b.final_state ≡ none
      → is_some e ≡ not (is_success (some f))
      → Moves b (complete_future produced e (record b { final_state = some f })).1
  sets produced e f b h q k =
      let open_yet : b.produce_future.is_done ≡ false = h.0 ∙ rw q refl in
      let no_error : is_some b.produce_future.exception ≡ false = h.1 ∙ rw q refl in
      (
        complete-IsSettled produced e f b open_yet no_error k,
        λ g r. let no : none ≡ some g = sym q ∙ r in absurd cc,
      )

  abort-Moves : (e : Exc) (b : ProducerBatch Records) → IsSettled b → Moves b (abort e b).1
  unfolding abort
  abort-Moves e b h = case b.final_state refl
    where
      case : (o : Option FinalState) → b.final_state ≡ o → Moves b (abort_in o e b).1
      case none q = sets (some (negsuc 0), some (negsuc 0)) (some e) aborted b h q refl
      case (some f) q = (h, λ g r. r)

  done-Moves :
      (produced : Produced) (e : Option Exc) (b : ProducerBatch Records)
      → IsSettled b
      → Moves b (done produced e b).1
  unfolding done
  done-Moves produced e b h = case b.final_state refl
    where
      final : (e : Option Exc) → is_some e ≡ not (is_success (some (final_of e)))
      final none = refl
      final (some x) = refl

      returns :
          (r : Result (Unit {0}) × ProducerBatch Records) → Moves b r.1 → Moves b (then_true r).1
      returns (ok t, c) m = m
      returns (err x, c) m = m

      case : (o : Option FinalState) → b.final_state ≡ o → Moves b (done_in o produced e b).1
      case none q = returns _ (sets produced e (final_of e) b h q (final e))
      case (some succeeded) q = (h, λ g r. r)
      case (some aborted) q = (h, λ g r. r)
      case (some failed) q = (h, λ g r. r)

module _ {Records : Type 0} (builder : Builder Records) where
  step-Moves : (s : Step) (b : ProducerBatch Records) → IsSettled b → Moves b (step builder s b)
  unfolding try_append retry
  step-Moves (append now bytes) b h = case (builder.append bytes b.records)
    where
      case : (r : Option (ℕ × ℕ) × Records) → Moves b (appended builder now r b).1
      case (none, records) = (h, λ g r. r)
      case (some (offset, size), records) = (h, λ g r. r)
  step-Moves (retry_at now) b h = (h, λ g r. r)
  step-Moves (abort_with e) b h = abort-Moves e b h
  step-Moves (done_with produced e) b h = done-Moves produced e b h

  run-Moves :
      (ss : List Step) (b : ProducerBatch Records) → IsSettled b → Moves b (run builder ss b)
  unfolding run
  run-Moves [] b h = (h, λ g r. r)
  run-Moves (s ∷ ss) b h =
      let first = step-Moves s b h in
      let rest = run-Moves ss (step builder s b) first.0 in (rest.0, λ g r. rest.1 g (first.1 g r))

  kept :
      (o : Option FinalState) (b c : ProducerBatch Records)
      → b.final_state ≡ o
      → Moves b c
      → (if is_some o then c.final_state else o) ≡ o
  kept none b c q m = refl
  kept (some f) b c q m = m.1 f q

  -- After any calls on a new batch, raising ones among them, its future is done exactly if the batch
  -- has a final state, and has an exception exactly if that is not SUCCEEDED; and whatever calls
  -- follow, a final state stays as it is.
  pub final_state_lem :
      (tp : TopicPartition) (records : Records) (now : ℕ) (before after : List Step)
      → let b = run builder before (init tp records now) in
        IsSettled b
        × ((if is_some b.final_state then (run builder after b).final_state else b.final_state)
            ≡ b.final_state)
  final_state_lem tp records now before after =
      let new : IsSettled (init tp records now) = unfold init Future.init in (refl, refl) in
      let b = run builder before (init tp records now) in
      let h = (run-Moves before (init tp records now) new).0 in
      (h, kept b.final_state b (run builder after b) refl (run-Moves after b h))
