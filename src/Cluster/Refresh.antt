-- ===== src/Cluster/Refresh.antt =====
-- When the metadata is due.
use kafka_python.Common.{
  ℕ, ◌+◌, ◌≤◌, ◌≡◌, ◌↔◌, refl, Bool, true, false, none, some, is_empty, Option, Bool-cases, inl,
  inr, arith, if◌then◌else◌, max, ◌||◌, ◌&&◌, ◌⊎◌, List, [], ◌∷◌, All,
}
use kafka_python.Exec.{Result, ok, err}
use kafka_python.Errors.{for_code}
use kafka_python.Common.Eq.{nat_eq}
use kafka_python.Common.Set.{contains}
use kafka_python.Future.{success}
use kafka_python.Cluster.{ClusterMetadata, ttl, group, transaction}
use kafka_python.Cluster.Reading.{MetadataResponse, is_no_error}
use kafka_python.Cluster.Calls.{
  Action, request, listen, unlisten, coordinate, want_all, on_done, act, Reactions, request_update,
  returned, pending, add_listener, remove_listener, add_coordinator,
}
use kafka_python.Cluster.Update.{
  update_metadata, only_error, updated, complete, settled, after_success, notify,
}
use kafka_python.Cluster.Reacts.{complete_keeps, notify_keeps}

abbrev pub is_ok : Result (Unit {0}) → Bool
is_ok (ok t) = true
is_ok (err e) = false

or_true : (b : Bool) → (b || true) ≡ true
or_true true = refl
or_true false = refl

-- A refresh is due at `at` and later, not before.
abbrev pub IsDueFrom : ClusterMetadata → ℕ → Type 0
IsDueFrom s at = (now : ℕ) → (ttl s now ≡ 0) ↔ (at ≤ now)

due :
    (s : ClusterMetadata) (need : Bool) (refreshed succeeded : ℕ)
    → s.need_update ≡ need
    → s.last_refresh_ms ≡ refreshed
    → s.last_successful_refresh_ms ≡ succeeded
    → IsDueFrom s (
        max
          (if need then 0 else s.metadata_max_age_ms + succeeded)
          (s.retry_backoff_ms + refreshed))
unfolding ttl
due s true refreshed succeeded hn hr hs now = rw (hn, hr) (omega arith)
due s false refreshed succeeded hn hr hs now = rw (hn, hr, hs) (omega arith)

unfoldable pub is_request : Action → Bool
is_request request = true
is_request _ = false

unfoldable pub asks : List Action → Bool
unfolding is_request
asks [] = false
asks (a ∷ l) = is_request a || asks l

-- In some state, some listener or callback asks for an update.
abbrev pub Asked : Reactions → Type 0
Asked react = (f : ℕ) × (u : ClusterMetadata) × (asks (react f u).actions ≡ true)

-- What was written at `now`, of the configuration of `s`, unless an update was asked for since.
abbrev IsTaken : Reactions → ℕ → ClusterMetadata → ClusterMetadata → Type 0
IsTaken react now s t =
    ((t.need_update ≡ false) ⊎ Asked react)
    × (t.last_refresh_ms ≡ now)
    × (t.last_successful_refresh_ms ≡ now)
    × (t.metadata_max_age_ms ≡ s.metadata_max_age_ms)
    × (t.retry_backoff_ms ≡ s.retry_backoff_ms)

module _ (react : Reactions) (now : ℕ) (s : ClusterMetadata) where
  act-IsTaken :
      (a : Action) (t : ClusterMetadata)
      → (is_request a ≡ true → Asked react)
      → IsTaken react now s t
      → IsTaken react now s (act a t).1
  unfolding is_request act request_update add_listener remove_listener add_coordinator
  act-IsTaken request t h k = case (pending t.future t.futures)
    where
      case : (o : Option ℕ) → IsTaken react now s (returned o t).1
      case none = (inr (h refl), k.1, k.2, k.3, k.4)
      case (some i) = (inr (h refl), k.1, k.2, k.3, k.4)
  act-IsTaken (listen f) t h k = k
  act-IsTaken (unlisten f) t h k = elim (Bool-cases (contains t.listeners f)) [
    | inl c ↦ rw c k
    | inr c ↦ rw c k
  ]
  act-IsTaken (coordinate f group key) t h k =
      elim (Bool-cases (is_no_error (for_code f.error_code))) [ inl c ↦ rw c k | inr c ↦ rw c k ]
  act-IsTaken (coordinate f transaction key) t h k =
      elim (Bool-cases (is_no_error (for_code f.error_code))) [ inl c ↦ rw c k | inr c ↦ rw c k ]
  act-IsTaken (want_all b) t h k = k
  act-IsTaken (on_done i f) t h k = k

  All-IsTaken :
      (l : List Action)
      → (asks l ≡ true → Asked react)
      → All (λ a. (t : ClusterMetadata) → IsTaken react now s t → IsTaken react now s (act a t).1) l
  unfolding asks
  All-IsTaken [] h = tt
  All-IsTaken (a ∷ l) h = (
    λ t k. act-IsTaken a t (λ e. h (rw e refl)) k,
    All-IsTaken l (λ e. h (rw e (or_true (is_request a)))),
  )

  acting :
      (f : ℕ) (u : ClusterMetadata)
      → All
          (λ a. (t : ClusterMetadata) → IsTaken react now s t → IsTaken react now s (act a t).1)
          (react f u).actions
  acting f u = All-IsTaken (react f u).actions (λ e. (f, u, e))

  -- Due once the age and the backoff have passed; or an update was asked for, which the call did not
  -- undo, and due once the backoff has passed.
  abbrev pub IsDueAfter : Result (Unit {0}) × ClusterMetadata → Type 0
  IsDueAfter (r, t) =
      IsDueFrom t (max (s.metadata_max_age_ms + now) (s.retry_backoff_ms + now))
      ⊎ (IsDueFrom t (s.retry_backoff_ms + now)
          × Asked react
          × ((is_ok r && t.need_all_topic_metadata) ≡ false))

  not_needed :
      (r : Result (Unit {0})) (t : ClusterMetadata)
      → IsTaken react now s t
      → t.need_update ≡ false
      → IsDueAfter (r, t)
  not_needed r t k e = inl λ n. ground (arith, due t false now now e k.1 k.2 n, k.3, k.4)

  taken_due :
      (r : Result (Unit {0})) (t : ClusterMetadata)
      → IsTaken react now s t
      → (is_ok r && t.need_all_topic_metadata) ≡ false
      → IsDueAfter (r, t)
  taken_due r t k h = elim (Bool-cases t.need_update) [
    | inl c ↦ inr (λ n. ground (arith, due t true now now c k.1 k.2 n, k.4), asked_for c k.0, h)
    | inr c ↦ not_needed r t k c
  ]
    where
      asked_for : t.need_update ≡ true → (t.need_update ≡ false) ⊎ Asked react → Asked react
      asked_for c (inl e) = absurd cc
      asked_for c (inr a) = a

  settled-IsDueAfter :
      (x : Result (Unit {0}) × ClusterMetadata)
      → IsTaken react now s x.1
      → IsDueAfter (settled x) × IsTaken react now s (settled x).1
  settled-IsDueAfter (err e, t) k = (taken_due (err e) t k refl, k)
  settled-IsDueAfter (ok u, t) k =
      let t' = (settled (ok u, t)).1 in
      elim (Bool-cases t.need_all_topic_metadata) [
        | inl c ↦
            let e : t'.need_update ≡ false = rw c refl in
            let k' : IsTaken react now s t' = (inl e, k.1, k.2, k.3, k.4) in
            (not_needed (ok u) t' k' e, k')
        | inr c ↦
            let k' : IsTaken react now s t' = (rw c k.0, k.1, k.2, k.3, k.4) in
            (taken_due (ok u) t' k' c, k')
      ]

  after_success-IsDueAfter :
      (x : Result (Unit {0}) × ClusterMetadata)
      → IsTaken react now s x.1
      → IsDueAfter (after_success react x) × IsTaken react now s (after_success react x).1
  after_success-IsDueAfter (err e, t) k = (taken_due (err e) t k refl, k)
  after_success-IsDueAfter (ok u, t) k =
      settled-IsDueAfter (notify react t.listeners t)
        (notify_keeps react (IsTaken react now s) acting (λ v l p. p) (λ v l p. p) t.listeners t k)

  -- The state after `request_update` in terms of the one before.
  requested :
      (t : ClusterMetadata)
      → IsTaken react now s t
      → IsDueFrom (request_update t).1 (s.retry_backoff_ms + now)
  unfolding request_update
  requested t h = case (pending t.future t.futures)
    where
      case : (o : Option ℕ) → IsDueFrom (returned o t).1 (s.retry_backoff_ms + now)
      case none n = ground (arith, due (returned none t).1 true now now refl h.1 h.2 n, h.4)
      case (some i) n = ground (arith, due (returned (some i) t).1 true now now refl h.1 h.2 n, h.4)

-- After a response was taken at a time, the metadata is due from when both its maximal age and the
-- retry backoff have passed since, or already from when the backoff has passed. The latter only if
-- some listener or callback asks for an update, and the call raised or need_all_topic_metadata is
-- off after it. A further request_update makes the metadata due from when the backoff has passed. A
-- response counts as taken unless its only topic has an error or it has no brokers.
pub update_metadata_lem :
    (react : Reactions) (now : ℕ) (m : MetadataResponse) (s : ClusterMetadata)
    → only_error m.topics ≡ none
    → is_empty m.brokers ≡ false
    → IsDueAfter react now s (update_metadata react now m s)
      × IsDueFrom (request_update (update_metadata react now m s).1).1 (s.retry_backoff_ms + now)
unfolding update_metadata
update_metadata_lem react now m s h k =
    let x = complete react (λ f. f.callbacks) s.future (success tt) (updated now m s) in
    let taken : IsTaken react now s x.1 =
      complete_keeps react (IsTaken react now s) (acting react now s) (λ v l p. p) (λ v l p. p)
        (λ f. f.callbacks) s.future (success tt) (updated now m s)
        (unfold updated in (inl refl, refl, refl, refl, refl)) in
    let both = after_success-IsDueAfter react now s x taken in
    rw (h, k) (both.0, requested react now s _ both.1)
