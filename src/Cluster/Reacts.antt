-- ===== src/Cluster/Reacts.antt =====
-- What listeners and callbacks keep, if each of their calls keeps it.
use kafka_python.Common.{
  ℕ, Bool-cases, inl, inr, List, [], ◌∷◌, ◌++◌, get_elem?, Option, none, some, All, length, nat_beq,
}
use kafka_python.Errors.{Exc}
use kafka_python.Exec.{Exec, Result, ok, err, continue}
use kafka_python.Future.{Future}
use kafka_python.Cluster.{ClusterMetadata}
use kafka_python.Cluster.Calls.{Action, Reactions, act, acts, perform, raised}
use kafka_python.Cluster.Update.{call_backs, called_back, callbacks_in, completed, complete, notify}

continue_keeps :
    (P : ClusterMetadata → Type 0) (k : Unit {0} → Exec ClusterMetadata (Unit {0}))
    (x : Result (Unit {0}) × ClusterMetadata)
    → ((u : Unit {0}) (t : ClusterMetadata) → P t → P (k u t).1)
    → P x.1
    → P (continue x.0 k x.1).1
continue_keeps P k (err e, t) h p = p
continue_keeps P k (ok u, t) h p = h u t p

raised_keeps :
    (P : ClusterMetadata → Type 0) (o : Option Exc) (s : ClusterMetadata) → P s → P (raised o s).1
raised_keeps P none s p = p
raised_keeps P (some e) s p = p

module _ (react : Reactions) (P : ClusterMetadata → Type 0)
    (acting : (f : ℕ) (s : ClusterMetadata)
      → All (λ a. (t : ClusterMetadata) → P t → P (act a t).1) (react f s).actions)
    (writing : (s : ClusterMetadata) (l : List (Future Unit)) → P s → P (record s { futures = l }))
    (noting : (s : ClusterMetadata) (l : List ℕ) → P s → P (record s { notified = l })) where
  acts_keeps :
      (l : List Action) (s : ClusterMetadata)
      → All (λ a. (t : ClusterMetadata) → P t → P (act a t).1) l
      → P s
      → P (acts l s).1
  unfolding acts
  acts_keeps [] s h k = k
  acts_keeps (a ∷ l) s h k =
      continue_keeps P (λ _. acts l) (act a s) (λ u t p. acts_keeps l t h.1 p) (h.0 s k)

  perform_keeps : (f : ℕ) (s t : ClusterMetadata) → P t → P (perform (react f s) t).1
  unfolding perform
  perform_keeps f s t k =
      continue_keeps P (λ _. raised (react f s).raises) (acts (react f s).actions t)
        (λ u. raised_keeps P (react f s).raises) (acts_keeps (react f s).actions t (acting f s) k)

  call_backs_keeps : (fs : List ℕ) (s : ClusterMetadata) → P s → P (call_backs react fs s)
  unfolding call_backs
  call_backs_keeps [] s k = k
  call_backs_keeps (f ∷ fs) s k = call_backs_keeps fs _ (perform_keeps f s s k)

  called_back_keeps :
      (fs : List ℕ) (x : Result (Unit {0}) × ClusterMetadata) → P x.1 → P (called_back react fs x).1
  called_back_keeps fs (err e, t) p = p
  called_back_keeps fs (ok u, t) p = call_backs_keeps fs t p

  pub complete_keeps :
      (backs : Future Unit → List ℕ) (o : Option ℕ) (m : Exec (Future Unit) (Unit {0}))
      (s : ClusterMetadata)
      → P s
      → P (complete react backs o m s).1
  unfolding complete
  complete_keeps backs none m s k = k
  complete_keeps backs (some i) m s k =
      let (r, futures) = completed (get_elem? s.futures i) s.futures i m in
      called_back_keeps (callbacks_in backs (get_elem? s.futures i))
        (r, record s { futures = futures }) (writing s futures k)

  pub notify_keeps : (fs : List ℕ) (s : ClusterMetadata) → P s → P (notify react fs s).1
  unfolding notify
  notify_keeps [] s k = k
  notify_keeps (f ∷ fs) s k =
      let called = record s { notified = s.notified ++ f ∷ [] } in
      continue_keeps P _ (perform (react f called) called)
        (λ _ u p. elim (Bool-cases (nat_beq (length u.listeners) (length s.listeners))) [
          | inl c ↦ rw c (notify_keeps fs u p)
          | inr c ↦ rw c p
        ])
        (perform_keeps f called called (noting s (s.notified ++ f ∷ []) k))
