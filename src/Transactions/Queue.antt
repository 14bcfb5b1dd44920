-- ===== src/Transactions/Queue.antt =====
-- The queue of pending requests stays in the order in which its entries are sent.
use kafka_python.Common.{ℕ, ◌≤◌, ◌<◌, ◌≡◌, true, false, List, [], ◌∷◌, arith, All}
use kafka_python.Common.{All-map, inl, inr, Bool-cases}
use kafka_python.Transactions.State.{rank}
use kafka_python.Transactions.Requests.{Pending, before, heappush, priority}

-- Every entry stands before all that follow it.
abbrev pub IsOrdered : List Pending → Type 0
IsOrdered [] = Unit
IsOrdered (p ∷ h) = All (λ q. before p q ≡ true) h × IsOrdered h

-- An entry that was numbered by `n` at the latest, and is ranked by its handler's priority.
abbrev pub IsNumbered : ℕ → Pending → Type 0
IsNumbered n p = (p.sort_id ≤ n) × (p.rank_of ≡ rank (priority p.handler.kind))

before_trans : (p q r : Pending) → before p q ≡ true → before q r ≡ true → before p r ≡ true
before_trans p q r h k = ground arith

before_total : (p q : Pending) → q.sort_id < p.sort_id → before p q ≡ false → before q p ≡ true
before_total p q h k = ground arith

pub All-heappush {κ} :
    (P : Pending → Type κ) (h : List Pending) (p : Pending) → All P h → P p → All P (heappush h p)
unfolding heappush
All-heappush P [] p a k = (k, tt)
All-heappush P (q ∷ h) p a k = elim (Bool-cases (before p q)) [
  | inl e ↦ rw e (k, a)
  | inr e ↦ rw e (a.0, All-heappush P h p a.1 k)
]

-- A later entry goes behind those of its rank.
pub heappush-IsOrdered :
    (h : List Pending) (p : Pending)
    → All (λ q. q.sort_id < p.sort_id) h
    → IsOrdered h
    → IsOrdered (heappush h p)
unfolding heappush
heappush-IsOrdered [] p a o = (tt, tt)
heappush-IsOrdered (q ∷ h) p a o = elim (Bool-cases (before p q)) [
  | inl e ↦ rw e (
    (
      e,
      All-map (λ r. before q r ≡ true) (λ r. before p r ≡ true) h (λ r k. before_trans p q r e k)
          o.0,
    ),
    o,
  )
  | inr e ↦ rw e (
    All-heappush (λ r. before q r ≡ true) h p o.0 (before_total p q a.0 e),
    heappush-IsOrdered h p a.1 o.1,
  )
]
