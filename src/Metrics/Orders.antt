-- ===== src/Metrics/Orders.antt =====
-- src/cases/case_service.py and src/analytics/ops_metrics.py: the order of the two queues of the panels.
use mathlib.Core.Path.{subst}
use billing_recovery_executi.Common.{
  ℕ, ◌≤◌, String, Bool, false, List, [], ◌∷◌, ◌≡◌, ◌⊎◌, refl, ap, arith, eq_iff,
}
use billing_recovery_executi.Table.{
  All, Sorter, SameRows, IsOrdered, ascending_then, ascending_then-IsWeakOrder,
}
use billing_recovery_executi.Database.{Database, BillingCase, ok, gets}
use billing_recovery_executi.History.{priority_rank, get_all_cases}
use billing_recovery_executi.Metrics.Queues.{NeedsAttention, get_needs_attention_queue}

-- What stands before a row of the priority `q` and the time `u` has a priority `p` and a time `t`: high
-- stands before medium, medium before low and low before any other priority, and of the same priority
-- the earlier before the later.
pub record Precedes (p : String) (t : ℕ) (q : String) (u : ℕ) : Type 0 where
  pub above_high : q ≡ "high" → p ≡ "high"
  pub above_medium : q ≡ "medium" → (p ≡ "high") ⊎ (p ≡ "medium")
  pub above_low : q ≡ "low" → (p ≡ "high") ⊎ (p ≡ "medium") ⊎ (p ≡ "low")
  pub earlier : p ≡ q → t ≤ u

-- Each row stands rightly before all that follow it.
abbrev pub IsQueue : {A : Type 0} → (A → String) → (A → ℕ) → List A → Type 0
IsQueue priority time [] = Unit
IsQueue priority time (a ∷ rows) =
    All (λ b. Precedes (priority a) (time a) (priority b) (time b)) rows
    × IsQueue priority time rows

first_rank : (p : String) → priority_rank p ≤ 1 → p ≡ "high"
first_rank p h = ground (arith, eq_iff p "high")

second_rank : (p : String) → priority_rank p ≤ 2 → (p ≡ "high") ⊎ (p ≡ "medium")
second_rank p h = ground (arith, eq_iff p "high", eq_iff p "medium")

third_rank : (p : String) → priority_rank p ≤ 3 → (p ≡ "high") ⊎ (p ≡ "medium") ⊎ (p ≡ "low")
third_rank p h = ground (arith, eq_iff p "high", eq_iff p "medium", eq_iff p "low")

module _ {A : Type 0} (priority : A → String) (time : A → ℕ) where
  abbrev before : A → A → Bool
  before = ascending_then (λ a. priority_rank (priority a)) time

  unordered-Precedes :
      (a b : A) → before b a ≡ false → Precedes (priority a) (time a) (priority b) (time b)
  unordered-Precedes a b h =
      let (ranked, tied) =
        put (priority_rank (priority a)) (priority_rank (priority b)) (time a) (time b) h in
      record {
        above_high = λ e.
            first_rank (priority a)
              (subst (λ q. priority_rank (priority a) ≤ priority_rank q) e ranked);
        above_medium = λ e.
            second_rank (priority a)
              (subst (λ q. priority_rank (priority a) ≤ priority_rank q) e ranked);
        above_low = λ e.
            third_rank (priority a)
              (subst (λ q. priority_rank (priority a) ≤ priority_rank q) e ranked);
        earlier = λ e. tied (ap priority_rank e);
      }
    where
      put :
          (m n t u : ℕ)
          → ascending_then (λ (x : ℕ × ℕ). x.0) (λ x. x.1) (n, u) (m, t) ≡ false
          → (m ≤ n) × (m ≡ n → t ≤ u)
      put m n t u h = ground arith

  All-Precedes :
      (a : A) (rows : List A)
      → All (λ b. before b a ≡ false) rows
      → All (λ b. Precedes (priority a) (time a) (priority b) (time b)) rows
  All-Precedes a [] h = tt
  All-Precedes a (b ∷ rows) h = (unordered-Precedes a b h.0, All-Precedes a rows h.1)

  IsOrdered-IsQueue : (rows : List A) → IsOrdered before rows → IsQueue priority time rows
  IsOrdered-IsQueue [] h = tt
  IsOrdered-IsQueue (a ∷ rows) h = (All-Precedes a rows h.0, IsOrdered-IsQueue rows h.1)

-- Both queues are in the order that they promise: get_all_cases returns the cases, each as often as it
-- is stored, those of high priority before those of medium, medium before low and low before any
-- other, and of the same priority the older first; the queue that needs attention is by priority in
-- the same way, and then by the last update of the request, the earlier first. Neither writes.
pub get_all_cases-IsQueue :
    (sorter : Sorter) (db : Database)
    → ((rows : List BillingCase) × (get_all_cases sorter db ≡ (ok rows, db))
        × SameRows rows db.billing_cases
        × IsQueue (λ c. c.priority) (λ c. c.created_at) rows)
      × ((rows : List NeedsAttention) × (get_needs_attention_queue sorter db ≡ (ok rows, db))
          × IsQueue (λ q. q.priority) (λ q. q.updated_at) rows)
unfolding get_all_cases get_needs_attention_queue gets
get_all_cases-IsQueue sorter db = (
  (
    _,
    refl,
    sorter.same_rows (before (λ c. c.priority) (λ c. c.created_at)) db.billing_cases,
    in_order (λ c. c.priority) (λ c. c.created_at) db.billing_cases,
  ),
  (_, refl, in_order (λ q. q.priority) (λ q. q.updated_at) _),
)
  where
    in_order :
        {A : Type 0} (priority : A → String) (time : A → ℕ) (rows : List A)
        → IsQueue priority time (sorter.order_by (before priority time) rows)
    in_order priority time rows = IsOrdered-IsQueue priority time _ (
        sorter.ordered (before priority time) rows
          (ascending_then-IsWeakOrder (λ a. priority_rank (priority a)) time))
