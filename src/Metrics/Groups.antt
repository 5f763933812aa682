-- ===== src/Metrics/Groups.antt =====
-- src/analytics/ops_metrics.py: GROUP BY status, against the counts of each status.
use mathlib.Core.Path.{subst}
use billing_recovery_executi.Common.{
  ℕ, zero, suc, String, Bool, false, List, [], ◌∷◌, ◌==◌, ◌&&◌, ◌≡◌, refl, sym, ◌∙◌, arith, eq_iff,
  eq_refl, leb, Bool-cases, inl, inr,
}
use billing_recovery_executi.Table.{count, column, descending, Sorter}
use billing_recovery_executi.Database.{Database, ok, gets}
use billing_recovery_executi.Metrics.Counts.{
  StatusCount, add_status, group_by_status, get_execution_status_counts, get_case_status_counts,
}

-- The group of a status that has `n` rows.
abbrev pub is_group : String → ℕ → StatusCount → Bool
is_group s n g = g.status == s && leb g.rows n && leb n g.rows

abbrev pub is_status : String → String → Bool
is_status s t = t == s

abbrev pub has_status : String → StatusCount → Bool
has_status s g = g.status == s

-- How many groups a status of `n` rows has.
abbrev pub one_if : ℕ → ℕ
one_if zero = 0
one_if (suc n) = 1

-- The groups count `n` rows of a status: there is no group of it, or one with all of them.
abbrev Counts : List StatusCount → String → ℕ → Type 0
Counts groups s n =
    (count (has_status s) groups ≡ one_if n) × (count (is_group s n) groups ≡ one_if n)

no_group :
    (s : String) (n : ℕ) (groups : List StatusCount)
    → count (has_status s) groups ≡ 0
    → count (is_group s n) groups ≡ 0
no_group s n [] h = refl
no_group s n (g ∷ groups) h = ground (arith, no_group s n groups)

first_row :
    (s : String) (groups : List StatusCount)
    → count (has_status s) groups ≡ 0
    → Counts (add_status s groups) s 1
first_row s [] h = ground (arith, eq_refl s)
first_row s (g ∷ groups) h = ground (arith, first_row s groups)

next_row :
    (s : String) (n : ℕ) (groups : List StatusCount)
    → count (has_status s) groups ≡ 1
    → count (is_group s n) groups ≡ 1
    → Counts (add_status s groups) s (suc n)
next_row s n [] h k = absurd (omega (arith, h))
next_row s n (g ∷ groups) h k =
    ground (arith, next_row s n groups, no_group s n groups, no_group s (suc n) groups)

other_row :
    (s t : String) (n : ℕ) (groups : List StatusCount)
    → (s == t) ≡ false
    → Counts groups t n
    → Counts (add_status s groups) t n
other_row s t n groups h k = (go1 groups ∙ k.0, go2 groups ∙ k.1)
  where
    go1 :
        (groups : List StatusCount)
        → count (has_status t) (add_status s groups) ≡ count (has_status t) groups
    go1 [] = ground (arith, eq_iff s t)
    go1 (g ∷ groups) = ground (arith, eq_iff g.status s, eq_iff g.status t, eq_iff s t, go1 groups)

    go2 :
        (groups : List StatusCount)
        → count (is_group t n) (add_status s groups) ≡ count (is_group t n) groups
    go2 [] = ground (arith, eq_iff s t)
    go2 (g ∷ groups) = ground (arith, eq_iff g.status s, eq_iff g.status t, eq_iff s t, go2 groups)

one_more :
    (s : String) (n : ℕ) (groups : List StatusCount)
    → Counts groups s n
    → Counts (add_status s groups) s (suc n)
one_more s zero groups h = first_row s groups h.0
one_more s (suc n) groups h = next_row s (suc n) groups h.0 h.1

group_by_status-Counts :
    (statuses : List String) (t : String)
    → Counts (group_by_status statuses) t (count (is_status t) statuses)
group_by_status-Counts [] t = (refl, refl)
group_by_status-Counts (s ∷ statuses) t = elim (Bool-cases (s == t)) [
  | inl e ↦ rw e (
      subst
        (λ u.
          Counts (add_status s (group_by_status statuses)) u (suc (count (is_status t) statuses)))
        ((eq_iff s t).0 e)
        (one_more s _ _ (
          subst (λ u. Counts (group_by_status statuses) u (count (is_status t) statuses))
            (sym ((eq_iff s t).0 e)) (group_by_status-Counts statuses t))))
  | inr e ↦ rw e (other_row s t _ _ e (group_by_status-Counts statuses t))
]

-- What the counts of a listing show: for each status, one group if it has rows and none if it has
-- not, and the group has as many rows as the column shows the status.
pub record IsTally (groups : List StatusCount) (statuses : List String) : Type 0 where
  pub groups_of : (s : String) → count (has_status s) groups ≡ one_if (count (is_status s) statuses)
  pub rows_of :
      (s : String)
      → count (is_group s (count (is_status s) statuses)) groups
        ≡ one_if (count (is_status s) statuses)

-- The two listings of counts show each status of a request, or of a case, once, with the number of
-- requests or cases that have it, and no other status; the queries write nothing.
pub get_status_counts-IsTally :
    (sorter : Sorter) (db : Database)
    → ((groups : List StatusCount) × (get_execution_status_counts sorter db ≡ (ok groups, db))
        × IsTally groups (column (λ r. r.status) db.execution_requests))
      × ((groups : List StatusCount) × (get_case_status_counts sorter db ≡ (ok groups, db))
          × IsTally groups (column (λ c. c.status) db.billing_cases))
unfolding get_execution_status_counts get_case_status_counts gets
get_status_counts-IsTally sorter db = (
  (_, refl, tally (column (λ r. r.status) db.execution_requests)),
  (_, refl, tally (column (λ c. c.status) db.billing_cases)),
)
  where
    tally :
        (statuses : List String)
        → IsTally (sorter.order_by (descending (λ g. g.rows)) (group_by_status statuses)) statuses
    tally statuses = record {
      groups_of = λ s. sorter.same_rows _ _ (has_status s) ∙ (group_by_status-Counts statuses s).0;
      rows_of = λ s. sorter.same_rows _ _ (is_group s _) ∙ (group_by_status-Counts statuses s).1;
    }
