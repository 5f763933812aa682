-- ===== src/Seed/Laws.antt =====
-- src/seed.py: the identifiers of the cases, and seeding again.
use mathlib.Core.Path.{subst}
use billing_recovery_executi.Common.{
  ℕ, ◌+◌, ◌≤◌, ◌<◌, String, true, false, List, [], ◌∷◌, ◌++◌, ◌==◌, ◌≡◌, refl, sym, ◌∙◌, arith, ltb,
  eq_iff, ap, inl, inr, Bool-cases,
}
use billing_recovery_executi.Table.{count, exists, count-append, count_of_free}
use billing_recovery_executi.Database.{
  Database, BillingCase, Env, Result, ok, err, pure, gets, ◌>>=◌,
}
use billing_recovery_executi.Effects.Spec.{
  Condition, Ends, Spec, Spec-bind, Spec-now, Spec-gets, Spec-raise_if, Spec-pure, Spec-pre,
  Spec-post, Spec-fact, Spec-modify,
}
use billing_recovery_executi.Seed.{has_case, at_time, insert_cases, seed_database}

abbrev pub case_count : Database → ℕ
case_count db = count (λ c. true) db.billing_cases

abbrev case_count_of : List BillingCase → ℕ
case_count_of rows = count (λ c. true) rows

-- A table that has cases is left alone.
seed_of_some :
    (env : Env) (cases : List BillingCase) (db : Database)
    → 0 < case_count db
    → seed_database env cases db ≡ (ok tt, db)
unfolding seed_database gets pure ◌>>=◌
seed_of_some env cases db h =
    let some_row : ltb 0 (case_count db) ≡ true = ground arith in rw some_row refl

-- At most one case has each identifier.
pub record HasUniqueIds (rows : List BillingCase) : Type 0 where
  pub at : (id : String) → count (λ c. c.case_id == id) rows ≤ 1

add_case-HasUniqueIds :
    (rows : List BillingCase) (c d : BillingCase)
    → HasUniqueIds rows
    → exists (has_case c) rows ≡ false
    → d.case_id ≡ c.case_id
    → HasUniqueIds (rows ++ d ∷ [])
add_case-HasUniqueIds rows c d h free same = record {
  at = λ id. rw (count-append (λ r. r.case_id == id) rows d) (elim (Bool-cases (d.case_id == id)) [
    | inl e ↦
        let none_yet : count (λ r. r.case_id == id) rows ≡ 0 =
          subst (λ j. count (λ r. r.case_id == j) rows ≡ 0) (sym same ∙ (eq_iff d.case_id id).0 e)
            (count_of_free (has_case c) rows free) in
        rw (e, none_yet) (omega arith)
    | inr e ↦ rw e (omega (arith, h.at id))
  ]);
}

-- The rows that the loop ends with: of unique identifiers, and no fewer.
abbrev Grown : ℕ → List BillingCase → Type 0
Grown n rows = HasUniqueIds rows × (n ≤ count (λ c. true) rows)

module _ (env : Env) (t : List BillingCase) where
  abbrev Same : Condition
  Same db = db.billing_cases ≡ t

  insert_cases-Spec :
      (cases rows : List BillingCase)
      → HasUniqueIds rows
      → Spec Same
          (insert_cases env cases rows)
          (λ out db. Same db × Grown (count (λ c. true) rows + count (λ c. true) cases) out)
          Same
  unfolding insert_cases
  insert_cases-Spec [] rows h = Spec-pure rows λ db k. (k, (h, omega arith))
  insert_cases-Spec (c ∷ cases) rows h = Spec-bind _ _ (Spec-now env λ db k. k) λ at.
      Spec-bind _ _ (Spec-raise_if (λ db k. k) _ _) λ _. Spec-fact λ free.
        Spec-post _
          (insert_cases-Spec cases (rows ++ at_time at c ∷ [])
            (add_case-HasUniqueIds rows c (at_time at c) h free refl))
          λ out db k.
            (k.0, (k.1.0, omega (arith, k.1.1, count-append (λ r. true) rows (at_time at c))))

  -- What a seeding of an empty table ends with.
  seed-Spec :
      (cases : List BillingCase)
      → case_count_of t ≡ 0
      → Spec Same
          (seed_database env cases)
          (λ _ db. Grown (count (λ c. true) cases) db.billing_cases)
          Same
  unfolding seed_database
  seed-Spec cases empty =
      Spec-bind _ _ (Spec-gets (λ db h. h) (λ db. count (λ c. true) db.billing_cases)) λ n.
        Spec-pre {p' = λ db. Same db × (n ≡ 0)}
          (λ db h. (h.0, h.1 ∙ ap (count (λ c. true)) h.0 ∙ empty))
          (Spec-fact λ none_yet. rw (ap (ltb 0) none_yet) (
            Spec-bind _ _ (insert_cases-Spec cases [] (record { at = λ id. omega arith }))
              λ rows. Spec-modify _ λ db h. (h.1.0, omega (arith, h.1.1))))

seeded :
    (r : Result (Unit {0})) (t : List BillingCase) (n : ℕ) (db : Database)
    → Ends (λ _ db. Grown n db.billing_cases) (λ db. db.billing_cases ≡ t) r db
    → HasUniqueIds t
    → HasUniqueIds db.billing_cases
seeded (ok a) t n db h u = h.0
seeded (err e) t n db h u = subst HasUniqueIds (sym h) u

-- If no two cases have one identifier, then none have after seeding, whatever is in the file and
-- whether the seeding returns or raises.
pub seed_database-HasUniqueIds :
    (env : Env) (cases : List BillingCase) (db : Database)
    → HasUniqueIds db.billing_cases
    → HasUniqueIds (seed_database env cases db).1.billing_cases
seed_database-HasUniqueIds env cases db u = elim (Bool-cases (ltb 0 (case_count db))) [
  | inl some_row ↦ rw (seed_of_some env cases db (ground arith)) u
  | inr none_yet ↦
      seeded _ db.billing_cases _ _
        ((seed-Spec env db.billing_cases cases (ground arith)).at db refl) u
]

has_cases :
    (m : Result (Unit {0}) × Database) (t : List BillingCase) (n : ℕ) (next : Database)
    → Ends (λ _ db. Grown n db.billing_cases) (λ db. db.billing_cases ≡ t) m.0 m.1
    → m ≡ (ok tt, next)
    → n ≤ case_count next
has_cases m t n next h e =
    (subst (λ x. Ends (λ _ db. Grown n db.billing_cases) (λ db. db.billing_cases ≡ t) x.0 x.1) e
      h).1

-- Seeding happens once: after a seeding with a file that is not empty has returned, another one,
-- with any file and in any environment, returns and leaves the database as it is.
pub seed_database-seed_database :
    (env env' : Env) (cases cases' : List BillingCase) (db next : Database)
    → 0 < count (λ c. true) cases
    → seed_database env cases db ≡ (ok tt, next)
    → seed_database env' cases' next ≡ (ok tt, next)
seed_database-seed_database env env' cases cases' db next h e =
    elim (Bool-cases (ltb 0 (case_count db))) [
      | inl some_row ↦
          let same : db ≡ next =
            ap (λ x. x.1) (sym (seed_of_some env cases db (ground arith)) ∙ e) in
          seed_of_some env' cases' next (subst (λ d. 0 < case_count d) same (ground arith))
      | inr none_yet ↦ seed_of_some env' cases' next (
          omega (
            arith,
            has_cases _ db.billing_cases _ next
                ((seed-Spec env db.billing_cases cases (ground arith)).at db refl) e,
          ))
    ]
