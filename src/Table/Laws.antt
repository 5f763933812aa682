-- ===== src/Table/Laws.antt =====
-- What UPDATE and INSERT do to SELECT, COUNT and fetchone.
use billing_recovery_executi.Common.{
  ◌+◌, Bool, true, false, Option, none, some, List, [], ◌∷◌, ◌++◌, ◌||◌, ◌≡◌, refl, arith,
  if◌then◌else◌,
}
use billing_recovery_executi.Table.Query.{select, fetch_one, count, update, exists}

module _ {A : Type 0} where
  -- A row that is fetched, after UPDATE ... SET f WHERE q.
  abbrev pub touched : (A → Bool) → (A → A) → Option A → Option A
  touched q f none = none
  touched q f (some a) = some (if q a then f a else a)

  abbrev pub first : Option A → Option A → Option A
  first none o = o
  first (some a) o = some a

  pub fetch_one-update :
      (p q : A → Bool) (f : A → A) (t : List A)
      → ((a : A) → p (f a) ≡ p a)
      → fetch_one p (update q f t) ≡ touched q f (fetch_one p t)
  fetch_one-update p q f [] h = refl
  fetch_one-update p q f (a ∷ t) h = ground (arith, h a, fetch_one-update p q f t h)

  pub fetch_one-append :
      (p : A → Bool) (t : List A) (a : A)
      → fetch_one p (t ++ a ∷ []) ≡ first (fetch_one p t) (if p a then some a else none)
  fetch_one-append p [] a = refl
  fetch_one-append p (b ∷ t) a = ground (arith, fetch_one-append p t a)

  pub count-append :
      (p : A → Bool) (t : List A) (a : A)
      → count p (t ++ a ∷ []) ≡ count p t + (if p a then 1 else 0)
  count-append p [] a = ground arith
  count-append p (b ∷ t) a = ground (arith, count-append p t a)

  pub count-update :
      (p q : A → Bool) (f : A → A) (t : List A)
      → ((a : A) → p (f a) ≡ p a)
      → count p (update q f t) ≡ count p t
  count-update p q f [] h = refl
  count-update p q f (a ∷ t) h = ground (arith, h a, count-update p q f t h)

  pub count_of_free : (p : A → Bool) (t : List A) → exists p t ≡ false → count p t ≡ 0
  count_of_free p [] h = refl
  count_of_free p (a ∷ t) h = ground (arith, count_of_free p t)

  pub fetch_one_of_free : (p : A → Bool) (t : List A) → exists p t ≡ false → fetch_one p t ≡ none
  fetch_one_of_free p [] h = refl
  fetch_one_of_free p (a ∷ t) h = ground (arith, fetch_one_of_free p t)

  -- A row that is fetched satisfies the WHERE clause.
  pub fetch_one_holds : (p : A → Bool) (t : List A) (a : A) → fetch_one p t ≡ some a → p a ≡ true
  fetch_one_holds p [] a h = cc
  fetch_one_holds p (b ∷ t) a h = ground (arith, fetch_one_holds p t a)

  pub exists-or :
      (p q : A → Bool) (t : List A)
      → exists (λ a. p a || q a) t ≡ false
      → (exists p t ≡ false) × (exists q t ≡ false)
  exists-or p q [] h = (refl, refl)
  exists-or p q (a ∷ t) h = ground (arith, exists-or p q t)

  pub select_of_none : (p : A → Bool) (t : List A) → select p t ≡ [] → count p t ≡ 0
  select_of_none p [] h = refl
  select_of_none p (a ∷ t) h = ground (arith, select_of_none p t)
