-- ===== src/Table/Query.antt =====
-- SELECT, COUNT, UPDATE and fetchone on a list of rows.
use billing_recovery_executi.Common.{
  ℕ, zero, suc, Bool, false, Option, none, some, List, [], ◌∷◌, ◌||◌, if◌then◌else◌,
}

module _ {A : Type 0} where
  -- SELECT ... WHERE p
  abbrev pub select : (A → Bool) → List A → List A
  select p [] = []
  select p (a ∷ t) = let rest = select p t in if p a then a ∷ rest else rest

  -- SELECT ... WHERE p, and fetchone: the first row.
  abbrev pub fetch_one : (A → Bool) → List A → Option A
  fetch_one p [] = none
  fetch_one p (a ∷ t) = let rest = fetch_one p t in if p a then some a else rest

  -- SELECT COUNT(*) ... WHERE p
  abbrev pub count : (A → Bool) → List A → ℕ
  count p [] = zero
  count p (a ∷ t) = let rest = count p t in if p a then suc rest else rest

  -- UPDATE ... SET f WHERE p
  abbrev pub update : (A → Bool) → (A → A) → List A → List A
  update p f [] = []
  update p f (a ∷ t) = (if p a then f a else a) ∷ update p f t

  abbrev pub get_elem? : List A → ℕ → Option A
  get_elem? [] i = none
  get_elem? (a ∷ t) zero = some a
  get_elem? (a ∷ t) (suc i) = get_elem? t i

  -- Whether a row satisfies p: what a key constraint asks before an INSERT.
  abbrev pub exists : (A → Bool) → List A → Bool
  exists p [] = false
  exists p (a ∷ t) = p a || exists p t

  abbrev pub column : {B : Type 0} → (A → B) → List A → List B
  column f [] = []
  column f (a ∷ t) = f a ∷ column f t

-- P holds of each row.
abbrev pub All : {A : Type 0} → (A → Type 0) → List A → Type 0
All P [] = Unit
All P (a ∷ t) = P a × All P t
