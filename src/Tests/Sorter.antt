-- ===== src/Tests/Sorter.antt =====
-- ORDER BY by insertion.
use billing_recovery_executi.Common.{
  Bool, true, false, List, [], ◌∷◌, ◌≡◌, refl, arith, if◌then◌else◌,
}
use billing_recovery_executi.Table.{All, Sorter, IsWeakOrder, IsOrdered, SameRows}

module _ {A : Type 0} (before : A → A → Bool) where
  abbrev insert : A → List A → List A
  insert a [] = a ∷ []
  insert a (b ∷ t) = let rest = insert a t in if before b a then b ∷ rest else a ∷ b ∷ t

  abbrev insertion_sort : List A → List A
  insertion_sort [] = []
  insertion_sort (a ∷ t) = insert a (insertion_sort t)

  insert-SameRows : (a : A) (t : List A) → SameRows (insert a t) (a ∷ t)
  insert-SameRows a [] p = refl
  insert-SameRows a (b ∷ t) p = ground (arith, insert-SameRows a t p)

  insertion_sort-SameRows : (t : List A) → SameRows (insertion_sort t) t
  insertion_sort-SameRows [] p = refl
  insertion_sort-SameRows (a ∷ t) p =
      ground (arith, insert-SameRows a (insertion_sort t) p, insertion_sort-SameRows t p)

  module _ (weak : IsWeakOrder before) where
    -- What is not before a row is before none that stands after it.
    after :
        (b a : A) (t : List A)
        → before a b ≡ false
        → All (λ c. before c a ≡ false) t
        → All (λ c. before c b ≡ false) t
    after b a [] h k = tt
    after b a (c ∷ t) h k = (weak.negatively_trans c a b k.0 h, after b a t h k.1)

    insert-All : (P : A → Type 0) (a : A) (t : List A) → P a → All P t → All P (insert a t)
    insert-All P a [] h k = (h, tt)
    insert-All P a (b ∷ t) h k = go (before b a) (insert-All P a t h k.1)
      where
        go : (x : Bool) → All P (insert a t) → All P (if x then b ∷ insert a t else a ∷ b ∷ t)
        go true rest = (k.0, rest)
        go false rest = (h, k)

    insert-IsOrdered : (a : A) (t : List A) → IsOrdered before t → IsOrdered before (insert a t)
    insert-IsOrdered a [] h = (tt, tt)
    insert-IsOrdered a (b ∷ t) h = go (before b a) refl (insert-IsOrdered a t h.1)
      where
        go :
            (x : Bool)
            → before b a ≡ x
            → IsOrdered before (insert a t)
            → IsOrdered before (if x then b ∷ insert a t else a ∷ b ∷ t)
        go true e rest = (insert-All (λ c. before c b ≡ false) a t (weak.asymm b a e) h.0, rest)
        go false e rest = ((e, after a b t e h.0), h)

    insertion_sort-IsOrdered : (t : List A) → IsOrdered before (insertion_sort t)
    insertion_sort-IsOrdered [] = tt
    insertion_sort-IsOrdered (a ∷ t) =
        insert-IsOrdered a (insertion_sort t) (insertion_sort-IsOrdered t)

pub by_insertion : Sorter
by_insertion = record {
  order_by = λ before t. insertion_sort before t;
  same_rows = λ before t. insertion_sort-SameRows before t;
  ordered = λ before t weak. insertion_sort-IsOrdered before weak t;
}
