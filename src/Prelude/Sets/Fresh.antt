-- ===== src/Prelude/Sets/Fresh.antt =====
-- Loops that insert each element of a list into a set and fail at one that is there already: they
-- end exactly on lists of distinct elements. Counting the collected set finds the same.
use Prim.Native.Nat.{suc, ◌+◌, ◌≤◌}
use mathlib.Core.Path.{◌≡◌, refl, ap, sym, ◌∙◌}
use mathlib.Core.Logic.{◌↔◌, inl, inr}
use mathlib.Core.Bool.{true, false}
use mathlib.Core.List.{List, [], ◌∷◌, ◌++◌}
use native.Mathlib.Omega.{arith}
use boop_orkia_cli.Prelude.Tests.{Bool-cases}
use boop_orkia_cli.Prelude.Lists.{length}
use boop_orkia_cli.Prelude.Order.{Ord, ==-refl}
use boop_orkia_cli.Prelude.Sets.{
  BTreeSet, contains, insert, extend, collect, IsSorted, IsDistinct, contains-head, contains-tail,
  contains-insert, contains-cons_cases,
}
use boop_orkia_cli.Prelude.Sets.Sorted.{insert-IsSorted, IsSorted-ext}

module _ {ℓ} {A : Type ℓ} ⦃o : Ord A⦄ where
  -- Every insertion of the elements in turn adds one.
  abbrev pub IsFresh : BTreeSet A → List A → Type 0
  IsFresh seen [] = Unit
  IsFresh seen (x ∷ xs) = (contains x seen ≡ false) × IsFresh (insert x seen) xs

  abbrev pub IsApart : BTreeSet A → List A → Type ℓ
  IsApart seen xs = (k : A) → contains k xs ≡ true → contains k seen ≡ false

  pub IsFresh→IsApart : (seen : BTreeSet A) (xs : List A) → IsFresh seen xs → IsApart seen xs
  IsFresh→IsApart seen [] f k m = unfold contains in cc
  IsFresh→IsApart seen (x ∷ xs) f k m = elim (contains-cons_cases k x xs m) [
    | inl e ↦ rw e f.0
    | inr m' ↦ ground (arith, contains-insert k x seen, IsFresh→IsApart (insert x seen) xs f.1 k m')
  ]

  fresh_head :
      (seen : BTreeSet A) (x : A) (xs : List A) → IsFresh (insert x seen) xs → contains x xs ≡ false
  fresh_head seen x xs f = elim (Bool-cases (contains x xs)) [
    | inl m ↦
        ground
          (arith, contains-insert x x seen, ==-refl x, IsFresh→IsApart (insert x seen) xs f x m)
    | inr n ↦ n
  ]

  pub IsFresh→IsDistinct : (seen : BTreeSet A) (xs : List A) → IsFresh seen xs → IsDistinct xs
  IsFresh→IsDistinct seen [] f = tt
  IsFresh→IsDistinct seen (x ∷ xs) f =
      (fresh_head seen x xs f.1, IsFresh→IsDistinct (insert x seen) xs f.1)

  pub IsDistinct→IsFresh :
      (seen : BTreeSet A) (xs : List A) → IsDistinct xs → IsApart seen xs → IsFresh seen xs
  IsDistinct→IsFresh seen [] d a = tt
  IsDistinct→IsFresh seen (x ∷ xs) d a = (
    a x (contains-head x xs),
    IsDistinct→IsFresh (insert x seen) xs d.1 λ k m.
        ground (arith, contains-insert k x seen, a k (contains-tail k x xs m), o.eqb_iff k x, d.0),
  )

  pub IsFresh-nil_iff : (xs : List A) → IsFresh [] xs ↔ IsDistinct xs
  unfolding contains
  IsFresh-nil_iff xs = (IsFresh→IsDistinct [] xs, λ d. IsDistinct→IsFresh [] xs d (λ k m. refl))

  pub IsFresh-append :
      (seen : BTreeSet A) (xs ys : List A)
      → IsFresh seen (xs ++ ys) ↔ (IsFresh seen xs × IsFresh (extend seen xs) ys)
  unfolding extend
  IsFresh-append seen [] ys = (λ f. (tt, f), λ p. p.1)
  IsFresh-append seen (x ∷ xs) ys =
      let ih = IsFresh-append (insert x seen) xs ys in
      (λ f. ((f.0, (ih.0 f.1).0), (ih.0 f.1).1), λ p. ((p.0).0, ih.1 ((p.0).1, p.1)))

  pub extend-append :
      (seen : BTreeSet A) (xs ys : List A) → extend seen (xs ++ ys) ≡ extend (extend seen xs) ys
  unfolding extend
  extend-append seen [] ys = refl
  extend-append seen (x ∷ xs) ys = extend-append (insert x seen) xs ys

  length-insert_absent :
      (a : A) (s : BTreeSet A) → contains a s ≡ false → length (insert a s) ≡ suc (length s)
  unfolding contains insert
  length-insert_absent a [] h = refl
  length-insert_absent a (x ∷ xs) h = ground (arith, length-insert_absent a xs)

  insert_present : (a : A) (s : BTreeSet A) → IsSorted s → contains a s ≡ true → insert a s ≡ s
  insert_present a s h m =
      IsSorted-ext (insert a s) s (insert-IsSorted a s h) h
        λ k. ground (arith, contains-insert k a s, o.eqb_iff k a)

  length-extend-le :
      (s : BTreeSet A) (xs : List A) → IsSorted s → length (extend s xs) ≤ length s + length xs
  unfolding extend
  length-extend-le s [] h = omega arith
  length-extend-le s (x ∷ xs) h = elim (Bool-cases (contains x s)) [
    | inl m ↦ let same = insert_present x s h m in rw same (omega (arith, length-extend-le s xs h))
    | inr n ↦ omega (
      arith,
      length-extend-le (insert x s) xs (insert-IsSorted x s h),
      length-insert_absent x s n,
    )
  ]

  pub IsFresh→length :
      (s : BTreeSet A) (xs : List A) → IsFresh s xs → length (extend s xs) ≡ length s + length xs
  unfolding extend
  IsFresh→length s [] f = omega arith
  IsFresh→length s (x ∷ xs) f =
      omega (arith, IsFresh→length (insert x s) xs f.1, length-insert_absent x s f.0)

  pub length→IsFresh :
      (s : BTreeSet A) (xs : List A)
      → IsSorted s
      → length (extend s xs) ≡ length s + length xs
      → IsFresh s xs
  unfolding extend
  length→IsFresh s [] h e = tt
  length→IsFresh s (x ∷ xs) h e = elim (Bool-cases (contains x s)) [
    | inl m ↦ absurd (
        omega (
          arith,
          length-extend-le s xs h,
          sym e ∙ ap (λ t. length (extend t xs)) (insert_present x s h m),
        ))
    | inr n ↦ (
      n,
      length→IsFresh (insert x s) xs (insert-IsSorted x s h)
          (omega (arith, e, length-insert_absent x s n)),
    )
  ]

  -- `set.len() == list.len()` after `collect` says that the list has no duplicate.
  pub length-collect_iff : (xs : List A) → (length (collect xs) ≡ length xs) ↔ IsDistinct xs
  unfolding collect
  length-collect_iff xs = (
    λ e. (IsFresh-nil_iff xs).0 (length→IsFresh [] xs tt (omega (arith, e))),
    λ d. omega (arith, IsFresh→length [] xs ((IsFresh-nil_iff xs).1 d)),
  )
