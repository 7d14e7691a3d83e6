-- ===== src/Prelude/Sets/Sorted.antt =====
-- A `BTreeSet` is a strictly increasing list: every operation keeps it so, its elements are
-- distinct, and two sets with the same elements are the same list.
use mathlib.Core.Path.{◌≡◌, refl, ap₂, sym, subst}
use mathlib.Core.Logic.{inl, inr}
use mathlib.Core.Bool.{Bool, true, false}
use mathlib.Core.List.{List, [], ◌∷◌}
use native.Mathlib.Omega.{arith}
use boop_orkia_cli.Prelude.Tests.{Bool-cases, true_and}
use boop_orkia_cli.Prelude.Lists.{all, filter}
use boop_orkia_cli.Prelude.Order.{Ord, ◌==◌, ◌<?◌, ==→≡, ==-refl, list_ord}
use boop_orkia_cli.Prelude.Sets.{
  BTreeSet, contains, insert, remove, extend, collect, IsSorted, IsDistinct, set_eq, contains-head,
  contains-cons_cases, all→contains,
}

module _ {ℓ} {A : Type ℓ} ⦃o : Ord A⦄ where
  less→≢ : (a b : A) → (a <? b) ≡ true → (a == b) ≡ false
  less→≢ a b h = elim (Bool-cases (a == b)) [
    | inl e ↦ cc (rw (==→≡ a b e) at h, o.less_irrefl b)
    | inr e ↦ e
  ]

  all-less_trans :
      (a x : A) (xs : List A)
      → (a <? x) ≡ true
      → all (λ y. x <? y) xs ≡ true
      → all (λ y. a <? y) xs ≡ true
  all-less_trans a x [] h k = refl
  all-less_trans a x (y ∷ ys) h k = ground (arith, o.less_trans a x y, all-less_trans a x ys)

  all-less_not_contains :
      (a : A) (xs : List A) → all (λ y. a <? y) xs ≡ true → contains a xs ≡ false
  unfolding contains
  all-less_not_contains a [] h = refl
  all-less_not_contains a (x ∷ xs) h = ground (arith, less→≢ a x, all-less_not_contains a xs)

  pub IsSorted→IsDistinct : (xs : List A) → IsSorted xs → IsDistinct xs
  IsSorted→IsDistinct [] s = tt
  IsSorted→IsDistinct (x ∷ xs) s = (all-less_not_contains x xs s.0, IsSorted→IsDistinct xs s.1)

  all-less-insert :
      (b a : A) (xs : List A)
      → (b <? a) ≡ true
      → all (λ y. b <? y) xs ≡ true
      → all (λ y. b <? y) (insert a xs) ≡ true
  unfolding insert
  all-less-insert b a [] h k = ground arith
  all-less-insert b a (x ∷ xs) h k = ground (arith, all-less-insert b a xs)

  pub insert-IsSorted : (a : A) (xs : BTreeSet A) → IsSorted xs → IsSorted (insert a xs)
  unfolding insert
  insert-IsSorted a [] s = (refl, tt)
  insert-IsSorted a (x ∷ xs) s = elim (Bool-cases (a <? x)) [
    | inl lt ↦ rw lt (true_and _ _ lt (all-less_trans a x xs lt s.0), s)
    | inr ge ↦ rw ge (elim (Bool-cases (a == x)) [
      | inl e ↦ rw e s
      | inr n ↦ rw n (all-less-insert x a xs (o.less_total a x ge n) s.0, insert-IsSorted a xs s.1)
    ])
  ]

  all-remove : (p : A → Bool) (a : A) (xs : List A) → all p xs ≡ true → all p (remove a xs) ≡ true
  unfolding remove
  all-remove p a [] h = refl
  all-remove p a (x ∷ xs) h = ground (arith, all-remove p a xs)

  pub remove-IsSorted : (a : A) (xs : BTreeSet A) → IsSorted xs → IsSorted (remove a xs)
  unfolding remove
  remove-IsSorted a [] s = tt
  remove-IsSorted a (x ∷ xs) s = elim (Bool-cases (a == x)) [
    | inl e ↦ rw e (remove-IsSorted a xs s.1)
    | inr n ↦ rw n (all-remove _ a xs s.0, remove-IsSorted a xs s.1)
  ]

  pub extend-IsSorted : (s : BTreeSet A) (xs : List A) → IsSorted s → IsSorted (extend s xs)
  unfolding extend
  extend-IsSorted s [] h = h
  extend-IsSorted s (x ∷ xs) h = extend-IsSorted (insert x s) xs (insert-IsSorted x s h)

  pub collect-IsSorted : (xs : List A) → IsSorted (collect xs)
  unfolding collect
  collect-IsSorted xs = extend-IsSorted [] xs tt

  all-filter : (p q : A → Bool) (xs : List A) → all p xs ≡ true → all p (filter q xs) ≡ true
  all-filter p q [] h = refl
  all-filter p q (x ∷ xs) h = ground (arith, all-filter p q xs)

  pub filter-IsSorted : (p : A → Bool) (xs : List A) → IsSorted xs → IsSorted (filter p xs)
  filter-IsSorted p [] s = tt
  filter-IsSorted p (x ∷ xs) s = elim (Bool-cases (p x)) [
    | inl e ↦ rw e (all-filter _ p xs s.0, filter-IsSorted p xs s.1)
    | inr n ↦ rw n (filter-IsSorted p xs s.1)
  ]

  less_asym : (a b : A) → (a <? b) ≡ true → (b <? a) ≡ true → ⊥
  less_asym a b h k = cc (o.less_trans a b a h k, o.less_irrefl a)

  abbrev SameMembers : List A → List A → Type ℓ
  SameMembers xs ys = (k : A) → contains k xs ≡ contains k ys

  SameMembers-head :
      (x y : A) (xs ys : List A)
      → IsSorted (x ∷ xs)
      → IsSorted (y ∷ ys)
      → SameMembers (x ∷ xs) (y ∷ ys)
      → x ≡ y
  SameMembers-head x y xs ys s t same =
      elim (contains-cons_cases x y ys (rw (← same x) (contains-head x xs))) [
        | inl e ↦ e
        | inr m ↦ elim (contains-cons_cases y x xs (rw (same y) (contains-head y ys))) [
          | inl e ↦ sym e
          | inr m' ↦ absurd (less_asym x y (all→contains _ xs s.0 y m') (all→contains _ ys t.0 x m))
        ]
      ]

  SameMembers-tail :
      (x : A) (xs ys : List A)
      → IsSorted (x ∷ xs)
      → IsSorted (x ∷ ys)
      → SameMembers (x ∷ xs) (x ∷ ys)
      → SameMembers xs ys
  unfolding contains
  SameMembers-tail x xs ys s t same k =
      ground (arith, same k, o.eqb_iff k x, all-less_not_contains x xs, all-less_not_contains x ys)

  -- Sets with the same members are equal.
  pub IsSorted-ext : (xs ys : BTreeSet A) → IsSorted xs → IsSorted ys → SameMembers xs ys → xs ≡ ys
  IsSorted-ext [] [] s t same = refl
  IsSorted-ext [] (y ∷ ys) s t same = absurd (unfold contains in cc (same y, ==-refl y))
  IsSorted-ext (x ∷ xs) [] s t same = absurd (unfold contains in cc (same x, ==-refl x))
  IsSorted-ext (x ∷ xs) (y ∷ ys) s t same =
      let e = SameMembers-head x y xs ys s t same in
      let t' : IsSorted (x ∷ ys) = rw e t in
      let same' : SameMembers (x ∷ xs) (x ∷ ys) =
        subst (λ z. SameMembers (x ∷ xs) (z ∷ ys)) (sym e) same in
      ap₂ (λ a l. a ∷ l) e (IsSorted-ext xs ys s.1 t.1 (SameMembers-tail x xs ys s t' same'))

  pub set_eq→≡ : (xs ys : BTreeSet A) → set_eq xs ys ≡ true → xs ≡ ys
  unfolding set_eq
  set_eq→≡ xs ys h = ==→≡ ⦃o = list_ord⦄ xs ys h

  pub set_eq_refl : (xs : BTreeSet A) → set_eq xs xs ≡ true
  unfolding set_eq
  set_eq_refl xs = ==-refl ⦃o = list_ord⦄ xs

  -- Sets that Rust finds equal have the same members, and the other way round.
  pub set_eq-ext :
      (xs ys : BTreeSet A) → IsSorted xs → IsSorted ys → SameMembers xs ys → set_eq xs ys ≡ true
  set_eq-ext xs ys s t same = rw (IsSorted-ext xs ys s t same) (set_eq_refl ys)
