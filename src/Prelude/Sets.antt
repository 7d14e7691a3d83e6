-- ===== src/Prelude/Sets.antt =====
-- Rust's `BTreeSet`: a strictly increasing list. `collect` inserts from the left.
pub mod Sorted
pub mod Fresh
use Prim.Native.Nat.{ℕ, suc, ◌≤◌, ◌<◌}
use mathlib.Core.Path.{◌≡◌, refl}
use mathlib.Core.Logic.{◌⊎◌, inl, inr}
use mathlib.Core.Bool.{Bool, true, false, not, ◌&&◌, ◌||◌}
use mathlib.Core.List.{List, [], ◌∷◌, ◌++◌}
use native.Mathlib.Omega.{arith}
use boop_orkia_cli.Prelude.Tests.{if◌then◌else◌, Bool-cases, and_true, true_and}
use boop_orkia_cli.Prelude.Lists.{length, all, any, filter, is_empty}
use boop_orkia_cli.Prelude.Order.{Ord, ◌==◌, ◌<?◌, ==→≡, ==-refl, list_ord}

abbrev pub BTreeSet {ℓ} : Type ℓ → Type ℓ
BTreeSet A = List A

module _ {ℓ} {A : Type ℓ} ⦃o : Ord A⦄ where
  unfoldable pub contains : A → List A → Bool
  contains a [] = false
  contains a (x ∷ xs) = a == x || contains a xs

  unfoldable pub insert : A → BTreeSet A → BTreeSet A
  insert a [] = a ∷ []
  insert a (x ∷ xs) =
      let rest = insert a xs in if a <? x then a ∷ x ∷ xs else if a == x then x ∷ xs else x ∷ rest

  unfoldable pub remove : A → BTreeSet A → BTreeSet A
  remove a [] = []
  remove a (x ∷ xs) = let rest = remove a xs in if a == x then rest else x ∷ rest

  -- `extend`
  unfoldable pub extend : BTreeSet A → List A → BTreeSet A
  extend s [] = s
  extend s (x ∷ xs) = extend (insert x s) xs

  -- `collect::<BTreeSet<_>>()`
  unfoldable pub collect : List A → BTreeSet A
  collect xs = extend [] xs

  unfoldable pub is_subset : List A → List A → Bool
  is_subset xs ys = all (λ x. contains x ys) xs

  -- `Eq` on sets compares the elements in order.
  unfoldable pub set_eq : BTreeSet A → BTreeSet A → Bool
  set_eq xs ys = ◌==◌ ⦃o = list_ord⦄ xs ys

  -- Before the first element that is not smaller.
  unfoldable pub place : A → List A → List A
  place a [] = a ∷ []
  place a (x ∷ xs) = let rest = place a xs in if x <? a then x ∷ rest else a ∷ x ∷ xs

  -- `sort`, which is stable and keeps equal elements.
  unfoldable pub sort : List A → List A
  sort [] = []
  sort (x ∷ xs) = place x (sort xs)

  -- `position` of an element, the length where there is none.
  unfoldable pub position : A → List A → ℕ
  position a [] = 0
  position a (x ∷ xs) = let rest = position a xs in if a == x then 0 else suc rest

  abbrev pub IsSorted : List A → Type 0
  IsSorted [] = Unit
  IsSorted (x ∷ xs) = (all (λ y. x <? y) xs ≡ true) × IsSorted xs

  abbrev pub IsDistinct : List A → Type 0
  IsDistinct [] = Unit
  IsDistinct (x ∷ xs) = (contains x xs ≡ false) × IsDistinct xs

module _ {ℓ} {A : Type ℓ} ⦃o : Ord A⦄ where
  pub contains-insert :
      (k a : A) (xs : List A) → contains k (insert a xs) ≡ (k == a || contains k xs)
  unfolding contains insert
  contains-insert k a [] = refl
  contains-insert k a (x ∷ xs) =
      ground (arith, contains-insert k a xs, o.eqb_iff k a, o.eqb_iff a x, o.eqb_iff k x)

  pub contains-remove :
      (k a : A) (xs : List A) → contains k (remove a xs) ≡ (not (k == a) && contains k xs)
  unfolding contains remove
  contains-remove k a [] = ground arith
  contains-remove k a (x ∷ xs) =
      ground (arith, contains-remove k a xs, o.eqb_iff k a, o.eqb_iff a x, o.eqb_iff k x)

  pub contains-append :
      (k : A) (xs ys : List A) → contains k (xs ++ ys) ≡ (contains k xs || contains k ys)
  unfolding contains
  contains-append k [] ys = refl
  contains-append k (x ∷ xs) ys = ground (arith, contains-append k xs ys)

  pub contains-extend :
      (k : A) (s xs : List A) → contains k (extend s xs) ≡ (contains k s || contains k xs)
  unfolding extend contains
  contains-extend k s [] = ground arith
  contains-extend k s (x ∷ xs) =
      ground (arith, contains-extend k (insert x s) xs, contains-insert k x s)

  pub contains-collect : (k : A) (xs : List A) → contains k (collect xs) ≡ contains k xs
  unfolding collect contains
  contains-collect k xs = contains-extend k [] xs

  pub collect_lem : (xs : List A) → collect xs ≡ extend [] xs
  unfolding collect
  collect_lem xs = refl

  pub contains-filter :
      (k : A) (p : A → Bool) (xs : List A) → contains k (filter p xs) ≡ (contains k xs && p k)
  unfolding contains
  contains-filter k p [] = refl
  contains-filter k p (x ∷ xs) = elim (Bool-cases (k == x)) [
    | inl e ↦ rw (==→≡ k x e) (ground (arith, contains-filter x p xs, ==-refl x))
    | inr e ↦ ground (arith, contains-filter k p xs)
  ]

  pub contains-head : (k : A) (xs : List A) → contains k (k ∷ xs) ≡ true
  unfolding contains
  contains-head k xs = ground (arith, ==-refl k)

  pub contains-tail : (k x : A) (xs : List A) → contains k xs ≡ true → contains k (x ∷ xs) ≡ true
  unfolding contains
  contains-tail k x xs h = ground arith

  pub contains-cons_cases :
      (k x : A) (xs : List A) → contains k (x ∷ xs) ≡ true → (k ≡ x) ⊎ (contains k xs ≡ true)
  unfolding contains
  contains-cons_cases k x xs h = ground (arith, o.eqb_iff k x)

  -- A property that `all` tests holds of each member, and the other way round.
  pub all→contains :
      (p : A → Bool) (xs : List A) → all p xs ≡ true → (k : A) → contains k xs ≡ true → p k ≡ true
  all→contains p [] h k m = unfold contains in cc
  all→contains p (x ∷ xs) h k m = elim (contains-cons_cases k x xs m) [
    | inl e ↦ rw e (and_true _ _ h).0
    | inr m' ↦ all→contains p xs (and_true _ _ h).1 k m'
  ]

  pub contains→all :
      (p : A → Bool) (xs : List A) → ((k : A) → contains k xs ≡ true → p k ≡ true) → all p xs ≡ true
  contains→all p [] h = refl
  contains→all p (x ∷ xs) h =
      true_and _ _ (h x (contains-head x xs))
        (contains→all p xs (λ k m. h k (contains-tail k x xs m)))

  -- A failed `all` has a member that fails.
  pub all_fails :
      (p : A → Bool) (xs : List A)
      → all p xs ≡ false
      → (k : A) × (contains k xs ≡ true) × (p k ≡ false)
  all_fails p [] h = cc
  all_fails p (x ∷ xs) h = elim (Bool-cases (p x)) [
    | inl e ↦ let (k, m, f) = all_fails p xs (ground arith) in (k, contains-tail k x xs m, f)
    | inr e ↦ (x, contains-head x xs, e)
  ]

  pub any→contains :
      (p : A → Bool) (xs : List A) → any p xs ≡ false → (k : A) → contains k xs ≡ true → p k ≡ false
  any→contains p [] h k m = unfold contains in cc
  any→contains p (x ∷ xs) h k m = elim (contains-cons_cases k x xs m) [
    | inl e ↦ rw e (ground arith)
    | inr m' ↦ any→contains p xs (ground arith) k m'
  ]

  pub contains→any :
      (p : A → Bool) (xs : List A)
      → ((k : A) → contains k xs ≡ true → p k ≡ false)
      → any p xs ≡ false
  contains→any p [] h = refl
  contains→any p (x ∷ xs) h =
      ground
        (arith, h x (contains-head x xs), contains→any p xs (λ k m. h k (contains-tail k x xs m)))

  pub not_empty→contains : (xs : List A) → is_empty xs ≡ false → (k : A) × (contains k xs ≡ true)
  not_empty→contains [] h = cc
  not_empty→contains (x ∷ xs) h = (x, contains-head x xs)

  pub length-remove-le : (a : A) (xs : List A) → length (remove a xs) ≤ length xs
  unfolding remove
  length-remove-le a [] = omega arith
  length-remove-le a (x ∷ xs) = ground (arith, length-remove-le a xs)

  -- Removing a member makes a set smaller.
  pub length-remove-lt :
      (a : A) (xs : List A) → contains a xs ≡ true → length (remove a xs) < length xs
  unfolding remove contains
  length-remove-lt a [] h = cc
  length-remove-lt a (x ∷ xs) h = ground (arith, length-remove-le a xs, length-remove-lt a xs)
