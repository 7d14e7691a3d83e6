-- ===== src/Prelude/Lists.antt =====
-- Lists measured by native numbers, and the Boolean quantifiers of Rust's iterators.
use Prim.Native.Nat.{ℕ, zero, suc, ◌+◌, ◌≤◌}
use mathlib.Core.Path.{◌≡◌, refl, ap}
use mathlib.Core.Logic.{◌⊎◌, inl, inr, Lift}
use mathlib.Core.Bool.{Bool, true, false, ◌&&◌, ◌||◌}
use mathlib.Core.List.{List, [], ◌∷◌, ◌++◌, map}
use mathlib.Core.Option.{Option, none, some}
use native.Mathlib.Omega.{arith}
use boop_orkia_cli.Prelude.Tests.{if◌then◌else◌, Bool-cases}

module _ {ℓ} {A : Type ℓ} where
  abbrev pub length : List A → ℕ
  length [] = 0
  length (x ∷ xs) = suc (length xs)

  abbrev pub is_empty : List A → Bool
  is_empty [] = true
  is_empty (x ∷ xs) = false

  abbrev pub all : (A → Bool) → List A → Bool
  all p [] = true
  all p (x ∷ xs) = p x && all p xs

  abbrev pub any : (A → Bool) → List A → Bool
  any p [] = false
  any p (x ∷ xs) = p x || any p xs

  -- `iter().filter(p).collect()`, and `retain(p)`
  abbrev pub filter : (A → Bool) → List A → List A
  filter p [] = []
  filter p (x ∷ xs) = if p x then x ∷ filter p xs else filter p xs

  abbrev pub take : ℕ → List A → List A
  take zero xs = []
  take (suc n) [] = []
  take (suc n) (x ∷ xs) = x ∷ take n xs

  abbrev pub drop : ℕ → List A → List A
  drop zero xs = xs
  drop (suc n) [] = []
  drop (suc n) (x ∷ xs) = drop n xs

  -- `list[start..end]`, where the source keeps `start <= end <= list.len()`
  abbrev pub slice : ℕ → ℕ → List A → List A
  slice start end xs = drop start (take end xs)

  abbrev pub head? : List A → Option A
  head? [] = none
  head? (x ∷ xs) = some x

module _ {ℓ} {A : Type ℓ} where
  pub length-append : (xs ys : List A) → length (xs ++ ys) ≡ length xs + length ys
  length-append [] ys = omega arith
  length-append (x ∷ xs) ys = omega (arith, length-append xs ys)

  pub length-filter-le : (p : A → Bool) (xs : List A) → length (filter p xs) ≤ length xs
  length-filter-le p [] = omega arith
  length-filter-le p (x ∷ xs) = ground (arith, length-filter-le p xs)

module _ {ℓ κ} {A : Type ℓ} {B : Type κ} where
  abbrev pub flat_map : (A → List B) → List A → List B
  flat_map f [] = []
  flat_map f (x ∷ xs) = f x ++ flat_map f xs

  pub length-map : (f : A → B) (xs : List A) → length (map f xs) ≡ length xs
  length-map f [] = refl
  length-map f (x ∷ xs) = ap suc (length-map f xs)

pub all-append {ℓ} :
    {A : Type ℓ} (p : A → Bool) (xs ys : List A) → all p (xs ++ ys) ≡ (all p xs && all p ys)
all-append p [] ys = refl
all-append p (x ∷ xs) ys = ground (arith, all-append p xs ys)

pub all-map {ℓ κ} :
    {A : Type ℓ} {B : Type κ} (p : B → Bool) (f : A → B) (xs : List A)
    → all p (map f xs) ≡ all (λ x. p (f x)) xs
all-map p f [] = refl
all-map p f (x ∷ xs) = ground (arith, all-map p f xs)

module _ {ℓ} {A : Type ℓ} where
  -- Before the first element that is not smaller.
  unfoldable pub place_by : (A → A → Bool) → A → List A → List A
  place_by less r [] = r ∷ []
  place_by less r (x ∷ xs) =
      let rest = place_by less r xs in if less x r then x ∷ rest else r ∷ x ∷ xs

  -- `sort_by`, which is stable
  unfoldable pub sort_by : (A → A → Bool) → List A → List A
  sort_by less [] = []
  sort_by less (x ∷ xs) = place_by less x (sort_by less xs)

  -- Some element has a property.
  abbrev pub SomeOf : (A → Type 0) → List A → Type 0
  SomeOf P [] = ⊥
  SomeOf P (x ∷ xs) = P x ⊎ SomeOf P xs

  -- Every element has a property.
  abbrev pub AllOf {κ} : (A → Type κ) → List A → Type κ
  AllOf P [] = Unit
  AllOf P (x ∷ xs) = P x × AllOf P xs

-- Two lists of one length, related element by element.
abbrev pub AllRelated {ℓ κ} :
    {A : Type ℓ} {B : Type κ} → (A → B → Type 0) → List A → List B → Type 0
AllRelated R [] [] = Unit
AllRelated R [] (y ∷ ys) = ⊥
AllRelated R (x ∷ xs) [] = ⊥
AllRelated R (x ∷ xs) (y ∷ ys) = R x y × AllRelated R xs ys

pub map-AllRelated {ℓ κ} :
    {A : Type ℓ} {B : Type κ} (R : A → B → Type 0) (f : A → B)
    → ((x : A) → R x (f x))
    → (xs : List A) → AllRelated R xs (map f xs)
map-AllRelated R f r [] = tt
map-AllRelated R f r (x ∷ xs) = (r x, map-AllRelated R f r xs)

module _ {ℓ κ} {A : Type ℓ} (P : A → Type κ) where
  pub append-AllOf : (xs ys : List A) → AllOf P xs → AllOf P ys → AllOf P (xs ++ ys)
  append-AllOf [] ys h k = k
  append-AllOf (x ∷ xs) ys h k = (h.0, append-AllOf xs ys h.1 k)

  place_by-AllOf :
      (less : A → A → Bool) (x : A) (xs : List A) → P x → AllOf P xs → AllOf P (place_by less x xs)
  unfolding place_by
  place_by-AllOf less x [] h k = (h, tt)
  place_by-AllOf less x (y ∷ ys) h k = elim (Bool-cases (less y x)) [
    | inl e ↦ rw e (k.0, place_by-AllOf less x ys h k.1)
    | inr n ↦ rw n (h, k)
  ]

  pub sort_by-AllOf : (less : A → A → Bool) (xs : List A) → AllOf P xs → AllOf P (sort_by less xs)
  unfolding sort_by
  sort_by-AllOf less [] h = tt
  sort_by-AllOf less (x ∷ xs) h =
      place_by-AllOf less x (sort_by less xs) h.0 (sort_by-AllOf less xs h.1)

  pub AllOf-filter :
      (p : A → Bool) (xs : List A) → AllOf P xs → AllOf (λ x. P x × (p x ≡ true)) (filter p xs)
  AllOf-filter p [] h = tt
  AllOf-filter p (x ∷ xs) h = elim (Bool-cases (p x)) [
    | inl e ↦ rw e ((h.0, e), AllOf-filter p xs h.1)
    | inr n ↦ rw n (AllOf-filter p xs h.1)
  ]

  pub AllOf-weaken {μ} :
      (Q : A → Type μ) (xs : List A) → ((x : A) → P x → Q x) → AllOf P xs → AllOf Q xs
  AllOf-weaken Q [] f h = tt
  AllOf-weaken Q (x ∷ xs) f h = (f x h.0, AllOf-weaken Q xs f h.1)

module _ {ℓ κ μ ν} {A : Type ℓ} {B : Type μ} (P : A → Type κ) (Q : B → Type ν) where
  pub flat_map-AllOf :
      (f : A → List B) (xs : List A)
      → ((x : A) → P x → AllOf Q (f x))
      → AllOf P xs
      → AllOf Q (flat_map f xs)
  flat_map-AllOf f [] g h = tt
  flat_map-AllOf f (x ∷ xs) g h =
      append-AllOf Q (f x) (flat_map f xs) (g x h.0) (flat_map-AllOf f xs g h.1)

module _ {ℓ} {A : Type ℓ} where
  abbrev pub IsIn : A → List A → Type ℓ
  IsIn a [] = Lift {0, ℓ} ⊥
  IsIn a (x ∷ xs) = (a ≡ x) ⊎ IsIn a xs

  pub AllOf-IsIn : (xs : List A) → AllOf (λ a. IsIn a xs) xs
  AllOf-IsIn [] = tt
  AllOf-IsIn (x ∷ xs) = (
    inl refl,
    AllOf-weaken (λ a. IsIn a xs) (λ a. IsIn a (x ∷ xs)) xs (λ a i. inr i) (AllOf-IsIn xs),
  )
