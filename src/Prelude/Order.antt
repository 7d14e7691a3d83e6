-- ===== src/Prelude/Order.antt =====
-- The interface that Rust's `Eq` and `Ord` give a key type, and its instances.
use mathlib.Core.Path.{◌≡◌, refl, ap, ap₂}
use mathlib.Core.Logic.{◌↔◌, ◌≢◌, inl, inr}
use mathlib.Core.Bool.{Bool, true, false, ◌&&◌, ◌||◌}
use mathlib.Core.List.{List, [], ◌∷◌}
use Prim.Native.Nat.{ℕ}
use native.Mathlib.Omega.{arith}
use boop_orkia_cli.Prelude.Tests.{ltb, nat_eq, nat_eq_iff, and_true, Bool-cases}

pub record Ord {ℓ} (A : Type ℓ) : Type ℓ where
  pub eqb : A → A → Bool
  pub less : A → A → Bool
  pub eqb_iff : (a b : A) → (eqb a b ≡ true) ↔ (a ≡ b)
  pub less_irrefl : (a : A) → less a a ≡ false
  pub less_trans : (a b c : A) → less a b ≡ true → less b c ≡ true → less a c ≡ true
  pub less_total : (a b : A) → less a b ≡ false → eqb a b ≡ false → less b a ≡ true

infix 50 ◌==◌ ◌<?◌
abbrev pub ◌==◌ {ℓ} : {A : Type ℓ} ⦃o : Ord A⦄ → A → A → Bool
◌==◌ ⦃o⦄ = o.eqb

abbrev pub ◌<?◌ {ℓ} : {A : Type ℓ} ⦃o : Ord A⦄ → A → A → Bool
◌<?◌ ⦃o⦄ = o.less

module _ {ℓ} {A : Type ℓ} ⦃o : Ord A⦄ where
  pub ==→≡ : (a b : A) → (a == b) ≡ true → a ≡ b
  ==→≡ a b = (o.eqb_iff a b).0

  pub ==-refl : (a : A) → (a == a) ≡ true
  ==-refl a = (o.eqb_iff a a).1 refl

  pub ==-false : (a b : A) → a ≢ b → (a == b) ≡ false
  ==-false a b n = elim (Bool-cases (a == b)) [ inl e ↦ absurd (n (==→≡ a b e)) | inr f ↦ f ]

  pub ==-false→≢ : (a b : A) → (a == b) ≡ false → a ≢ b
  ==-false→≢ a b h e = cc (rw e at h, ==-refl b)

pub nat_less_irrefl : (a : ℕ) → ltb a a ≡ false
nat_less_irrefl a = ground arith

pub nat_less_trans : (a b c : ℕ) → ltb a b ≡ true → ltb b c ≡ true → ltb a c ≡ true
nat_less_trans a b c h k = ground arith

pub nat_less_total : (a b : ℕ) → ltb a b ≡ false → nat_eq a b ≡ false → ltb b a ≡ true
nat_less_total a b h k = ground arith

instance abbrev pub nat_ord : Ord ℕ
nat_ord = record {
  eqb = nat_eq;
  less = ltb;
  eqb_iff = nat_eq_iff;
  less_irrefl = nat_less_irrefl;
  less_trans = nat_less_trans;
  less_total = nat_less_total;
}

-- A derived `Ord` compares by the tuple of the fields.
abbrev pub by_key {ℓ κ} :
    {A : Type ℓ} {B : Type κ} (key : A → B) → ((a b : A) → key a ≡ key b → a ≡ b) → Ord B → Ord A
by_key key injective o = record {
  eqb = λ a b. o.eqb (key a) (key b);
  less = λ a b. o.less (key a) (key b);
  eqb_iff = λ a b. (
    λ h. injective a b ((o.eqb_iff (key a) (key b)).0 h),
    λ e. (o.eqb_iff (key a) (key b)).1 (ap key e),
  );
  less_irrefl = λ a. o.less_irrefl (key a);
  less_trans = λ a b c. o.less_trans (key a) (key b) (key c);
  less_total = λ a b. o.less_total (key a) (key b);
}

module _ {ℓ κ} {A : Type ℓ} {B : Type κ} (o : Ord A) (p : Ord B) where
  abbrev pair_eq : A × B → A × B → Bool
  pair_eq x y = o.eqb x.0 y.0 && p.eqb x.1 y.1

  abbrev pair_less : A × B → A × B → Bool
  pair_less x y = o.less x.0 y.0 || (o.eqb x.0 y.0 && p.less x.1 y.1)

  pub pair_eq_iff : (x y : A × B) → (pair_eq x y ≡ true) ↔ (x ≡ y)
  pair_eq_iff x y = (
    λ h.
        let (f, s) = and_true _ _ h in
        ap₂ (λ a b. (a, b)) ((o.eqb_iff x.0 y.0).0 f) ((p.eqb_iff x.1 y.1).0 s),
    λ e.
        rw ((o.eqb_iff x.0 y.0).1 (ap (λ (t : A × B). t.0) e))
          ((p.eqb_iff x.1 y.1).1 (ap (λ (t : A × B). t.1) e)),
  )

  pub pair_less_irrefl : (x : A × B) → pair_less x x ≡ false
  pair_less_irrefl x = rw (o.less_irrefl x.0, (o.eqb_iff x.0 x.0).1 refl) (p.less_irrefl x.1)

  pub pair_less_trans :
      (x y z : A × B) → pair_less x y ≡ true → pair_less y z ≡ true → pair_less x z ≡ true
  pair_less_trans x y z h k = ground (
    arith,
    o.less_trans x.0 y.0 z.0,
    p.less_trans x.1 y.1 z.1,
    o.eqb_iff x.0 y.0,
    o.eqb_iff y.0 z.0,
    o.eqb_iff x.0 z.0,
  )

  pub pair_less_total :
      (x y : A × B) → pair_less x y ≡ false → pair_eq x y ≡ false → pair_less y x ≡ true
  pair_less_total x y h k =
      ground
        (arith, o.less_total x.0 y.0, p.less_total x.1 y.1, o.eqb_iff x.0 y.0, o.eqb_iff y.0 x.0)

instance abbrev pub pair_ord {ℓ κ} : {A : Type ℓ} {B : Type κ} ⦃o : Ord A⦄ ⦃p : Ord B⦄ → Ord (A × B)
pair_ord ⦃o⦄ ⦃p⦄ = record {
  eqb = pair_eq o p;
  less = pair_less o p;
  eqb_iff = pair_eq_iff o p;
  less_irrefl = pair_less_irrefl o p;
  less_trans = pair_less_trans o p;
  less_total = pair_less_total o p;
}

module _ {ℓ} {A : Type ℓ} (o : Ord A) where
  abbrev list_eq : List A → List A → Bool
  list_eq [] [] = true
  list_eq [] (y ∷ ys) = false
  list_eq (x ∷ xs) [] = false
  list_eq (x ∷ xs) (y ∷ ys) = o.eqb x y && list_eq xs ys

  abbrev list_less : List A → List A → Bool
  list_less xs [] = false
  list_less [] (y ∷ ys) = true
  list_less (x ∷ xs) (y ∷ ys) = o.less x y || (o.eqb x y && list_less xs ys)

  pub list_eq_iff : (xs ys : List A) → (list_eq xs ys ≡ true) ↔ (xs ≡ ys)
  list_eq_iff [] [] = (λ h. refl, λ e. refl)
  list_eq_iff [] (y ∷ ys) = (λ h. cc, λ e. cc)
  list_eq_iff (x ∷ xs) [] = (λ h. cc, λ e. cc)
  list_eq_iff (x ∷ xs) (y ∷ ys) = ground (arith, o.eqb_iff x y, list_eq_iff xs ys)

  pub list_less_irrefl : (xs : List A) → list_less xs xs ≡ false
  list_less_irrefl [] = refl
  list_less_irrefl (x ∷ xs) = ground (arith, o.less_irrefl x, list_less_irrefl xs)

  pub list_less_trans :
      (xs ys zs : List A) → list_less xs ys ≡ true → list_less ys zs ≡ true → list_less xs zs ≡ true
  list_less_trans xs [] zs h k = cc
  list_less_trans xs (y ∷ ys) [] h k = cc
  list_less_trans [] (y ∷ ys) (z ∷ zs) h k = refl
  list_less_trans (x ∷ xs) (y ∷ ys) (z ∷ zs) h k = ground (
    arith,
    o.less_trans x y z,
    list_less_trans xs ys zs,
    o.eqb_iff x y,
    o.eqb_iff y z,
    o.eqb_iff x z,
  )

  pub list_less_total :
      (xs ys : List A) → list_less xs ys ≡ false → list_eq xs ys ≡ false → list_less ys xs ≡ true
  list_less_total [] [] h k = cc
  list_less_total [] (y ∷ ys) h k = cc
  list_less_total (x ∷ xs) [] h k = refl
  list_less_total (x ∷ xs) (y ∷ ys) h k =
      ground (arith, o.less_total x y, list_less_total xs ys, o.eqb_iff x y, o.eqb_iff y x)

-- Sequences, and so texts, compare lexicographically.
instance abbrev pub list_ord {ℓ} : {A : Type ℓ} ⦃o : Ord A⦄ → Ord (List A)
list_ord ⦃o⦄ = record {
  eqb = list_eq o;
  less = list_less o;
  eqb_iff = list_eq_iff o;
  less_irrefl = list_less_irrefl o;
  less_trans = list_less_trans o;
  less_total = list_less_total o;
}
