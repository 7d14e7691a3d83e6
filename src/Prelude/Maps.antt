-- ===== src/Prelude/Maps.antt =====
-- Rust's `BTreeMap`: the bindings in increasing order of their keys. `collect` keeps the last
-- binding of a key.
use mathlib.Core.Path.{◌≡◌, refl, sym, subst, ap}
use mathlib.Core.Bool.{true, false, ◌||◌}
use mathlib.Core.Option.{Option, none, some}
use mathlib.Core.List.{List, [], ◌∷◌, map}
use mathlib.Core.Logic.{◌⊎◌, inl, inr}
use native.Mathlib.Omega.{arith}
use boop_orkia_cli.Prelude.Tests.{if◌then◌else◌, Bool-cases}
use boop_orkia_cli.Prelude.Order.{Ord, ◌==◌, ◌<?◌, ==→≡}
use boop_orkia_cli.Prelude.Sets
use boop_orkia_cli.Prelude.Sets.{BTreeSet, contains, contains-cons_cases}

abbrev pub BTreeMap {ℓ κ} : Type ℓ → Type κ → Type (ℓ ⊔ κ)
BTreeMap K V = List (K × V)

-- `map.keys()`
abbrev pub keys {ℓ κ} : {K : Type ℓ} {V : Type κ} → List (K × V) → List K
keys m = map (λ e. e.0) m

pub keys-map {ℓ κ} :
    {K : Type ℓ} {V : Type κ} (f : V → K) (xs : List V) → keys (map (λ x. (f x, x)) xs) ≡ map f xs
keys-map f [] = refl
keys-map f (x ∷ xs) = ap (λ l. f x ∷ l) (keys-map f xs)

pub some_injective {ℓ} : {A : Type ℓ} {a b : A} → ◌≡◌ {A = Option A} (some a) (some b) → a ≡ b
some_injective h = cc

module _ {ℓ κ} {K : Type ℓ} {V : Type κ} ⦃o : Ord K⦄ where
  -- `map.get(&key)`
  unfoldable pub lookup : K → List (K × V) → Option V
  lookup k [] = none
  lookup k ((j, v) ∷ m) = let rest = lookup k m in if k == j then some v else rest

  -- `map.insert(key, value)`
  unfoldable pub put : K → V → BTreeMap K V → BTreeMap K V
  put k v [] = (k, v) ∷ []
  put k v ((j, w) ∷ m) =
      let rest = put k v m in
      if k <? j then (k, v) ∷ (j, w) ∷ m else if k == j then (k, v) ∷ m else (j, w) ∷ rest

  unfoldable pub put_all : BTreeMap K V → List (K × V) → BTreeMap K V
  put_all m [] = m
  put_all m ((k, v) ∷ es) = put_all (put k v m) es

  -- `collect::<BTreeMap<_, _>>()`
  unfoldable pub collect_map : List (K × V) → BTreeMap K V
  collect_map es = put_all [] es

module _ {ℓ κ} {K : Type ℓ} {V : Type κ} ⦃o : Ord K⦄ where
  pub lookup-put :
      (k j : K) (v : V) (m : BTreeMap K V)
      → lookup j (put k v m) ≡ (if j == k then some v else lookup j m)
  unfolding lookup put
  lookup-put k j v [] = refl
  lookup-put k j v ((i, w) ∷ m) =
      ground (arith, lookup-put k j v m, o.eqb_iff j k, o.eqb_iff k i, o.eqb_iff j i)

  pub contains-keys-put :
      (j k : K) (v : V) (m : BTreeMap K V)
      → contains j (keys (put k v m)) ≡ (j == k || contains j (keys m))
  unfolding contains put
  contains-keys-put j k v [] = refl
  contains-keys-put j k v ((i, w) ∷ m) =
      ground (arith, contains-keys-put j k v m, o.eqb_iff j k, o.eqb_iff k i, o.eqb_iff j i)

  contains-keys-put_all :
      (j : K) (m es : List (K × V))
      → contains j (keys (put_all m es)) ≡ (contains j (keys m) || contains j (keys es))
  unfolding contains put_all
  contains-keys-put_all j m [] = ground arith
  contains-keys-put_all j m ((k, v) ∷ es) =
      ground (arith, contains-keys-put_all j (put k v m) es, contains-keys-put j k v m)

  -- The keys of a collected map are the keys that were given.
  pub contains-keys-collect_map :
      (j : K) (es : List (K × V)) → contains j (keys (collect_map es)) ≡ contains j (keys es)
  unfolding collect_map contains
  contains-keys-collect_map j es = contains-keys-put_all j [] es

  -- A key that is there has a value.
  pub contains→lookup :
      (k : K) (m : List (K × V)) → contains k (keys m) ≡ true → (v : V) × (lookup k m ≡ some v)
  unfolding lookup contains
  contains→lookup k [] h = cc
  contains→lookup k ((j, w) ∷ m) h = elim (Bool-cases (k == j)) [
    | inl e ↦ (w, rw e)
    | inr n ↦ rw n (contains→lookup k m (ground arith))
  ]

  pub lookup→contains :
      (k : K) (v : V) (m : List (K × V)) → lookup k m ≡ some v → contains k (keys m) ≡ true
  unfolding lookup contains
  lookup→contains k v [] h = cc
  lookup→contains k v ((j, w) ∷ m) h = ground (arith, lookup→contains k v m)

  pub lookup-absent : (k : K) (m : List (K × V)) → contains k (keys m) ≡ false → lookup k m ≡ none
  unfolding lookup contains
  lookup-absent k [] h = refl
  lookup-absent k ((j, w) ∷ m) h = ground (arith, lookup-absent k m)

  -- What holds of every binding given holds of every binding found.
  abbrev pub AllBindings {μ} : (K → V → Type μ) → List (K × V) → Type μ
  AllBindings P [] = Unit
  AllBindings P ((k, v) ∷ es) = P k v × AllBindings P es

  pub lookup-put_all :
      (j : K) (m es : List (K × V))
      → (lookup j (put_all m es) ≡ lookup j m) ⊎ (contains j (keys es) ≡ true)
  unfolding put_all contains
  lookup-put_all j m [] = inl refl
  lookup-put_all j m ((k, v) ∷ es) =
      ground (arith, lookup-put_all j (put k v m) es, lookup-put k j v m)

  -- With distinct keys every binding is found.
  lookup-put_all_distinct :
      (j : K) (m es : List (K × V))
      → Sets.IsDistinct (keys es)
      → lookup j (put_all m es) ≡ (if contains j (keys es) then lookup j es else lookup j m)
  unfolding put_all contains lookup
  lookup-put_all_distinct j m [] d = refl
  lookup-put_all_distinct j m ((k, v) ∷ es) d = elim (Bool-cases (j == k)) [
    | inl e ↦
        let e' = ==→≡ j k e in
        ground (arith, lookup-put_all_distinct j (put k v m) es d.1, lookup-put k j v m, d.0)
    | inr n ↦ ground (arith, lookup-put_all_distinct j (put k v m) es d.1, lookup-put k j v m)
  ]

  pub lookup-collect_map :
      (j : K) (es : List (K × V))
      → Sets.IsDistinct (keys es)
      → lookup j (collect_map es) ≡ lookup j es
  unfolding collect_map
  lookup-collect_map j es d = elim (Bool-cases (contains j (keys es))) [
    | inl m ↦ rw (lookup-put_all_distinct j [] es d, m)
    | inr a ↦
        rw (lookup-put_all_distinct j [] es d, a)
          (rw (lookup-absent j es a) (unfold lookup in refl))
  ]

  put-AllBindings {μ} :
      (P : K → V → Type μ) (k : K) (v : V) (m : BTreeMap K V)
      → P k v
      → AllBindings P m
      → AllBindings P (put k v m)
  unfolding put
  put-AllBindings P k v [] p h = (p, tt)
  put-AllBindings P k v ((j, w) ∷ m) p h = elim (Bool-cases (k <? j)) [
    | inl lt ↦ rw lt (p, h)
    | inr ge ↦ rw ge (elim (Bool-cases (k == j)) [
      | inl e ↦ rw e (p, h.1)
      | inr n ↦ rw n (h.0, put-AllBindings P k v m p h.1)
    ])
  ]

  put_all-AllBindings {μ} :
      (P : K → V → Type μ) (m es : List (K × V))
      → AllBindings P m
      → AllBindings P es
      → AllBindings P (put_all m es)
  unfolding put_all
  put_all-AllBindings P m [] h k = h
  put_all-AllBindings P m ((j, w) ∷ es) h k =
      put_all-AllBindings P (put j w m) es (put-AllBindings P j w m k.0 h) k.1

  lookup-AllBindings {μ} :
      (P : K → V → Type μ) (k : K) (v : V) (m : List (K × V))
      → AllBindings P m
      → lookup k m ≡ some v
      → P k v
  unfolding lookup
  lookup-AllBindings P k v [] h e = cc
  lookup-AllBindings P k v ((j, w) ∷ m) h e = elim (Bool-cases (k == j)) [
    | inl s ↦
        let same : w ≡ v = some_injective (rw s at e) in
        subst (λ i. P i v) (sym (==→≡ k j s)) (subst (P j) same h.0)
    | inr n ↦ lookup-AllBindings P k v m h.1 (rw n at e)
  ]

  pub lookup-collect_map-AllBindings {μ} :
      (P : K → V → Type μ) (k : K) (v : V) (es : List (K × V))
      → AllBindings P es
      → lookup k (collect_map es) ≡ some v
      → P k v
  unfolding collect_map
  lookup-collect_map-AllBindings P k v es h e =
      lookup-AllBindings P k v (put_all [] es) (put_all-AllBindings P [] es tt h) e
