-- ===== src/Errors.antt =====
-- crates/orkia-model/src/lib.rs: `OrkiaError` and `Result`, with the control flow that `?`, an early
-- `return Err` and a `for` loop over fallible steps have.
use boop_orkia_cli.Prelude.{
  ◌≡◌, refl, ◌↔◌, ◌⊎◌, inl, inr, Bool, true, false, List, [], ◌∷◌, Option, none, some, arith,
}
use boop_orkia_cli.Prelude.Text.{Text}

pub data OrkiaError : Type 0 where
  invalid not_found conflict integrity external policy : Text → OrkiaError

pub data Result {ℓ} (A : Type ℓ) : Type ℓ where
  ok : A → Result A
  err : OrkiaError → Result A

pub ok_injective {ℓ} : {A : Type ℓ} {a b : A} → ◌≡◌ {A = Result A} (ok a) (ok b) → a ≡ b
ok_injective h = cc

-- `?`, in front of a use of the value and in front of a statement
infixl 5 ◌>>=◌ ◌>>◌
abbrev pub ◌>>=◌ {α β} : {X : Type α} {Y : Type β} → Result X → (X → Result Y) → Result Y
err failure >>= next = err failure
ok value >>= next = next value

abbrev pub ◌>>◌ {β} : {Y : Type β} → Result (Unit {0}) → Result Y → Result Y
err failure >> next = err failure
ok value >> next = next

-- `if test { return Err(e); }`
abbrev pub reject_if : Bool → OrkiaError → Result (Unit {0})
reject_if true e = err e
reject_if false e = ok tt

-- `option.ok_or_else(|| e)`
abbrev pub ok_or {ℓ} : {A : Type ℓ} → Option A → OrkiaError → Result A
ok_or none e = err e
ok_or (some a) e = ok a

module _ {ℓ} {A : Type ℓ} where
  -- `for x in xs { f(x)?; }`
  unfoldable pub for_each : (A → Result (Unit {0})) → List A → Result (Unit {0})
  for_each f [] = ok tt
  for_each f (x ∷ xs) = f x >> for_each f xs

  -- `if let Some(x) = option { f(x)?; }`
  abbrev pub if_some : Option A → (A → Result (Unit {0})) → Result (Unit {0})
  if_some none f = ok tt
  if_some (some a) f = f a

-- `iter().map(f).collect::<Result<Vec<_>>>()`
unfoldable pub try_map {ℓ κ} : {A : Type ℓ} {B : Type κ} → (A → Result B) → List A → Result (List B)
try_map f [] = ok []
try_map f (x ∷ xs) = do y ← f x; ys ← try_map f xs; ok (y ∷ ys)

-- What a chain that succeeds says of its first step and of the rest.
module _ {β} {Y : Type β} {y : Y} where
  pub >>=-eq-ok {α} :
      {X : Type α} (first : Result X) (next : X → Result Y)
      → (first >>= next) ≡ ok y
      → (x : X) × (first ≡ ok x) × (next x ≡ ok y)
  >>=-eq-ok (err failure) next h = cc
  >>=-eq-ok (ok x) next h = (x, refl, h)

  pub >>-eq-ok :
      (first : Result (Unit {0})) (next : Result Y)
      → (first >> next) ≡ ok y
      → (first ≡ ok tt) × (next ≡ ok y)
  >>-eq-ok (err failure) next h = cc
  >>-eq-ok (ok u) next h = (refl, h)

pub reject_if-eq-ok : (b : Bool) (e : OrkiaError) → reject_if b e ≡ ok tt → b ≡ false
reject_if-eq-ok b e h = ground arith

pub ok_or-eq-ok {ℓ} :
    {A : Type ℓ} (o : Option A) (e : OrkiaError) {a : A} → ok_or o e ≡ ok a → o ≡ some a
ok_or-eq-ok none e h = cc
ok_or-eq-ok (some b) e h = cc

pub >>=-ok {ℓ κ} :
    {A : Type ℓ} {B : Type κ} (m : Result A) (f : A → Result B) {a : A} → m ≡ ok a → (m >>= f) ≡ f a
>>=-ok m f h = rw h

pub >>-ok {ℓ} : {B : Type ℓ} (m : Result (Unit {0})) (k : Result B) → m ≡ ok tt → (m >> k) ≡ k
>>-ok m k h = rw h

pub reject_if-ok : (b : Bool) (e : OrkiaError) → b ≡ false → reject_if b e ≡ ok tt
reject_if-ok b e h = rw h

-- A passed `if test { return Err(…) }` in front of the rest.
pub reject_if->>-ok {ℓ} :
    {B : Type ℓ} (b : Bool) (e : OrkiaError) (k : Result B) → b ≡ false → (reject_if b e >> k) ≡ k
reject_if->>-ok b e k h = rw h

pub reject_if_iff : (b : Bool) (e : OrkiaError) → (reject_if b e ≡ ok tt) ↔ (b ≡ false)
reject_if_iff b e = (reject_if-eq-ok b e, reject_if-ok b e)

pub Result-cases {ℓ} :
    {A : Type ℓ} (r : Result A) → ((e : OrkiaError) × (r ≡ err e)) ⊎ ((a : A) × (r ≡ ok a))
Result-cases (err e) = inl (e, refl)
Result-cases (ok a) = inr (a, refl)
