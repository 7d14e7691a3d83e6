-- ===== src/Model/Ids/Delimiters.antt =====
-- crates/orkia-model/src/lib.rs: the bytes that `AtomId::from_stable_parts` hashes.
use boop_orkia_cli.Prelude.{
  ℕ, zero, suc, ◌*◌, ◌/◌, ◌%◌, ◌^◌, ◌<◌, ◌≡◌, ◌≢◌, refl, sym, ap, ap₂, ◌∙◌, List, [], ◌∷◌, ◌++◌,
  arith, length, length-append, append_assoc,
}
use boop_orkia_cli.Model.Ids.{Bytes, to_be_bytes, stable_bytes}

-- How many numbers some bytes can write.
abbrev capacity : ℕ → ℕ
capacity zero = 1
capacity (suc count) = 256 * capacity count

uncons : {x y : ℕ} {xs ys : Bytes} → ◌≡◌ {A = Bytes} (x ∷ xs) (y ∷ ys) → (x ≡ y) × (xs ≡ ys)
uncons h = (cc, cc)

-- Equal texts with prefixes of one length have equal prefixes and equal rests.
append-split :
    (xs ys : Bytes) {a b : Bytes}
    → length xs ≡ length ys
    → (xs ++ a) ≡ (ys ++ b)
    → (xs ≡ ys) × (a ≡ b)
append-split [] [] l h = (refl, h)
append-split [] (y ∷ ys) l h = absurd (omega (arith, l))
append-split (x ∷ xs) [] l h = absurd (omega (arith, l))
append-split (x ∷ xs) (y ∷ ys) l h =
    let (first, rest) = uncons h in
    let (same, others) = append-split xs ys (omega (arith, l)) rest in (ap₂ ◌∷◌ first same, others)

length-to_be_bytes : (count n : ℕ) → length (to_be_bytes count n) ≡ count
unfolding to_be_bytes
length-to_be_bytes zero n = refl
length-to_be_bytes (suc count) n = omega (
  arith,
  length-append (to_be_bytes count (n / 256)) ((n % 256) ∷ []),
  length-to_be_bytes count (n / 256),
)

to_be_bytes_injective :
    (count n m : ℕ)
    → n < capacity count
    → m < capacity count
    → to_be_bytes count n ≡ to_be_bytes count m
    → n ≡ m
unfolding to_be_bytes
to_be_bytes_injective zero n m hn hm h = omega arith
to_be_bytes_injective (suc count) n m hn hm h =
    let (high, low) =
      append-split (to_be_bytes count (n / 256)) (to_be_bytes count (m / 256))
        (length-to_be_bytes count (n / 256) ∙ sym (length-to_be_bytes count (m / 256))) h in
    let quotient =
      to_be_bytes_injective count (n / 256) (m / 256) (omega arith) (omega arith) high in
    let (remainder, nothing) = uncons low in omega (arith, quotient, remainder)

-- The length of each part is a 64-bit integer.
abbrev pub AllShort : List Bytes → Type 0
AllShort [] = Unit
AllShort (p ∷ parts) = (length p < 2 ^ 64) × AllShort parts

-- A part is never written as nothing.
delimited_part : (p rest : Bytes) → ((to_be_bytes 8 (length p) ++ p) ++ rest) ≢ []
delimited_part p rest h = absurd (
    omega (
      arith,
      ap (length {A = ℕ}) h,
      length-append (to_be_bytes 8 (length p) ++ p) rest,
      length-append (to_be_bytes 8 (length p)) p,
      length-to_be_bytes 8 (length p),
    ))

-- The first part and the bytes behind it can be read back.
first_part :
    (p q : Bytes) {rest others : Bytes}
    → length p < 2 ^ 64
    → length q < 2 ^ 64
    → ((to_be_bytes 8 (length p) ++ p) ++ rest) ≡ ((to_be_bytes 8 (length q) ++ q) ++ others)
    → (p ≡ q) × (rest ≡ others)
first_part p q {rest} {others} s t h =
    let (delimiter, behind) =
      append-split (to_be_bytes 8 (length p)) (to_be_bytes 8 (length q))
        (length-to_be_bytes 8 (length p) ∙ sym (length-to_be_bytes 8 (length q)))
        (sym (append_assoc (to_be_bytes 8 (length p)) p rest)
          ∙ h
          ∙ append_assoc (to_be_bytes 8 (length q)) q others) in
    append-split p q (to_be_bytes_injective 8 (length p) (length q) s t delimiter) behind

-- Two lists of parts, each part shorter than 2 ^ 64 bytes, that give the same bytes to hash are the same.
pub stable_bytes_injective :
    (parts others : List Bytes)
    → AllShort parts
    → AllShort others
    → stable_bytes parts ≡ stable_bytes others
    → parts ≡ others
unfolding stable_bytes
stable_bytes_injective [] [] s t h = refl
stable_bytes_injective [] (q ∷ others) s t h =
    absurd (delimited_part q (stable_bytes others) (sym h))
stable_bytes_injective (p ∷ parts) [] s t h = absurd (delimited_part p (stable_bytes parts) h)
stable_bytes_injective (p ∷ parts) (q ∷ others) s t h =
    let (first, rest) = first_part p q s.0 t.0 h in
    ap₂ ◌∷◌ first (stable_bytes_injective parts others s.1 t.1 rest)
