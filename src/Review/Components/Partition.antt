-- ===== src/Review/Components/Partition.antt =====
-- crates/orkia-review/src/lib.rs: the outer loop of `hard_components`.
use boop_orkia_cli.Prelude.{
  ℕ, zero, suc, ◌≤◌, ◌≡◌, refl, sym, subst, ◌∙◌, true, false, List, [], ◌∷◌, ◌++◌, arith, length,
  is_empty, flat_map, nat_ord, Bool-cases, inl, inr,
}
use boop_orkia_cli.Prelude.Sets.{
  BTreeSet, contains, IsSorted, IsDistinct, contains-append, contains-head, contains-tail,
}
use boop_orkia_cli.Prelude.Sets.Sorted.{IsSorted→IsDistinct}
use boop_orkia_cli.Model.Ids.{AtomId}
use boop_orkia_cli.Review.Components.{Adjacency, neighbours, collect_parts}
use boop_orkia_cli.Review.Components.Search.{Sets}
use boop_orkia_cli.Review.Components.Closure.{IsStable}
use boop_orkia_cli.Review.Components.Round.{
  found, found-length, found-cover, found-apart, found-IsSorted, found-start, found-closed,
  found-label,
}

abbrev pub Parts : Type 0
Parts = List (BTreeSet AtomId)

abbrev pub atoms_of : Parts → List AtomId
atoms_of parts = flat_map (λ p. p) parts

-- Two atoms lie in the same parts.
abbrev pub AreTogether : AtomId → AtomId → Parts → Type 0
AreTogether a b [] = Unit
AreTogether a b (p ∷ parts) = (contains a p ≡ contains b p) × AreTogether a b parts

-- The label of all atoms of a part is one.
abbrev pub IsUniform : {L : Type 0} → (AtomId → L) → Parts → Type 0
IsUniform f [] = Unit
IsUniform f (p ∷ parts) =
    ((a b : AtomId) → contains a p ≡ true → contains b p ≡ true → f a ≡ f b) × IsUniform f parts

abbrev pub AllOccupied : Parts → Type 0
AllOccupied [] = Unit
AllOccupied (p ∷ parts) = (is_empty p ≡ false) × AllOccupied parts

-- Whatever lies in no part lies together.
absent_together :
    (a b : AtomId) (parts : Parts)
    → contains a (atoms_of parts) ≡ false
    → contains b (atoms_of parts) ≡ false
    → AreTogether a b parts
absent_together a b [] ha hb = tt
absent_together a b (p ∷ parts) ha hb = (
  ground
      (arith, contains-append a p (atoms_of parts), contains-append b p (atoms_of parts), ha, hb),
  absent_together a b parts (ground (arith, contains-append a p (atoms_of parts), ha))
      (ground (arith, contains-append b p (atoms_of parts), hb)),
)

IsDistinct-append :
    (xs ys : List AtomId)
    → IsDistinct xs
    → IsDistinct ys
    → ((k : AtomId) → contains k xs ≡ true → contains k ys ≡ false)
    → IsDistinct (xs ++ ys)
IsDistinct-append [] ys dx dy apart = dy
IsDistinct-append (x ∷ xs) ys dx dy apart = (
  ground (arith, contains-append x xs ys, dx.0, apart x (contains-head x xs)),
  IsDistinct-append xs ys dx.1 dy (λ k m. apart k (contains-tail k x xs m)),
)

-- The parts of the atoms left: they hold exactly these, each once; joined atoms lie together; and a
-- label that no edge changes is constant on a part, so that a part is no larger than the edges make it.
pub record AreComponents (adj : Adjacency) (left : BTreeSet AtomId) (parts : Parts) : Type 1 where
  pub cover : (k : AtomId) → contains k (atoms_of parts) ≡ contains k left
  pub once : IsDistinct (atoms_of parts)
  pub occupied : AllOccupied parts
  pub joined :
      (a b : AtomId)
      → contains b (neighbours adj a) ≡ true
      → contains a (neighbours adj b) ≡ true
      → contains a left ≡ true
      → contains b left ≡ true
      → AreTogether a b parts
  pub uniform : {L : Type 0} (f : AtomId → L) → IsStable adj f → IsUniform f parts

no_atoms : (left : BTreeSet AtomId) → length left ≤ 0 → left ≡ []
no_atoms [] h = refl
no_atoms (x ∷ left) h = absurd (omega arith)

AreComponents-nil : (adj : Adjacency) → AreComponents adj [] []
unfolding contains
AreComponents-nil adj = record {
  cover = λ k. refl;
  once = tt;
  occupied = tt;
  joined = λ a b _ _ _ _. tt;
  uniform = λ f s. tt;
}

member_occupied : (k : AtomId) (p : List AtomId) → contains k p ≡ true → is_empty p ≡ false
unfolding contains
member_occupied k [] m = cc
member_occupied k (x ∷ p) m = refl

module _ (adj : Adjacency) (bound : ℕ) (start : AtomId) (others : List AtomId)
    (h : length (start ∷ others) ≤ suc bound) (s : IsSorted (start ∷ others)) where
  abbrev left : BTreeSet AtomId
  left = start ∷ others

  m : contains start left ≡ true
  m = contains-head start others

  abbrev now : Sets
  now = found adj bound left start h m

  round-cover :
      (parts : Parts)
      → ((k : AtomId) → contains k (atoms_of parts) ≡ contains k now.0)
      → (k : AtomId) → contains k (now.1 ++ atoms_of parts) ≡ contains k left
  round-cover parts cover k = ground (
    arith,
    contains-append k now.1 (atoms_of parts),
    cover k,
    found-cover adj bound left start h m k,
  )

  round-joined :
      (parts : Parts)
      → AreComponents adj now.0 parts
      → (a b : AtomId) → contains b (neighbours adj a) ≡ true
      → contains a (neighbours adj b) ≡ true
      → contains a left ≡ true
      → contains b left ≡ true
      → AreTogether a b (now.1 ∷ parts)
  round-joined parts rest a b ab ba am bm = elim (Bool-cases (contains a now.1)) [
    | inl here ↦
        let with = found-closed adj bound left start h m a b here ab bm in
        (
          here ∙ sym with,
          absent_together a b parts
              (ground (arith, rest.cover a, found-apart adj bound left start h m a, here))
              (ground (arith, rest.cover b, found-apart adj bound left start h m b, with)),
        )
    | inr there ↦ elim (Bool-cases (contains b now.1)) [
      | inl here ↦ cc (found-closed adj bound left start h m b a here ba am, there)
      | inr gone ↦ (
        there ∙ sym gone,
        rest.joined a b ab ba (ground (arith, found-cover adj bound left start h m a, am, there))
            (ground (arith, found-cover adj bound left start h m b, bm, gone)),
      )
    ]
  ]

  round-AreComponents :
      (parts : Parts) → AreComponents adj now.0 parts → AreComponents adj left (now.1 ∷ parts)
  round-AreComponents parts rest = record {
    cover = round-cover parts rest.cover;
    once =
        IsDistinct-append now.1 (atoms_of parts)
          (IsSorted→IsDistinct now.1 (found-IsSorted adj bound left start h m s).1) rest.once
          (λ k km. ground (arith, rest.cover k, found-apart adj bound left start h m k, km));
    occupied = (member_occupied start now.1 (found-start adj bound left start h m), rest.occupied);
    joined = round-joined parts rest;
    uniform = λ f stable. (
      λ a b am bm.
          found-label adj bound left start h m f stable a am
          ∙ sym (found-label adj bound left start h m f stable b bm),
      rest.uniform f stable,
    );
  }

-- The loop returns the components of the atoms that it is given.
pub collect_parts-AreComponents :
    (adj : Adjacency) (bound : ℕ) (left : BTreeSet AtomId)
    → length left ≤ bound
    → IsSorted left
    → AreComponents adj left (collect_parts adj bound left)
unfolding collect_parts
collect_parts-AreComponents adj zero left h s =
    subst (λ l. AreComponents adj l []) (sym (no_atoms left h)) (AreComponents-nil adj)
collect_parts-AreComponents adj (suc bound) [] h s = AreComponents-nil adj
collect_parts-AreComponents adj (suc bound) (start ∷ others) h s =
    let now = found adj bound (start ∷ others) start h (contains-head start others) in
    round-AreComponents adj bound start others h s (collect_parts adj bound now.0) (
      collect_parts-AreComponents adj bound now.0
        (found-length adj bound (start ∷ others) start h (contains-head start others))
        (found-IsSorted adj bound (start ∷ others) start h (contains-head start others) s).0)
