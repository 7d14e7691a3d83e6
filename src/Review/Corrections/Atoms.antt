-- ===== src/Review/Corrections/Atoms.antt =====
-- crates/orkia-review/src/lib.rs: the atoms of the units that `apply_correction` filters, redirects,
-- takes out and adds.
use boop_orkia_cli.Prelude.{
  ℕ, ◌+◌, ◌≡◌, refl, sym, ap, subst, ◌∙◌, Bool, not, ◌||◌, Option, none, some, List, [], ◌∷◌, ◌++◌,
  arith, any, filter, flat_map, map, nat_eq, nat_ord, ltb, Bool-cases, Option-cases, inl, inr,
}
use boop_orkia_cli.Prelude.Sets.{BTreeSet, contains, contains-append}
use boop_orkia_cli.Model.Ids.{AtomId, ReviewUnitId}
use boop_orkia_cli.Model.Plans.{ReviewUnit}
use boop_orkia_cli.Model.Plans.Partition.{assigned_atoms}
use boop_orkia_cli.Review.Planning.{sort_units}
use boop_orkia_cli.Review.Planning.Coverage.{occurrences, occurrences-sort_units}
use boop_orkia_cli.Review.Corrections.{redirect_merged, take_unit, group_units, redirect_split}

contains-occurrences : (k : AtomId) (xs : List AtomId) → contains k xs ≡ ltb 0 (occurrences k xs)
unfolding occurrences contains
contains-occurrences k [] = refl
contains-occurrences k (x ∷ xs) = ground (arith, contains-occurrences k xs)

pub contains-sort_units :
    (k : AtomId) (us : List ReviewUnit)
    → contains k (assigned_atoms (sort_units us)) ≡ contains k (assigned_atoms us)
contains-sort_units k us =
    contains-occurrences k (assigned_atoms (sort_units us))
    ∙ ap (ltb 0) (occurrences-sort_units k us)
    ∙ sym (contains-occurrences k (assigned_atoms us))

pub assigned-append :
    (k : AtomId) (us vs : List ReviewUnit)
    → contains k (assigned_atoms (us ++ vs))
      ≡ (contains k (assigned_atoms us) || contains k (assigned_atoms vs))
unfolding contains
assigned-append k [] vs = refl
assigned-append k (u ∷ us) vs = ground (
  arith,
  contains-append k u.atoms (assigned_atoms (us ++ vs)),
  contains-append k u.atoms (assigned_atoms us),
  assigned-append k us vs,
)

-- A redirection of dependencies leaves the atoms.
module _ (redirect : ReviewUnit → ReviewUnit)
    (same : (u : ReviewUnit) → (redirect u).atoms ≡ u.atoms) where
  pub map-atoms : (us : List ReviewUnit) → assigned_atoms (map redirect us) ≡ assigned_atoms us
  map-atoms [] = refl
  map-atoms (u ∷ us) =
      ap (λ l. l ++ assigned_atoms (map redirect us)) (same u)
      ∙ ap (λ l. u.atoms ++ l) (map-atoms us)

pub redirect_merged-atoms :
    (merged : BTreeSet ReviewUnitId) (id : ReviewUnitId) (u : ReviewUnit)
    → (redirect_merged merged id u).atoms ≡ u.atoms
unfolding redirect_merged
redirect_merged-atoms merged id u = elim (Bool-cases (any (λ d. contains d merged) u.depends_on)) [
  | inl e ↦ rw (redirect_merged, e)
  | inr n ↦ rw (redirect_merged, n)
]

pub redirect_split-atoms :
    (id : ReviewUnitId) (ids : List ReviewUnitId) (u : ReviewUnit)
    → (redirect_split id ids u).atoms ≡ u.atoms
unfolding redirect_split
redirect_split-atoms id ids u = elim (Bool-cases (contains id u.depends_on)) [
  | inl e ↦ rw (redirect_split, e)
  | inr n ↦ rw (redirect_split, n)
]

-- The units that a test picks and the others hold the atoms of all.
pub assigned-filter :
    (k : AtomId) (p : ReviewUnit → Bool) (us : List ReviewUnit)
    → contains k (assigned_atoms us) ≡ (
        contains k (assigned_atoms (filter (λ u. not (p u)) us))
        || contains k (assigned_atoms (filter p us)))
unfolding contains
assigned-filter k p [] = refl
assigned-filter k p (u ∷ us) = elim (Bool-cases (p u)) [
  | inl e ↦ rw e (
      ground (
        arith,
        contains-append k u.atoms (assigned_atoms us),
        contains-append k u.atoms (assigned_atoms (filter p us)),
        assigned-filter k p us,
      ))
  | inr n ↦ rw n (
      ground (
        arith,
        contains-append k u.atoms (assigned_atoms us),
        contains-append k u.atoms (assigned_atoms (filter (λ u. not (p u)) us)),
        assigned-filter k p us,
      ))
]

-- What the search for a unit returns holds the atoms of all units.
abbrev pub Takes : AtomId → List ReviewUnit → Option (ReviewUnit × List ReviewUnit) → Type 0
Takes k us none = Unit
Takes k us (some (u, others)) =
    contains k (assigned_atoms us) ≡ (contains k u.atoms || contains k (assigned_atoms others))

pub take_unit-Takes :
    (id : ReviewUnitId) (us : List ReviewUnit) (k : AtomId) → Takes k us (take_unit id us)
unfolding take_unit
take_unit-Takes id [] k = tt
take_unit-Takes id (v ∷ us) k = elim (Bool-cases (nat_eq v.id id)) [
  | inl e ↦ rw e (contains-append k v.atoms (assigned_atoms us))
  | inr n ↦ rw n (elim (Option-cases (take_unit id us)) [
    | inl absent ↦ rw absent tt
    | inr ((u, others), found) ↦ rw found (
        ground (
          arith,
          contains-append k v.atoms (assigned_atoms us),
          contains-append k v.atoms (assigned_atoms others),
          subst (Takes k us) found (take_unit-Takes id us k),
        ))
  ])
]

pub group_units-atoms :
    (id_of : BTreeSet AtomId → ReviewUnitId) (original : ReviewUnit) (index : ℕ)
    (groups : List (BTreeSet AtomId))
    → assigned_atoms (group_units id_of original index groups) ≡ flat_map (λ g. g) groups
unfolding group_units
group_units-atoms id_of original index [] = refl
group_units-atoms id_of original index (g ∷ groups) =
    ap (λ l. g ++ l) (group_units-atoms id_of original (index + 1) groups)
