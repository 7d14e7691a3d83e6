-- ===== src/Delivery/Derivation/Units.antt =====
-- crates/orkia-changesets/src/lib.rs: the pull requests that `from_review_plan` makes of the units.
use boop_orkia_cli.Prelude.{
  AllRelated, AllOf, all, true, arith, flat_map, ◌≡◌, refl, sym, subst, ap, ap₂, ◌∙◌, some, List,
  [], ◌∷◌, map, nat_ord,
}
use boop_orkia_cli.Prelude.Sets.{contains, contains-collect, contains-head, contains-tail}
use boop_orkia_cli.Prelude.Maps.{
  lookup, keys, collect_map, AllBindings, lookup-collect_map-AllBindings, contains-keys-collect_map,
  contains→lookup, lookup→contains,
}
use boop_orkia_cli.Errors.{ok_injective, Result, ok, try_map, >>-eq-ok, >>=-eq-ok, ok_or-eq-ok}
use boop_orkia_cli.Model.Ids.{
  AtomId, Bytes, EventId, RepositoryId, ReviewUnitId, SessionId, StackPullRequestId, as_bytes,
  from_stable_parts,
}
use boop_orkia_cli.Model.Objects.{Hash}
use boop_orkia_cli.Model.Atoms.{ChangeAtom}
use boop_orkia_cli.Model.Plans.{ReviewPlan, ReviewUnit, atom_ids}
use boop_orkia_cli.Model.PullRequests.{StackPullRequest, StackPullRequestStatus}
use boop_orkia_cli.Delivery.Stacking.{validate_stack_pull_requests}
use boop_orkia_cli.Delivery.Derivation.{
  request_id, request_ids, select_atoms, request_id_at, select_parents, derive_unit,
  from_review_plan,
}

try_map-AllRelated {ℓ κ} :
    {A : Type ℓ} {B : Type κ} (R : A → B → Type 0) (f : A → Result B)
    → ((a : A) (b : B) → f a ≡ ok b → R a b)
    → (xs : List A) (ys : List B) → try_map f xs ≡ ok ys
    → AllRelated R xs ys
unfolding try_map
try_map-AllRelated R f r [] ys h = subst (AllRelated R []) (ok_injective h) tt
try_map-AllRelated R f r (x ∷ xs) ys h =
    let (y, first, h1) = >>=-eq-ok _ _ h in
    let (others, rest, e) = >>=-eq-ok _ _ h1 in
    let related : AllRelated R (x ∷ xs) (y ∷ others) =
      (r x y first, try_map-AllRelated R f r xs others rest) in
    subst (AllRelated R (x ∷ xs)) (ok_injective e) related

-- Each binding is under the identity of its atom.
atoms-AllBindings :
    (atoms : List ChangeAtom) → AllBindings (λ k a. a.id ≡ k) (map (λ a. (a.id, a)) atoms)
atoms-AllBindings [] = tt
atoms-AllBindings (a ∷ atoms) = (refl, atoms-AllBindings atoms)

same_ids :
    (ids : List AtomId) (atoms : List ChangeAtom)
    → AllRelated (λ k a. a.id ≡ k) ids atoms
    → atom_ids atoms ≡ ids
same_ids [] [] w = refl
same_ids [] (a ∷ atoms) w = absurd w
same_ids (k ∷ ids) [] w = absurd w
same_ids (k ∷ ids) (a ∷ atoms) w = ap₂ ◌∷◌ w.0 (same_ids ids atoms w.1)

select_atoms-ids :
    (plan : ReviewPlan) (ids : List AtomId) (atoms : List ChangeAtom)
    → select_atoms plan ids ≡ ok atoms
    → atom_ids atoms ≡ ids
unfolding select_atoms
select_atoms-ids plan ids atoms h = same_ids ids atoms (
    try_map-AllRelated (λ k a. a.id ≡ k) _
      (λ k a found.
        lookup-collect_map-AllBindings (λ j b. b.id ≡ j) k a (map (λ b. (b.id, b)) plan.atoms)
          (atoms-AllBindings plan.atoms) (ok_or-eq-ok _ _ found))
      ids atoms h)

module _ (sha256 : Bytes → Bytes) (plan : ReviewPlan) (session : SessionId)
    (repository : RepositoryId) (base_commit : Hash) where
  -- The identity of a pull request is drawn from the session and the atoms of its unit.
  abbrev pub AreIdentities : (ReviewUnitId → StackPullRequestId) → Type 0
  AreIdentities identity =
      AllOf
        (λ u.
          identity u.id
          ≡ from_stable_parts sha256 (as_bytes session ∷ map (λ atom. as_bytes atom) u.atoms))
        plan.units

  -- The pull request of a unit, where `identity` gives each unit the identity of its pull request.
  pub record IsDerived (identity : ReviewUnitId → StackPullRequestId) (unit : ReviewUnit)
      (request : StackPullRequest) : Type 0 where
    pub same : request.id ≡ identity unit.id
    pub atoms : atom_ids request.atoms ≡ unit.atoms
    pub known : all (λ d. contains d (map (λ u. u.id) plan.units)) unit.depends_on ≡ true
    pub parents :
        (k : StackPullRequestId)
        → contains k request.parents ≡ contains k (map identity unit.depends_on)
    pub evidence :
        (k : EventId)
        → contains k request.evidence ≡ contains k (flat_map (λ a. a.source_events) request.atoms)
    pub origin : request.source_plan ≡ some plan.id
    pub base : request.base_commit ≡ base_commit
    pub home : request.repository ≡ repository
    pub status : request.status ≡ StackPullRequestStatus.proposed

  module _ (identity : ReviewUnitId → StackPullRequestId) where
    entries-AllBindings :
        (units : List ReviewUnit)
        → AllOf
            (λ u.
              identity u.id
              ≡ from_stable_parts sha256 (as_bytes session ∷ map (λ atom. as_bytes atom) u.atoms))
            units
        → AllBindings
            (λ k v. identity k ≡ v)
            (map (λ u. (u.id, request_id sha256 plan session repository base_commit u)) units)
    unfolding request_id
    entries-AllBindings [] h = tt
    entries-AllBindings (u ∷ units) h = (h.0, entries-AllBindings units h.1)

    unit_keys :
        (units : List ReviewUnit)
        → keys (map (λ u. (u.id, request_id sha256 plan session repository base_commit u)) units)
          ≡ map (λ u. u.id) units
    unit_keys [] = refl
    unit_keys (u ∷ units) = ap (λ l. u.id ∷ l) (unit_keys units)

    -- What is found for a unit is its identity, and the unit is one of the plan.
    found-identity :
        AreIdentities identity
        → (d : ReviewUnitId) (p : StackPullRequestId)
        → lookup d (request_ids sha256 plan session repository base_commit) ≡ some p
        → (identity d ≡ p) × (contains d (map (λ u. u.id) plan.units) ≡ true)
    found-identity h d p found =
        let entries =
          map (λ u. (u.id, request_id sha256 plan session repository base_commit u)) plan.units in
        (
          lookup-collect_map-AllBindings (λ k v. identity k ≡ v) d p entries
              (entries-AllBindings plan.units h) found,
          ap (contains d) (sym (unit_keys plan.units))
              ∙ (sym (contains-keys-collect_map d entries)
                  ∙ lookup→contains d p (collect_map entries) found),
        )

    parents_found :
        (deps : List ReviewUnitId) (parents : List StackPullRequestId)
        → AllRelated
            (λ d p. (identity d ≡ p) × (contains d (map (λ u. u.id) plan.units) ≡ true))
            deps
            parents
        → (map identity deps ≡ parents)
          × (all (λ d. contains d (map (λ u. u.id) plan.units)) deps ≡ true)
    parents_found [] [] r = (refl, refl)
    parents_found [] (p ∷ parents) r = absurd r
    parents_found (d ∷ deps) [] r = absurd r
    parents_found (d ∷ deps) (p ∷ parents) r =
        let (same, known) = parents_found deps parents r.1 in
        (ap₂ ◌∷◌ r.0.0 same, ground (arith, r.0.1, known))

    select_parents-known :
        AreIdentities identity
        → (deps : List ReviewUnitId) (parents : List StackPullRequestId)
        → select_parents sha256 plan session repository base_commit deps ≡ ok parents
        → ((k : StackPullRequestId) → contains k parents ≡ contains k (map identity deps))
          × (all (λ d. contains d (map (λ u. u.id) plan.units)) deps ≡ true)
    unfolding select_parents
    select_parents-known h deps parents e =
        let (found, each, e1) = >>=-eq-ok _ _ e in
        let (same, known) = parents_found deps found (
          try_map-AllRelated
            (λ d p. (identity d ≡ p) × (contains d (map (λ u. u.id) plan.units) ≡ true)) _
            (λ d p o. found-identity h d p (ok_or-eq-ok _ _ o)) deps found each) in
        (
          λ k.
              ap (contains k) (sym (ok_injective e1))
              ∙ (contains-collect k found ∙ ap (contains k) (sym same)),
          known,
        )

    request_id_at-identity :
        AreIdentities identity
        → (id : ReviewUnitId) → contains id (map (λ u. u.id) plan.units) ≡ true
        → request_id_at sha256 plan session repository base_commit id ≡ identity id
    unfolding request_id_at
    request_id_at-identity h id m =
        let entries =
          map (λ u. (u.id, request_id sha256 plan session repository base_commit u)) plan.units in
        let (p, found) =
          contains→lookup id (collect_map entries)
            (contains-keys-collect_map id entries ∙ ap (contains id) (unit_keys plan.units) ∙ m) in
        rw (request_id_at, found) (sym (found-identity h id p found).0)

    derive_unit-IsDerived :
        AreIdentities identity
        → (unit : ReviewUnit) (request : StackPullRequest)
        → contains unit.id (map (λ u. u.id) plan.units) ≡ true
        → derive_unit sha256 plan session repository base_commit unit ≡ ok request
        → IsDerived identity unit request
    unfolding derive_unit
    derive_unit-IsDerived i unit request m h =
        let (selected, chosen, h1) = >>=-eq-ok _ _ h in
        let (parents, below, e) = >>=-eq-ok _ _ h1 in
        let (parents_of_unit, known) = select_parents-known i unit.depends_on parents below in
        subst (IsDerived identity unit) (ok_injective e) (record {
          same = request_id_at-identity i unit.id m;
          atoms = select_atoms-ids plan unit.atoms selected chosen;
          known = known;
          parents = parents_of_unit;
          evidence = λ k. contains-collect k (flat_map (λ a. a.source_events) selected);
          origin = refl;
          base = refl;
          home = refl;
          status = refl;
        })

    derive_units-AllRelated :
        AreIdentities identity
        → (units : List ReviewUnit) (requests : List StackPullRequest)
        → ((id : ReviewUnitId)
            → contains id (map (λ u. u.id) units) ≡ true
            → contains id (map (λ u. u.id) plan.units) ≡ true)
        → try_map (derive_unit sha256 plan session repository base_commit) units ≡ ok requests
        → AllRelated (IsDerived identity) units requests
    unfolding try_map
    derive_units-AllRelated i [] requests m h =
        subst (AllRelated (IsDerived identity) []) (ok_injective h) tt
    derive_units-AllRelated i (u ∷ units) requests m h =
        let (request, first, h1) = >>=-eq-ok _ _ h in
        let (others, rest, e) = >>=-eq-ok _ _ h1 in
        let related : AllRelated (IsDerived identity) (u ∷ units) (request ∷ others) = (
          derive_unit-IsDerived i u request (m u.id (contains-head u.id _)) first,
          derive_units-AllRelated i units others
              (λ id t. m id (contains-tail id u.id (map (λ x. x.id) units) t)) rest,
        ) in
        subst (AllRelated (IsDerived identity) (u ∷ units)) (ok_injective e) related

    -- Where `identity` gives each unit of a plan the identity drawn from the session and the unit's atoms,
    -- the pull requests derived of the plan are one for each unit, in order: each has the identity of its
    -- unit and exactly the unit's atoms, their source events as evidence, and as parents exactly the
    -- identities of the units its unit depends on, which are units of the plan; each is proposed, of the
    -- plan, on the base commit of the repository; and together they are valid.
    pub from_review_plan-AllRelated :
        (requests : List StackPullRequest)
        → AreIdentities identity
        → from_review_plan sha256 plan session repository base_commit ≡ ok requests
        → AllRelated (IsDerived identity) plan.units requests
          × (validate_stack_pull_requests requests ≡ ok tt)
    unfolding from_review_plan
    from_review_plan-AllRelated requests i h =
        let (some_atom, h1) = >>-eq-ok _ _ h in
        let (derived, each, h2) = >>=-eq-ok _ _ h1 in
        let (valid, e) = >>-eq-ok _ _ h2 in
        subst
          (λ rs.
            AllRelated (IsDerived identity) plan.units rs
            × (validate_stack_pull_requests rs ≡ ok tt))
          (ok_injective e) (derive_units-AllRelated i plan.units derived (λ id m. m) each, valid)
