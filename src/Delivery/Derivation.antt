-- ===== src/Delivery/Derivation.antt =====
-- crates/orkia-changesets/src/lib.rs: `from_review_plan`, one pull request for each unit of a plan.
pub mod Units
use boop_orkia_cli.Prelude.{none, some, List, [], ◌∷◌, map, flat_map, is_empty, nat_ord}
use boop_orkia_cli.Prelude.Sets.{BTreeSet, collect}
use boop_orkia_cli.Prelude.Maps.{BTreeMap, lookup, collect_map}
use boop_orkia_cli.Prelude.Text.{text}
use boop_orkia_cli.Errors.{Result, ok, invalid, integrity, reject_if, ok_or, try_map, ◌>>=◌, ◌>>◌}
use boop_orkia_cli.Model.Ids.{
  AtomId, Bytes, RepositoryId, ReviewUnitId, SessionId, StackPullRequestId, as_bytes,
  from_stable_parts,
}
use boop_orkia_cli.Model.Objects.{Hash, semantic_schema_version}
use boop_orkia_cli.Model.Atoms.{ChangeAtom}
use boop_orkia_cli.Model.Plans.{ReviewPlan, ReviewUnit}
use boop_orkia_cli.Model.PullRequests.{StackPullRequest, proposed}
use boop_orkia_cli.Delivery.Stacking.{validate_stack_pull_requests}

abbrev pub atoms_by_id : ReviewPlan → BTreeMap AtomId ChangeAtom
atoms_by_id plan = collect_map (map (λ a. (a.id, a)) plan.atoms)

-- `atoms.get(atom)` of each atom of a unit.
unfoldable pub select_atoms : ReviewPlan → BTreeSet AtomId → Result (List ChangeAtom)
select_atoms plan atoms =
    try_map
      (λ atom.
        ok_or (lookup atom (atoms_by_id plan))
          (integrity (text "review unit references an absent atom")))
      atoms

module _ (sha256 : Bytes → Bytes) (plan : ReviewPlan) (session : SessionId)
    (repository : RepositoryId) (base_commit : Hash) where
  -- The identity of the pull request of a unit: of the session and of the unit's atoms.
  unfoldable pub request_id : ReviewUnit → StackPullRequestId
  request_id unit =
      from_stable_parts sha256 (as_bytes session ∷ map (λ atom. as_bytes atom) unit.atoms)

  abbrev pub request_ids : BTreeMap ReviewUnitId StackPullRequestId
  request_ids = collect_map (map (λ u. (u.id, request_id u)) plan.units)

  -- `unit_ids[&unit.id]`, of a unit of the plan, whose identity is a key.
  unfoldable pub request_id_at : ReviewUnitId → StackPullRequestId
  request_id_at id = elim (lookup id request_ids) [ none ↦ 0 | some request ↦ request ]

  unfoldable pub select_parents : BTreeSet ReviewUnitId → Result (BTreeSet StackPullRequestId)
  select_parents depends_on = do
    parents ←
        try_map
          (λ dependency.
            ok_or (lookup dependency request_ids)
              (integrity (text "review unit depends on an absent unit")))
          depends_on
    ok (collect parents)

  -- The body of the loop over the units.
  unfoldable pub derive_unit : ReviewUnit → Result StackPullRequest
  derive_unit unit = do
    selected ← select_atoms plan unit.atoms
    parents ← select_parents unit.depends_on
    ok (record {
      schema_version = semantic_schema_version;
      id = request_id_at unit.id;
      revision = 0;
      source_plan = some plan.id;
      source_plan_revision = plan.revision;
      session = session;
      intent = none;
      repository = repository;
      base_commit = base_commit;
      parents = parents;
      dependencies = [];
      atoms = selected;
      patches = [];
      evidence = collect (flat_map (λ a. a.source_events) selected);
      validations = [];
      status = proposed;
      supersedes = none;
    })

  -- `from_review_plan`
  unfoldable pub from_review_plan : Result (List StackPullRequest)
  from_review_plan = do
    reject_if (is_empty plan.atoms)
        (invalid (text "cannot derive stack pull requests without atoms"))
    requests ← try_map derive_unit plan.units
    validate_stack_pull_requests requests
    ok requests
