-- ===== src/Delivery/Stacking/WellFormed.antt =====
-- crates/orkia-changesets/src/lib.rs: what `stack` returns.
use boop_orkia_cli.Prelude.{
  ℕ, ◌≡◌, refl, sym, ap, subst, ◌∙◌, Bool, true, false, not, ◌&&◌, ◌||◌, none, some, List, [], ◌∷◌,
  arith, all, any, filter, map, head?, is_empty, nat_eq, nat_ord, Bool-cases, inl, inr,
}
use boop_orkia_cli.Prelude.Sets.{
  contains, collect, is_subset, set_eq, contains-collect, contains-head, contains→all,
  contains-cons_cases, contains-tail,
}
use boop_orkia_cli.Prelude.Sets.Sorted.{set_eq-ext, collect-IsSorted}
use boop_orkia_cli.Prelude.Maps.{keys, collect_map, contains-keys-collect_map}
use boop_orkia_cli.Errors.{
  ok_injective, ok, >>-eq-ok, >>=-eq-ok, >>-ok, reject_if-eq-ok, reject_if->>-ok, ok_or-eq-ok,
}
use boop_orkia_cli.Model.Ids.{Bytes, StackPullRequestId, from_stack_pull_requests}
use boop_orkia_cli.Model.Objects.{semantic_schema_version, validate_schema_version_iff}
use boop_orkia_cli.Model.PullRequests.{StackPullRequest, validate_reference}
use boop_orkia_cli.Model.Stacks.{Stack, validate_stack}
use boop_orkia_cli.Delivery.Stacking.{validate_stack_pull_requests, stack}

abbrev pub request_ids : List StackPullRequest → List StackPullRequestId
request_ids requests = map (λ p. p.id) requests

-- A stack of some pull requests.
pub record IsStackOf (requests : List StackPullRequest) (made : Stack) : Type 0 where
  pub valid : validate_stack made ≡ ok tt
  pub validated : validate_stack_pull_requests requests ≡ ok tt
  pub members :
      (k : StackPullRequestId) → contains k made.pull_requests ≡ contains k (request_ids requests)
  pub one_repository : all (λ p. nat_eq p.repository made.repository) requests ≡ true

has_member :
    (k : StackPullRequestId) (s : List StackPullRequestId)
    → contains k s ≡ true
    → is_empty s ≡ false
unfolding contains
has_member k [] h = cc
has_member k (x ∷ s) h = refl

not_empty :
    (requests : List StackPullRequest) (first : StackPullRequest)
    → head? requests ≡ some first
    → is_empty (collect (request_ids requests)) ≡ false
not_empty [] first h = cc
not_empty (p ∷ requests) first h =
    has_member p.id (collect (request_ids (p ∷ requests))) (
      contains-collect p.id (request_ids (p ∷ requests))
      ∙ contains-head p.id (request_ids requests))

one_of :
    (repository : ℕ) (requests : List StackPullRequest)
    → any (λ p. not (nat_eq p.repository repository)) requests ≡ false
    → all (λ p. nat_eq p.repository repository) requests ≡ true
one_of repository [] h = refl
one_of repository (p ∷ requests) h = ground (arith, h, one_of repository requests)

filter-ids :
    (root : StackPullRequest → Bool) (requests : List StackPullRequest) (k : StackPullRequestId)
    → contains k (request_ids (filter root requests)) ≡ true
    → contains k (request_ids requests) ≡ true
filter-ids root [] k h = h
filter-ids root (p ∷ requests) k h = elim (Bool-cases (root p)) [
  | inl e ↦ elim (contains-cons_cases k p.id (request_ids (filter root requests)) (rw e at h)) [
    | inl same ↦ rw same (contains-head p.id (request_ids requests))
    | inr m ↦ contains-tail k p.id (request_ids requests) (filter-ids root requests k m)
  ]
  | inr n ↦ contains-tail k p.id (request_ids requests) (filter-ids root requests k (rw n at h))
]

revision-keys :
    (requests : List StackPullRequest)
    → keys (map (λ p. (p.id, p.revision)) requests) ≡ request_ids requests
revision-keys [] = refl
revision-keys (p ∷ requests) = ap (λ l. p.id ∷ l) (revision-keys requests)

module _ (requests : List StackPullRequest) where
  roots_within :
      is_subset
        (collect (map (λ p. p.id) (filter (λ p. is_empty p.parents) requests)))
        (collect (request_ids requests))
      ≡ true
  unfolding is_subset
  roots_within =
      contains→all _ (collect (request_ids (filter (λ p. is_empty p.parents) requests))) (λ k m.
        contains-collect k (request_ids requests)
        ∙ filter-ids (λ p. is_empty p.parents) requests k (sym (contains-collect k _) ∙ m))

  revisions_match :
      set_eq
        (collect (keys (collect_map (map (λ p. (p.id, p.revision)) requests))))
        (collect (request_ids requests))
      ≡ true
  revisions_match = set_eq-ext _ _ (collect-IsSorted _) (collect-IsSorted _) (λ k.
      contains-collect k _
      ∙ contains-keys-collect_map k (map (λ p. (p.id, p.revision)) requests)
      ∙ ap (contains k) (revision-keys requests)
      ∙ sym (contains-collect k (request_ids requests)))

kept : (a b : Bool) → b ≡ true → (a && not b) ≡ false
kept a b h = ground (arith, h)

filled : (a b : Bool) → a ≡ false → b ≡ true → (a || not b) ≡ false
filled a b h g = ground (arith, h, g)

module _ (sha256 : Bytes → Bytes) (requests : List StackPullRequest) where
  abbrev built : StackPullRequest → Stack
  built first = record {
    schema_version = semantic_schema_version;
    id = from_stack_pull_requests sha256 (collect (map (λ p. p.id) requests));
    revision = 0;
    repository = first.repository;
    pull_requests = collect (map (λ p. p.id) requests);
    pull_request_revisions = collect_map (map (λ p. (p.id, p.revision)) requests);
    roots = collect (map (λ p. p.id) (filter (λ p. is_empty p.parents) requests));
    supersedes = none;
  }

  built-valid :
      (first : StackPullRequest)
      → head? requests ≡ some first
      → validate_stack (built first) ≡ ok tt
  unfolding validate_stack validate_reference
  built-valid first found =
      >>-ok _ _ ((validate_schema_version_iff _).1 refl)
      ∙ reject_if->>-ok _ _ _ (filled _ _ (not_empty requests first found) (roots_within requests))
      ∙ reject_if->>-ok _ _ _ (kept _ _ (revisions_match requests))

  -- Whenever a stack is made of pull requests, these are valid together and of one repository, and the
  -- stack is valid and holds exactly them.
  pub stack-IsStackOf : (made : Stack) → stack sha256 requests ≡ ok made → IsStackOf requests made
  unfolding stack
  stack-IsStackOf made h =
      let (validated, h1) = >>-eq-ok _ _ h in
      let (first, found, h2) = >>=-eq-ok _ _ h1 in
      let (one, h3) = >>-eq-ok _ _ h2 in
      subst (IsStackOf requests) (ok_injective h3) (record {
        valid = built-valid first (ok_or-eq-ok _ _ found);
        validated = validated;
        members = λ k. contains-collect k (request_ids requests);
        one_repository = one_of first.repository requests (reject_if-eq-ok _ _ one);
      })
