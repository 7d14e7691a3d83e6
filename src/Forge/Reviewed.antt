-- ===== src/Forge/Reviewed.antt =====
-- crates/orkia-forge/src/lib.rs: what holds of the state between two forge reviews of pull requests.
use boop_orkia_cli.Prelude.{
  ℕ, ◌+◌, if◌then◌else◌, sym, nat_eq, nat_eq_iff, ◌≤◌, ltb, ◌≡◌, refl, subst, true, false, inl, inr,
  Bool-cases, Option, none, some, List, [], ◌∷◌, ◌++◌, arith, all, length, head?, AllOf,
  append-AllOf, nat_ord, ◌==◌, ==→≡,
}
use boop_orkia_cli.Prelude.Sets.{contains, contains-insert}
use boop_orkia_cli.Prelude.Maps.{lookup, lookup-put}
use boop_orkia_cli.Review.Planning.Coverage.{occurrences, occurrences-append}
use boop_orkia_cli.Forge.Counts.{occurrences-remove, contains-occurrences}
use boop_orkia_cli.Prelude.Text.{Text}
use boop_orkia_cli.Model.Ids.{StackPullRequestId}
use boop_orkia_cli.Model.PullRequests.{StackPullRequest}
use boop_orkia_cli.Delivery.Orders.{parents_of}
use boop_orkia_cli.Forge.{
  ForgeReview, ForgeState, base_or, branch_behind, review_on, project_one, request_branch,
  stack_source,
}

-- The pull requests of reviews.
abbrev reviewed : Option StackPullRequestId → List StackPullRequestId
reviewed none = []
reviewed (some id) = id ∷ []

abbrev pub reviewed_ids : List ForgeReview → List StackPullRequestId
reviewed_ids [] = []
reviewed_ids (r ∷ output) = reviewed r.pull_request ++ reviewed_ids output

module _ (simple hyphenated : ℕ → Text) (requests : List StackPullRequest)
    (base_branch : Text) where
  -- The base of a review whose pull request has these parents.
  abbrev pub IsBaseOf : List StackPullRequestId → Text → Type 0
  IsBaseOf [] base = base ≡ base_branch
  IsBaseOf (parent ∷ []) base = base ≡ request_branch simple hyphenated parent
  IsBaseOf (parent ∷ other ∷ parents) base = ⊥

  -- A review of one of some pull requests, where `parents` gives each its parents.
  abbrev pub IsReviewed :
      (StackPullRequestId → List StackPullRequestId)
      → List StackPullRequestId
      → ForgeReview
      → Type 0
  IsReviewed parents ids r =
      (id : StackPullRequestId) × (contains id ids ≡ true)
      × (r.pull_request ≡ some id)
      × (r.branch ≡ request_branch simple hyphenated id)
      × IsBaseOf (parents id) r.base

  -- The branches of what is projected are known, and each entry is reviewed or remains, once.
  pub record IsSound (ids : List StackPullRequestId) (s : ForgeState) : Type 0 where
    pub known :
        (p : StackPullRequestId)
        → contains p s.projected ≡ true
        → lookup p s.branches ≡ some (request_branch simple hyphenated p)
    pub sound : AllOf (IsReviewed (parents_of requests) ids) s.output
    pub once :
        (k : StackPullRequestId)
        → occurrences k (reviewed_ids s.output) + occurrences k s.remaining
          ≡ (if contains k ids then 1 else 0)

  IsBaseOf-branch_behind :
      (s : ForgeState) (parents : List StackPullRequestId)
      → ((p : StackPullRequestId)
          → contains p s.projected ≡ true
          → lookup p s.branches ≡ some (request_branch simple hyphenated p))
      → all (λ p. contains p s.projected) parents ≡ true
      → ltb 1 (length parents) ≡ false
      → IsBaseOf parents (
          base_or base_branch
            (branch_behind (stack_source simple hyphenated requests) s (head? parents)))
  unfolding stack_source
  IsBaseOf-branch_behind s [] known met single = refl
  IsBaseOf-branch_behind s (p ∷ []) known met single = rw (known p (ground arith)) refl
  IsBaseOf-branch_behind s (p ∷ q ∷ parents) known met single = absurd (ground arith)

  reviewed_ids-append :
      (xs ys : List ForgeReview) (k : StackPullRequestId)
      → occurrences k (reviewed_ids (xs ++ ys))
        ≡ occurrences k (reviewed_ids xs) + occurrences k (reviewed_ids ys)
  unfolding occurrences
  reviewed_ids-append [] ys k = omega arith
  reviewed_ids-append (x ∷ xs) ys k = omega (
    arith,
    occurrences-append k (reviewed x.pull_request) (reviewed_ids (xs ++ ys)),
    occurrences-append k (reviewed x.pull_request) (reviewed_ids xs),
    reviewed_ids-append xs ys k,
  )

  remaining-known :
      (ids : List StackPullRequestId) (s : ForgeState) (id : StackPullRequestId)
      → IsSound ids s
      → contains id s.remaining ≡ true
      → contains id ids ≡ true
  remaining-known ids s id h m = ground (arith, h.once id, m, contains-occurrences id s.remaining)

  pub project_one-IsSound :
      (ids : List StackPullRequestId) (s : ForgeState) (id : StackPullRequestId)
      → IsSound ids s
      → contains id s.remaining ≡ true
      → all (λ p. contains p s.projected) (parents_of requests id) ≡ true
      → ltb 1 (length (parents_of requests id)) ≡ false
      → IsSound ids (project_one (stack_source simple hyphenated requests) base_branch s id)
  unfolding project_one review_on stack_source contains occurrences
  project_one-IsSound ids s id h m met single =
      let based = IsBaseOf-branch_behind s (parents_of requests id) h.known met single in
      record {
        known = λ p m. elim (Bool-cases (p == id)) [
          | inl e ↦
              rw (lookup-put id p (request_branch simple hyphenated id) s.branches, e, ==→≡ p id e)
                refl
          | inr n ↦
              rw (lookup-put id p (request_branch simple hyphenated id) s.branches, n)
                (h.known p (ground (arith, contains-insert p id s.projected)))
        ];
        sound =
            append-AllOf (IsReviewed (parents_of requests) ids) s.output _ h.sound
              ((id, remaining-known ids s id h m, refl, refl, based), tt);
        once = λ k. elim (Bool-cases (nat_eq k id)) [
          | inl e ↦
              let same : k ≡ id = (nat_eq_iff k id).0 e in
              ground (
                arith,
                e,
                h.once k,
                subst (λ i. contains i s.remaining ≡ true) (sym same) m,
                contains-occurrences k s.remaining,
                occurrences-remove k id s.remaining,
                reviewed_ids-append s.output
                    (review_on (stack_source simple hyphenated requests) base_branch s id ∷ []) k,
              )
          | inr n ↦ ground (
            arith,
            n,
            h.once k,
            occurrences-remove k id s.remaining,
            reviewed_ids-append s.output
                (review_on (stack_source simple hyphenated requests) base_branch s id ∷ []) k,
          )
        ];
      }

  -- What a round takes remains, each entry once.
  abbrev pub AreTaken : ForgeState → List StackPullRequestId → Type 0
  AreTaken s ready = (k : StackPullRequestId) → occurrences k ready ≤ occurrences k s.remaining

  pub taken-remaining :
      (s : ForgeState) (id : StackPullRequestId) (ready : List StackPullRequestId)
      → AreTaken s (id ∷ ready)
      → contains id s.remaining ≡ true
  unfolding occurrences
  taken-remaining s id ready h =
      ground (arith, h id, contains-occurrences id s.remaining, (nat_eq_iff id id).1 refl)

  pub project_one-AreTaken :
      (ids : List StackPullRequestId) (s : ForgeState) (id : StackPullRequestId)
      (ready : List StackPullRequestId)
      → IsSound ids s
      → AreTaken s (id ∷ ready)
      → AreTaken (project_one (stack_source simple hyphenated requests) base_branch s id) ready
  unfolding project_one occurrences
  project_one-AreTaken ids s id ready h t k =
      ground (arith, t k, h.once k, occurrences-remove k id s.remaining)
