-- ===== src/Forge/Bases.antt =====
-- crates/orkia-forge/src/lib.rs: the bases of the forge reviews of pull requests.
use boop_orkia_cli.Prelude.{
  ℕ, ◌+◌, if◌then◌else◌, AllOf-weaken, zero, suc, ◌≤◌, ◌<◌, ltb, ◌≡◌, refl, subst, ap, ◌∙◌, true,
  false, inl, inr, Bool-cases, List, [], ◌∷◌, arith, all, map, filter, length, is_empty, AllOf,
  nat_ord,
}
use boop_orkia_cli.Prelude.Sets.{
  contains, insert, collect, contains-insert, contains-collect, all→contains, contains→all,
  length-remove-le, length-remove-lt,
}
use boop_orkia_cli.Prelude.Maps.{keys, lookup, contains-keys-collect_map, keys-map}
use boop_orkia_cli.Prelude.Sets.Sorted.{collect-IsSorted, IsSorted→IsDistinct}
use boop_orkia_cli.Review.Planning.Coverage.{occurrences, occurrences-distinct}
use boop_orkia_cli.Forge.Counts.{occurrences-filter-le}
use boop_orkia_cli.Delivery.Orders.Topological.{AreParents, parents_of-eq}
use boop_orkia_cli.Prelude.Text.{Text}
use boop_orkia_cli.Errors.{ok, reject_if, >>-eq-ok, >>=-eq-ok, ok_injective, reject_if-eq-ok}
use boop_orkia_cli.Model.Ids.{StackPullRequestId}
use boop_orkia_cli.Model.PullRequests.{StackPullRequest}
use boop_orkia_cli.Delivery.Orders.{by_id, parents_of}
use boop_orkia_cli.Forge.{
  ForgeReview, ForgeState, project_one, project_ready, ready_entries, project_rounds, project_all,
  stack_source, stack_pull_request_projections,
}
use boop_orkia_cli.Forge.Reviewed.{
  reviewed_ids, IsBaseOf, IsReviewed, IsSound, AreTaken, taken-remaining, project_one-IsSound,
  project_one-AreTaken,
}

module _ (simple hyphenated : ℕ → Text) (requests : List StackPullRequest)
    (base_branch : Text) where
  abbrev AreReady : ForgeState → List StackPullRequestId → Type 0
  AreReady s ready =
      AllOf (λ id. all (λ p. contains p s.projected) (parents_of requests id) ≡ true) ready

  -- What an entry waits for stays projected.
  project_one-AreReady :
      (s : ForgeState) (id : StackPullRequestId) (ready : List StackPullRequestId)
      → AreReady s ready
      → AreReady (project_one (stack_source simple hyphenated requests) base_branch s id) ready
  unfolding project_one
  project_one-AreReady s id [] h = tt
  project_one-AreReady s id (x ∷ ready) h = (
    contains→all (λ p. contains p (insert id s.projected)) (parents_of requests x)
        (λ p m.
          let there = all→contains (λ q. contains q s.projected) (parents_of requests x) h.0 p m in
          ground (arith, contains-insert p id s.projected)),
    project_one-AreReady s id ready h.1,
  )

  project_ready-IsSound :
      (ids : List StackPullRequestId) (s t : ForgeState) (ready : List StackPullRequestId)
      → IsSound simple hyphenated requests base_branch ids s
      → AreReady s ready
      → AreTaken simple hyphenated requests base_branch s ready
      → project_ready (stack_source simple hyphenated requests) base_branch s ready ≡ ok t
      → IsSound simple hyphenated requests base_branch ids t
        × (length t.remaining ≤ length s.remaining)
  unfolding project_ready project_one stack_source
  project_ready-IsSound ids s t [] h r m e =
      subst
        (λ u.
          IsSound simple hyphenated requests base_branch ids u
          × (length u.remaining ≤ length s.remaining))
        (ok_injective e) (h, omega arith)
  project_ready-IsSound ids s t (id ∷ ready) h r m e =
      let (single, rest) = >>-eq-ok (reject_if (ltb 1 (length (parents_of requests id))) _) _ e in
      let (sound, less) =
        project_ready-IsSound ids
          (project_one (stack_source simple hyphenated requests) base_branch s id) t ready
          (project_one-IsSound simple hyphenated requests base_branch ids s id h
            (taken-remaining simple hyphenated requests base_branch s id ready m) r.0
            (reject_if-eq-ok _ _ single))
          (project_one-AreReady s id ready r.1)
          (project_one-AreTaken simple hyphenated requests base_branch ids s id ready h m) rest in
      (sound, omega (arith, less, length-remove-le id s.remaining))

  -- A round that projects an entry leaves fewer.
  project_ready-lt :
      (s t : ForgeState) (ids ready : List StackPullRequestId) (id : StackPullRequestId)
      → IsSound simple hyphenated requests base_branch ids s
      → AreReady s (id ∷ ready)
      → AreTaken simple hyphenated requests base_branch s (id ∷ ready)
      → project_ready (stack_source simple hyphenated requests) base_branch s (id ∷ ready) ≡ ok t
      → length t.remaining < length s.remaining
  unfolding project_ready project_one stack_source
  project_ready-lt s t ids ready id h r m e =
      let (single, rest) = >>-eq-ok (reject_if (ltb 1 (length (parents_of requests id))) _) _ e in
      let (sound, less) =
        project_ready-IsSound ids
          (project_one (stack_source simple hyphenated requests) base_branch s id) t ready
          (project_one-IsSound simple hyphenated requests base_branch ids s id h
            (taken-remaining simple hyphenated requests base_branch s id ready m) r.0
            (reject_if-eq-ok _ _ single))
          (project_one-AreReady s id ready r.1)
          (project_one-AreTaken simple hyphenated requests base_branch ids s id ready h m) rest in
      omega (
        arith,
        less,
        length-remove-lt id s.remaining
            (taken-remaining simple hyphenated requests base_branch s id ready m),
      )

  ready_entries-AreReady :
      (s : ForgeState) (entries : List StackPullRequestId)
      → AreReady s
          (filter (λ id. all (λ p. contains p s.projected) (parents_of requests id)) entries)
  ready_entries-AreReady s [] = tt
  ready_entries-AreReady s (x ∷ entries) =
      elim (Bool-cases (all (λ p. contains p s.projected) (parents_of requests x))) [
        | inl e ↦ rw e (e, ready_entries-AreReady s entries)
        | inr n ↦ rw n (ready_entries-AreReady s entries)
      ]

  round-lt :
      (s t : ForgeState) (ids ready : List StackPullRequestId)
      → IsSound simple hyphenated requests base_branch ids s
      → AreReady s ready
      → AreTaken simple hyphenated requests base_branch s ready
      → is_empty ready ≡ false
      → project_ready (stack_source simple hyphenated requests) base_branch s ready ≡ ok t
      → length t.remaining < length s.remaining
  round-lt s t ids [] h r m n e = cc
  round-lt s t ids (id ∷ ready) h r m n e = project_ready-lt s t ids ready id h r m e

  -- Each of some pull requests has one review, and each review is of one of them.
  abbrev pub AreAllReviewed :
      (StackPullRequestId → List StackPullRequestId)
      → List StackPullRequestId
      → List ForgeReview
      → Type 0
  AreAllReviewed parents ids output =
      AllOf (IsReviewed simple hyphenated requests base_branch parents ids) output
      × ((k : StackPullRequestId)
          → occurrences k (reviewed_ids output) ≡ (if contains k ids then 1 else 0))

  finished-AreAllReviewed :
      (ids remaining : List StackPullRequestId) (s : ForgeState)
      → s.remaining ≡ remaining
      → is_empty remaining ≡ true
      → IsSound simple hyphenated requests base_branch ids s
      → AreAllReviewed (parents_of requests) ids s.output
  unfolding occurrences
  finished-AreAllReviewed ids [] s e d h = (
    h.sound,
    λ k.
        let c =
          subst
            (λ r.
              occurrences k (reviewed_ids s.output) + occurrences k r
              ≡ (if contains k ids then 1 else 0))
            e (h.once k) in
        omega (arith, c),
  )
  finished-AreAllReviewed ids (x ∷ remaining) s e d h = cc

  no_entries :
      (remaining : List StackPullRequestId) → length remaining ≤ 0 → is_empty remaining ≡ true
  no_entries [] h = refl
  no_entries (x ∷ remaining) h = absurd (omega arith)

  entries_ready :
      (s : ForgeState)
      → AreReady s (ready_entries (stack_source simple hyphenated requests) base_branch s)
  unfolding ready_entries stack_source
  entries_ready s = ready_entries-AreReady s s.remaining

  entries_taken :
      (s : ForgeState)
      → AreTaken simple hyphenated requests base_branch s
          (ready_entries (stack_source simple hyphenated requests) base_branch s)
  unfolding ready_entries
  entries_taken s k =
      occurrences-filter-le k
        (λ j.
          all (λ p. contains p s.projected) ((stack_source simple hyphenated requests).waits_for j))
        s.remaining

  project_rounds-AreAllReviewed :
      (ids : List StackPullRequestId) (fuel : ℕ) (s : ForgeState) (output : List ForgeReview)
      → length s.remaining ≤ fuel
      → IsSound simple hyphenated requests base_branch ids s
      → project_rounds (stack_source simple hyphenated requests) base_branch fuel s ≡ ok output
      → AreAllReviewed (parents_of requests) ids output
  unfolding project_rounds
  project_rounds-AreAllReviewed ids zero s output b h e =
      subst (AreAllReviewed (parents_of requests) ids) (ok_injective e)
        (finished-AreAllReviewed ids s.remaining s refl (no_entries s.remaining b) h)
  project_rounds-AreAllReviewed ids (suc fuel) s output b h e =
      elim (Bool-cases (is_empty s.remaining)) [
        | inl d ↦
            subst (AreAllReviewed (parents_of requests) ids)
              (ok_injective (rw (project_rounds, d) at e))
              (finished-AreAllReviewed ids s.remaining s refl d h)
        | inr n ↦
            let ready = ready_entries (stack_source simple hyphenated requests) base_branch s in
            elim (Bool-cases (is_empty ready)) [
              | inl d ↦ cc (rw (project_rounds, n, d) at e)
              | inr f ↦
                  let (t, p, rest) =
                    >>=-eq-ok
                      (project_ready (stack_source simple hyphenated requests) base_branch s ready)
                      _ (rw (project_rounds, n, f) at e) in
                  let are = entries_ready s in
                  let less = round-lt s t ids ready h are (entries_taken s) f p in
                  project_rounds-AreAllReviewed ids fuel t output (omega (arith, less))
                    (project_ready-IsSound ids s t ready h are (entries_taken s) p).0 rest
            ]
      ]

  ids-once :
      (k : StackPullRequestId)
      → occurrences k (collect (keys (by_id requests)))
        ≡ (if contains k (map (λ p. p.id) requests) then 1 else 0)
  ids-once k =
      occurrences-distinct k (collect (keys (by_id requests)))
        (IsSorted→IsDistinct _ (collect-IsSorted (keys (by_id requests))))
      ∙ ap (λ b. if b then 1 else 0)
          (contains-collect k (keys (by_id requests))
            ∙ contains-keys-collect_map k (map (λ p. (p.id, p)) requests)
            ∙ ap (contains k) (keys-map (λ p. p.id) requests))

  stack_pull_request_projections-parents_of :
      (output : List ForgeReview)
      → stack_pull_request_projections simple hyphenated requests base_branch ≡ ok output
      → AreAllReviewed (parents_of requests) (map (λ p. p.id) requests) output
  unfolding stack_pull_request_projections project_all contains lookup occurrences
  stack_pull_request_projections-parents_of output h =
      let (named, rest) = >>-eq-ok _ _ h in
      let ids = collect (keys (by_id requests)) in
      let start : ForgeState = record {
        remaining = ids;
        projected = [];
        branches = [];
        output = [];
      } in
      let begun : IsSound simple hyphenated requests base_branch (map (λ p. p.id) requests) start =
        record { known = λ p m. cc; sound = tt; once = λ k. omega (arith, ids-once k) } in
      project_rounds-AreAllReviewed (map (λ p. p.id) requests) (length ids) start output
        (omega arith) begun rest

  -- Where a graph gives each pull request its parents and the forge reviews of the pull requests are made,
  -- each pull request has exactly one, and each review is of one of the pull requests, on the base branch
  -- where the graph gives this no parent and on the branch of its one parent otherwise.
  pub stack_pull_request_projections-AreAllReviewed :
      (graph : StackPullRequestId → List StackPullRequestId) (output : List ForgeReview)
      → AreParents requests graph
      → stack_pull_request_projections simple hyphenated requests base_branch ≡ ok output
      → AreAllReviewed graph (map (λ p. p.id) requests) output
  stack_pull_request_projections-AreAllReviewed graph output same h =
      let ids = map (λ p. p.id) requests in
      let (reviewed, once) = stack_pull_request_projections-parents_of output h in
      (
        AllOf-weaken (IsReviewed simple hyphenated requests base_branch (parents_of requests) ids)
            (IsReviewed simple hyphenated requests base_branch graph ids) output
            (λ r (id, m, of, branch, based). (
              id,
              m,
              of,
              branch,
              subst (λ ps. IsBaseOf simple hyphenated requests base_branch ps r.base)
                  (parents_of-eq requests graph same id m) based,
            ))
            reviewed,
        once,
      )
