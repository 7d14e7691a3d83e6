-- ===== src/ReadyLoop.antt =====
-- The loop that orders a dependency graph. It is written out four times in the source, over the sets
-- `remaining` and `complete` and the list `ordered`: in crates/orkia-changesets/src/lib.rs for pull
-- requests, for pull requests of several repositories and for changesets, and in
-- crates/orkia-model/src/lib.rs for the units of a review plan. `pick` is the selection of the ready
-- keys, which each of the four writes for itself.
pub mod Invariant
pub mod Selection
pub mod Acyclic
pub mod Outcome
use boop_orkia_cli.Prelude.{
  ℕ, zero, suc, ◌≤◌, ◌<◌, ◌≡◌, Bool, true, false, Option, none, some, List, [], ◌∷◌, ◌++◌, arith,
  length, is_empty, Ord, refl,
}
use boop_orkia_cli.Prelude.Sets.{
  BTreeSet, contains, insert, remove, contains-head, not_empty→contains, length-remove-le,
  length-remove-lt,
}

pub record Progress {ℓ} (K : Type ℓ) : Type ℓ where
  pub remaining : BTreeSet K
  pub complete : BTreeSet K
  pub ordered : List K

-- `if ready.is_empty() { return Err(…) }`, which hands the rest the failed test.
unfoldable pub unless_empty {κ} :
    {A : Type κ} {b : Bool} (stuck : Bool) → b ≡ stuck → (b ≡ false → Option A) → Option A
unless_empty true e rest = none
unless_empty false e rest = rest e

pub unless_empty_ind {κ μ} :
    {A : Type κ} {b : Bool} (Q : Option A → Type μ) (stuck : Bool) (e : b ≡ stuck)
    {rest : b ≡ false → Option A}
    → (b ≡ true → Q none)
    → ((found : b ≡ false) → Q (rest found))
    → Q (unless_empty stuck e rest)
unfolding unless_empty
unless_empty_ind Q true e qn qr = qn e
unless_empty_ind Q false e qn qr = qr e

module _ {ℓ} {K : Type ℓ} ⦃o : Ord K⦄ where
  abbrev pub start : BTreeSet K → Progress K
  start ids = record { remaining = ids; complete = []; ordered = [] }

  -- `remaining.remove(&id); complete.insert(id.clone()); ordered.push(id);`
  abbrev pub complete_one : Progress K → K → Progress K
  complete_one s id = record {
    remaining = remove id s.remaining;
    complete = insert id s.complete;
    ordered = s.ordered ++ id ∷ [];
  }

  -- `for id in ready { … }`
  unfoldable pub complete_ready : Progress K → List K → Progress K
  complete_ready s [] = s
  complete_ready s (id ∷ ids) = complete_ready (complete_one s id) ids

  length-complete_ready-le :
      (s : Progress K) (ids : List K) → length (complete_ready s ids).remaining ≤ length s.remaining
  unfolding complete_ready
  length-complete_ready-le s [] = omega arith
  length-complete_ready-le s (id ∷ ids) =
      omega
        (arith, length-complete_ready-le (complete_one s id) ids, length-remove-le id s.remaining)

  -- A round that completes a remaining key leaves fewer keys.
  pub length-complete_ready-lt :
      (s : Progress K) (ids : List K)
      → is_empty ids ≡ false
      → ((id : K) → contains id ids ≡ true → contains id s.remaining ≡ true)
      → length (complete_ready s ids).remaining < length s.remaining
  unfolding complete_ready
  length-complete_ready-lt s [] h m = cc
  length-complete_ready-lt s (id ∷ ids) h m = omega (
    arith,
    length-complete_ready-le (complete_one s id) ids,
    length-remove-lt id s.remaining (m id (contains-head id ids)),
  )

  module _ (pick : BTreeSet K → BTreeSet K → List K)
      (pick_remaining : (r c : BTreeSet K) (id : K)
        → contains id (pick r c) ≡ true
        → contains id r ≡ true) where
    abbrev pub ready : Progress K → List K
    ready s = pick s.remaining s.complete

    pub ready_smaller :
        (bound : ℕ) (s : Progress K)
        → length s.remaining ≤ suc bound
        → is_empty (ready s) ≡ false
        → length (complete_ready s (ready s)).remaining ≤ bound
    ready_smaller bound s h e =
        omega
          (arith, length-complete_ready-lt s (ready s) e (pick_remaining s.remaining s.complete))

    -- `while !remaining.is_empty() { … }`, by recursion on a proved bound for the keys that remain.
    -- `none` is the return of the error for an empty `ready`. At the bound zero nothing remains.
    unfoldable pub ready_loop :
        (bound : ℕ) (s : Progress K) → length s.remaining ≤ bound → Option (List K)
    ready_loop zero s h = some s.ordered
    ready_loop (suc bound) s h = elim (is_empty s.remaining) [
      | true ↦ some s.ordered
      | false ↦
          unless_empty (is_empty (ready s)) refl
            λ found. ready_loop bound (complete_ready s (ready s)) (ready_smaller bound s h found)
    ]

    unfoldable pub ready_order : BTreeSet K → Option (List K)
    ready_order ids = ready_loop (length ids) (start ids) (omega arith)
