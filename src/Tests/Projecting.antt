-- ===== src/Tests/Projecting.antt =====
-- crates/orkia-projection/src/lib.rs at small files and pull requests.
use boop_orkia_cli.Prelude.{
  ℕ, ◌≡◌, refl, ◌≤◌, ◌<◌, ◌≢◌, ◌+◌, ap, suc, false, List, [], ◌∷◌, length, map, is_empty, arith,
  nat_ord, list_ord, pair_ord,
}
use boop_orkia_cli.Prelude.Sets.{contains, insert, extend, collect, remove, is_subset}
use boop_orkia_cli.Prelude.Maps.{lookup, put, put_all, collect_map}
use boop_orkia_cli.Prelude.Text.{Text, text, utf8}
use boop_orkia_cli.Errors.{ok, try_map}
use boop_orkia_cli.ReadyLoop.{complete_ready, unless_empty, ready_loop, ready_order}
use boop_orkia_cli.ReadyLoop.Invariant.{IsOrder}
use boop_orkia_cli.Model.Ids.{Bytes, StackPullRequestId}
use boop_orkia_cli.Model.Atoms.{FileChange, PatchFragment}
use boop_orkia_cli.Model.PullRequests.{StackPullRequest}
use boop_orkia_cli.Delivery.Orders.{parents_of, stack_pull_request_order}
use boop_orkia_cli.Projection.Alignment.{fill_row, fill_table, align_from, align}
use boop_orkia_cli.Projection.Alignment.Optimal.{IsAlignment, align-IsAlignment}
use boop_orkia_cli.Projection.Patches.{
  split_lines, join_lines, align_lines, previous, following, old_start, old_end, group_behind,
  group_ranges, digest, cut_fragment, fragment_for_range,
}
use boop_orkia_cli.Projection.Patches.Lines.{join_lines-split_lines}
use boop_orkia_cli.Projection.Patches.Fragments.{IsFragment, fragment_for_range-IsFragment}
use boop_orkia_cli.Projection.Applying.{
  find, meeting, insertion_positions, occurrences_from, candidates, apply_at, apply_patch,
  apply_patches,
}
use boop_orkia_cli.Projection.Applying.Places.{IsApplied, apply_patch-IsApplied}
use boop_orkia_cli.Projection.Applying.Search.{occurrences_from-enough}
use boop_orkia_cli.Projection.Branches.{
  ProjectionStep, branch_of, plan_request, plan_steps, plan_mono_repository,
  plan_mono_repository_with_published_dependencies,
}
use boop_orkia_cli.Projection.Branches.Steps.{AreSteps, plan_mono_repository-AreSteps}
use boop_orkia_cli.Projection.Restacking.{
  PatchProjectionRepository, MaterializedProjection, project_stack_pull_request, materialize,
  restack_mono_repository,
}
use boop_orkia_cli.Projection.Restacking.Parents.{
  AreRestacked, restack_mono_repository-AreRestacked,
}
use boop_orkia_cli.Tests.Samples.{plain_uuid, plain_request, two_requests}

program : Unit {0}
unfolding text utf8 lookup put put_all collect_map contains insert extend collect remove is_subset
    try_map complete_ready unless_empty ready_loop ready_order parents_of stack_pull_request_order
    fill_row fill_table align_from align split_lines join_lines align_lines previous following
    old_start old_end group_behind group_ranges digest cut_fragment fragment_for_range find meeting
    insertion_positions occurrences_from candidates apply_at apply_patch apply_patches branch_of
    plan_request plan_steps plan_mono_repository plan_mono_repository_with_published_dependencies
    project_stack_pull_request materialize restack_mono_repository
program = tt

abbrev old_lines : List Text
old_lines = text "a" ∷ text "b" ∷ text "c" ∷ []

abbrev new_lines : List Text
new_lines = text "a" ∷ text "x" ∷ text "c" ∷ []

lines_aligned : align old_lines new_lines ≡ (0, 0) ∷ (2, 2) ∷ []
unfolding program
lines_aligned = refl

align-IsAlignment_example :
    IsAlignment 0 0 old_lines new_lines (align old_lines new_lines)
    × ((pairs : List (ℕ × ℕ))
        → IsAlignment 0 0 old_lines new_lines pairs
        → length pairs ≤ length (align old_lines new_lines))
align-IsAlignment_example = align-IsAlignment old_lines new_lines

join_lines-split_lines_example : join_lines (split_lines (text "a\nb")) ≡ text "a\nb"
join_lines-split_lines_example = join_lines-split_lines (text "a\nb")

abbrev small_change : FileChange
small_change = record {
  path = text "f";
  old_content = text "a\nb\nc\n";
  new_content = text "a\nx\nc\n";
  changed_start = 2;
  changed_end = 2;
}

abbrev plain_hex : Bytes → Text
plain_hex bytes = bytes

abbrev small_fragment : PatchFragment
small_fragment = record {
  atoms = 1 ∷ [];
  path = text "f";
  before = text "b\n";
  after = text "x\n";
  before_context = text "a\n";
  after_context = text "c\n";
  base_content_hash = text "a\nb\nc\n";
}

fragment_made :
    fragment_for_range plain_hex small_change
      (align_lines small_change.old_content small_change.new_content)
      1
      2
      (1 ∷ [])
    ≡ ok small_fragment
unfolding program
fragment_made = refl

fragment_for_range-IsFragment_example :
    IsFragment small_change
      (align_lines small_change.old_content small_change.new_content)
      1
      2
      small_fragment
fragment_for_range-IsFragment_example =
    fragment_for_range-IsFragment plain_hex small_change 1 2 (1 ∷ []) small_fragment fragment_made

patch_applied : apply_patch (text "0\na\nb\nc\n") small_fragment ≡ ok (text "0\na\nx\nc\n")
unfolding program
patch_applied = refl

apply_patch-IsApplied_example : IsApplied (text "0\na\nb\nc\n") small_fragment (text "0\na\nx\nc\n")
apply_patch-IsApplied_example =
    apply_patch-IsApplied (text "0\na\nb\nc\n") small_fragment (text "0\na\nx\nc\n") patch_applied

-- Two occurrences that overlap are one to the search.
abbrev overlapping_fragment : PatchFragment
overlapping_fragment = record small_fragment {
  before_context = [];
  before = text "aa";
  after = text "b";
  after_context = [];
}

overlap_applied : apply_patch (text "aaa") overlapping_fragment ≡ ok (text "ba")
unfolding program
overlap_applied = refl

abbrev single : Text
single = 98 ∷ 10 ∷ []

filled : is_empty small_fragment.before ≡ false
unfolding program
filled = refl

single_short : length single < 9
single_short = omega arith

occurrences_from-enough_example :
    occurrences_from (suc (length single)) single small_fragment 0
    ≡ occurrences_from 9 single small_fragment 0
occurrences_from-enough_example =
    occurrences_from-enough single small_fragment filled 9 single_short

abbrev two_steps : List ProjectionStep
two_steps =
    record { pull_request = 1; branch = text "orkia/stack-pr/1"; parent_branch = text "main" }
    ∷ record {
      pull_request = 2;
      branch = text "orkia/stack-pr/2";
      parent_branch = text "orkia/stack-pr/1";
    }
    ∷ []

two_planned :
    plan_mono_repository_with_published_dependencies plain_uuid plain_uuid two_requests
      (text "main")
      []
    ≡ ok two_steps
unfolding program
two_planned = refl

plan_mono_repository-AreSteps_example :
    AreSteps plain_uuid plain_uuid two_requests [] (text "main") two_steps
    × IsOrder
        (parents_of two_requests)
        (map (λ p. p.id) two_requests)
        (map (λ s. s.pull_request) two_steps)
plan_mono_repository-AreSteps_example =
    plan_mono_repository-AreSteps plain_uuid plain_uuid two_requests [] (text "main") two_steps
      two_planned

-- A repository of one file, whose commits are numbered.
abbrev small_repository : PatchProjectionRepository ℕ
small_repository = record {
  read_files_at = λ count commit paths. ok ((text "f", text "a\nb\nc\n") ∷ []);
  commit_file_contents = λ count branch parent files. ok (count ∷ [], suc count);
}

abbrev patched : StackPullRequest → StackPullRequest
patched request = record request { patches = small_fragment ∷ [] }

abbrev patched_requests : List StackPullRequest
patched_requests = patched (plain_request 2 7 (1 ∷ []) []) ∷ patched (plain_request 1 7 [] []) ∷ []

abbrev two_materialized : List MaterializedProjection
two_materialized =
    record {
      step = record {
        pull_request = 1;
        branch = text "orkia/stack-pr/1";
        parent_branch = text "main";
      };
      parent_commit = text "base";
      commit = 5 ∷ [];
    }
    ∷ record {
      step = record {
        pull_request = 2;
        branch = text "orkia/stack-pr/2";
        parent_branch = text "orkia/stack-pr/1";
      };
      parent_commit = 5 ∷ [];
      commit = 6 ∷ [];
    }
    ∷ []

two_restacked :
    restack_mono_repository small_repository plain_uuid plain_uuid 5 patched_requests
      (text "main")
      (text "base")
    ≡ ok (two_materialized, 7)
unfolding program
two_restacked = refl

abbrev at_end : Text → ℕ
at_end [] = 0
at_end (c ∷ []) = c
at_end (c ∷ d ∷ t) = at_end (d ∷ t)

abbrev at_start : Text → ℕ
at_start [] = 0
at_start (c ∷ t) = c

branches_differ :
    (p q : StackPullRequestId)
    → branch_of plain_uuid plain_uuid p ≡ branch_of plain_uuid plain_uuid q
    → p ≡ q
unfolding program
branches_differ p q h = let e : p + 48 ≡ q + 48 = ap at_end h in omega (arith, e)

base_apart : (p : StackPullRequestId) → text "main" ≢ branch_of plain_uuid plain_uuid p
unfolding program
base_apart p h = let e : 109 ≡ 111 = ap at_start h in omega (arith, e)

restack_mono_repository-AreRestacked_example :
    AreRestacked small_repository patched_requests (text "base") [] two_materialized
    × (plan_mono_repository plain_uuid plain_uuid patched_requests (text "main")
        ≡ ok (map (λ m. m.step) two_materialized))
restack_mono_repository-AreRestacked_example =
    restack_mono_repository-AreRestacked small_repository patched_requests (text "base") plain_uuid
      plain_uuid (text "main") branches_differ base_apart 5 7 two_materialized two_restacked
