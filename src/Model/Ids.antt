-- ===== src/Model/Ids.antt =====
-- crates/orkia-model/src/lib.rs: the identifiers. A UUID is the number that its sixteen bytes write
-- in big-endian order, so UUIDs compare as these numbers do. SHA-256 is a parameter, from the bytes
-- that are hashed to the bytes of the digest.
pub mod Delimiters
use Prim.Native.Nat.{bit_and, bit_or}
use boop_orkia_cli.Prelude.{
  ℕ, zero, suc, ◌+◌, ◌*◌, ◌/◌, ◌%◌, List, [], ◌∷◌, ◌++◌, foldl, length, flat_map, take, nat_ord,
}
use boop_orkia_cli.Prelude.Sets.{sort}
use boop_orkia_cli.Prelude.Text.{text}

abbrev pub ActorId : Type 0
ActorId = ℕ

abbrev pub SessionId : Type 0
SessionId = ℕ

abbrev pub EventId : Type 0
EventId = ℕ

abbrev pub ReviewUnitId : Type 0
ReviewUnitId = ℕ

abbrev pub PlanId : Type 0
PlanId = ℕ

abbrev pub RepositoryId : Type 0
RepositoryId = ℕ

abbrev pub StackPullRequestId : Type 0
StackPullRequestId = ℕ

abbrev pub ChangeSetId : Type 0
ChangeSetId = ℕ

abbrev pub StackId : Type 0
StackId = ℕ

abbrev pub ProjectionId : Type 0
ProjectionId = ℕ

abbrev pub AtomId : Type 0
AtomId = ℕ

abbrev pub Bytes : Type 0
Bytes = List ℕ

-- `to_be_bytes` of an integer of `count` bytes.
unfoldable pub to_be_bytes : ℕ → ℕ → Bytes
to_be_bytes zero n = []
to_be_bytes (suc count) n = to_be_bytes count (n / 256) ++ (n % 256) ∷ []

-- The number that bytes write in big-endian order.
unfoldable pub from_be_bytes : Bytes → ℕ
from_be_bytes = foldl (λ n b. n * 256 + b) 0

-- `Uuid::as_bytes`
unfoldable pub as_bytes : ℕ → Bytes
as_bytes uuid = to_be_bytes 16 uuid

abbrev pub modify_at : ℕ → (ℕ → ℕ) → Bytes → Bytes
modify_at i f [] = []
modify_at zero f (x ∷ xs) = f x ∷ xs
modify_at (suc i) f (x ∷ xs) = x ∷ modify_at i f xs

-- The first sixteen bytes of a digest, with the version and variant bits of a UUID.
unfoldable pub uuid_of_digest : Bytes → ℕ
uuid_of_digest digest = from_be_bytes (
    modify_at 8 (λ b. bit_or (bit_and b 0x3f) 0x80)
      (modify_at 6 (λ b. bit_or (bit_and b 0x0f) 0x50) (take 16 digest)))

-- Each part behind its length as a 64-bit integer.
unfoldable pub stable_bytes : List Bytes → Bytes
stable_bytes parts = flat_map (λ part. to_be_bytes 8 (length part) ++ part) parts

module _ (sha256 : Bytes → Bytes) where
  -- `StackPullRequestId::from_stable_parts` and `AtomId::from_stable_parts`, one text in the source.
  unfoldable pub from_stable_parts : List Bytes → ℕ
  from_stable_parts parts = uuid_of_digest (sha256 (stable_bytes parts))

  -- `StackId::from_stack_pull_requests`
  unfoldable pub from_stack_pull_requests : List StackPullRequestId → StackId
  from_stack_pull_requests ids =
      uuid_of_digest (sha256 (text "orkia:stack:v1" ++ flat_map as_bytes (sort ids)))

  -- `ProjectionId::from_stack_pull_request`
  unfoldable pub from_stack_pull_request : StackPullRequestId → ProjectionId
  from_stack_pull_request id = uuid_of_digest (sha256 (text "orkia:projection:v1" ++ as_bytes id))
