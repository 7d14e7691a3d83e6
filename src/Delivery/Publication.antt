-- ===== src/Delivery/Publication.antt =====
-- crates/orkia-changesets/src/lib.rs: `projection_is_published_for`.
use boop_orkia_cli.Prelude.{
  ℕ, Bool, true, false, not, ◌&&◌, Option, none, some, is_empty, nat_eq, nat_eq_iff, ◌≡◌, ◌↔◌, refl,
  ap, true_and, and_true, arith,
}
use boop_orkia_cli.Prelude.Text.{Text}
use boop_orkia_cli.Model.Objects.{Hash}
use boop_orkia_cli.Model.Ids.{RepositoryId, StackPullRequestId}
use boop_orkia_cli.Model.Projections.{Projection, ProjectionStatus, is_published}

-- `is_some_and(|url| !url.is_empty())`
abbrev pub names_url : Option Text → Bool
names_url none = false
names_url (some url) = not (is_empty url)

abbrev pub is_some : Option Text → Bool
is_some none = false
is_some (some t) = true

-- `projection_is_published_for`
unfoldable pub projection_is_published_for :
    Projection → RepositoryId → StackPullRequestId → ℕ → Bool
projection_is_published_for projection repository pull_request pull_request_revision =
    nat_eq projection.repository repository
    && nat_eq projection.stack_pull_request pull_request
    && nat_eq projection.stack_pull_request_revision pull_request_revision
    && is_published projection.status
    && is_some projection.commit
    && names_url projection.forge_pull_request

-- What a published projection of a revision of a pull request is.
pub record IsPublicationOf (projection : Projection) (repository : RepositoryId)
    (pull_request : StackPullRequestId) (pull_request_revision : ℕ) : Type 0 where
  pub repository_eq : projection.repository ≡ repository
  pub pull_request_eq : projection.stack_pull_request ≡ pull_request
  pub revision_eq : projection.stack_pull_request_revision ≡ pull_request_revision
  pub published : projection.status ≡ ProjectionStatus.published
  pub committed : (commit : Hash) × (projection.commit ≡ some commit)
  pub opened : (url : Text) × (projection.forge_pull_request ≡ some url) × (is_empty url ≡ false)

is_published_iff :
    (s : ProjectionStatus) → (is_published s ≡ true) ↔ (s ≡ ProjectionStatus.published)
is_published_iff s = (λ h. ground arith, λ e. rw e refl)

is_some_iff : (t : Option Text) → (is_some t ≡ true) ↔ ((u : Text) × (t ≡ some u))
is_some_iff none = (λ h. cc, λ w. let (u, e) = w in cc)
is_some_iff (some t) = (λ h. (t, refl), λ w. refl)

some_injective : {t u : Text} → ◌≡◌ {A = Option Text} (some t) (some u) → t ≡ u
some_injective e = cc

is_empty-some : (t u : Text) → t ≡ u → is_empty u ≡ false → not (is_empty t) ≡ true
is_empty-some t u e n = ground (arith, ap (is_empty {A = ℕ}) e, n)

names_url_iff :
    (t : Option Text) → (names_url t ≡ true) ↔ ((u : Text) × (t ≡ some u) × (is_empty u ≡ false))
names_url_iff none = (λ h. cc, λ w. let (u, e, n) = w in cc)
names_url_iff (some t) =
    (λ h. (t, refl, ground arith), λ w. let (u, e, n) = w in is_empty-some t u (some_injective e) n)

-- The gate of remote effects holds for a projection exactly when it is of this repository, pull request
-- and revision, has the status published, and names its commit and the address of its forge pull request.
pub projection_is_published_for_iff :
    (projection : Projection) (repository : RepositoryId) (pull_request : StackPullRequestId)
    (pull_request_revision : ℕ)
    → (projection_is_published_for projection repository pull_request pull_request_revision ≡ true)
      ↔ IsPublicationOf projection repository pull_request pull_request_revision
unfolding projection_is_published_for
projection_is_published_for_iff projection repository pull_request pull_request_revision = (
  λ h.
      let (h4, url) = and_true _ _ h in
      let (h3, commit) = and_true _ _ h4 in
      let (h2, status) = and_true _ _ h3 in
      let (h1, same_revision) = and_true _ _ h2 in
      let (same_repository, same_request) = and_true _ _ h1 in
      record {
        repository_eq = (nat_eq_iff _ _).0 same_repository;
        pull_request_eq = (nat_eq_iff _ _).0 same_request;
        revision_eq = (nat_eq_iff _ _).0 same_revision;
        published = (is_published_iff _).0 status;
        committed = (is_some_iff _).0 commit;
        opened = (names_url_iff _).0 url;
      },
  λ w.
      true_and _ _
        (true_and _ _
          (true_and _ _
            (true_and _ _
              (true_and _ _ ((nat_eq_iff _ _).1 w.repository_eq)
                ((nat_eq_iff _ _).1 w.pull_request_eq))
              ((nat_eq_iff _ _).1 w.revision_eq))
            ((is_published_iff _).1 w.published))
          ((is_some_iff _).1 w.committed))
        ((names_url_iff _).1 w.opened),
)
