-- ===== src/Forms/Loaders.antt =====
-- What the forms of jobs and of groups of users make of the server's record, and of the values that
-- they hand over (web/src/components/devops/JobModal.js and
-- web/src/components/user/UserGroupModal.js).
use next_terminal.Base.{Option, none, some, List, [], ◌∷◌, map, if◌then◌else◌, ◌≡◌, refl}
use next_terminal.Base.Text.{Text, codes, text_eq, has_text, split, join, join-split}
use next_terminal.Tables.Paging.{comma}

pub record Job : Type 0 where
  pub func : Text
  pub mode : Text
  pub metadata : Text
  pub shell : Option Text
  pub resource_ids : List Text

-- A job as the server keeps it.
pub record StoredJob : Type 0 where
  pub func : Text
  pub mode : Text
  pub metadata : Text
  pub resource_ids : Text

-- `JSON.parse(metadata)['shell']` is a parameter: `none` where it throws.
unfoldable pub load_job : (shell_of : Text → Option Text) → StoredJob → Job
load_job shell_of job = record {
  func = job.func;
  mode = job.mode;
  metadata = job.metadata;
  shell =
      if text_eq job.func (codes "shell-job")
      then some (elim (shell_of job.metadata) [ none ↦ [] | some shell ↦ shell ])
      else none;
  resource_ids = if has_text job.resource_ids then split comma job.resource_ids else [];
}

-- `values['resourceIds'].join(',')`
unfoldable pub resources : Job → Text
resources job = join comma job.resource_ids

joined_back : (t : Text) → join comma (if has_text t then split comma t else []) ≡ t
unfolding join
joined_back [] = refl
joined_back (c ∷ t) = join-split comma (c ∷ t)

-- The resources of a job that is loaded and handed over again are what they were.
pub resources-load_job :
    (shell_of : Text → Option Text) (job : StoredJob)
    → resources (load_job shell_of job) ≡ job.resource_ids
unfolding resources load_job join
resources-load_job shell_of job = joined_back job.resource_ids

-- `data.members.map(item => item.id)`
unfoldable pub members_of : List (Text × Text) → List Text
members_of members = map (λ item. item.0) members
