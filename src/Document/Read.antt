-- ===== src/Document/Read.antt =====
-- models.py: what `JobDefinition.from_mapping` read, when it returns.
use httk_workflow.Base.{◌≡◌, refl}
use httk_workflow.Errors.{ok}
use httk_workflow.Json.{Members, get, end}
use httk_workflow.Document.Returned.{Returns, after, here}
use httk_workflow.Document.Environment.{validate_environment}
use httk_workflow.Document.Declared.{validate_declarations}
use httk_workflow.Document.Definition.{
  Document, Runner, runner_members, workdir_members, unless_null, no_environment, from_mapping,
}

pub record Read (value : Members) (d : Document) : Type 0 where
  pub runner : Runner
  pub runner_read : runner_members (get "runner" value) ≡ ok runner
  pub source_kept : d.runner_source ≡ runner.source
  pub path_kept : d.runner_path ≡ runner.path
  pub sha256_kept : d.runner_sha256 ≡ runner.sha256
  pub workdir_read : workdir_members (get "workdir" value) ≡ ok (d.workdir_mode, d.workdir_path)
  pub environment_read :
      unless_null no_environment validate_environment (get "environment" value) ≡ ok d.environment
  pub declarations_read :
      unless_null end validate_declarations (get "declarations" value) ≡ ok d.declarations

pub from_mapping-Read : (value : Members) → Returns (Read value) (from_mapping value)
unfolding from_mapping
from_mapping-Read value = after λ u _. after λ i _. after λ t _. after λ r er. after λ w ew.
    after λ m _. after λ y _. after λ c _. after λ n _. after λ q _. after λ z _. after λ p _.
      after λ e ee. after λ s es. after λ g _. after λ o _. after λ j _. after λ k _. after λ l _.
        after λ v _. after λ b _. after λ h _. here (record {
          runner = r;
          runner_read = er;
          source_kept = refl;
          path_kept = refl;
          sha256_kept = refl;
          workdir_read = ew;
          environment_read = ee;
          declarations_read = es;
        })
