-- ===== src/Document/Pinned.antt =====
-- models.py: which runners an accepted job document pins by a digest.
use httk_workflow.Base.{◌≡◌, refl, String, Bool, true, false, Option, none, some, str_eq}
use httk_workflow.Errors.{ok}
use httk_workflow.Json.{Json, Members, get}
use httk_workflow.Json.Numbers.{codes}
use httk_workflow.Document.Shape.{is_sha256, validate_sha256}
use httk_workflow.Document.Definition.{
  Document, Runner, runner_digest, option_of, runner_members, from_mapping,
}
use httk_workflow.Document.Returned.{Returns, after, here, guard-ok}
use httk_workflow.Document.Read.{from_mapping-Read}

abbrev pub Pinned : Bool → Option String → Type 0
Pinned true digest = digest ≡ none
Pinned false digest = (d : String) × (digest ≡ some d) × (is_sha256 (codes d) ≡ true)

sha256-valid :
    (raw : Json) → Returns (λ (d : String). is_sha256 (codes d) ≡ true) (validate_sha256 raw)
unfolding validate_sha256
sha256-valid raw = after λ s _. after λ u e. here (guard-ok (is_sha256 (codes s)) _ e)

runner_digest-Pinned : (b : Bool) (raw : Json) → Returns (Pinned b) (runner_digest b raw)
unfolding runner_digest option_of
runner_digest-Pinned true raw = after λ u _. here refl
runner_digest-Pinned false raw = after λ d e. here (d, refl, (sha256-valid raw).at e)

runner_members-Pinned :
    (raw : Json)
    → Returns (λ (r : Runner). Pinned (str_eq r.source "payload") r.sha256) (runner_members raw)
unfolding runner_members
runner_members-Pinned raw = after λ m _. after λ x _. after λ a _. after λ s _.
    after
      λ p _. after λ d e. here ((runner_digest-Pinned (str_eq s "payload") (get "sha256" m)).at e)

-- A job document that is accepted pins a shared runner by a digest of 64 hexadecimal digits, and
-- holds no digest for a runner of its own payload.
pub from_mapping-Pinned :
    (value : Members) (d : Document)
    → from_mapping value ≡ ok d
    → Pinned (str_eq d.runner_source "payload") d.runner_sha256
from_mapping-Pinned value d e =
    let r = (from_mapping-Read value).at e in
    rw (r.source_kept, r.sha256_kept)
      ((runner_members-Pinned (get "runner" value)).at r.runner_read)
