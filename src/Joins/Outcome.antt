-- ===== src/Joins/Outcome.antt =====
-- What the verdict on a join says of the futures of its children.
use httk_workflow.Base.{◌≡◌, ◌≢◌, true, false, String, List, [], arith}
use httk_workflow.Errors.{ok}
use httk_workflow.Json.{Members}
use httk_workflow.Kinds.{StateKind}
use httk_workflow.Joins.{satisfied, classify, join_satisfied, join_impossible, join_blocked}
use httk_workflow.Joins.Future.{
  Future, best, Future-best, all_succeeded-best, all_terminal-best, count-best, any_succeeded-best,
  any_terminal-best, lost-Future, terminal-Future, count-Future, succeeded-Future,
  any_succeeded-Future, any_terminal-Future,
}

module _ (condition : String) (join : Members) where
  -- A join that is judged impossible stays unsatisfied whatever its pending children do.
  pub impossible_final :
      {kinds later : List StateKind}
      → classify condition join kinds ≡ ok join_impossible
      → Future kinds later
      → satisfied condition join later ≡ ok false
  unfolding classify
  impossible_final {kinds} {later} h f =
      ground (arith, lost-Future f, terminal-Future f, count-Future f)

  -- A join that is judged satisfied stays satisfied whatever its pending children do, as long as no
  -- child that has stopped moves again.
  pub satisfied_final :
      {kinds later : List StateKind}
      → classify condition join kinds ≡ ok join_satisfied
      → Future kinds later
      → classify condition join later ≡ ok join_satisfied
  unfolding classify
  satisfied_final {kinds} {later} h f = ground (
    arith,
    succeeded-Future f,
    terminal-Future f,
    count-Future f,
    any_succeeded-Future f,
    any_terminal-Future f,
  )

  -- A join of at least one child that is judged blocked is satisfied in the future in which every
  -- pending child succeeds.
  pub blocked_open :
      (kinds : List StateKind)
      → kinds ≢ []
      → classify condition join kinds ≡ ok join_blocked
      → Future kinds (best kinds) × (satisfied condition join (best kinds) ≡ ok true)
  unfolding classify
  blocked_open kinds some h = (
    Future-best kinds,
    ground (
      arith,
      all_succeeded-best kinds,
      all_terminal-best kinds,
      count-best kinds,
      any_succeeded-best kinds,
      any_terminal-best kinds some,
    ),
  )
