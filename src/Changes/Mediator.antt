-- ===== src/Changes/Mediator.antt =====
-- apps/api/src/modules/changes/change-mediator.ts and free-path.strategy.ts: one door for every
-- mutation, which forks between the free path and a change order.
pub mod Safety
use mathlib.Core.Option
use logistics.Common.{
  ◌⊎◌, inl, inr, Bool, ◌&&◌, not, true, false, Option, none, some, List, [], ◌∷◌, map, String, ◌==◌,
  string_eq, filter, includes, if◌then◌else◌,
}
use logistics.Common.Dict
use logistics.Findings.{Finding}
use logistics.Changes.Impact.{free, change_order, decide_path, ImpactRegistry}
use logistics.Changes.Store.{Db}
use logistics.Changes.Scope.{
  ChangeRequest, ClassifyError, classified, unclassified, classify, downstream_work,
}
use logistics.Changes.Fire.{Run, done}
use logistics.Changes.Order.{ChangeResult, ImpactDecision, run_change_order}

module _ {M : Type 0} where
  -- `run` of the free path: the edit, and what the route validator says afterwards. The change log
  -- is for change orders only (ChangeLogPolicy).
  unfoldable pub run_free :
      (Db M → List Finding) → ImpactDecision → (Db M → Db M) → Db M → Run (Db M) × ChangeResult
  run_free revalidate decision uow db = (
    done (uow db),
    record {
      path = free;
      impact_class = decision.impact_class;
      scope = decision.scope;
      findings = revalidate (uow db);
      preview = none;
    },
  )

  -- ChangeMediator.apply: classify, resolve the downstream work, fork.
  unfoldable pub mediate :
      ImpactRegistry
      → (Db M → List Finding)
      → ChangeRequest
      → (Db M → Db M)
      → Db M
      → ClassifyError ⊎ (Run (Db M) × ChangeResult)
  mediate registry revalidate req uow db = elim (classify registry req db) [
    | unclassified e ↦ inl e
    | classified c scope ↦
        let path = decide_path c (downstream_work scope db) in
        let decision : ImpactDecision = record { impact_class = c; scope = scope; path = path } in
        elim path [
          | free ↦ inr (run_free revalidate decision uow db)
          | change_order ↦ inr (run_change_order req decision uow db)
        ]
  ]
