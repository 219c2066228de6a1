-- ===== src/Workflow/Depth.antt =====
-- How deeply the containers of a document are nested, and the frames that run it.
use strij.Base.{ℕ, zero, suc, List}
use strij.Workflow.{
  TaskBody, Tasks, NamedTask, named_tasks, LoopVariables, call_body, run_body, do_body, fork_body,
  for_body, set_body, switch_body, other_body, no_tasks, task_and,
}
use strij.Workflow.Frames.{enter_branches, materialize}
use strij.Workflow.Rounds.{ChildIs, AllMake}
use strij.Workflow.Passes.{IsWithin, BranchesAre}

unfoldable mutual
  -- The frames that the body makes are nested at most `n` deep.
  pub BodyIn : TaskBody → ℕ → Type 0
  BodyIn (do_body tasks) zero = ⊥
  BodyIn (do_body tasks) (suc n) = TasksIn tasks n
  BodyIn (fork_body tasks compete) zero = ⊥
  BodyIn (fork_body tasks compete) (suc zero) = ⊥
  BodyIn (fork_body tasks compete) (suc (suc n)) = TasksIn tasks n
  BodyIn (for_body has_while tasks) zero = ⊥
  BodyIn (for_body has_while tasks) (suc zero) = ⊥
  BodyIn (for_body has_while tasks) (suc (suc n)) = TasksIn tasks n
  BodyIn call_body n = Unit {0}
  BodyIn (run_body await) n = Unit {0}
  BodyIn set_body n = Unit {0}
  BodyIn switch_body n = Unit {0}
  BodyIn other_body n = Unit {0}

  pub TasksIn : Tasks → ℕ → Type 0
  TasksIn no_tasks n = Unit {0}
  TasksIn (task_and name directive rest body tasks) n = BodyIn body n × TasksIn tasks n

enter_branches-IsWithin :
    (n : ℕ) (tasks : Tasks) (budget : ℕ) (scope : List LoopVariables) (input : List ℕ)
    → AllMake (IsWithin n) (named_tasks tasks)
    → BranchesAre (IsWithin (suc n)) (enter_branches tasks budget scope input)
unfolding enter_branches
enter_branches-IsWithin n no_tasks budget scope input all = tt
enter_branches-IsWithin n (task_and name directive rest body tasks) budget scope input all =
    (((all.0, tt), tt), enter_branches-IsWithin n tasks budget scope input all.1)

mutual
  unfolding BodyIn materialize enter_branches

  materialize-IsWithin :
      (n : ℕ) (body : TaskBody)
      → BodyIn body n
      → (step : NamedTask) (budget : ℕ) (scope : List LoopVariables) (input : List ℕ)
      → ChildIs (IsWithin n) (materialize step budget scope input body)
  materialize-IsWithin zero (do_body tasks) is step budget scope input = is
  materialize-IsWithin (suc n) (do_body tasks) is step budget scope input =
      (named_tasks-AllMake n tasks is, tt)
  materialize-IsWithin zero (fork_body tasks compete) is step budget scope input = is
  materialize-IsWithin (suc zero) (fork_body tasks compete) is step budget scope input = elim is [ ]
  materialize-IsWithin (suc (suc n)) (fork_body tasks compete) is step budget scope input =
      enter_branches-IsWithin n tasks budget scope input (named_tasks-AllMake n tasks is)
  materialize-IsWithin zero (for_body has_while tasks) is step budget scope input = is
  materialize-IsWithin (suc zero) (for_body has_while tasks) is step budget scope input =
      elim is [ ]
  materialize-IsWithin (suc (suc n)) (for_body has_while tasks) is step budget scope input =
      (λ scope' v. (named_tasks-AllMake n tasks is, tt), tt)
  materialize-IsWithin n call_body is step budget scope input = tt
  materialize-IsWithin n (run_body await) is step budget scope input = tt
  materialize-IsWithin n set_body is step budget scope input = tt
  materialize-IsWithin n switch_body is step budget scope input = tt
  materialize-IsWithin n other_body is step budget scope input = tt

  pub named_tasks-AllMake :
      (n : ℕ) (tasks : Tasks) → TasksIn tasks n → AllMake (IsWithin n) (named_tasks tasks)
  named_tasks-AllMake n no_tasks is = tt
  named_tasks-AllMake n (task_and name directive rest body tasks) is = (
    λ budget scope input. materialize-IsWithin n body is.0 _ budget scope input,
    named_tasks-AllMake n tasks is.1,
  )
