-- ===== src/Workflow/Flow.antt =====
-- Flow directives: `ResolveFlowDirective` against a declarative reading of a directive.
use strij.Base.{
  ℕ, zero, suc, ◌+◌, ◌≡◌, ◌≤◌, refl, ap, String, Bool, true, false, List, [], ◌∷◌, none, some,
  arith, if◌then◌else◌, str_eq, Bool-cases, inl, inr, ◌||◌, ◌∙◌,
}
use strij.Workflow.{
  NamedTask, flow_jump, value, failure, resolve_target, resolve_flow_directive, no_such_task,
  ambiguous_task,
}

-- How many tasks of the sequence have the name.
abbrev pub named : String → List NamedTask → ℕ
named name [] = 0
named name (task ∷ tasks) = (if str_eq task.name name then 1 else 0) + named name tasks

-- The task at this place has the name.
abbrev pub IsNamedAt : String → List NamedTask → ℕ → Type 0
IsNamedAt name [] i = ⊥
IsNamedAt name (task ∷ tasks) zero = str_eq task.name name ≡ true
IsNamedAt name (task ∷ tasks) (suc i) = IsNamedAt name tasks i

resolve_target-found :
    (name : String) (tasks : List NamedTask) (index target : ℕ)
    → named name tasks ≡ 0
    → resolve_target name tasks index (some target) ≡ value (flow_jump target)
unfolding resolve_target
resolve_target-found name [] index target e = refl
resolve_target-found name (task ∷ tasks) index target e =
    ground (arith, e, resolve_target-found name tasks (suc index) target)

resolve_target-once :
    (name : String) (tasks : List NamedTask) (index : ℕ)
    → named name tasks ≡ 1
    → (i : ℕ) × (IsNamedAt name tasks i)
      × (resolve_target name tasks index none ≡ value (flow_jump (index + i)))
unfolding resolve_target
resolve_target-once name [] index e = ground (arith, e)
resolve_target-once name (task ∷ tasks) index e = elim (Bool-cases (str_eq task.name name)) [
  | inl here ↦
      (zero, here, ground (arith, e, here, resolve_target-found name tasks (suc index) index))
  | inr there ↦
      let (i, at, found) = resolve_target-once name tasks (suc index) (ground (arith, e, there)) in
      (suc i, at, ground (arith, there, found))
]

resolve_target-ambiguous :
    (name : String) (tasks : List NamedTask) (index target : ℕ)
    → 1 ≤ named name tasks
    → resolve_target name tasks index (some target) ≡ failure (ambiguous_task name)
unfolding resolve_target
resolve_target-ambiguous name [] index target e = ground (arith, e)
resolve_target-ambiguous name (task ∷ tasks) index target e =
    ground (arith, e, resolve_target-ambiguous name tasks (suc index) target)

resolve_target-many :
    (name : String) (tasks : List NamedTask) (index : ℕ)
    → 2 ≤ named name tasks
    → resolve_target name tasks index none ≡ failure (ambiguous_task name)
unfolding resolve_target
resolve_target-many name [] index e = ground (arith, e)
resolve_target-many name (task ∷ tasks) index e = ground (
  arith,
  e,
  resolve_target-ambiguous name tasks (suc index) index,
  resolve_target-many name tasks (suc index),
)

resolve_target-missing :
    (name : String) (tasks : List NamedTask) (index : ℕ)
    → named name tasks ≡ 0
    → resolve_target name tasks index none ≡ failure (no_such_task name)
unfolding resolve_target
resolve_target-missing name [] index e = refl
resolve_target-missing name (task ∷ tasks) index e =
    ground (arith, e, resolve_target-missing name tasks (suc index))

-- The words that are not names of tasks.
abbrev pub is_reserved : String → Bool
is_reserved directive =
    str_eq directive ""
    || str_eq directive "continue"
    || str_eq directive "exit"
    || str_eq directive "end"

-- A directive that is none of the reserved words is the jump to the one task that has this name; it
-- is an error if no task has it, and another error if several have it.
pub resolve_flow_directive-Jumps :
    (scope : List NamedTask) (directive : String)
    → is_reserved directive ≡ false
    → (named directive scope ≡ 1
        → (i : ℕ) × (IsNamedAt directive scope i)
          × (resolve_flow_directive scope directive ≡ value (flow_jump i)))
      × (named directive scope ≡ 0
          → resolve_flow_directive scope directive ≡ failure (no_such_task directive))
      × (2 ≤ named directive scope
          → resolve_flow_directive scope directive ≡ failure (ambiguous_task directive))
unfolding resolve_flow_directive
resolve_flow_directive-Jumps scope directive plain =
    let looked_up : resolve_flow_directive scope directive ≡ resolve_target directive scope 0 none =
      ground (arith, plain) in
    (
      λ once.
          let (i, at, found) = resolve_target-once directive scope 0 once in
          let start : 0 + i ≡ i = omega arith in
          (i, at, looked_up ∙ found ∙ ap (λ k. value (flow_jump k)) start),
      λ never. looked_up ∙ resolve_target-missing directive scope 0 never,
      λ often. looked_up ∙ resolve_target-many directive scope 0 often,
    )
