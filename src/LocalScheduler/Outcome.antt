-- ===== src/LocalScheduler/Outcome.antt =====
-- What `Schedule` of the default scheduler does with a child task.
use strij.Base.{
  ℕ, ◌≡◌, refl, sym, ap, subst, ◌∙◌, Bool, false, [], ◌∷◌, ◌++◌, Option, none, some, arith, lookup,
  lookup-insert, lookup-erase, contains-lookup, eq_refl, Bool-cases, Option-cases, inl, inr, ◌⊎◌,
}
use strij.Task.{Task, capacity_refused}
use strij.Admission.{Controller, Status, admit}
use strij.Admission.Accounts.{admit-refused}
use strij.ResultStorage.{error}
use strij.LocalScheduler.{
  LocalScheduler, put, get, is_forwarded, forward_or_error, schedule_admitted, schedule, run_task,
}

module _ (forward : Option (Task → Bool)) (s : LocalScheduler) (task : Task) (receiver : ℕ) where
  -- The task was handed to a handler with the capacity that was reserved for it.
  abbrev pub Ran : LocalScheduler → Type 0
  Ran s' =
      (s'.running
        ≡ s.running
          ++ record {
            task = task;
            scope = record {
              task_type = task.type;
              requirements = task.requirements;
              released = false;
            };
          }
            ∷ [])
      × ((s'.admission, Status.ok) ≡ admit s.admission task.type task.requirements)
      × (get s' task.id ≡ some receiver)
      × (s'.deliveries ≡ s.deliveries)
      × (s'.forwarded ≡ s.forwarded)

  -- The task went to the gateway, and nothing is reserved for it.
  abbrev pub Forwarded : LocalScheduler → Type 0
  Forwarded s' =
      (s'.forwarded ≡ s.forwarded ++ task ∷ [])
      × (s'.admission ≡ s.admission)
      × (get s' task.id ≡ some receiver)
      × (s'.deliveries ≡ s.deliveries)
      × (s'.running ≡ s.running)

  -- The receiver got one error, and nothing of the task is left.
  abbrev pub Refused : LocalScheduler → Type 0
  Refused s' =
      (s'.deliveries
        ≡ s.deliveries
          ++ (
            receiver,
            error "no local capacity and no gateway forward path is configured" capacity_refused,
          )
            ∷ [])
      × (s'.admission ≡ s.admission)
      × (get s' task.id ≡ none)
      × (s'.forwarded ≡ s.forwarded)
      × (s'.running ≡ s.running)

  abbrev stored : LocalScheduler
  stored = put s task.id receiver

  put-get : get (put s task.id receiver) task.id ≡ some receiver
  put-get = rw (lookup-insert task.id task.id receiver s.receivers, eq_refl task.id) refl

  forward_or_error-cases :
      let s' = forward_or_error forward (put s task.id receiver) task in Forwarded s' ⊎ Refused s'
  unfolding forward_or_error
  forward_or_error-cases = elim (Bool-cases (is_forwarded forward task)) [
    | inl taken ↦ inl (rw (forward_or_error, taken) (refl, refl, put-get, refl, refl))
    | inr stays ↦ inr (
        rw (forward_or_error, stays, put-get)
          (
            refl,
            refl,
            rw (lookup-erase task.id task.id stored.receivers, eq_refl task.id) refl,
            refl,
            refl,
          ))
  ]

  Answers : LocalScheduler → Type 0
  Answers s' = Ran s' ⊎ (Forwarded s' ⊎ Refused s')

  ran :
      (c : Controller) (handler : ℕ)
      → lookup task.type s.handlers ≡ some handler
      → admit s.admission task.type task.requirements ≡ (c, Status.ok)
      → Answers (schedule_admitted forward stored task (c, Status.ok))
  unfolding Answers run_task
  ran c handler known e = inl (rw (run_task, known) (refl, sym e, put-get, refl, refl))

  not_admitted :
      (c : Controller)
      → (admit s.admission task.type task.requirements).0 ≡ c
      → ((admit s.admission task.type task.requirements).1 ≡ Status.ok → ⊥)
      → Answers (forward_or_error forward (record stored { admission = c }) task)
  unfolding Answers
  not_admitted c e refused = elim (admit-refused s.admission task.type task.requirements) [
    | inl admitted ↦ absurd (refused admitted)
    | inr same ↦ inr (
        subst
          (λ c'.
            let s' = forward_or_error forward (record stored { admission = c' }) task in
            Forwarded s' ⊎ Refused s')
          (sym same ∙ e) forward_or_error-cases)
  ]

  schedule_admitted-cases :
      (c : Controller) (status : Status) (handler : ℕ)
      → lookup task.type s.handlers ≡ some handler
      → admit s.admission task.type task.requirements ≡ (c, status)
      → Answers (schedule_admitted forward stored task (c, status))
  schedule_admitted-cases c Status.ok handler known e = ran c handler known e
  schedule_admitted-cases c Status.failed_precondition handler known e =
      not_admitted c (ap (λ r. r.0) e) (λ ok. ground (arith, ok, e))
  schedule_admitted-cases c Status.resource_exhausted handler known e =
      not_admitted c (ap (λ r. r.0) e) (λ ok. ground (arith, ok, e))
  schedule_admitted-cases c Status.not_found handler known e =
      not_admitted c (ap (λ r. r.0) e) (λ ok. ground (arith, ok, e))
  schedule_admitted-cases c Status.invalid_argument handler known e =
      not_admitted c (ap (λ r. r.0) e) (λ ok. ground (arith, ok, e))
  schedule_admitted-cases c Status.internal handler known e =
      not_admitted c (ap (λ r. r.0) e) (λ ok. ground (arith, ok, e))

  -- A child task that is scheduled does exactly one of three things: it runs with its capacity
  -- reserved, it goes to the gateway with nothing reserved, or its receiver gets one error and is
  -- forgotten.
  pub schedule-Resolves :
      let s' = schedule forward s task receiver in Ran s' ⊎ (Forwarded s' ⊎ Refused s')
  unfolding schedule Answers
  schedule-Resolves = elim (Option-cases (lookup task.type s.handlers)) [
    | inl unknown ↦
        rw (schedule, contains-lookup task.type s.handlers, unknown) (inr forward_or_error-cases)
    | inr (handler, known) ↦
        rw (schedule, contains-lookup task.type s.handlers, known)
          (schedule_admitted-cases (admit s.admission task.type task.requirements).0
            (admit s.admission task.type task.requirements).1 handler known refl)
  ]
