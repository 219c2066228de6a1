-- ===== src/ProbeLocal/Rounds.antt =====
-- A round of the walk of the probe local scheduler: the fate of the probe that it takes off the queue.
use strij.Base.{
  Bool, true, false, ℕ, ◌≡◌, inl, inr, refl, sym, ap, List, [], ◌∷◌, ◌++◌, Assoc, insert,
  Bool-cases, append-nil,
}
use strij.Tlv.{serialize_tlv_frame, task_pull, task_decline}
use strij.FetchRouter.{Router, all_cached}
use strij.Admission.{Controller, Status, admit}
use strij.ProbeLocal.{
  Codec, QueuedProbe, PullPending, Scheduler, new_scope, put_pending, walk_admitted, walk_item,
}

-- A probe is pulled, declined or put back.
pub data Fate : Type 0 where
  pulls declines defers : Fate

-- The fate of a probe whose dependencies are cached or not, and what admission answers to it.
abbrev pub fate_of : Bool → Status → Fate
fate_of false status = defers
fate_of true Status.ok = pulls
fate_of true Status.failed_precondition = declines
fate_of true _ = defers

-- A fate that goes with what some state of the books, that of the moment, answers.
abbrev pub IsDue : Router → QueuedProbe → Fate → Type 0
IsDue router item fate =
    (c : Controller) × (fate
      ≡ fate_of (all_cached router item.probe.deps)
          (admit c item.probe.type item.probe.requirements).1)

abbrev pub AreDue : Router → List (QueuedProbe × Fate) → Type 0
AreDue router [] = Unit {0}
AreDue router ((item, fate) ∷ fates) = IsDue router item fate × AreDue router fates

-- The probes in the order of the queue.
abbrev pub items : List (QueuedProbe × Fate) → List QueuedProbe
items [] = []
items ((item, fate) ∷ fates) = item ∷ items fates

-- The probes that are put back, in order.
abbrev pub put_back : List (QueuedProbe × Fate) → List QueuedProbe
put_back [] = []
put_back ((item, defers) ∷ fates) = item ∷ put_back fates
put_back ((item, _) ∷ fates) = put_back fates

-- The pending pulls, once those of the pulled probes are entered.
abbrev pub entered : List (QueuedProbe × Fate) → Assoc PullPending → Assoc PullPending
entered [] pending = pending
entered ((item, pulls) ∷ fates) pending =
    entered fates
      (insert item.probe.id (record { probe = item.probe; scope = new_scope item.probe }) pending)
entered ((item, _) ∷ fates) pending = entered fates pending

module _ (codec : Codec) where
  -- The frames that go out: for each probe that is pulled or declined one, with its id, into its
  -- mailbox.
  abbrev pub answers : List (QueuedProbe × Fate) → List (ℕ × List ℕ)
  answers [] = []
  answers ((item, pulls) ∷ fates) =
      (item.pull_mailbox, serialize_tlv_frame task_pull (codec.write_pull item.probe.id))
      ∷ answers fates
  answers ((item, declines) ∷ fates) =
      (
        item.pull_mailbox,
        serialize_tlv_frame task_decline
            (codec.write_decline item.probe.id "requirements unsatisfiable"),
      )
      ∷ answers fates
  answers ((item, defers) ∷ fates) = answers fates

  -- What a state with deferred probes and a later one have to do with the fates in between.
  pub record Walked (s : Scheduler) (deferred : List QueuedProbe)
      (fates : List (QueuedProbe × Fate)) (r : Scheduler × List QueuedProbe) : Type 0 where
    pub deferred_eq : r.1 ≡ deferred ++ put_back fates
    pub enqueued_eq : r.0.enqueued ≡ s.enqueued ++ answers fates
    pub pending_eq : r.0.pull_pending ≡ entered fates s.pull_pending

  -- A round with this fate leaves the rest of the queue and the router alone.
  unfoldable pub HasFate :
      Scheduler → List QueuedProbe → QueuedProbe → Fate → Scheduler × List QueuedProbe → Type 0
  HasFate s deferred item fate r =
      Walked s deferred ((item, fate) ∷ []) r × (r.0.queue ≡ s.queue) × (r.0.router ≡ s.router)

  walk_admitted-HasFate :
      (s : Scheduler) (deferred : List QueuedProbe) (item : QueuedProbe) (status : Status)
      → HasFate s deferred item (fate_of true status) (walk_admitted codec s deferred item status)
  unfolding walk_admitted put_pending HasFate
  walk_admitted-HasFate s deferred item Status.ok = (
    record { deferred_eq = sym (append-nil deferred); enqueued_eq = refl; pending_eq = refl },
    refl,
    refl,
  )
  walk_admitted-HasFate s deferred item Status.failed_precondition = (
    record { deferred_eq = sym (append-nil deferred); enqueued_eq = refl; pending_eq = refl },
    refl,
    refl,
  )
  walk_admitted-HasFate s deferred item Status.resource_exhausted = (
    record { deferred_eq = refl; enqueued_eq = sym (append-nil s.enqueued); pending_eq = refl },
    refl,
    refl,
  )
  walk_admitted-HasFate s deferred item Status.not_found = (
    record { deferred_eq = refl; enqueued_eq = sym (append-nil s.enqueued); pending_eq = refl },
    refl,
    refl,
  )
  walk_admitted-HasFate s deferred item Status.invalid_argument = (
    record { deferred_eq = refl; enqueued_eq = sym (append-nil s.enqueued); pending_eq = refl },
    refl,
    refl,
  )
  walk_admitted-HasFate s deferred item Status.internal = (
    record { deferred_eq = refl; enqueued_eq = sym (append-nil s.enqueued); pending_eq = refl },
    refl,
    refl,
  )

  pub walk_item-HasFate :
      (s : Scheduler) (deferred : List QueuedProbe) (item : QueuedProbe)
      → (fate : Fate) × IsDue s.router item fate
        × HasFate s deferred item fate (walk_item codec s deferred item)
  unfolding walk_item HasFate
  walk_item-HasFate s deferred item = elim (Bool-cases (all_cached s.router item.probe.deps)) [
    | inl cached ↦
        let admitted = admit s.admission item.probe.type item.probe.requirements in
        let (walked, same, router) =
          walk_admitted-HasFate (record s { admission = admitted.0 }) deferred item admitted.1 in
        (
          fate_of true admitted.1,
          (s.admission, ap (λ b. fate_of b admitted.1) (sym cached)),
          rw cached (
            record {
              deferred_eq = walked.deferred_eq;
              enqueued_eq = walked.enqueued_eq;
              pending_eq = walked.pending_eq;
            },
            same,
            router,
          ),
        )
    | inr missing ↦
        let answer = (admit s.admission item.probe.type item.probe.requirements).1 in
        (
          defers,
          (s.admission, ap (λ b. fate_of b answer) (sym missing)),
          rw missing (
            record {
              deferred_eq = refl;
              enqueued_eq = sym (append-nil s.enqueued);
              pending_eq = refl;
            },
            refl,
            refl,
          ),
        )
  ]

  pub cons-put_back :
      (item : QueuedProbe) (fate : Fate) (fates : List (QueuedProbe × Fate))
      → put_back ((item, fate) ∷ fates) ≡ put_back ((item, fate) ∷ []) ++ put_back fates
  cons-put_back item pulls fates = refl
  cons-put_back item declines fates = refl
  cons-put_back item defers fates = refl

  pub cons-answers :
      (item : QueuedProbe) (fate : Fate) (fates : List (QueuedProbe × Fate))
      → answers ((item, fate) ∷ fates) ≡ answers ((item, fate) ∷ []) ++ answers fates
  cons-answers item pulls fates = refl
  cons-answers item declines fates = refl
  cons-answers item defers fates = refl

  pub cons-entered :
      (item : QueuedProbe) (fate : Fate) (fates : List (QueuedProbe × Fate))
      (pending : Assoc PullPending)
      → entered ((item, fate) ∷ fates) pending ≡ entered fates (entered ((item, fate) ∷ []) pending)
  cons-entered item pulls fates pending = refl
  cons-entered item declines fates pending = refl
  cons-entered item defers fates pending = refl
