-- ===== src/ProbeLocal/Handlers.antt =====
-- The handlers of the probe local scheduler keep the capacity books balanced.
use strij.Base.{
  ℕ, suc, ◌≤◌, ◌<◌, ◌≡◌, inl, inr, refl, sym, subst, ap, List, [], ◌∷◌, arith, Distinct, Bool-cases,
  u64_mod, length, ◌==◌, ◌||◌,
}
use strij.BoundedQueue.{push}
use strij.FetchRouter.{all_cached}
use strij.Admission.{Status, admit}
use strij.Admission.Holders.{IsExact}
use strij.ProbeLocal.{
  Codec, TaskProbe, QueuedProbe, Scheduler, walk_admitted, walk_item, handle_admitted, handle_probe,
  start_prefetch,
}
use strij.ProbeLocal.Books.{holders}
use strij.ProbeLocal.Capacity.{IsBalanced, put_pending-IsBalanced, refused_admission}

-- The requests of the probes are protobuf maps: no pool twice.
abbrev pub AllRequests : List QueuedProbe → Type 0
AllRequests [] = Unit {0}
AllRequests (item ∷ items) = Distinct item.probe.requirements × AllRequests items

-- `s'` is balanced, and holds at most one scope more than `s`.
abbrev Grows : Scheduler → Scheduler → Type 0
Grows s s' = IsBalanced s' × (length (holders s') ≤ suc (length (holders s)))

-- A refused admission changes no books.
refused-IsExact :
    (s : Scheduler) (probe : TaskProbe)
    → IsBalanced s
    → ((admit s.admission probe.type probe.requirements).1 ≡ Status.ok → ⊥)
    → IsExact (admit s.admission probe.type probe.requirements).0 (holders s)
refused-IsExact s probe b bad =
    subst (λ c. IsExact c (holders s)) (sym (refused_admission s probe bad)) b.exact

start_prefetch-Grows :
    (codec : Codec) (s t : Scheduler) (probe : TaskProbe)
    → Grows s t
    → Grows s (start_prefetch codec t probe)
unfolding start_prefetch
start_prefetch-Grows codec s t probe g =
    elim (Bool-cases (length probe.deps == 0 || all_cached t.router probe.deps)) [
      | inl cached ↦ rw cached g
      | inr missing ↦ rw missing (record { exact = g.0.exact; kept = g.0.kept }, g.1)
    ]

module _ (codec : Codec) (s : Scheduler) (b : IsBalanced s)
    (small : suc (length (holders s)) < u64_mod) where
  walk_admitted-Grows :
      (deferred : List QueuedProbe) (item : QueuedProbe) (status : Status)
      → Distinct item.probe.requirements
      → (admit s.admission item.probe.type item.probe.requirements).1 ≡ status
      → Grows s
          (walk_admitted codec
            (record s { admission = (admit s.admission item.probe.type item.probe.requirements).0 })
            deferred
            item
            status).0
  unfolding walk_admitted
  walk_admitted-Grows deferred item Status.ok d e =
      let admitted = admit s.admission item.probe.type item.probe.requirements in
      let (balanced, grown) =
        put_pending-IsBalanced s admitted.0 item.probe b d small (ap (λ x. (admitted.0, x)) e) in
      (record { exact = balanced.exact; kept = balanced.kept }, grown)
  walk_admitted-Grows deferred item Status.failed_precondition d e = (
    record { exact = refused-IsExact s item.probe b (ground (arith, e)); kept = b.kept },
    omega arith,
  )
  walk_admitted-Grows deferred item Status.resource_exhausted d e = (
    record { exact = refused-IsExact s item.probe b (ground (arith, e)); kept = b.kept },
    omega arith,
  )
  walk_admitted-Grows deferred item Status.not_found d e = (
    record { exact = refused-IsExact s item.probe b (ground (arith, e)); kept = b.kept },
    omega arith,
  )
  walk_admitted-Grows deferred item Status.invalid_argument d e = (
    record { exact = refused-IsExact s item.probe b (ground (arith, e)); kept = b.kept },
    omega arith,
  )
  walk_admitted-Grows deferred item Status.internal d e = (
    record { exact = refused-IsExact s item.probe b (ground (arith, e)); kept = b.kept },
    omega arith,
  )

  pub walk_item-Grows :
      (deferred : List QueuedProbe) (item : QueuedProbe)
      → Distinct item.probe.requirements
      → Grows s (walk_item codec s deferred item).0
  unfolding walk_item
  walk_item-Grows deferred item d = elim (Bool-cases (all_cached s.router item.probe.deps)) [
    | inl cached ↦ rw cached (walk_admitted-Grows deferred item _ d refl)
    | inr missing ↦ rw missing (b, omega arith)
  ]

  handle_admitted-Grows :
      (probe : TaskProbe) (mailbox : ℕ) (status : Status)
      → Distinct probe.requirements
      → (admit s.admission probe.type probe.requirements).1 ≡ status
      → Grows s (
          handle_admitted codec
            (record s { admission = (admit s.admission probe.type probe.requirements).0 })
            probe
            mailbox
            status)
  unfolding handle_admitted
  handle_admitted-Grows probe mailbox Status.ok d e =
      let admitted = admit s.admission probe.type probe.requirements in
      let (balanced, grown) =
        put_pending-IsBalanced s admitted.0 probe b d small (ap (λ x. (admitted.0, x)) e) in
      start_prefetch-Grows codec s _ probe
        (record { exact = balanced.exact; kept = balanced.kept }, grown)
  handle_admitted-Grows probe mailbox Status.resource_exhausted d e =
      let item : QueuedProbe = record { probe = probe; pull_mailbox = mailbox } in
      let exact = refused-IsExact s probe b (ground (arith, e)) in
      elim (Bool-cases (push s.queue item).1) [
        | inl done ↦ rw done (
            start_prefetch-Grows codec s _ probe
              (record { exact = exact; kept = b.kept }, omega arith))
        | inr full ↦ rw full (record { exact = exact; kept = b.kept }, omega arith)
      ]
  handle_admitted-Grows probe mailbox Status.failed_precondition d e =
      (record { exact = refused-IsExact s probe b (ground (arith, e)); kept = b.kept }, omega arith)
  handle_admitted-Grows probe mailbox Status.not_found d e =
      (record { exact = refused-IsExact s probe b (ground (arith, e)); kept = b.kept }, omega arith)
  handle_admitted-Grows probe mailbox Status.invalid_argument d e =
      (record { exact = refused-IsExact s probe b (ground (arith, e)); kept = b.kept }, omega arith)
  handle_admitted-Grows probe mailbox Status.internal d e =
      (record { exact = refused-IsExact s probe b (ground (arith, e)); kept = b.kept }, omega arith)

  pub handle_probe-Grows :
      (probe : TaskProbe) (mailbox : ℕ)
      → Distinct probe.requirements
      → Grows s (handle_probe codec s probe mailbox)
  unfolding handle_probe
  handle_probe-Grows probe mailbox d = handle_admitted-Grows probe mailbox _ d refl
