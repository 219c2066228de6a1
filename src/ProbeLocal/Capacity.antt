-- ===== src/ProbeLocal/Capacity.antt =====
-- No handler of the probe local scheduler loses capacity or holds it twice.
use strij.Base.{
  suc, ◌≤◌, ◌<◌, ◌≡◌, refl, false, List, [], ◌∷◌, ◌++◌, Option, none, some, arith, lookup, insert,
  Distinct, u64_mod, length,
}
use strij.BoundedQueue.{size}
use strij.Admission.{Controller, Status, admit}
use strij.Admission.Accounts.{admit-refused}
use strij.Admission.Holders.{Holder, IsExact, admitted, released, Step-IsExact}
use strij.Admission.Scope.{AdmissionScope, release_scope}
use strij.ProbeLocal.{TaskProbe, PullPending, Scheduler, new_scope, drop_scope, put_pending}
use strij.ProbeLocal.Books.{
  holder, holders, pending_holders, running_holders, WellKept, Same-IsExact, Same-append,
}
use strij.ProbeLocal.Pending.{insert_new, insert_old, WellKept-insert, WellKept-released}

-- The admission controller's books agree with the scopes that the scheduler and its tasks hold.
pub record IsBalanced (s : Scheduler) : Type 0 where
  pub exact : IsExact s.admission (holders s)
  pub kept : WellKept s.pull_pending

-- A scope that is released gives back what it holds.
pub release_scope-IsExact :
    (c : Controller) (scope : AdmissionScope) (hs : List Holder)
    → scope.released ≡ false
    → IsExact c (holder scope ∷ hs)
    → IsExact (release_scope c scope).0 hs
unfolding release_scope
release_scope-IsExact c scope hs u x =
    rw u (Step-IsExact (released [] (holder scope) hs refl refl refl) x)

pub drop-IsExact :
    (c : Controller) (p : PullPending) (hs : List Holder)
    → p.scope.released ≡ false
    → IsExact c (holder p.scope ∷ hs)
    → IsExact (drop_scope c (some p)) hs
unfolding drop_scope
drop-IsExact c p hs u x = release_scope-IsExact c p.scope hs u x

-- What `put_pending` makes of books that already count the new scope.
put-IsExact :
    (s : Scheduler) (probe : TaskProbe) (found : Option PullPending)
    → lookup probe.id s.pull_pending ≡ found
    → WellKept s.pull_pending
    → IsExact s.admission (holder (new_scope probe) ∷ holders s)
    → let m = insert probe.id (record { probe = probe; scope = new_scope probe }) s.pull_pending in
      IsExact (drop_scope s.admission found) (pending_holders m ++ running_holders s.running)
      × (length (pending_holders m ++ running_holders s.running) ≤ suc (length (holders s)))
put-IsExact s probe none e w x =
    let p : PullPending = record { probe = probe; scope = new_scope probe } in
    let same =
      Same-append (holder p.scope ∷ pending_holders s.pull_pending)
        (pending_holders (insert probe.id p s.pull_pending)) (running_holders s.running)
        (insert_new probe.id p s.pull_pending e) in
    (unfold drop_scope in Same-IsExact s.admission _ _ same x, omega (arith, same.length_same))
put-IsExact s probe (some old) e w x =
    let p : PullPending = record { probe = probe; scope = new_scope probe } in
    let same =
      Same-append (holder p.scope ∷ pending_holders s.pull_pending)
        (holder old.scope ∷ pending_holders (insert probe.id p s.pull_pending))
        (running_holders s.running) (insert_old probe.id p old s.pull_pending e) in
    (
      drop-IsExact s.admission old _ (WellKept-released probe.id s.pull_pending old w e)
          (Same-IsExact s.admission _ _ same x),
      omega (arith, same.length_same),
    )

pub put_pending-IsBalanced :
    (s : Scheduler) (c : Controller) (probe : TaskProbe)
    → IsBalanced s
    → Distinct probe.requirements
    → suc (length (holders s)) < u64_mod
    → admit s.admission probe.type probe.requirements ≡ (c, Status.ok)
    → IsBalanced (put_pending (record s { admission = c }) probe)
      × (length (holders (put_pending (record s { admission = c }) probe))
          ≤ suc (length (holders s)))
unfolding put_pending
put_pending-IsBalanced s c probe b d small e =
    let counted = Step-IsExact (admitted (holder (new_scope probe)) d small e) b.exact in
    let (exact, size) =
      put-IsExact (record s { admission = c }) probe (lookup probe.id s.pull_pending) refl b.kept
        counted in
    (record { exact = exact; kept = WellKept-insert probe.id _ s.pull_pending refl b.kept }, size)

-- A refused admission changes no books.
pub refused_admission :
    (s : Scheduler) (probe : TaskProbe)
    → ((admit s.admission probe.type probe.requirements).1 ≡ Status.ok → ⊥)
    → (admit s.admission probe.type probe.requirements).0 ≡ s.admission
refused_admission s probe bad =
    ground (arith, admit-refused s.admission probe.type probe.requirements)
