-- ===== src/ProbeLocal/Books.antt =====
-- The capacity that the scheduler holds: each pending pull and each running task holds the
-- capacity of its scope once.
use strij.Base.{
  ◌≡◌, refl, ◌∙◌, ap, String, false, List, [], ◌∷◌, ◌++◌, none, arith, Assoc, lookup, length,
  length-append,
}
use strij.Task.{Task}
use strij.Admission.{Controller}
use strij.Admission.Holders.{
  Holder, held, running, AllDistinct, IsExact, held-append, running-append,
}
use strij.Admission.Scope.{AdmissionScope}
use strij.ProbeLocal.{PullPending, Scheduler}

abbrev pub holder : AdmissionScope → Holder
holder scope = record { task_type = scope.task_type; resources = scope.requirements }

abbrev pub pending_holders : Assoc PullPending → List Holder
pending_holders [] = []
pending_holders ((k, p) ∷ m) = holder p.scope ∷ pending_holders m

abbrev pub running_holders : List (Task × AdmissionScope) → List Holder
running_holders [] = []
running_holders ((task, scope) ∷ tasks) = holder scope ∷ running_holders tasks

abbrev pub holders : Scheduler → List Holder
holders s = pending_holders s.pull_pending ++ running_holders s.running

-- No key twice, and no scope that was released.
abbrev pub WellKept : Assoc PullPending → Type 0
WellKept [] = Unit {0}
WellKept ((k, p) ∷ m) = (lookup k m ≡ none) × (p.scope.released ≡ false) × WellKept m

pub running_holders-append :
    (xs ys : List (Task × AdmissionScope))
    → running_holders (xs ++ ys) ≡ running_holders xs ++ running_holders ys
running_holders-append [] ys = refl
running_holders-append (x ∷ xs) ys = ap (◌∷◌ (holder x.1)) (running_holders-append xs ys)

-- The same holders in another order, as far as the books go.
pub record Same (gs hs : List Holder) : Type 0 where
  pub held_same : (pool : String) → held pool gs ≡ held pool hs
  pub running_same : (t : String) → running t gs ≡ running t hs
  pub distinct_same : AllDistinct gs → AllDistinct hs
  pub length_same : length gs ≡ length hs

pub Same-IsExact : (c : Controller) (gs hs : List Holder) → Same gs hs → IsExact c gs → IsExact c hs
Same-IsExact c gs hs s x = record {
  bounded = x.bounded;
  in_use = λ pool. x.in_use pool ∙ s.held_same pool;
  flights = λ t. x.flights t ∙ s.running_same t;
  distinct = s.distinct_same x.distinct;
}

pub AllDistinct-append :
    (xs ys : List Holder) → AllDistinct xs → AllDistinct ys → AllDistinct (xs ++ ys)
AllDistinct-append [] ys dx dy = dy
AllDistinct-append (x ∷ xs) ys dx dy = (dx.0, AllDistinct-append xs ys dx.1 dy)

AllDistinct-left : (xs ys : List Holder) → AllDistinct (xs ++ ys) → AllDistinct xs
AllDistinct-left [] ys d = tt
AllDistinct-left (x ∷ xs) ys d = (d.0, AllDistinct-left xs ys d.1)

AllDistinct-right : (xs ys : List Holder) → AllDistinct (xs ++ ys) → AllDistinct ys
AllDistinct-right [] ys d = d
AllDistinct-right (x ∷ xs) ys d = AllDistinct-right xs ys d.1

-- What stands behind may stay.
pub Same-append : (gs hs rest : List Holder) → Same gs hs → Same (gs ++ rest) (hs ++ rest)
Same-append gs hs rest s = record {
  held_same =
      λ pool. omega (arith, s.held_same pool, held-append pool gs rest, held-append pool hs rest);
  running_same =
      λ t. omega (arith, s.running_same t, running-append t gs rest, running-append t hs rest);
  distinct_same = λ d.
      AllDistinct-append hs rest (s.distinct_same (AllDistinct-left gs rest d))
        (AllDistinct-right gs rest d);
  length_same = omega (arith, s.length_same, length-append gs rest, length-append hs rest);
}

pub Same-cons-cons :
    (a b x : Holder) (gs hs : List Holder) → Same (a ∷ gs) (b ∷ hs) → Same (a ∷ x ∷ gs) (b ∷ x ∷ hs)
Same-cons-cons a b x gs hs s = record {
  held_same = λ pool. omega (arith, s.held_same pool);
  running_same = λ t. omega (arith, s.running_same t);
  distinct_same = λ d. let e = s.distinct_same (d.0, d.1.1) in (e.0, (d.1.0, e.1));
  length_same = omega (arith, s.length_same);
}

pub Same-cons_first :
    (a x : Holder) (gs hs : List Holder) → Same (a ∷ gs) hs → Same (a ∷ x ∷ gs) (x ∷ hs)
Same-cons_first a x gs hs s = record {
  held_same = λ pool. omega (arith, s.held_same pool);
  running_same = λ t. omega (arith, s.running_same t);
  distinct_same = λ d. (d.1.0, s.distinct_same (d.0, d.1.1));
  length_same = omega (arith, s.length_same);
}

pub Same-cons_last :
    (a x : Holder) (gs hs : List Holder) → Same gs (a ∷ hs) → Same (x ∷ gs) (a ∷ x ∷ hs)
Same-cons_last a x gs hs s = record {
  held_same = λ pool. omega (arith, s.held_same pool);
  running_same = λ t. omega (arith, s.running_same t);
  distinct_same = λ d. let e = s.distinct_same d.1 in (e.0, (d.0, e.1));
  length_same = omega (arith, s.length_same);
}

pub Same-refl : (hs : List Holder) → Same hs hs
Same-refl hs = record {
  held_same = λ pool. refl;
  running_same = λ t. refl;
  distinct_same = λ d. d;
  length_same = refl;
}

pub Same-swap : (a b : Holder) (hs : List Holder) → Same (a ∷ b ∷ hs) (b ∷ a ∷ hs)
Same-swap a b hs = Same-cons_first a b hs (a ∷ hs) (Same-refl (a ∷ hs))

pub Same-trans : (fs gs hs : List Holder) → Same fs gs → Same gs hs → Same fs hs
Same-trans fs gs hs s t = record {
  held_same = λ pool. s.held_same pool ∙ t.held_same pool;
  running_same = λ x. s.running_same x ∙ t.running_same x;
  distinct_same = λ d. t.distinct_same (s.distinct_same d);
  length_same = s.length_same ∙ t.length_same;
}

pub Same-to_end : (a : Holder) (hs : List Holder) → Same (a ∷ hs) (hs ++ a ∷ [])
Same-to_end a [] = Same-refl (a ∷ [])
Same-to_end a (h ∷ hs) = Same-cons_first a h hs (hs ++ a ∷ []) (Same-to_end a hs)

pub Same-from_middle : (gs hs : List Holder) (h : Holder) → Same (gs ++ h ∷ hs) (h ∷ gs ++ hs)
Same-from_middle [] hs h = Same-refl (h ∷ hs)
Same-from_middle (g ∷ gs) hs h =
    Same-cons_last h g (gs ++ h ∷ hs) (gs ++ hs) (Same-from_middle gs hs h)
