-- ===== src/Admission/Holders.antt =====
-- A controller and the tasks that hold capacity in it, through any sequence of admissions and
-- releases: each admitted task is released once, in any order.
use strij.Base.{
  ℕ, suc, ◌+◌, ◌≤◌, ◌<◌, ◌≡◌, ◌≢◌, ◌∙◌, String, List, [], ◌∷◌, ◌++◌, arith, length, if◌then◌else◌,
  Assoc, amount_of, u64_mod, Distinct, amount_of-add_to, str_eq, eq_iff,
}
use strij.Admission.{Controller, Status, ok, in_flight, reserve, admit, release}
use strij.Admission.Accounts.{
  IsBounded, admit-ok, admit-refused, reserve-in_use, reserve-IsBounded, release-in_use,
  release-in_flight, release-IsBounded,
}

-- A task that was admitted and is not released yet.
pub record Holder : Type 0 where
  pub task_type : String
  pub resources : Assoc ℕ

abbrev pub held : String → List Holder → ℕ
held pool [] = 0
held pool (h ∷ hs) = amount_of pool h.resources + held pool hs

abbrev pub running : String → List Holder → ℕ
running task_type [] = 0
running task_type (h ∷ hs) = (if str_eq h.task_type task_type then 1 else 0) + running task_type hs

pub held-append :
    (pool : String) (xs ys : List Holder) → held pool (xs ++ ys) ≡ held pool xs + held pool ys
held-append pool [] ys = omega arith
held-append pool (x ∷ xs) ys = omega (arith, held-append pool xs ys)

pub running-append :
    (t : String) (xs ys : List Holder) → running t (xs ++ ys) ≡ running t xs + running t ys
running-append t [] ys = omega arith
running-append t (x ∷ xs) ys = omega (arith, running-append t xs ys)

running-le : (t : String) (hs : List Holder) → running t hs ≤ length hs
running-le t [] = omega arith
running-le t (h ∷ hs) = ground (arith, running-le t hs)

-- The calls of the node: an admission that succeeds adds a holder, one that fails adds none, and a
-- release takes one away. A node runs fewer than 2^64 - 1 tasks.
pub data Step : Controller → List Holder → Controller → List Holder → Type 0 where
  admitted :
      {c d : Controller} {hs : List Holder} (h : Holder)
      → Distinct h.resources
      → suc (length hs) < u64_mod
      → admit c h.task_type h.resources ≡ (d, ok)
      → Step c hs d (h ∷ hs)
  refused :
      {c d : Controller} {hs : List Holder} (h : Holder) (s : Status)
      → s ≢ ok
      → admit c h.task_type h.resources ≡ (d, s)
      → Step c hs d hs
  released :
      {c d : Controller} {gs hs : List Holder} (before : List Holder) (h : Holder)
      (behind : List Holder)
      → gs ≡ before ++ h ∷ behind
      → hs ≡ before ++ behind
      → d ≡ release c h.task_type h.resources
      → Step c gs d hs

pub data Reach (c₀ : Controller) : Controller → List Holder → Type 0 where
  here : {c : Controller} {hs : List Holder} → c ≡ c₀ → hs ≡ [] → Reach c₀ c hs
  next : {c d : Controller} {gs hs : List Holder} → Reach c₀ c gs → Step c gs d hs → Reach c₀ d hs

abbrev pub AllDistinct : List Holder → Type 0
AllDistinct [] = Unit {0}
AllDistinct (h ∷ hs) = Distinct h.resources × AllDistinct hs

-- The controller's books agree with the holders.
pub record IsExact (c : Controller) (hs : List Holder) : Type 0 where
  pub bounded : IsBounded c
  pub in_use : (pool : String) → amount_of pool c.pool_in_use_map ≡ held pool hs
  pub flights : (task_type : String) → in_flight c task_type ≡ running task_type hs
  pub distinct : AllDistinct hs

AllDistinct-drop :
    (xs : List Holder) (h : Holder) (ys : List Holder)
    → AllDistinct (xs ++ h ∷ ys)
    → Distinct h.resources × AllDistinct (xs ++ ys)
AllDistinct-drop [] h ys d = d
AllDistinct-drop (x ∷ xs) h ys d =
    let (here_distinct, rest) = AllDistinct-drop xs h ys d.1 in (here_distinct, (d.0, rest))

reserve-flights :
    (c : Controller) (h : Holder) (t : String)
    → in_flight c t + 1 < u64_mod
    → in_flight (reserve c h.task_type h.resources) t
      ≡ (if str_eq h.task_type t then 1 else 0) + in_flight c t
unfolding reserve
reserve-flights c h t small =
    ground (arith, eq_iff h.task_type t, amount_of-add_to h.task_type t 1 c.type_in_flight_map)

admitted-IsExact :
    (c : Controller) (hs : List Holder) (h : Holder)
    → Distinct h.resources
    → suc (length hs) < u64_mod
    → admit c h.task_type h.resources ≡ (reserve c h.task_type h.resources, ok)
    → IsExact c hs
    → IsExact (reserve c h.task_type h.resources) (h ∷ hs)
admitted-IsExact c hs h d small e x =
    let (pools, limit, same) = admit-ok c (reserve c h.task_type h.resources) _ _ e in
    record {
      bounded =
          reserve-IsBounded c h.task_type h.resources x.bounded d pools limit
            (omega (arith, x.flights h.task_type, running-le h.task_type hs));
      in_use = λ pool.
          omega
            (arith, reserve-in_use c h.task_type h.resources x.bounded d pool pools, x.in_use pool);
      flights = λ t. ground (arith, x.flights t, reserve-flights c h t, running-le t hs);
      distinct = (d, x.distinct);
    }

released-IsExact :
    (c : Controller) (before : List Holder) (h : Holder) (behind : List Holder)
    → IsExact c (before ++ h ∷ behind)
    → IsExact (release c h.task_type h.resources) (before ++ behind)
released-IsExact c before h behind x =
    let (d, rest) = AllDistinct-drop before h behind x.distinct in
    record {
      bounded = release-IsBounded c h.task_type h.resources x.bounded d;
      in_use = λ pool. omega (
        arith,
        release-in_use c h.task_type h.resources pool d,
        x.in_use pool,
        held-append pool before (h ∷ behind),
        held-append pool before behind,
      );
      flights = λ t. ground (
        arith,
        release-in_flight c h.task_type t h.resources,
        x.flights t,
        running-append t before (h ∷ behind),
        running-append t before behind,
      );
      distinct = rest;
    }

-- Every admission and every release keeps the books exact and the pools within their totals.
pub Step-IsExact :
    {c d : Controller} {gs hs : List Holder} → Step c gs d hs → IsExact c gs → IsExact d hs
Step-IsExact {c} {d} (admitted {hs = hs} h dist small e) x =
    let (pools, limit, same) = admit-ok c d h.task_type h.resources e in
    rw same (admitted-IsExact c hs h dist small (e ∙ rw same) x)
Step-IsExact {c} (refused h s bad e) x = ground (arith, admit-refused c h.task_type h.resources)
Step-IsExact {c} (released before h behind eg eh ed) x =
    rw (ed, eh) (released-IsExact c before h behind (rw eg at x))

pub Reach-IsExact :
    {c₀ c : Controller} {hs : List Holder} → IsExact c₀ [] → Reach c₀ c hs → IsExact c hs
Reach-IsExact x (here e f) = rw (e, f) x
Reach-IsExact x (next r st) = Step-IsExact st (Reach-IsExact x r)
