-- ===== src/ProbeGateway/Rounds.antt =====
-- The rounds that the gateway's probe scheduler has open for a task.
use strij.Base.{
  ℕ, suc, ◌+◌, ◌≤◌, ◌≡◌, refl, String, [], ◌∷◌, ◌++◌, some, arith, if◌then◌else◌, Assoc, lookup,
  insert, erase, str_eq, eq_iff,
}
use strij.ProbeGateway.{PendingProbe, ProbeScheduler}
use strij.ProbeGateway.Grants.{grants, Keyed}

-- The rounds of a task, and its grants, are no more than `n` together.
abbrev pub open_rounds : String → Assoc PendingProbe → ℕ
open_rounds id [] = 0
open_rounds id ((task_id, p) ∷ rounds) =
    (if str_eq task_id id then 1 else 0) + open_rounds id rounds

pub record Within (id : String) (n : ℕ) (s : ProbeScheduler) : Type 0 where
  pub keyed : Keyed s.pending
  pub bound : grants id s.sent + open_rounds id s.pending ≤ n

pub Keyed-insert :
    (p : PendingProbe) (m : Assoc PendingProbe) → Keyed m → Keyed (insert p.task.id p m)
unfolding insert
Keyed-insert p [] k = (refl, tt)
Keyed-insert p ((i, q) ∷ m) k = ground (arith, k, Keyed-insert p m)

pub Keyed-erase : (id : String) (m : Assoc PendingProbe) → Keyed m → Keyed (erase id m)
unfolding erase
Keyed-erase id [] k = tt
Keyed-erase id ((i, q) ∷ m) k = ground (arith, k, Keyed-erase id m)

pub Keyed-lookup :
    (id : String) (p : PendingProbe) (m : Assoc PendingProbe)
    → Keyed m
    → lookup id m ≡ some p
    → p.task.id ≡ id
unfolding lookup
Keyed-lookup id p [] k e = ground (arith, e)
Keyed-lookup id p ((i, q) ∷ m) k e = ground (arith, k, e, eq_iff i id, Keyed-lookup id p m)

pub open_rounds-insert :
    (id key : String) (p : PendingProbe) (m : Assoc PendingProbe)
    → open_rounds id (insert key p m) ≤ (if str_eq key id then 1 else 0) + open_rounds id m
unfolding insert
open_rounds-insert id key p [] = ground arith
open_rounds-insert id key p ((i, q) ∷ m) =
    ground (arith, eq_iff i key, open_rounds-insert id key p m)

pub open_rounds-replace :
    (id key : String) (p q : PendingProbe) (m : Assoc PendingProbe)
    → lookup key m ≡ some q
    → open_rounds id (insert key p m) ≡ open_rounds id m
unfolding insert lookup
open_rounds-replace id key p q [] e = ground (arith, e)
open_rounds-replace id key p q ((i, r) ∷ m) e =
    ground (arith, e, eq_iff i key, open_rounds-replace id key p q m)

pub open_rounds-erase_le :
    (id key : String) (m : Assoc PendingProbe) → open_rounds id (erase key m) ≤ open_rounds id m
unfolding erase
open_rounds-erase_le id key [] = ground arith
open_rounds-erase_le id key ((i, q) ∷ m) = ground (arith, open_rounds-erase_le id key m)

pub open_rounds-erase :
    (id : String) (p : PendingProbe) (m : Assoc PendingProbe)
    → lookup id m ≡ some p
    → suc (open_rounds id (erase id m)) ≤ open_rounds id m
unfolding erase lookup
open_rounds-erase id p [] e = ground (arith, e)
open_rounds-erase id p ((i, q) ∷ m) e =
    ground (arith, e, eq_iff i id, open_rounds-erase_le id id m, open_rounds-erase id p m)

pub Keyed-append :
    (m : Assoc PendingProbe) (id : String) (p : PendingProbe)
    → Keyed m
    → p.task.id ≡ id
    → Keyed (m ++ (id, p) ∷ [])
Keyed-append [] id p k e = (e, tt)
Keyed-append ((i, q) ∷ m) id p k e = (k.0, Keyed-append m id p k.1 e)

pub open_rounds_snoc :
    (id key : String) (p : PendingProbe) (m : Assoc PendingProbe)
    → open_rounds id (m ++ (key, p) ∷ []) ≡ open_rounds id m + (if str_eq key id then 1 else 0)
open_rounds_snoc id key p [] = omega arith
open_rounds_snoc id key p ((i, q) ∷ m) = omega (arith, open_rounds_snoc id key p m)
