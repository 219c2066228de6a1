-- ===== src/ProbeLocal/Pending.antt =====
-- The map of pending pulls, as far as the capacity it holds goes.
use strij.Base.{
  ◌≡◌, refl, String, false, [], ◌∷◌, none, some, arith, Assoc, lookup, insert, erase, lookup-insert,
  lookup-erase, eq_iff, str_eq, Bool-cases, inl, inr,
}
use strij.ProbeLocal.{PullPending}
use strij.ProbeLocal.Books.{
  holder, pending_holders, WellKept, Same, Same-cons-cons, Same-cons_first, Same-cons_last,
  Same-refl, Same-swap,
}

-- A new entry adds its scope.
pub insert_new :
    (k : String) (p : PullPending) (m : Assoc PullPending)
    → lookup k m ≡ none
    → Same (holder p.scope ∷ pending_holders m) (pending_holders (insert k p m))
unfolding lookup insert
insert_new k p [] e = Same-refl (holder p.scope ∷ [])
insert_new k p ((j, q) ∷ m) e = elim (Bool-cases (str_eq j k)) [
  | inl hit ↦ absurd (ground (arith, e, hit))
  | inr miss ↦ rw miss (
      Same-cons_first (holder p.scope) (holder q.scope) (pending_holders m)
        (pending_holders (insert k p m)) (insert_new k p m (rw miss at e)))
]

-- An entry that is replaced gives its scope up.
pub insert_old :
    (k : String) (p old : PullPending) (m : Assoc PullPending)
    → lookup k m ≡ some old
    → Same (holder p.scope ∷ pending_holders m) (holder old.scope ∷ pending_holders (insert k p m))
unfolding lookup insert
insert_old k p old [] e = absurd (ground (arith, e))
insert_old k p old ((j, q) ∷ m) e = elim (Bool-cases (str_eq j k)) [
  | inl hit ↦
      let same : q ≡ old = ground (arith, e, hit) in
      rw (hit, ← same) (Same-swap (holder p.scope) (holder q.scope) (pending_holders m))
  | inr miss ↦ rw miss (
      Same-cons-cons (holder p.scope) (holder old.scope) (holder q.scope) (pending_holders m)
        (pending_holders (insert k p m)) (insert_old k p old m (rw miss at e)))
]

pub erase_missing : (k : String) (m : Assoc PullPending) → lookup k m ≡ none → erase k m ≡ m
unfolding lookup erase
erase_missing k [] e = refl
erase_missing k ((j, q) ∷ m) e = ground (arith, erase_missing k m)

-- An entry that is erased gives its scope up.
pub erase_old :
    (k : String) (old : PullPending) (m : Assoc PullPending)
    → WellKept m
    → lookup k m ≡ some old
    → Same (pending_holders m) (holder old.scope ∷ pending_holders (erase k m))
unfolding lookup erase
erase_old k old [] w e = absurd (ground (arith, e))
erase_old k old ((j, q) ∷ m) w e = elim (Bool-cases (str_eq j k)) [
  | inl hit ↦
      let same : q ≡ old = ground (arith, e, hit) in
      let gone : erase k m ≡ m = erase_missing k m (ground (arith, w.0, (eq_iff j k).0 hit)) in
      rw (hit, gone, ← same) (Same-refl (holder q.scope ∷ pending_holders m))
  | inr miss ↦ rw miss (
      Same-cons_last (holder old.scope) (holder q.scope) (pending_holders m)
        (pending_holders (erase k m)) (erase_old k old m w.2 (rw miss at e)))
]

pub WellKept-insert :
    (k : String) (p : PullPending) (m : Assoc PullPending)
    → p.scope.released ≡ false
    → WellKept m
    → WellKept (insert k p m)
unfolding insert lookup
WellKept-insert k p [] u w = (refl, u, tt)
WellKept-insert k p ((j, q) ∷ m) u w =
    ground (arith, eq_iff j k, eq_iff k j, lookup-insert k j p m, WellKept-insert k p m u w.2)

pub WellKept-erase : (k : String) (m : Assoc PullPending) → WellKept m → WellKept (erase k m)
unfolding erase lookup
WellKept-erase k [] w = tt
WellKept-erase k ((j, q) ∷ m) w =
    ground (arith, eq_iff k j, lookup-erase k j m, WellKept-erase k m w.2)

pub WellKept-released :
    (k : String) (m : Assoc PullPending) (p : PullPending)
    → WellKept m
    → lookup k m ≡ some p
    → p.scope.released ≡ false
unfolding lookup
WellKept-released k [] p w e = absurd (ground (arith, e))
WellKept-released k ((j, q) ∷ m) p w e = ground (arith, WellKept-released k m p w.2)
