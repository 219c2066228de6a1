-- ===== src/Tlv/Delivery.antt =====
-- The loop of `OnData` and the reads of a connection: what the parser was given is what it
-- delivered and what is pending, and `GetReadBuffer` always offers room at the right place.
use strij.Base.{
  ℕ, zero, suc, ◌<◌, ◌≡◌, inl, inr, refl, subst, Bool, true, false, List, Option, none, some, arith,
  Bool-cases, ◌==◌, ==_iff,
}
use strij.Tlv.Parser.{
  Parser, State, empty, type_read, length_read, value_partially_copied, Result, ok, abort, Progress,
  more, wait, iterate, parse_loop,
}
use strij.Tlv.Wire.{IsWellFormed, InState}
use strij.Tlv.Conserve.{given, Incomplete, IsResting, AtBoundary, Advances, iterate-Advances}

-- How a call of `OnData` may end: resting, every byte kept; or, in a build with assertions, at the
-- end of the buffer.
abbrev pub Parsed : Bool → List ℕ → Option (Result Parser) → Type 0
Parsed asserts bytes none = ⊥
Parsed asserts bytes (some abort) =
    (asserts ≡ true)
    × (record { at : Parser; well_formed : IsWellFormed at; boundary : AtBoundary at })
Parsed asserts bytes (some (ok q)) = IsWellFormed q × IsResting q × (given q ≡ bytes)

Incomplete-nothing :
    (p : Parser) (s : State) → InState s p → p.bytes_not_parsed ≡ 0 → Incomplete s p
Incomplete-nothing p empty i e = e
Incomplete-nothing p type_read i e = inl (omega arith)
Incomplete-nothing p length_read i e = omega arith
Incomplete-nothing p value_partially_copied i e = e

-- The rest of the loop, behind a round.
abbrev pub continue_with : Bool → ℕ → Result Progress → Option (Result Parser)
continue_with asserts fuel abort = some abort
continue_with asserts fuel (ok (wait q)) = some (ok q)
continue_with asserts fuel (ok (more q)) = parse_loop asserts fuel q

pub parse_loop-suc :
    (asserts : Bool) (fuel : ℕ) (p : Parser)
    → (p.bytes_not_parsed == 0) ≡ false
    → parse_loop asserts (suc fuel) p ≡ continue_with asserts fuel (iterate asserts p)
unfolding parse_loop
parse_loop-suc asserts fuel p h = ground arith

after_iterate :
    (asserts : Bool) (fuel : ℕ) (p : Parser) (r : Result Progress)
    → IsWellFormed p
    → Advances asserts p r
    → ((q : Parser)
        → q.bytes_not_parsed < p.bytes_not_parsed
        → IsWellFormed q
        → Parsed asserts (given q) (parse_loop asserts fuel q))
    → Parsed asserts (given p) (continue_with asserts fuel r)
after_iterate asserts fuel p abort wf a ih =
    (a.0, record { at = p; well_formed = wf; boundary = a.1 })
after_iterate asserts fuel p (ok (wait q)) wf a ih = (a.0.well_formed, a.1, a.0.same_bytes)
after_iterate asserts fuel p (ok (more q)) wf a ih =
    subst (λ bytes. Parsed asserts bytes (parse_loop asserts fuel q)) a.0.same_bytes
      (ih q a.1 a.0.well_formed)

parse_loop-done :
    (asserts : Bool) (fuel : ℕ) (p : Parser)
    → (p.bytes_not_parsed == 0) ≡ true
    → parse_loop asserts (suc fuel) p ≡ some (ok p)
unfolding parse_loop
parse_loop-done asserts fuel p h = ground arith

pub parse_loop-Parsed :
    (asserts : Bool) (fuel : ℕ) (p : Parser)
    → p.bytes_not_parsed < fuel
    → IsWellFormed p
    → Parsed asserts (given p) (parse_loop asserts fuel p)
parse_loop-Parsed asserts zero p h wf = absurd (omega arith)
parse_loop-Parsed asserts (suc fuel) p h wf = elim (Bool-cases (p.bytes_not_parsed == 0)) [
  | inl none_left ↦
      let e = (==_iff p.bytes_not_parsed 0).0 none_left in
      let rests : IsResting p = record {
        incomplete = Incomplete-nothing p p.state wf.in_state e;
        room = inl e;
      } in
      rw (parse_loop-done asserts fuel p none_left) (wf, rests, refl)
  | inr some_left ↦ rw (parse_loop-suc asserts fuel p some_left) (
      after_iterate asserts fuel p (iterate asserts p) wf
        (iterate-Advances asserts p wf (ground arith))
        (λ q less wf'. parse_loop-Parsed asserts fuel q (omega arith) wf'))
]
