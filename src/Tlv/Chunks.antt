-- ===== src/Tlv/Chunks.antt =====
-- Successive reads of a connection, of any sizes that the parser offers room for.
use strij.Base.{
  ℕ, ◌≤◌, ◌≡◌, inl, refl, sym, subst, Bool, List, [], ◌∷◌, ◌++◌, Option, none, some, arith,
  append-nil, append_assoc, length,
}
use strij.Tlv.Bytes.{AllBytes}
use strij.Tlv.Parser.{Parser, Result, ok, abort, receive, receive_all, initial}
use strij.Tlv.Wire.{IsWellFormed}
use strij.Tlv.Conserve.{given, IsResting}
use strij.Tlv.Delivery.{Parsed}
use strij.Tlv.Reads.{room, receive-Parsed}

-- All the bytes of successive reads.
abbrev pub stream : List (List ℕ) → List ℕ
stream [] = []
stream (chunk ∷ chunks) = chunk ++ stream chunks

-- Every read brings bytes, and no more than the parser offered for it.
abbrev pub Fits : Bool → List (List ℕ) → Parser → Type 0
Fits asserts [] p = Unit {0}
Fits asserts (chunk ∷ chunks) p =
    AllBytes chunk
    × (length chunk ≤ room p)
    × ((q : Parser) → receive asserts chunk p ≡ some (ok q) → Fits asserts chunks q)

after_receive :
    (asserts : Bool) (chunks : List (List ℕ)) (bytes : List ℕ) (p : Parser) (chunk : List ℕ)
    (r : Option (Result Parser))
    → receive asserts chunk p ≡ r
    → Parsed asserts bytes r
    → ((q : Parser)
        → r ≡ some (ok q)
        → IsWellFormed q
        → IsResting q
        → Parsed asserts (given q ++ stream chunks) (receive_all asserts chunks q))
    → Parsed asserts (bytes ++ stream chunks) (receive_all asserts (chunk ∷ chunks) p)
unfolding receive_all
after_receive asserts chunks bytes p chunk none e a ih = absurd a
after_receive asserts chunks bytes p chunk (some abort) e a ih =
    let stops : receive_all asserts (chunk ∷ chunks) p ≡ some abort = ground arith in rw stops a
after_receive asserts chunks bytes p chunk (some (ok q)) e a ih =
    let goes_on : receive_all asserts (chunk ∷ chunks) p ≡ receive_all asserts chunks q =
      ground arith in
    rw (goes_on, ← a.2) (ih q refl a.0 a.1)

-- Whatever the sizes of the reads, the bytes read are those of the frames delivered, in order,
-- followed by those pending.
pub receive_all-Parsed :
    (asserts : Bool) (chunks : List (List ℕ)) (p : Parser)
    → IsWellFormed p
    → IsResting p
    → Fits asserts chunks p
    → Parsed asserts (given p ++ stream chunks) (receive_all asserts chunks p)
unfolding receive_all
receive_all-Parsed asserts [] p wf r f = (wf, r, sym (append-nil (given p)))
receive_all-Parsed asserts (chunk ∷ chunks) p wf r f =
    subst (λ bytes. Parsed asserts bytes (receive_all asserts (chunk ∷ chunks) p))
      (append_assoc (given p) chunk (stream chunks))
      (after_receive asserts chunks (given p ++ chunk) p chunk (receive asserts chunk p) refl
        (receive-Parsed asserts chunk p wf r f.0 f.1)
        (λ q e wf' r'. receive_all-Parsed asserts chunks q wf' r' (f.2 q e)))

pub initial-IsWellFormed : IsWellFormed initial
initial-IsWellFormed = record {
  within = omega arith;
  bytes = λ i. omega arith;
  in_state = tt;
  short = tt;
}

pub initial-IsResting : IsResting initial
initial-IsResting = record { incomplete = refl; room = inl refl }
