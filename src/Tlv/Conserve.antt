-- ===== src/Tlv/Conserve.antt =====
-- One round of `iterateThroughReadBuffer`, state by state: no byte is lost or made up.
use strij.Base.{
  ℕ, ◌+◌, ◌-◌, ◌^◌, ◌≤◌, ◌<◌, ◌≡◌, ◌⊎◌, refl, ap, subst, Bool, true, List, [], ◌∷◌, ◌++◌, some,
  arith, append-nil, length, length-append,
}
use native.Mathlib.Decide.{dec_le}
use strij.Tlv.Bytes.{slice, big_endian, of_big_endian-lt, slice-head, length-slice, copy_down}
use strij.Tlv.Parser.{
  Parser, State, empty, type_read, length_read, value_partially_copied, Result, ok, abort, Progress,
  more, wait, buffer_size, iterate_in, iterate,
}
use strij.Tlv.Pieces.{
  wire-concat, length_field, empty_frame, whole_value, rest_of_value, slice-copy_down,
  copy_down-bytes, copied_value,
}
use strij.Tlv.Wire.{IsWellFormed, pending, wire, InState, ShortFrames-concat}

-- The bytes that a parser was given: those of the frames it delivered, and those still pending.
abbrev pub given : Parser → List ℕ
given p = wire p.delivered ++ pending p

-- No complete frame is pending, but for the length field that `AtBoundary` leaves unread.
abbrev pub Incomplete : State → Parser → Type 0
Incomplete empty p = p.bytes_not_parsed ≡ 0
Incomplete type_read p = (p.bytes_not_parsed < 4) ⊎ ((p.cursor ≡ 0) × (p.bytes_not_parsed ≡ 4))
Incomplete length_read p = p.bytes_not_parsed < p.frame_length
Incomplete value_partially_copied p = p.bytes_not_parsed ≡ 0

-- There is room in the buffer behind the unread bytes, if need be from its start.
abbrev pub HasRoom : Parser → Type 0
HasRoom p = (p.bytes_not_parsed ≡ 0) ⊎ (p.cursor + p.bytes_not_parsed < buffer_size)

-- The parser waits for the next read.
pub record IsResting (p : Parser) : Type 0 where
  pub incomplete : Incomplete p.state p
  pub room : HasRoom p

-- The one place where a round of the loop fails: the length field ends with the buffer.
pub record AtBoundary (p : Parser) : Type 0 where
  pub at_length : p.state ≡ type_read
  pub last_four : p.cursor + 4 ≡ buffer_size
  pub unread_four : p.bytes_not_parsed ≡ 4

pub record Keeps (p q : Parser) : Type 0 where
  pub well_formed : IsWellFormed q
  pub same_bytes : given q ≡ given p

abbrev pub Advances : Bool → Parser → Result Progress → Type 0
Advances asserts p abort = (asserts ≡ true) × AtBoundary p
Advances asserts p (ok (more q)) = Keeps p q × (q.bytes_not_parsed < p.bytes_not_parsed)
Advances asserts p (ok (wait q)) = Keeps p q × IsResting q

step-empty :
    (asserts : Bool) (p : Parser)
    → IsWellFormed p
    → p.state ≡ empty
    → 0 < p.bytes_not_parsed
    → Advances asserts p (iterate_in asserts empty p)
unfolding iterate_in pending
step-empty asserts p wf e h =
    let head = slice-head p.buffer p.cursor p.bytes_not_parsed h in
    ground (arith, head, wf.bytes p.cursor)

abbrev moved : Parser → Parser
moved p = record p { buffer = copy_down p.buffer p.cursor 0 p.bytes_not_parsed; cursor = 0 }

moved-Keeps :
    (p : Parser)
    → IsWellFormed p
    → p.state ≡ type_read
    → buffer_size ≤ p.cursor + 4
    → Keeps p (moved p)
unfolding pending
moved-Keeps p wf e h = record {
  well_formed = record {
    within = omega (arith, wf.within);
    bytes = copy_down-bytes p.buffer p.cursor p.bytes_not_parsed (omega arith) wf.bytes;
    in_state = rw e tt;
    short = wf.short;
  };
  same_bytes = rw e (
      ap (λ l. wire p.delivered ++ (p.type_id ∷ l))
        (slice-copy_down p.buffer p.cursor p.bytes_not_parsed (omega arith)));
}

-- The unread bytes move to the front of the buffer.
step-move :
    (asserts : Bool) (p : Parser)
    → IsWellFormed p
    → p.state ≡ type_read
    → buffer_size ≤ p.cursor + 4
    → Advances asserts p (iterate_in asserts type_read p)
unfolding iterate_in
step-move asserts p wf e h = ground (arith, wf.within, moved-Keeps p wf e h)

-- The length field is read, and a frame with no value delivered.
step-length :
    (asserts : Bool) (p : Parser)
    → IsWellFormed p
    → p.state ≡ type_read
    → p.cursor + 4 < buffer_size
    → Advances asserts p (iterate_in asserts type_read p)
unfolding iterate_in pending
step-length asserts p wf e h = ground (
  arith,
  of_big_endian-lt (p.buffer p.cursor) (p.buffer (p.cursor + 1)) (p.buffer (p.cursor + 2))
      (p.buffer (p.cursor + 3)) (wf.bytes p.cursor) (wf.bytes (p.cursor + 1))
      (wf.bytes (p.cursor + 2)) (wf.bytes (p.cursor + 3)),
  length_field p.buffer wf.bytes p.type_id p.cursor p.bytes_not_parsed,
  empty_frame p.buffer wf.bytes p.type_id p.cursor p.bytes_not_parsed,
  ShortFrames-concat p.delivered (record { type_id = p.type_id; value = [] }),
  wire-concat p.delivered (record { type_id = p.type_id; value = [] })
      (slice p.buffer (p.cursor + 4) (p.bytes_not_parsed - 4)),
)

-- The value is delivered from the buffer, awaited there, or accumulated.
step-value :
    (asserts : Bool) (p : Parser)
    → IsWellFormed p
    → p.state ≡ length_read
    → InState length_read p
    → Advances asserts p (iterate_in asserts length_read p)
unfolding iterate_in pending
step-value asserts p wf e i = ground (
  arith,
  length-slice p.buffer p.cursor p.bytes_not_parsed,
  copied_value p.buffer p.type_id p.cursor p.bytes_not_parsed p.frame_length [],
  append-nil (big_endian p.frame_length),
  whole_value p.buffer wf.bytes p.type_id p.cursor p.bytes_not_parsed p.frame_length,
  length-slice p.buffer p.cursor p.frame_length,
  ShortFrames-concat p.delivered
      (record { type_id = p.type_id; value = slice p.buffer p.cursor p.frame_length }),
  wire-concat p.delivered
      (record { type_id = p.type_id; value = slice p.buffer p.cursor p.frame_length })
      (slice p.buffer (p.cursor + p.frame_length) (p.bytes_not_parsed - p.frame_length)),
)

-- The accumulated value grows, and is delivered when it is whole.
step-copied :
    (asserts : Bool) (p : Parser) (value : List ℕ)
    → IsWellFormed p
    → p.state ≡ value_partially_copied
    → p.frame_length < 2 ^ 32
    → p.accumulated_value ≡ some value
    → length value < p.frame_length
    → Advances asserts p (iterate_in asserts value_partially_copied p)
unfolding iterate_in pending
step-copied asserts p value wf e fits a short = ground (
  arith,
  length-slice p.buffer p.cursor p.bytes_not_parsed,
  length-append value (slice p.buffer p.cursor p.bytes_not_parsed),
  copied_value p.buffer p.type_id p.cursor p.bytes_not_parsed p.frame_length value,
  rest_of_value p.buffer wf.bytes p.type_id p.cursor p.bytes_not_parsed value p.frame_length,
  length-slice p.buffer p.cursor (p.frame_length - length value),
  length-append value (slice p.buffer p.cursor (p.frame_length - length value)),
  ShortFrames-concat p.delivered (record {
    type_id = p.type_id;
    value = value ++ slice p.buffer p.cursor (p.frame_length - length value);
  }),
  wire-concat p.delivered
      (record {
        type_id = p.type_id;
        value = value ++ slice p.buffer p.cursor (p.frame_length - length value);
      })
      (slice p.buffer (p.cursor + (p.frame_length - length value))
        (p.bytes_not_parsed - (p.frame_length - length value))),
)

abbrev pub in_state_at : {p : Parser} {s : State} → IsWellFormed p → p.state ≡ s → InState s p
in_state_at {p} wf e = subst (λ s. InState s p) e wf.in_state

step-in :
    (asserts : Bool) (p : Parser) (s : State)
    → IsWellFormed p
    → p.state ≡ s
    → 0 < p.bytes_not_parsed
    → Advances asserts p (iterate_in asserts s p)
step-in asserts p empty wf e h = step-empty asserts p wf e h
step-in asserts p type_read wf e h = elim (dec_le buffer_size (p.cursor + 4)) [
  | yes last ↦ step-move asserts p wf e last
  | no inside ↦ step-length asserts p wf e (omega arith)
]
step-in asserts p length_read wf e h = step-value asserts p wf e (in_state_at wf e)
step-in asserts p value_partially_copied wf e h =
    let (fits, copied) = in_state_at {s = value_partially_copied} wf e in
    step-copied asserts p copied.value wf e fits copied.engaged copied.short

-- A round keeps every byte, and either reads on, or waits with no complete frame pending. It fails
-- only on an assertion, at the end of the buffer.
pub iterate-Advances :
    (asserts : Bool) (p : Parser)
    → IsWellFormed p
    → 0 < p.bytes_not_parsed
    → Advances asserts p (iterate asserts p)
unfolding iterate
iterate-Advances asserts p wf h = step-in asserts p p.state wf refl h
