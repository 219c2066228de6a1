-- ===== src/Tests/Frames.antt =====
-- The theorems of Tlv and Task at concrete bytes, and the parser at the end of its buffer.
use strij.Base.{
  ℕ, ◌+◌, ◌≤◌, ◌<◌, ◌≡◌, refl, ap, subst, true, false, List, [], ◌∷◌, ◌++◌, Option, none, some,
  arith,
}
use strij.Task.{TaskStatus, TaskResult}
use strij.Tlv.{Frame, serialize_tlv_frame}
use strij.Tlv.Boundary.{Outcome, IsStalled, receive_all-Outcome, parse_loop_boundary}
use strij.Tlv.Bytes.{big_endian, write}
use strij.Tlv.Chunks.{Fits, initial-IsWellFormed, initial-IsResting}
use strij.Tlv.Conserve.{Advances, given, iterate-Advances}
use strij.Tlv.Delivery.{Parsed}
use strij.Tlv.Parser.{
  Parser, Result, ok, abort, initial, iterate, iterate_in, set_state, deliver_from, parse_loop,
  on_data, get_read_buffer, receive, receive_all,
}
use strij.Tlv.Reads.{room, rewound, get_read_buffer-span, receive-Parsed}
use strij.Tlv.Wire.{wire, IsWellFormed}

abbrev frames : List Frame
frames = record { type_id = 1; value = 7 ∷ 8 ∷ [] } ∷ []

-- The length field is cut by the reads.
abbrev first : List ℕ
first = 1 ∷ 0 ∷ 0 ∷ []

abbrev second : List ℕ
second = 0 ∷ 2 ∷ 7 ∷ 8 ∷ []

abbrev ending : Option (Result Parser) → Parser
ending none = initial
ending (some abort) = initial
ending (some (ok q)) = q

room_for_second : 4 ≤ room (ending (receive false first initial))
unfolding receive get_read_buffer on_data parse_loop iterate iterate_in set_state deliver_from write
room_for_second = omega arith

frames-Fits : Fits false (first ∷ second ∷ []) initial
frames-Fits = (
  (omega arith, (omega arith, (omega arith, tt))),
  omega arith,
  λ q e. (
    (omega arith, (omega arith, (omega arith, (omega arith, tt)))),
    subst (λ p. 4 ≤ room p) (ap ending e) room_for_second,
    λ p e'. tt,
  ),
)

receive_all-Outcome_example : Outcome false frames (receive_all false (first ∷ second ∷ []) initial)
unfolding wire serialize_tlv_frame big_endian
receive_all-Outcome_example =
    receive_all-Outcome false (first ∷ second ∷ []) frames (omega arith, tt) refl frames-Fits

get_read_buffer-span_example :
    (get_read_buffer true initial ≡ ok (rewound initial, record { start = 0; size = 4096 }))
    × (0 < 4096)
    × (0 + 0 + 4096 ≡ 4096)
get_read_buffer-span_example =
    get_read_buffer-span true initial initial-IsWellFormed initial-IsResting

receive-Parsed_example : Parsed true (given initial ++ first) (receive true first initial)
receive-Parsed_example =
    receive-Parsed true first initial initial-IsWellFormed initial-IsResting
      (omega arith, (omega arith, (omega arith, tt))) (omega arith)

abbrev at_end : Parser
at_end = record initial { cursor = 4091; bytes_not_parsed = 5 }

at_end-IsWellFormed : IsWellFormed at_end
at_end-IsWellFormed = record {
  within = omega arith;
  bytes = λ i. omega arith;
  in_state = tt;
  short = tt;
}

iterate-Advances_example : Advances true at_end (iterate true at_end)
iterate-Advances_example = iterate-Advances true at_end at_end-IsWellFormed (omega arith)

parse_loop_boundary_example :
    (parse_loop true 5 at_end ≡ some abort)
    × ((q : Parser) × (parse_loop false 5 at_end ≡ some (ok q)) × (q.delivered ≡ []) × IsStalled q)
parse_loop_boundary_example = parse_loop_boundary at_end 3 at_end-IsWellFormed refl refl refl

abbrev refused : TaskResult
refused = record {
  id = "t1";
  body = [];
  is_final = none;
  status = some TaskStatus.capacity_refused;
}
