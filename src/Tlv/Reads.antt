-- ===== src/Tlv/Reads.antt =====
-- `GetReadBuffer` and one read of a connection.
use strij.Base.{
  ℕ, suc, ◌+◌, ◌-◌, ◌≤◌, ◌<◌, ◌≡◌, inl, inr, refl, ap, subst, ◌∙◌, Bool, List, ◌++◌, arith,
  Bool-cases, append_assoc, length, ◌==◌, if◌then◌else◌,
}
use strij.Tlv.Bytes.{
  slice, write, AllBytes, write-bytes, slice-append, slice-ext, slice-write, write-before,
}
use strij.Tlv.Parser.{
  Parser, State, empty, type_read, length_read, value_partially_copied, ok, buffer_size, parse_loop,
  on_data, get_read_buffer, receive, span_in,
}
use strij.Tlv.Wire.{IsWellFormed, pending, InState, frame_read}
use strij.Tlv.Conserve.{given, Incomplete, IsResting}
use strij.Tlv.Delivery.{Parsed, parse_loop-Parsed}

-- The bytes that the next read may bring.
abbrev pub room : Parser → ℕ
room p = buffer_size - ((if p.cursor == buffer_size then 0 else p.cursor) + p.bytes_not_parsed)

-- The parser after `GetReadBuffer`: at the end of the buffer it goes back to the start.
abbrev pub rewound : Parser → Parser
rewound p = if p.cursor == buffer_size then record p { cursor = 0 } else p

span_in-lem :
    (asserts : Bool) (p : Parser) (s : State)
    → IsResting p
    → p.state ≡ s
    → p.cursor < buffer_size
    → span_in asserts s p
      ≡ ok (
        p,
        record {
          start = p.cursor + p.bytes_not_parsed;
          size = buffer_size - (p.cursor + p.bytes_not_parsed);
        },
      )
span_in-lem asserts p empty r e h = ground (arith, r.incomplete, r.room)
span_in-lem asserts p _ r e h = ground (arith, r.incomplete, r.room)

rewound-given : (p : Parser) → IsResting p → given (rewound p) ≡ given p
unfolding pending slice
rewound-given p r = ground (arith, r.room)

rewound-IsWellFormed : (p : Parser) → IsWellFormed p → IsResting p → IsWellFormed (rewound p)
rewound-IsWellFormed p wf r = elim (Bool-cases (p.cursor == buffer_size)) [
  | inl end ↦ rw end (record {
    within = ground (arith, wf.within, r.room);
    bytes = wf.bytes;
    in_state = rewound_in_state p.state wf.in_state;
    short = wf.short;
  })
  | inr before ↦ rw before wf
]
  where
    rewound_in_state : (s : State) → InState s p → InState s (record p { cursor = 0 })
    rewound_in_state empty i = i
    rewound_in_state type_read i = i
    rewound_in_state length_read i = i
    rewound_in_state value_partially_copied i = i

rewound-IsResting : (p : Parser) → IsResting p → IsResting (rewound p)
rewound-IsResting p r = elim (Bool-cases (p.cursor == buffer_size)) [
  | inl end ↦
      let drained : p.bytes_not_parsed ≡ 0 = ground (arith, r.room) in
      rw end (record { incomplete = rewound_incomplete p.state r.incomplete; room = inl drained })
  | inr before ↦ rw before r
]
  where
    rewound_incomplete : (s : State) → Incomplete s p → Incomplete s (record p { cursor = 0 })
    rewound_incomplete empty i = i
    rewound_incomplete type_read i = ground arith
    rewound_incomplete length_read i = i
    rewound_incomplete value_partially_copied i = i

-- `GetReadBuffer` never fails between reads, and offers the free end of the buffer, at least a
-- byte, right behind the unread bytes.
pub get_read_buffer-span :
    (asserts : Bool) (p : Parser)
    → IsWellFormed p
    → IsResting p
    → (get_read_buffer asserts p
        ≡ ok (
          rewound p,
          record { start = (rewound p).cursor + (rewound p).bytes_not_parsed; size = room p },
        ))
      × (0 < room p)
      × ((rewound p).cursor + (rewound p).bytes_not_parsed + room p ≡ buffer_size)
unfolding get_read_buffer
get_read_buffer-span asserts p wf r = (
  elim (Bool-cases (p.cursor == buffer_size)) [
    | inl end ↦
        let q = record p { cursor = 0 } in
        let rests : IsResting q = rw end at (rewound-IsResting p r) in
        ground (arith, wf.within, span_in-lem asserts q p.state rests refl (omega arith))
    | inr before ↦
        ground (arith, wf.within, span_in-lem asserts p p.state r refl (ground (arith, wf.within)))
  ],
  ground (arith, wf.within, r.room),
  ground (arith, wf.within, r.room),
)

-- The parser with `chunk` read behind its unread bytes.
abbrev fed : Parser → List ℕ → Parser
fed q chunk = record q {
  buffer = write q.buffer (q.cursor + q.bytes_not_parsed) chunk;
  bytes_not_parsed = q.bytes_not_parsed + length chunk;
}

fed-in_state : (q : Parser) (chunk : List ℕ) (s : State) → InState s q → InState s (fed q chunk)
fed-in_state q chunk empty i = i
fed-in_state q chunk type_read i = i
fed-in_state q chunk length_read i = i
fed-in_state q chunk value_partially_copied i = i

fed-frame_read :
    (q : Parser) (chunk : List ℕ) (s : State) → frame_read s (fed q chunk) ≡ frame_read s q
fed-frame_read q chunk empty = refl
fed-frame_read q chunk type_read = refl
fed-frame_read q chunk length_read = refl
fed-frame_read q chunk value_partially_copied = refl

fed-IsWellFormed :
    (q : Parser) (chunk : List ℕ)
    → IsWellFormed q
    → AllBytes chunk
    → q.cursor + q.bytes_not_parsed + length chunk ≤ buffer_size
    → IsWellFormed (fed q chunk)
fed-IsWellFormed q chunk wf a h = record {
  within = omega arith;
  bytes = λ i. write-bytes q.buffer (q.cursor + q.bytes_not_parsed) chunk i wf.bytes a;
  in_state = fed-in_state q chunk q.state wf.in_state;
  short = wf.short;
}

fed-unread :
    (b : ℕ → ℕ) (c n : ℕ) (chunk : List ℕ)
    → slice (write b (c + n) chunk) c (n + length chunk) ≡ slice b c n ++ chunk
fed-unread b c n chunk =
    slice-append (write b (c + n) chunk) c n (length chunk)
    ∙ rw (slice-write b (c + n) chunk) (
        ap (λ l. l ++ chunk)
          (slice-ext (write b (c + n) chunk) b c c n
            (λ k lt. write-before b (c + n) chunk (c + k) (omega arith))))

fed-given : (q : Parser) (chunk : List ℕ) → given (fed q chunk) ≡ given q ++ chunk
unfolding pending
fed-given q chunk =
    rw (fed-frame_read q chunk q.state, fed-unread q.buffer q.cursor q.bytes_not_parsed chunk)
      (simp append_assoc)

-- One read of at most the offered bytes: they stand behind what was given before, nothing is lost,
-- and the parser rests again. Only a build with assertions can fail, at the end of the buffer.
pub receive-Parsed :
    (asserts : Bool) (chunk : List ℕ) (p : Parser)
    → IsWellFormed p
    → IsResting p
    → AllBytes chunk
    → length chunk ≤ room p
    → Parsed asserts (given p ++ chunk) (receive asserts chunk p)
unfolding receive on_data
receive-Parsed asserts chunk p wf r a h =
    let (offered, positive, inside) = get_read_buffer-span asserts p wf r in
    let q = rewound p in
    let fed_wf = fed-IsWellFormed q chunk (rewound-IsWellFormed p wf r) a (omega arith) in
    let same = fed-given q chunk ∙ ap (λ l. l ++ chunk) (rewound-given p r) in
    rw (offered, receive)
      (subst
        (λ bytes.
          Parsed asserts bytes
            (parse_loop asserts (suc (fed q chunk).bytes_not_parsed) (fed q chunk)))
        same
        (parse_loop-Parsed asserts (suc (fed q chunk).bytes_not_parsed) (fed q chunk) (omega arith)
          fed_wf))
