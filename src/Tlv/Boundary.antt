-- ===== src/Tlv/Boundary.antt =====
-- What reaches the receiver of a connection: the frames that were sent, up to one special case, a
-- frame header whose last byte is the last of the read buffer.
use strij.Base.{
  ℕ, suc, ◌+◌, ◌≡◌, ◌⊎◌, inl, inr, refl, sym, ap, subst, ◌∙◌, Bool, true, false, List, [], ◌∷◌,
  ◌++◌, Option, none, some, arith, append-nil, append_assoc, length, length-append, ◌-◌,
}
use strij.Tlv.{Frame}
use strij.Tlv.Bytes.{slice, copy_down, length-slice, big_endian}
use strij.Tlv.Parser.{
  Parser, State, empty, type_read, length_read, value_partially_copied, Result, ok, abort, iterate,
  parse_loop, receive_all, initial,
}
use strij.Tlv.Wire.{IsWellFormed, pending, wire, ShortFrames, InState, frame_read, unread}
use strij.Tlv.Conserve.{given, Incomplete, IsResting}
use strij.Tlv.Delivery.{Parsed, parse_loop-suc}
use strij.Tlv.Chunks.{stream, Fits, receive_all-Parsed, initial-IsWellFormed, initial-IsResting}
use strij.Tlv.RoundTrip.{
  wire_prefix, short_field, short_value, ShortFrames-drop, length-wire-cons, nothing_left, no_bytes,
}

-- The whole header of a frame with no value is read, but its length field is left unread.
pub record IsStalled (q : Parser) : Type 0 where
  pub at_length : q.state ≡ type_read
  pub at_start : q.cursor ≡ 0
  pub unread_four : q.bytes_not_parsed ≡ 4

abbrev pub Delivers : List Frame → Parser → Type 0
Delivers fs q =
    (q.delivered ≡ fs)
    ⊎ (IsStalled q × (record {
      last : Frame;
      no_value : last.value ≡ [];
      behind : fs ≡ q.delivered ++ last ∷ [];
    }))

pending-at : (q : Parser) (s : State) → q.state ≡ s → pending q ≡ frame_read s q ++ unread q
unfolding pending
pending-at q s e = ap (λ t. frame_read t q ++ unread q) e

-- What is pending in a resting parser is no complete frame, unless it is stalled.
no_frame_left :
    (q : Parser) (s : State) (f : Frame) (fs : List Frame)
    → q.state ≡ s
    → InState s q
    → Incomplete s q
    → ShortFrames (f ∷ fs)
    → frame_read s q ++ unread q ≡ wire (f ∷ fs)
    → IsStalled q × (f.value ≡ []) × (fs ≡ [])
no_frame_left q empty f fs e i left short same = absurd (
    omega (
      arith,
      ap length same,
      length-wire-cons f fs,
      length-slice q.buffer q.cursor q.bytes_not_parsed,
    ))
no_frame_left q type_read f fs e i (inl few) short same = absurd (
    short_field q.type_id (unread q) f fs
      (omega (arith, length-slice q.buffer q.cursor q.bytes_not_parsed)) same)
no_frame_left q type_read f fs e i (inr (start, four)) short same =
    let sizes : 5 + length f.value + length (wire fs) ≡ 5 = omega (
      arith,
      ap length same,
      length-wire-cons f fs,
      length-slice q.buffer q.cursor q.bytes_not_parsed,
    ) in
    (
      record { at_length = e; at_start = start; unread_four = four },
      no_bytes f.value (omega arith),
      nothing_left fs (omega arith),
    )
no_frame_left q length_read f fs e i left short same = absurd (
    short_value q.type_id q.frame_length (unread q) f fs i.1 short.0
      (omega (arith, length-slice q.buffer q.cursor q.bytes_not_parsed)) same)
no_frame_left q value_partially_copied f fs e (fits, copied) left short same = absurd (
    short_value q.type_id q.frame_length (copied.value ++ unread q) f fs fits short.0
      (omega (
        arith,
        length-append copied.value (unread q),
        length-slice q.buffer q.cursor q.bytes_not_parsed,
        copied.short,
      ))
      (ground (
        arith,
        same,
        copied.engaged,
        append_assoc (big_endian q.frame_length) copied.value (unread q),
      )))

last_left :
    (q : Parser) (fs rest : List Frame)
    → IsWellFormed q
    → IsResting q
    → ShortFrames rest
    → fs ≡ q.delivered ++ rest
    → pending q ≡ wire rest
    → Delivers fs q
last_left q fs [] wf r short splits same = inl (sym (splits ∙ append-nil q.delivered))
last_left q fs (f ∷ more_frames) wf r short splits same =
    let (stalled, no_value, none_behind) =
      no_frame_left q q.state f more_frames refl wf.in_state r.incomplete short
        (sym (pending-at q q.state refl) ∙ same) in
    inr (
      stalled,
      record {
        last = f;
        no_value = no_value;
        behind = splits ∙ ap (λ l. q.delivered ++ f ∷ l) none_behind;
      },
    )

resting-Delivers :
    (q : Parser) (fs : List Frame)
    → IsWellFormed q
    → IsResting q
    → ShortFrames fs
    → given q ≡ wire fs
    → Delivers fs q
resting-Delivers q fs wf r short same =
    let p = wire_prefix q.delivered fs (pending q) wf.short short same in
    last_left q fs p.rest wf r (ShortFrames-drop q.delivered p.rest (rw p.splits at short)) p.splits
      p.is_left

-- How reading the frames `fs` may end.
abbrev pub Outcome : Bool → List Frame → Option (Result Parser) → Type 0
Outcome asserts fs none = ⊥
Outcome asserts fs (some abort) = asserts ≡ true
Outcome asserts fs (some (ok q)) = Delivers fs q

Parsed-Outcome :
    (asserts : Bool) (fs : List Frame) (r : Option (Result Parser))
    → ShortFrames fs
    → Parsed asserts (wire fs) r
    → Outcome asserts fs r
Parsed-Outcome asserts fs none short a = a
Parsed-Outcome asserts fs (some abort) short a = a.0
Parsed-Outcome asserts fs (some (ok q)) short a = resting-Delivers q fs a.0 a.1 short a.2

-- The frames `fs`, sent one after the other and read by a new parser in chunks of any sizes that
-- the parser offers room for: the reading always ends. It fails only in a build with assertions.
-- Otherwise the frames delivered are those sent, in order; or the parser is stalled, and they are
-- those sent but for the last, which has an empty value.
pub receive_all-Outcome :
    (asserts : Bool) (chunks : List (List ℕ)) (fs : List Frame)
    → ShortFrames fs
    → stream chunks ≡ wire fs
    → Fits asserts chunks initial
    → Outcome asserts fs (receive_all asserts chunks initial)
receive_all-Outcome asserts chunks fs short same f =
    Parsed-Outcome asserts fs (receive_all asserts chunks initial) short (
      subst (λ bytes. Parsed asserts bytes (receive_all asserts chunks initial)) (start ∙ same)
        (receive_all-Parsed asserts chunks initial initial-IsWellFormed initial-IsResting f))
  where
    start : given initial ++ stream chunks ≡ stream chunks
    start = unfold wire pending slice in refl

-- The type byte is read, then the length field moved to the start of the buffer.
abbrev at_length_field : Parser → Parser
at_length_field p = record p {
  state = type_read;
  type_id = p.buffer p.cursor;
  cursor = p.cursor + 1;
  bytes_not_parsed = p.bytes_not_parsed - 1;
}

abbrev stalled : Parser → Parser
stalled p =
    let q = at_length_field p in
    record q { buffer = copy_down q.buffer q.cursor 0 q.bytes_not_parsed; cursor = 0 }

-- A frame header with the length 0 that takes the last five bytes of the buffer is complete, yet a
-- build with assertions fails on it, and one without waits for more data and delivers nothing.
pub parse_loop_boundary :
    (p : Parser) (fuel : ℕ)
    → IsWellFormed p
    → p.state ≡ empty
    → p.cursor ≡ 4091
    → p.bytes_not_parsed ≡ 5
    → (parse_loop true (suc (suc fuel)) p ≡ some abort)
      × ((q : Parser) × (parse_loop false (suc (suc fuel)) p ≡ some (ok q))
          × (q.delivered ≡ p.delivered)
          × IsStalled q)
unfolding iterate
parse_loop_boundary p fuel wf e c n = (
  ground (arith, parse_loop-suc true (suc fuel) p, parse_loop-suc true fuel (at_length_field p)),
  (
    stalled p,
    ground
        (arith, parse_loop-suc false (suc fuel) p, parse_loop-suc false fuel (at_length_field p)),
    refl,
    record { at_length = refl; at_start = refl; unread_four = omega arith },
  ),
)
