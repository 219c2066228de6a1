-- ===== src/Tlv/Parser.antt =====
-- src/common/core/io/tlv_parser.hh and tlv_parser.cc: the incremental frame parser over its fixed
-- read buffer. `on_message_` is the list of the frames it was called with, oldest first. A failed
-- `assert`, an exception of `at()` and a null dereference are the outcome `abort`; the flag
-- `asserts` says whether the build keeps its assertions (no `NDEBUG`). Logging is left out.
use strij.Base.{
  ℕ, zero, suc, ◌+◌, ◌-◌, Bool, true, false, not, ◌||◌, List, [], ◌∷◌, ◌++◌, Option, none, some,
  ltb, leb, ◌==◌, if◌then◌else◌, length,
}
use strij.Tlv.{Frame}
use strij.Tlv.Bytes.{slice, of_big_endian, write, copy_down}

-- `kBufferSize`
abbrev pub buffer_size : ℕ
buffer_size = 4096

-- `enum state`
pub data State : Type 0 where
  empty type_read length_read value_partially_copied : State

pub record Parser : Type 0 where
  pub state : State
  pub type_id : ℕ
  pub frame_length : ℕ
  pub buffer : ℕ → ℕ
  pub cursor : ℕ
  pub bytes_not_parsed : ℕ
  pub accumulated_value : Option (List ℕ)
  pub delivered : List Frame

pub data Result {ℓ} (A : Type ℓ) : Type ℓ where
  ok : A → Result A
  abort : Result A

infixl 5 ◌>>=◌
abbrev pub ◌>>=◌ {ℓ κ} : {A : Type ℓ} {B : Type κ} → Result A → (A → Result B) → Result B
ok a >>= f = f a
abort >>= f = abort

-- `assert(condition)` in a build that keeps or drops it.
abbrev pub check {ℓ} : {A : Type ℓ} → Bool → Bool → Result A → Result A
check asserts condition next = if condition || not asserts then next else abort

-- `TlvParser::TlvParser`
abbrev pub initial : Parser
initial = record {
  state = empty;
  type_id = 0;
  frame_length = 0;
  buffer = λ _. 0;
  cursor = 0;
  bytes_not_parsed = 0;
  accumulated_value = none;
  delivered = [];
}

-- `on_message_`
abbrev pub deliver : Parser → List ℕ → Parser
deliver p value = record p {
  delivered = p.delivered ++ record { type_id = p.type_id; value = value } ∷ [];
}

-- `case empty` of `setState`, on the state that the parser leaves.
unfoldable pub deliver_from : Bool → State → Parser → Result Parser
deliver_from asserts empty p = check asserts false (ok (record p { state = empty }))
deliver_from asserts type_read p = ok (record (deliver p []) { state = empty })
deliver_from asserts length_read p =
    ok (record (deliver p (slice p.buffer p.cursor p.frame_length)) { state = empty })
deliver_from asserts value_partially_copied p = elim p.accumulated_value [
  | none ↦ abort
  | some value ↦ ok (record (deliver p value) { state = empty; accumulated_value = none })
]

abbrev is_empty : State → Bool
is_empty empty = true
is_empty _ = false

abbrev is_type_read : State → Bool
is_type_read type_read = true
is_type_read _ = false

abbrev is_length_read : State → Bool
is_length_read length_read = true
is_length_read _ = false

abbrev is_engaged : Option (List ℕ) → Bool
is_engaged none = false
is_engaged (some value) = true

-- `setState`
unfoldable pub set_state : Bool → State → Parser → Result Parser
unfolding deliver_from
set_state asserts empty p = deliver_from asserts p.state p
set_state asserts type_read p =
    check asserts (is_empty p.state) (ok (record p { state = type_read }))
set_state asserts length_read p =
    check asserts (is_type_read p.state) (ok (record p { state = length_read }))
set_state asserts value_partially_copied p = check asserts (is_length_read p.state) (
    check asserts (is_engaged p.accumulated_value)
      (ok (record p { state = value_partially_copied })))

-- What `iterateThroughReadBuffer` returns: go on (true), or wait for more data (false).
pub data Progress : Type 0 where
  more wait : Parser → Progress

abbrev go_on : Parser → Result Progress
go_on p = ok (more p)

-- `case empty`
abbrev read_type : Bool → Parser → Result Progress
read_type asserts p =
    if ltb p.cursor buffer_size
    then (set_state asserts type_read (record p { type_id = p.buffer p.cursor }) >>= λ q.
        go_on (record q { cursor = q.cursor + 1; bytes_not_parsed = q.bytes_not_parsed - 1 }))
    else abort

-- The unread bytes move to the front of the buffer; `at()` checks the indices that are read.
abbrev move_down : Bool → Parser → Result Progress
move_down asserts p = check asserts (ltb p.bytes_not_parsed 4) (
    if leb (p.cursor + p.bytes_not_parsed) buffer_size
    then ok
        (wait (record p { buffer = copy_down p.buffer p.cursor 0 p.bytes_not_parsed; cursor = 0 }))
    else abort)

-- `case type_read`, past the two early returns
abbrev take_length : Bool → Parser → Result Progress
take_length asserts p =
    let b = p.buffer in
    let c = p.cursor in
    let q = record p {
      frame_length = of_big_endian (b c) (b (c + 1)) (b (c + 2)) (b (c + 3));
      cursor = c + 4;
      bytes_not_parsed = p.bytes_not_parsed - 4;
    } in
    if q.frame_length == 0
    then set_state asserts empty q >>= go_on
    else set_state asserts length_read q >>= go_on

-- `case type_read`
abbrev read_length : Bool → Parser → Result Progress
read_length asserts p =
    if leb buffer_size (p.cursor + 4)
    then move_down asserts p
    else if ltb p.bytes_not_parsed 4
    then ok (wait p)
    else take_length asserts p

-- `case length_read`, when the value does not fit the rest of the buffer
abbrev start_copy : Bool → Parser → Result Progress
start_copy asserts p =
    set_state asserts value_partially_copied (record p {
      accumulated_value = some (slice p.buffer p.cursor p.bytes_not_parsed);
      cursor = p.cursor + p.bytes_not_parsed;
      bytes_not_parsed = 0;
    })
    >>= λ q. ok (wait q)

-- `case length_read`
abbrev read_value : Bool → Parser → Result Progress
read_value asserts p =
    if leb p.frame_length p.bytes_not_parsed
    then (set_state asserts empty
          (record p { bytes_not_parsed = p.bytes_not_parsed - p.frame_length })
        >>= λ q. go_on (record q { cursor = q.cursor + q.frame_length }))
    else if ltb (p.cursor + p.frame_length) buffer_size
    then ok (wait p)
    else start_copy asserts p

-- `case value_partially_copied`, with the value accumulated so far
abbrev append_value : Bool → List ℕ → Parser → Result Progress
append_value asserts value p =
    if leb p.frame_length (length value + p.bytes_not_parsed)
    then set_state asserts empty (record p {
      accumulated_value = some (value ++ slice p.buffer p.cursor (p.frame_length - length value));
      cursor = p.cursor + (p.frame_length - length value);
      bytes_not_parsed = p.bytes_not_parsed - (p.frame_length - length value);
    })
      >>= go_on
    else ok (
        wait (record p {
          accumulated_value = some (value ++ slice p.buffer p.cursor p.bytes_not_parsed);
          cursor = p.cursor + p.bytes_not_parsed;
          bytes_not_parsed = 0;
        }))

-- The switch of `iterateThroughReadBuffer`, on the parser's state.
unfoldable pub iterate_in : Bool → State → Parser → Result Progress
unfolding set_state
iterate_in asserts empty p = read_type asserts p
iterate_in asserts type_read p = read_length asserts p
iterate_in asserts length_read p = read_value asserts p
iterate_in asserts value_partially_copied p = elim p.accumulated_value [
  | none ↦ abort
  | some value ↦ append_value asserts value p
]

-- `iterateThroughReadBuffer`
unfoldable pub iterate : Bool → Parser → Result Progress
unfolding iterate_in
iterate asserts p = iterate_in asserts p.state p

-- The loop of `OnData`, on fuel; `none` means that the fuel ran out.
unfoldable pub parse_loop : Bool → ℕ → Parser → Option (Result Parser)
unfolding iterate
parse_loop asserts zero p = none
parse_loop asserts (suc fuel) p = elim (p.bytes_not_parsed == 0) [
  | true ↦ some (ok p)
  | false ↦ elim (iterate asserts p) [
    | abort ↦ some abort
    | ok (wait q) ↦ some (ok q)
    | ok (more q) ↦ parse_loop asserts fuel q
  ]
]

-- `OnData`: each round of the loop that goes on reads a byte at least, so the fuel is enough.
unfoldable pub on_data : Bool → ℕ → Parser → Option (Result Parser)
unfolding parse_loop
on_data asserts bytes_read p =
    let q = record p { bytes_not_parsed = p.bytes_not_parsed + bytes_read } in
    parse_loop asserts (suc q.bytes_not_parsed) q

-- A span of the buffer: its first index and its size.
pub record Span : Type 0 where
  pub start : ℕ
  pub size : ℕ

abbrev pub span_from : Parser → ℕ → Parser × Span
span_from p start = (p, record { start = start; size = buffer_size - start })

abbrev pub span_in : Bool → State → Parser → Result (Parser × Span)
span_in asserts empty p = ok (span_from p p.cursor)
span_in asserts type_read p =
    check asserts (ltb (p.cursor + p.bytes_not_parsed) buffer_size)
      (ok (span_from p (p.cursor + p.bytes_not_parsed)))
span_in asserts length_read p =
    check asserts (ltb (p.cursor + p.bytes_not_parsed) buffer_size)
      (ok (span_from p (p.cursor + p.bytes_not_parsed)))
span_in asserts value_partially_copied p = ok (span_from p p.cursor)

-- `GetReadBuffer`
unfoldable pub get_read_buffer : Bool → Parser → Result (Parser × Span)
get_read_buffer asserts p = check asserts (leb p.cursor buffer_size) (
    let q = if p.cursor == buffer_size then record p { cursor = 0 } else p in
    span_in asserts q.state q)

-- One read of a connection: the kernel puts `chunk` at the start of the span that
-- `GetReadBuffer` returned, and `OnData` is called with its length.
unfoldable pub receive : Bool → List ℕ → Parser → Option (Result Parser)
unfolding get_read_buffer on_data
receive asserts chunk p = elim (get_read_buffer asserts p) [
  | abort ↦ some abort
  | ok (q, span) ↦
      on_data asserts (length chunk) (record q { buffer = write q.buffer span.start chunk })
]

-- Successive reads.
unfoldable pub receive_all : Bool → List (List ℕ) → Parser → Option (Result Parser)
unfolding receive
receive_all asserts [] p = some (ok p)
receive_all asserts (chunk ∷ chunks) p = elim (receive asserts chunk p) [
  | none ↦ none
  | some abort ↦ some abort
  | some (ok q) ↦ receive_all asserts chunks q
]
