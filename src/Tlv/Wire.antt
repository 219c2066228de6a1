-- ===== src/Tlv/Wire.antt =====
-- What a parser's state says of the bytes that it was given: `pending` are those of the frame that
-- is not delivered yet, written again as on the wire, and `well_formed` is the parser's invariant.
use strij.Base.{ℕ, ◌+◌, ◌^◌, ◌≤◌, ◌<◌, ◌≡◌, List, [], ◌∷◌, ◌++◌, none, some, length}
use strij.Tlv.{Frame, serialize_tlv_frame}
use strij.Tlv.Bytes.{IsByte, slice, big_endian}
use strij.Tlv.Parser.{
  Parser, State, empty, type_read, length_read, value_partially_copied, buffer_size,
}

-- The frames as they are sent, one after the other.
unfoldable pub wire : List Frame → List ℕ
wire [] = []
wire (f ∷ fs) = serialize_tlv_frame f.type_id f.value ++ wire fs

abbrev pub unread : Parser → List ℕ
unread p = slice p.buffer p.cursor p.bytes_not_parsed

-- What was read of the frame before the unread bytes.
abbrev pub frame_read : State → Parser → List ℕ
frame_read empty p = []
frame_read type_read p = p.type_id ∷ []
frame_read length_read p = p.type_id ∷ big_endian p.frame_length
frame_read value_partially_copied p = elim p.accumulated_value [
  | none ↦ []
  | some value ↦ p.type_id ∷ (big_endian p.frame_length ++ value)
]

unfoldable pub pending : Parser → List ℕ
pending p = frame_read p.state p ++ unread p

-- What each state knows of the frame in progress.
abbrev pub InState : State → Parser → Type 0
InState empty p = Unit {0}
InState type_read p = Unit {0}
InState length_read p = (0 < p.frame_length) × (p.frame_length < 2 ^ 32)
InState value_partially_copied p = (p.frame_length < 2 ^ 32) × (record {
  value : List ℕ;
  engaged : p.accumulated_value ≡ some value;
  short : length value < p.frame_length;
})

-- The frames' values fit the 32-bit length field.
abbrev pub ShortFrames : List Frame → Type 0
ShortFrames [] = Unit {0}
ShortFrames (f ∷ fs) = (length f.value < 2 ^ 32) × ShortFrames fs

pub ShortFrames-concat :
    (fs : List Frame) (f : Frame)
    → ShortFrames fs
    → length f.value < 2 ^ 32
    → ShortFrames (fs ++ f ∷ [])
ShortFrames-concat [] f s h = (h, tt)
ShortFrames-concat (g ∷ fs) f s h = (s.0, ShortFrames-concat fs f s.1 h)

pub record IsWellFormed (p : Parser) : Type 0 where
  pub within : p.cursor + p.bytes_not_parsed ≤ buffer_size
  pub bytes : (i : ℕ) → IsByte (p.buffer i)
  pub in_state : InState p.state p
  pub short : ShortFrames p.delivered
