-- ===== src/Tlv.antt =====
-- src/common/core/io/tlv_frame.hh and tlv_frame.cc: the wire frame (type id, 32-bit big-endian
-- length, value) and its serialisation. A byte is a number; what needs it below 256 says so.
pub mod Bytes
pub mod Parser
pub mod Wire
pub mod Pieces
pub mod Conserve
pub mod Delivery
pub mod Reads
pub mod Chunks
pub mod RoundTrip
pub mod Boundary
use strij.Base.{ℕ, ◌%◌, ◌^◌, List, ◌∷◌, ◌++◌, length}
use Bytes.{big_endian}

-- `TlvFrame`
pub record Frame : Type 0 where
  pub type_id : ℕ
  pub value : List ℕ

abbrev pub task_submission : ℕ
task_submission = 0

abbrev pub result : ℕ
result = 1

abbrev pub task_rejected : ℕ
task_rejected = 5

abbrev pub task_probe : ℕ
task_probe = 6

abbrev pub task_probe_cancel : ℕ
task_probe_cancel = 7

abbrev pub task_pull : ℕ
task_pull = 8

abbrev pub task_grant : ℕ
task_grant = 9

abbrev pub task_decline : ℕ
task_decline = 10

-- `SerializeTlvFrame`; the length is cast to `uint32_t`.
unfoldable pub serialize_tlv_frame : ℕ → List ℕ → List ℕ
serialize_tlv_frame type_id value = type_id ∷ (big_endian (length value % 2 ^ 32) ++ value)
