-- ===== src/Tlv/Pieces.antt =====
-- The bytes of a frame in pieces: equations between what stands in the buffer and the wire form.
use strij.Base.{
  ℕ, ◌+◌, ◌-◌, ◌^◌, ◌%◌, ◌≤◌, ◌<◌, ◌≡◌, refl, sym, ap, ◌∙◌, List, [], ◌∷◌, ◌++◌, arith, append-nil,
  append_assoc, length, length-append,
}
use strij.Tlv.{Frame, serialize_tlv_frame}
use strij.Tlv.Bytes.{
  slice, big_endian, of_big_endian, big_endian-of_big_endian, slice-four, slice-split, slice-ext,
  length-slice, copy_down, copy_down_lem,
}
use strij.Tlv.Wire.{wire}

pub wire-append : (fs gs : List Frame) → wire (fs ++ gs) ≡ wire fs ++ wire gs
unfolding wire
wire-append [] gs = refl
wire-append (f ∷ fs) gs =
    ap (◌++◌ (serialize_tlv_frame f.type_id f.value)) (wire-append fs gs)
    ∙ sym (append_assoc _ (wire fs) (wire gs))

-- A delivered frame stands behind the earlier ones, and before what is still to come.
pub wire-concat :
    (fs : List Frame) (f : Frame) (rest : List ℕ)
    → wire (fs ++ f ∷ []) ++ rest ≡ wire fs ++ (serialize_tlv_frame f.type_id f.value ++ rest)
unfolding wire
wire-concat fs f rest = rw (wire-append fs (f ∷ [])) (simp (append_assoc, append-nil))

-- A serialised value whose length fits the field.
pub serialize-short :
    (t : ℕ) (value : List ℕ)
    → length value < 2 ^ 32
    → serialize_tlv_frame t value ≡ t ∷ (big_endian (length value) ++ value)
unfolding serialize_tlv_frame
serialize-short t value h = let e : length value % 2 ^ 32 ≡ length value = omega arith in rw e

module _ (b : ℕ → ℕ) (bytes : (i : ℕ) → b i < 256) (t c n : ℕ) where
  abbrev field : ℕ
  field = of_big_endian (b c) (b (c + 1)) (b (c + 2)) (b (c + 3))

  pub length_field : 4 ≤ n → t ∷ slice b c n ≡ (t ∷ big_endian field) ++ slice b (c + 4) (n - 4)
  length_field h = rw (
    slice-four b c n h,
    big_endian-of_big_endian (b c) (b (c + 1)) (b (c + 2)) (b (c + 3)) (bytes c) (bytes (c + 1))
        (bytes (c + 2)) (bytes (c + 3)),
  )

  pub empty_frame :
      4 ≤ n → field ≡ 0 → t ∷ slice b c n ≡ serialize_tlv_frame t [] ++ slice b (c + 4) (n - 4)
  unfolding serialize_tlv_frame big_endian
  empty_frame h z = length_field h ∙ rw z

  -- The whole value stands in the buffer.
  pub whole_value :
      (len : ℕ)
      → len ≤ n
      → len < 2 ^ 32
      → (t ∷ big_endian len) ++ slice b c n
        ≡ serialize_tlv_frame t (slice b c len) ++ slice b (c + len) (n - len)
  whole_value len h fits =
      rw
        (
          serialize-short t (slice b c len) (omega (arith, length-slice b c len)),
          length-slice b c len,
          slice-split b c len n h,
        )
        (sym (append_assoc (t ∷ big_endian len) (slice b c len) _))

  -- The rest of the value stands in the buffer.
  pub rest_of_value :
      (value : List ℕ) (len : ℕ)
      → length value < len
      → len ≤ length value + n
      → len < 2 ^ 32
      → (t ∷ (big_endian len ++ value)) ++ slice b c n
        ≡ serialize_tlv_frame t (value ++ slice b c (len - length value))
          ++ slice b (c + (len - length value)) (n - (len - length value))
  rest_of_value value len short h fits =
      let m = len - length value in
      let e : length (value ++ slice b c m) ≡ len =
        omega (arith, length-append value (slice b c m), length-slice b c m) in
      rw
        (
          serialize-short t (value ++ slice b c m) (omega arith),
          e,
          slice-split b c m n (omega arith),
        )
        (simp append_assoc)

-- All of the unread bytes go into the accumulated value.
pub copied_value :
    (b : ℕ → ℕ) (t c n len : ℕ) (value : List ℕ)
    → (t ∷ (big_endian len ++ (value ++ slice b c n))) ++ slice b (c + n) 0
      ≡ (t ∷ (big_endian len ++ value)) ++ slice b c n
unfolding slice
copied_value b t c n len value = simp (append_assoc, append-nil)

pub slice-copy_down : (b : ℕ → ℕ) (c n : ℕ) → 0 < c → slice (copy_down b c 0 n) 0 n ≡ slice b c n
slice-copy_down b c n h =
    slice-ext (copy_down b c 0 n) b 0 c n
      λ k lt. let e : 0 + k ≡ k = omega arith in rw e (ground (arith, copy_down_lem b c 0 n k h))

pub copy_down-bytes :
    (b : ℕ → ℕ) (c n : ℕ) → 0 < c → ((i : ℕ) → b i < 256) → (i : ℕ) → copy_down b c 0 n i < 256
copy_down-bytes b c n h bytes i = ground (arith, copy_down_lem b c 0 n i h, bytes i, bytes (c + i))
