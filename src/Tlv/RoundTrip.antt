-- ===== src/Tlv/RoundTrip.antt =====
-- Frames written by `SerializeTlvFrame` and read in any chunks: a frame is determined by its wire
-- form, so what the parser delivers is what was sent.
use strij.Base.{
  ℕ, ◌+◌, ◌^◌, ◌<◌, ◌≡◌, ◌≢◌, refl, sym, ap, ◌∙◌, List, [], ◌∷◌, ◌++◌, arith, append_assoc, length,
  length-append,
}
use strij.Tlv.{Frame, serialize_tlv_frame}
use strij.Tlv.Bytes.{big_endian}
use strij.Tlv.Wire.{wire, ShortFrames}
use strij.Tlv.Pieces.{serialize-short}

big_endian_inj :
    (m n : ℕ)
    → m < 2 ^ 32
    → n < 2 ^ 32
    → (xs ys : List ℕ) → big_endian m ++ xs ≡ big_endian n ++ ys
    → (m ≡ n) × (xs ≡ ys)
unfolding big_endian
big_endian_inj m n hm hn xs ys e = ground arith

append_inj :
    (xs ys rs ss : List ℕ) → length xs ≡ length ys → xs ++ rs ≡ ys ++ ss → (xs ≡ ys) × (rs ≡ ss)
append_inj [] [] rs ss h e = (refl, e)
append_inj [] (y ∷ ys) rs ss h e = absurd (omega arith)
append_inj (x ∷ xs) [] rs ss h e = absurd (omega arith)
append_inj (x ∷ xs) (y ∷ ys) rs ss h e = ground (arith, append_inj xs ys rs ss)

serialize-append :
    (t : ℕ) (value rs : List ℕ)
    → length value < 2 ^ 32
    → serialize_tlv_frame t value ++ rs ≡ t ∷ (big_endian (length value) ++ (value ++ rs))
serialize-append t value rs h = rw (serialize-short t value h) (simp append_assoc)

-- Two frames that begin the same bytes are equal.
serialize_inj :
    (f g : Frame) (rs ss : List ℕ)
    → length f.value < 2 ^ 32
    → length g.value < 2 ^ 32
    → serialize_tlv_frame f.type_id f.value ++ rs ≡ serialize_tlv_frame g.type_id g.value ++ ss
    → (f ≡ g) × (rs ≡ ss)
serialize_inj f g rs ss hf hg e =
    let e' : ◌≡◌ {A = List ℕ} (f.type_id ∷ (big_endian (length f.value) ++ (f.value ++ rs)))
        (g.type_id ∷ (big_endian (length g.value) ++ (g.value ++ ss))) =
      sym (serialize-append f.type_id f.value rs hf)
      ∙ e
      ∙ serialize-append g.type_id g.value ss hg in
    let fields =
      big_endian_inj (length f.value) (length g.value) hf hg (f.value ++ rs) (g.value ++ ss)
        (cc e') in
    let rest = append_inj f.value g.value rs ss fields.0 fields.1 in ground (arith, e', rest)

-- Delivered frames and pending bytes that make up a sequence of frames: those delivered come first.
pub wire_prefix :
    (ds fs : List Frame) (left : List ℕ)
    → ShortFrames ds
    → ShortFrames fs
    → wire ds ++ left ≡ wire fs
    → record { rest : List Frame; splits : fs ≡ ds ++ rest; is_left : left ≡ wire rest }
unfolding wire
wire_prefix [] fs left sd sf e = record { rest = fs; splits = refl; is_left = e }
wire_prefix (d ∷ ds) [] left sd sf e = unfold serialize_tlv_frame in cc e
wire_prefix (d ∷ ds) (f ∷ fs) left sd sf e =
    let (same, others) =
      serialize_inj d f (wire ds ++ left) (wire fs) sd.0 sf.0
        (sym (append_assoc (serialize_tlv_frame d.type_id d.value) (wire ds) left) ∙ e) in
    let r = wire_prefix ds fs left sd.1 sf.1 others in
    record { rest = r.rest; splits = ground (arith, same, r.splits); is_left = r.is_left }

pub length-serialize :
    (t : ℕ) (value : List ℕ) → length (serialize_tlv_frame t value) ≡ 5 + length value
unfolding serialize_tlv_frame big_endian
length-serialize t value = omega arith

-- Fewer bytes than the length field wants.
pub short_field :
    (t : ℕ) (bytes : List ℕ) (f : Frame) (fs : List Frame)
    → length bytes < 4
    → t ∷ bytes ≢ wire (f ∷ fs)
unfolding wire
short_field t bytes f fs h e = omega (
  arith,
  ap length e,
  length-append (serialize_tlv_frame f.type_id f.value) (wire fs),
  length-serialize f.type_id f.value,
)

-- Fewer bytes than the value wants.
pub short_value :
    (t len : ℕ) (bytes : List ℕ) (f : Frame) (fs : List Frame)
    → len < 2 ^ 32
    → length f.value < 2 ^ 32
    → length bytes < len
    → t ∷ (big_endian len ++ bytes) ≢ wire (f ∷ fs)
unfolding wire
short_value t len bytes f fs hl hf h e =
    let fields =
      big_endian_inj len (length f.value) hl hf bytes (f.value ++ wire fs)
        (cc (e ∙ serialize-append f.type_id f.value (wire fs) hf)) in
    omega (arith, fields.0, ap length fields.1, length-append f.value (wire fs))

pub ShortFrames-drop : (fs gs : List Frame) → ShortFrames (fs ++ gs) → ShortFrames gs
ShortFrames-drop [] gs s = s
ShortFrames-drop (f ∷ fs) gs s = ShortFrames-drop fs gs s.1

pub length-wire-cons :
    (f : Frame) (fs : List Frame) → length (wire (f ∷ fs)) ≡ 5 + length f.value + length (wire fs)
unfolding wire
length-wire-cons f fs = omega (
  arith,
  length-append (serialize_tlv_frame f.type_id f.value) (wire fs),
  length-serialize f.type_id f.value,
)

pub nothing_left : (fs : List Frame) → length (wire fs) ≡ 0 → fs ≡ []
nothing_left [] e = refl
nothing_left (f ∷ fs) e = absurd (omega (arith, length-wire-cons f fs))

pub no_bytes {ℓ} : {A : Type ℓ} (xs : List A) → length xs ≡ 0 → xs ≡ []
no_bytes [] e = refl
no_bytes (x ∷ xs) e = absurd (omega arith)
