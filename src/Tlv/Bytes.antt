-- ===== src/Tlv/Bytes.antt =====
-- Bytes of the wire: `htonl` and `ntohl` as the big-endian digits of a 32-bit number, and the
-- fixed array that the parser reads into, as a function from an index to its byte.
use strij.Base.{
  ℕ, zero, suc, ◌+◌, ◌-◌, ◌*◌, ◌/◌, ◌%◌, ◌^◌, ◌≤◌, ◌<◌, ◌≡◌, refl, ap, ◌∙◌, List, [], ◌∷◌, ◌++◌,
  arith, ltb, leb, ◌&&◌, ◌==◌, if◌then◌else◌, length,
}

abbrev pub IsByte : ℕ → Type 0
IsByte b = b < 256

abbrev pub AllBytes : List ℕ → Type 0
AllBytes [] = Unit {0}
AllBytes (b ∷ bs) = IsByte b × AllBytes bs

-- The four bytes that `htonl` puts on the wire.
unfoldable pub big_endian : ℕ → List ℕ
big_endian n = (n / 2 ^ 24 % 256) ∷ (n / 2 ^ 16 % 256) ∷ (n / 2 ^ 8 % 256) ∷ (n % 256) ∷ []

-- `ntohl` of four bytes.
unfoldable pub of_big_endian : ℕ → ℕ → ℕ → ℕ → ℕ
of_big_endian a b c d = a * 2 ^ 24 + b * 2 ^ 16 + c * 2 ^ 8 + d

pub of_big_endian-lt :
    (a b c d : ℕ) → a < 256 → b < 256 → c < 256 → d < 256 → of_big_endian a b c d < 2 ^ 32
unfolding of_big_endian
of_big_endian-lt a b c d ha hb hc hd = omega arith

digit_top :
    (a b c d : ℕ) → a < 256 → b < 256 → c < 256 → d < 256 → of_big_endian a b c d / 2 ^ 24 % 256 ≡ a
unfolding of_big_endian
digit_top a b c d ha hb hc hd = omega arith

digit_high :
    (a b c d : ℕ) → a < 256 → b < 256 → c < 256 → d < 256 → of_big_endian a b c d / 2 ^ 16 % 256 ≡ b
unfolding of_big_endian
digit_high a b c d ha hb hc hd = omega arith

digit_low :
    (a b c d : ℕ) → a < 256 → b < 256 → c < 256 → d < 256 → of_big_endian a b c d / 2 ^ 8 % 256 ≡ c
unfolding of_big_endian
digit_low a b c d ha hb hc hd = omega arith

digit_last : (a b c d : ℕ) → a < 256 → b < 256 → c < 256 → d < 256 → of_big_endian a b c d % 256 ≡ d
unfolding of_big_endian
digit_last a b c d ha hb hc hd = omega arith

pub big_endian-of_big_endian :
    (a b c d : ℕ)
    → a < 256
    → b < 256
    → c < 256
    → d < 256
    → big_endian (of_big_endian a b c d) ≡ a ∷ b ∷ c ∷ d ∷ []
unfolding big_endian
big_endian-of_big_endian a b c d ha hb hc hd = cc (
  digit_top a b c d ha hb hc hd,
  digit_high a b c d ha hb hc hd,
  digit_low a b c d ha hb hc hd,
  digit_last a b c d ha hb hc hd,
)

-- The bytes at `i`, …, `i + n - 1`.
unfoldable pub slice : (ℕ → ℕ) → ℕ → ℕ → List ℕ
slice b i zero = []
slice b i (suc n) = b i ∷ slice b (suc i) n

pub length-slice : (b : ℕ → ℕ) (i n : ℕ) → length (slice b i n) ≡ n
unfolding slice
length-slice b i zero = refl
length-slice b i (suc n) = ap suc (length-slice b (suc i) n)

pub slice-append : (b : ℕ → ℕ) (i m n : ℕ) → slice b i (m + n) ≡ slice b i m ++ slice b (i + m) n
unfolding slice
slice-append b i zero n = ground arith
slice-append b i (suc m) n =
    let e : suc m + n ≡ suc (m + n) = omega arith in
    let k : i + suc m ≡ suc i + m = omega arith in
    rw (e, k) (ap (◌∷◌ (b i)) (slice-append b (suc i) m n))

-- A slice whose length is known to be at least `m` splits there.
pub slice-split :
    (b : ℕ → ℕ) (i m n : ℕ) → m ≤ n → slice b i n ≡ slice b i m ++ slice b (i + m) (n - m)
slice-split b i m n h =
    let e : n ≡ m + (n - m) = omega arith in ap (slice b i) e ∙ slice-append b i m (n - m)

pub slice-ext :
    (b c : ℕ → ℕ) (i j n : ℕ)
    → ((k : ℕ) → k < n → b (i + k) ≡ c (j + k))
    → slice b i n ≡ slice c j n
unfolding slice
slice-ext b c i j zero h = refl
slice-ext b c i j (suc n) h =
    let here : b i ≡ c j = ap b (omega arith) ∙ h 0 (omega arith) ∙ ap c (omega arith) in
    let later : slice b (suc i) n ≡ slice c (suc j) n =
      slice-ext b c (suc i) (suc j) n
        (λ k lt. ap b (omega arith) ∙ h (suc k) (omega arith) ∙ ap c (omega arith)) in
    cc

-- What a receive leaves in the array: `chunk` from `off` on.
unfoldable pub write : (ℕ → ℕ) → ℕ → List ℕ → (ℕ → ℕ)
write b off [] i = b i
write b off (x ∷ xs) i = if i == off then x else write b (suc off) xs i

pub write-before : (b : ℕ → ℕ) (off : ℕ) (xs : List ℕ) (i : ℕ) → i < off → write b off xs i ≡ b i
unfolding write
write-before b off [] i h = refl
write-before b off (x ∷ xs) i h = ground (arith, write-before b (suc off) xs i)

-- for (i = 0; i < n; i++) buffer[i] = buffer[cursor + i]
unfoldable pub copy_down : (ℕ → ℕ) → ℕ → ℕ → ℕ → (ℕ → ℕ)
copy_down b cursor i zero = b
copy_down b cursor i (suc n) =
    copy_down (λ j. if j == i then b (cursor + i) else b j) cursor (suc i) n

pub copy_down_lem :
    (b : ℕ → ℕ) (cursor i n j : ℕ)
    → 0 < cursor
    → copy_down b cursor i n j ≡ (if leb i j && ltb j (i + n) then b (cursor + j) else b j)
unfolding copy_down
copy_down_lem b cursor i zero j h = ground arith
copy_down_lem b cursor i (suc n) j h =
    ground (arith, copy_down_lem (λ k. if k == i then b (cursor + i) else b k) cursor (suc i) n j)

pub slice-write : (b : ℕ → ℕ) (off : ℕ) (xs : List ℕ) → slice (write b off xs) off (length xs) ≡ xs
unfolding slice write
slice-write b off [] = refl
slice-write b off (x ∷ xs) =
    let later : slice (write b off (x ∷ xs)) (suc off) (length xs) ≡ xs =
      slice-ext _ (write b (suc off) xs) (suc off) (suc off) (length xs) (λ k lt. ground arith)
      ∙ slice-write b (suc off) xs in
    ground (arith, later)

pub slice-head : (b : ℕ → ℕ) (i n : ℕ) → 0 < n → slice b i n ≡ b i ∷ slice b (i + 1) (n - 1)
unfolding slice
slice-head b i zero h = absurd (omega arith)
slice-head b i (suc n) h =
    let e : suc i ≡ i + 1 = omega arith in let k : n ≡ suc n - 1 = omega arith in rw (e, ← k)

-- The first four bytes of a slice.
pub slice-four :
    (b : ℕ → ℕ) (i n : ℕ)
    → 4 ≤ n
    → slice b i n ≡ b i ∷ b (i + 1) ∷ b (i + 2) ∷ b (i + 3) ∷ slice b (i + 4) (n - 4)
slice-four b i n h =
    let one = slice-head b i n (omega arith) in
    let two = slice-head b (i + 1) (n - 1) (omega arith) in
    let three = slice-head b (i + 2) (n - 2) (omega arith) in
    let four = slice-head b (i + 3) (n - 3) (omega arith) in ground (arith, one, two, three, four)

pub write-bytes :
    (b : ℕ → ℕ) (off : ℕ) (xs : List ℕ) (i : ℕ)
    → ((j : ℕ) → b j < 256)
    → AllBytes xs
    → write b off xs i < 256
unfolding write
write-bytes b off [] i h a = h i
write-bytes b off (x ∷ xs) i h a = ground (arith, write-bytes b (suc off) xs i h a.1)
