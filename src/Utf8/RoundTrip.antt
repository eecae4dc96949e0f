-- ===== src/Utf8/RoundTrip.antt =====
-- Decoding what was encoded.
use libxkbcommon.Base.{
  ℕ, suc, ◌+◌, ◌*◌, ◌/◌, ◌%◌, ◌≤◌, ◌<◌, ◌≡◌, refl, ◌∙◌, inl, inr, ◌⊎◌, ◌↔◌, arith, true, false,
  Bool-cases, none, some, List, [], ◌∷◌, ◌++◌, leb, length, bit_and, bit_or,
}
use libxkbcommon.Utf8.{
  is_surrogate, encode, utf32_to_utf8, utf8_sequence_length, read_tail, utf8_next_code_point,
}
use libxkbcommon.Digits.{
  shift_left, bit_or-shift_left, bit_and-shift_left, bit_and-7, bit_and-15, bit_and-31, bit_and-63,
}

-- A tail byte for the six low bits of `x`.
pub tail_value : (x : ℕ) → bit_or 128 (bit_and x 63) ≡ 128 + x % 64
tail_value x = rw (bit_and-63 x) (bit_or-shift_left 6 2 (x % 64) (omega arith))

joined : (a x : ℕ) → x < 64 → bit_or (a * 64) x ≡ a * 64 + x
joined a x h =
    let shifted : shift_left 6 a ≡ a * 64 = omega arith in
    rw (← shifted) (bit_or-shift_left 6 a x h)

marks_tail : (y : ℕ) → y < 64 → bit_and (128 + y) 192 ≡ 128
marks_tail y h = bit_and-shift_left 6 2 y 3 h

-- One tail byte read.
read_one :
    (n x : ℕ) (s : List ℕ)
    → read_tail (suc n) (bit_or 128 (bit_and x 63) ∷ s) (x / 64) ≡ read_tail n s x
unfolding read_tail
read_one n x s =
    let low : bit_and (128 + x % 64) 63 ≡ x % 64 = omega (arith, bit_and-63 (128 + x % 64)) in
    let whole : bit_or (x / 64 * 64) (x % 64) ≡ x =
      omega (arith, joined (x / 64) (x % 64) (omega arith)) in
    rw (tail_value x, marks_tail (x % 64) (omega arith), low, whole) refl

-- The leading bytes of two, three and four.
pub head_2 : (v : ℕ) → v < 32 → bit_or 192 (bit_and v 63) ≡ 192 + v
head_2 v h =
    let low : bit_and v 63 ≡ v = omega (arith, bit_and-63 v) in
    rw low (bit_or-shift_left 6 3 v (omega arith))

pub head_3 : (v : ℕ) → v < 16 → bit_or 224 (bit_and v 63) ≡ 224 + v
head_3 v h =
    let low : bit_and v 63 ≡ v = omega (arith, bit_and-63 v) in rw low (bit_or-shift_left 4 14 v h)

pub head_4 : (v : ℕ) → v < 8 → bit_or 240 (bit_and v 63) ≡ 240 + v
head_4 v h =
    let low : bit_and v 63 ≡ v = omega (arith, bit_and-63 v) in rw low (bit_or-shift_left 3 30 v h)

decode_1 : (u : ℕ) (rest : List ℕ) → u ≤ 127 → utf8_next_code_point (u ∷ rest) ≡ some (u, 1)
unfolding utf8_next_code_point utf8_sequence_length
decode_1 u rest h = ground arith

decode_2 :
    (u : ℕ) (rest : List ℕ)
    → 128 ≤ u
    → u ≤ 2047
    → utf8_next_code_point (encode u 192 1 ++ rest) ≡ some (u, 2)
unfolding utf8_next_code_point
decode_2 u rest a b =
    let len : utf8_sequence_length (192 + u / 64) ≡ 2 =
      unfold utf8_sequence_length in ground arith in
    let bits : bit_and (192 + u / 64) 31 ≡ u / 64 = omega (arith, bit_and-31 (192 + u / 64)) in
    let one : u / 1 ≡ u = omega arith in
    let tail : read_tail 1 (bit_or 128 (bit_and u 63) ∷ rest) (u / 64) ≡ some u =
      read_one 0 u rest ∙ unfold read_tail in refl in
    rw (head_2 (u / 64) (omega arith), len, bits, one, tail) (ground arith)

decode_3 :
    (u : ℕ) (rest : List ℕ)
    → 2048 ≤ u
    → u ≤ 65535
    → is_surrogate u ≡ false
    → utf8_next_code_point (encode u 224 2 ++ rest) ≡ some (u, 3)
unfolding utf8_next_code_point
decode_3 u rest a b plain =
    let len : utf8_sequence_length (224 + u / 4096) ≡ 3 =
      unfold utf8_sequence_length in ground arith in
    let bits : bit_and (224 + u / 4096) 15 ≡ u / 64 / 64 =
      omega (arith, bit_and-15 (224 + u / 4096)) in
    let one : u / 1 ≡ u = omega arith in
    let tail : read_tail 2 (bit_or 128 (bit_and (u / 64) 63) ∷ bit_or 128 (bit_and u 63) ∷ rest)
          (u / 64 / 64)
        ≡ some u =
      read_one 1 (u / 64) (bit_or 128 (bit_and u 63) ∷ rest)
      ∙ read_one 0 u rest
      ∙ unfold read_tail in refl in
    rw (head_3 (u / 4096) (omega arith), len, bits, one, tail, plain) (ground arith)

decode_4 :
    (u : ℕ) (rest : List ℕ)
    → 65536 ≤ u
    → u ≤ 1114111
    → utf8_next_code_point (encode u 240 3 ++ rest) ≡ some (u, 4)
unfolding utf8_next_code_point
decode_4 u rest a b =
    let len : utf8_sequence_length (240 + u / 262144) ≡ 4 =
      unfold utf8_sequence_length in ground arith in
    let bits : bit_and (240 + u / 262144) 7 ≡ u / 64 / 64 / 64 =
      omega (arith, bit_and-7 (240 + u / 262144)) in
    let one : u / 1 ≡ u = omega arith in
    let two : u / 4096 ≡ u / 64 / 64 = omega arith in
    let plain : is_surrogate u ≡ false = ground arith in
    let tail : read_tail 3
          (bit_or 128 (bit_and (u / 64 / 64) 63)
            ∷ bit_or 128 (bit_and (u / 64) 63)
            ∷ bit_or 128 (bit_and u 63)
            ∷ rest)
          (u / 64 / 64 / 64)
        ≡ some u =
      read_one 2 (u / 64 / 64) (bit_or 128 (bit_and (u / 64) 63) ∷ bit_or 128 (bit_and u 63) ∷ rest)
      ∙ read_one 1 (u / 64) (bit_or 128 (bit_and u 63) ∷ rest)
      ∙ read_one 0 u rest
      ∙ unfold read_tail in refl in
    rw (head_4 (u / 262144) (omega arith), len, bits, one, two, tail, plain) (ground arith)

-- What the encoder makes of a code point, the decoder reads back as that code point, whatever
-- follows in the string, and reads no more and no fewer bytes.
pub utf8_next_code_point-utf32_to_utf8 :
    (u : ℕ) (bytes rest : List ℕ)
    → utf32_to_utf8 u ≡ some bytes
    → utf8_next_code_point (bytes ++ rest) ≡ some (u, length bytes)
unfolding utf32_to_utf8
utf8_next_code_point-utf32_to_utf8 u bytes rest e = elim (Bool-cases (leb u 127)) [
  | inl t ↦ let same : u ∷ [] ≡ bytes = ground arith in rw (← same) (decode_1 u rest (ground arith))
  | inr f ↦ elim (Bool-cases (leb u 2047)) [
    | inl t ↦
        let same : encode u 192 1 ≡ bytes = ground arith in
        rw (← same) (decode_2 u rest (ground arith) (ground arith))
    | inr g ↦ elim (Bool-cases (is_surrogate u)) [
      | inl s ↦ absurd (ground arith)
      | inr plain ↦ elim (Bool-cases (leb u 65535)) [
        | inl t ↦
            let same : encode u 224 2 ≡ bytes = ground arith in
            rw (← same) (decode_3 u rest (ground arith) (ground arith) plain)
        | inr h ↦ elim (Bool-cases (leb u 1114111)) [
          | inl t ↦
              let same : encode u 240 3 ≡ bytes = ground arith in
              rw (← same) (decode_4 u rest (ground arith) (ground arith))
          | inr out ↦ absurd (ground arith)
        ]
      ]
    ]
  ]
]

-- The encoder refuses surrogates and numbers past the last code point, and nothing else.
pub utf32_to_utf8-none :
    (u : ℕ) → (utf32_to_utf8 u ≡ none) ↔ ((is_surrogate u ≡ true) ⊎ (1114111 < u))
unfolding utf32_to_utf8
utf32_to_utf8-none u = ground arith
