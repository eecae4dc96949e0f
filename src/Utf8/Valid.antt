-- ===== src/Utf8/Valid.antt =====
-- What the encoder makes is valid (`is_valid_utf8`).
use libxkbcommon.Base.{
  ℕ, zero, suc, ◌+◌, ◌*◌, ◌/◌, ◌%◌, ◌≤◌, ◌<◌, ◌≡◌, refl, inl, inr, arith, false, ◌&&◌, Bool-cases,
  some, Option-cases, List, [], ◌∷◌, ◌++◌, leb, length,
}
use libxkbcommon.Utf8.{
  is_surrogate, is_tail, encode, utf32_to_utf8, skip_tail, skip_special, skip_sequence, valid_loop,
  is_valid_utf8,
}
use libxkbcommon.Utf8.RoundTrip.{tail_value, head_2, head_3, head_4}

skip_tail-length :
    (n : ℕ) (s : List ℕ) {rest : List ℕ} → skip_tail n s ≡ some rest → length rest ≤ length s
unfolding skip_tail
skip_tail-length zero s {rest} e = let same : s ≡ rest = ground arith in rw same (omega arith)
skip_tail-length (suc n) [] e = absurd (ground arith)
skip_tail-length (suc n) (byte ∷ s) {rest} e = elim (Bool-cases (is_tail byte)) [
  | inl t ↦
      let further : skip_tail n s ≡ some rest = ground arith in
      omega (arith, skip_tail-length n s further)
  | inr f ↦ absurd (ground arith)
]

skip_special-length :
    (first last n : ℕ) (s : List ℕ) {rest : List ℕ}
    → skip_special first last n s ≡ some rest
    → length rest ≤ length s
unfolding skip_special
skip_special-length first last n [] e = absurd (ground arith)
skip_special-length first last n (byte ∷ s) {rest} e =
    elim (Bool-cases (leb first byte && leb byte last)) [
      | inl t ↦
          let further : skip_tail n s ≡ some rest = ground arith in
          omega (arith, skip_tail-length n s further)
      | inr f ↦ absurd (ground arith)
    ]

skip_sequence-length :
    (byte : ℕ) (s : List ℕ) {rest : List ℕ}
    → skip_sequence byte s ≡ some rest
    → length rest ≤ length s
unfolding skip_sequence
skip_sequence-length byte s {rest} e = ground (
  arith,
  skip_tail-length 1 s {rest = rest},
  skip_tail-length 2 s {rest = rest},
  skip_tail-length 3 s {rest = rest},
  skip_special-length 0xa0 0xbf 1 s {rest = rest},
  skip_special-length 0x80 0x9f 1 s {rest = rest},
  skip_special-length 0x90 0xbf 2 s {rest = rest},
  skip_special-length 0x80 0x8f 2 s {rest = rest},
)

-- More fuel than bytes makes no difference.
valid_loop-fuel :
    (n m : ℕ) (s : List ℕ) → length s ≤ n → length s ≤ m → valid_loop n s ≡ valid_loop m s
unfolding valid_loop
valid_loop-fuel n m [] h k = refl
valid_loop-fuel zero m (byte ∷ s) h k = absurd (omega arith)
valid_loop-fuel (suc n) zero (byte ∷ s) h k = absurd (omega arith)
valid_loop-fuel (suc n) (suc m) (byte ∷ s) h k = elim (Option-cases (skip_sequence byte s)) [
  | inl e ↦ rw (valid_loop, e) refl
  | inr (rest, e) ↦
      let shorter = skip_sequence-length byte s e in
      rw (valid_loop, e) (valid_loop-fuel n m rest (omega arith) (omega arith))
]

-- One sequence is skipped.
valid-skip :
    (byte : ℕ) (s rest : List ℕ)
    → skip_sequence byte s ≡ some rest
    → is_valid_utf8 (byte ∷ s) ≡ is_valid_utf8 rest
unfolding is_valid_utf8 valid_loop
valid-skip byte s rest e =
    rw (valid_loop, e)
      (valid_loop-fuel (length s) (length rest) rest (skip_sequence-length byte s e) (omega arith))

skip_1 : (u : ℕ) (rest : List ℕ) → u ≤ 127 → skip_sequence u rest ≡ some rest
unfolding skip_sequence
skip_1 u rest h = ground arith

skip_2 :
    (v y : ℕ) (rest : List ℕ)
    → 2 ≤ v
    → v < 32
    → y < 64
    → skip_sequence (192 + v) ((128 + y) ∷ rest) ≡ some rest
unfolding skip_sequence skip_tail
skip_2 v y rest a b c = ground arith

skip_3 :
    (v x y : ℕ) (rest : List ℕ)
    → v < 16
    → x < 64
    → y < 64
    → 32 ≤ v * 64 + x
    → is_surrogate (v * 4096 + x * 64 + y) ≡ false
    → skip_sequence (224 + v) ((128 + x) ∷ (128 + y) ∷ rest) ≡ some rest
unfolding skip_sequence skip_tail skip_special
skip_3 v x y rest a b c low plain = ground arith

skip_4 :
    (v w x y : ℕ) (rest : List ℕ)
    → w < 64
    → x < 64
    → y < 64
    → 16 ≤ v * 64 + w
    → v * 64 + w < 272
    → skip_sequence (240 + v) ((128 + w) ∷ (128 + x) ∷ (128 + y) ∷ rest) ≡ some rest
unfolding skip_sequence skip_tail skip_special
skip_4 v w x y rest a b c low high = ground arith

valid_2 :
    (u : ℕ) (rest : List ℕ)
    → 128 ≤ u
    → u ≤ 2047
    → is_valid_utf8 (encode u 192 1 ++ rest) ≡ is_valid_utf8 rest
valid_2 u rest a b =
    let one : u / 1 ≡ u = omega arith in
    rw (head_2 (u / 64) (omega arith), one, tail_value u)
      (valid-skip (192 + u / 64) ((128 + u % 64) ∷ rest) rest
        (skip_2 (u / 64) (u % 64) rest (omega arith) (omega arith) (omega arith)))

valid_3 :
    (u : ℕ) (rest : List ℕ)
    → 2048 ≤ u
    → u ≤ 65535
    → is_surrogate u ≡ false
    → is_valid_utf8 (encode u 224 2 ++ rest) ≡ is_valid_utf8 rest
valid_3 u rest a b plain =
    let one : u / 1 ≡ u = omega arith in
    let whole : u / 4096 * 4096 + u / 64 % 64 * 64 + u % 64 ≡ u = omega arith in
    rw (head_3 (u / 4096) (omega arith), one, tail_value (u / 64), tail_value u)
      (valid-skip (224 + u / 4096) ((128 + u / 64 % 64) ∷ (128 + u % 64) ∷ rest) rest (
        skip_3 (u / 4096) (u / 64 % 64) (u % 64) rest (omega arith) (omega arith) (omega arith)
          (omega arith) (rw whole plain)))

valid_4 :
    (u : ℕ) (rest : List ℕ)
    → 65536 ≤ u
    → u ≤ 1114111
    → is_valid_utf8 (encode u 240 3 ++ rest) ≡ is_valid_utf8 rest
valid_4 u rest a b =
    let one : u / 1 ≡ u = omega arith in
    rw
      (
        head_4 (u / 262144) (omega arith),
        one,
        tail_value (u / 4096),
        tail_value (u / 64),
        tail_value u,
      )
      (valid-skip (240 + u / 262144)
        ((128 + u / 4096 % 64) ∷ (128 + u / 64 % 64) ∷ (128 + u % 64) ∷ rest) rest
        (skip_4 (u / 262144) (u / 4096 % 64) (u / 64 % 64) (u % 64) rest (omega arith) (omega arith)
          (omega arith) (omega arith) (omega arith)))

-- A string that begins with what the encoder makes of a code point is valid exactly when the rest
-- of it is.
pub is_valid_utf8-utf32_to_utf8 :
    (u : ℕ) (bytes rest : List ℕ)
    → utf32_to_utf8 u ≡ some bytes
    → is_valid_utf8 (bytes ++ rest) ≡ is_valid_utf8 rest
unfolding utf32_to_utf8
is_valid_utf8-utf32_to_utf8 u bytes rest e = elim (Bool-cases (leb u 127)) [
  | inl t ↦
      let same : u ∷ [] ≡ bytes = ground arith in
      rw (← same) (valid-skip u rest rest (skip_1 u rest (ground arith)))
  | inr f ↦ elim (Bool-cases (leb u 2047)) [
    | inl t ↦
        let same : encode u 192 1 ≡ bytes = ground arith in
        rw (← same) (valid_2 u rest (ground arith) (ground arith))
    | inr g ↦ elim (Bool-cases (is_surrogate u)) [
      | inl s ↦ absurd (ground arith)
      | inr plain ↦ elim (Bool-cases (leb u 65535)) [
        | inl t ↦
            let same : encode u 224 2 ≡ bytes = ground arith in
            rw (← same) (valid_3 u rest (ground arith) (ground arith) plain)
        | inr h ↦ elim (Bool-cases (leb u 1114111)) [
          | inl t ↦
              let same : encode u 240 3 ≡ bytes = ground arith in
              rw (← same) (valid_4 u rest (ground arith) (ground arith))
          | inr out ↦ absurd (ground arith)
        ]
      ]
    ]
  ]
]
