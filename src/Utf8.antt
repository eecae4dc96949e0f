-- ===== src/Utf8.antt =====
-- UTF-8: the encoder of src/utf8.c and the decoder of src/utf8-decoding.c. A string is a list of
-- bytes.
pub mod RoundTrip
pub mod Valid
use libxkbcommon.Base.{
  ℕ, zero, suc, ◌+◌, ◌-◌, ◌*◌, ◌/◌, ◌%◌, ◌^◌, ◌≤◌, ◌<◌, Bool, true, false, not, ◌&&◌, ◌||◌, Option,
  none, some, List, [], ◌∷◌, ◌++◌, leb, ltb, ◌==◌, if◌then◌else◌, length, bit_and, bit_or,
}

-- `is_surrogate`.
abbrev pub is_surrogate : ℕ → Bool
is_surrogate cp = leb 0xd800 cp && leb cp 0xdfff

-- `buffer[count] = 0x80 | ((unichar >> shift) & 0x3f)`, at `shift` = 6 times `index`.
abbrev pub tail_byte : ℕ → ℕ → ℕ
tail_byte unichar index = bit_or 128 (bit_and (unichar / 64 ^ index) 63)

-- The bytes after the first, from index `n - 1` down to 0.
abbrev pub tail_bytes : ℕ → ℕ → List ℕ
tail_bytes unichar zero = []
tail_bytes unichar (suc n) = tail_byte unichar n ∷ tail_bytes unichar n

-- `n` tail bytes behind the head.
abbrev pub encode : ℕ → ℕ → ℕ → List ℕ
encode unichar head n = bit_or head (bit_and (unichar / 64 ^ n) 63) ∷ tail_bytes unichar n

-- `utf32_to_utf8`, without the zero byte at the end; `none` is the length 0 of an ill-formed one.
unfoldable pub utf32_to_utf8 : ℕ → Option (List ℕ)
utf32_to_utf8 unichar =
    if leb unichar 0x7f
    then some (unichar ∷ [])
    else if leb unichar 0x7ff
    then some (encode unichar 0xc0 1)
    else if is_surrogate unichar
    then none
    else if leb unichar 0xffff
    then some (encode unichar 0xe0 2)
    else if leb unichar 0x10ffff
    then some (encode unichar 0xf0 3)
    else none

-- `utf8_sequence_length_by_leading_byte`, whose rows are these ranges.
unfoldable pub utf8_sequence_length : ℕ → ℕ
utf8_sequence_length byte =
    if leb byte 0x7f
    then 1
    else if leb byte 0xc1
    then 0
    else if leb byte 0xdf
    then 2
    else if leb byte 0xef
    then 3
    else if leb byte 0xf4
    then 4
    else 0

-- The loop over the bytes after the first; a missing byte is not read, since the length is checked
-- before.
unfoldable pub read_tail : ℕ → List ℕ → ℕ → Option ℕ
read_tail zero s cp = some cp
read_tail (suc n) [] cp = none
read_tail (suc n) (byte ∷ s) cp =
    let rest = read_tail n s (bit_or (cp * 64) (bit_and byte 63)) in
    if bit_and byte 192 == 128 then rest else none

-- The payload of the leading byte.
abbrev pub head_bits : ℕ → ℕ → ℕ
head_bits len byte =
    if len == 2 then bit_and byte 31 else if len == 3 then bit_and byte 15 else bit_and byte 7

abbrev pub check_surrogate : ℕ → Option ℕ → Option (ℕ × ℕ)
check_surrogate len none = none
check_surrogate len (some cp) = if is_surrogate cp then none else some (cp, len)

-- `utf8_next_code_point` on a string of its whole length: the code point and the size read; `none`
-- is `INVALID_UTF8_CODE_POINT`.
unfoldable pub utf8_next_code_point : List ℕ → Option (ℕ × ℕ)
utf8_next_code_point [] = none
utf8_next_code_point (byte ∷ s) =
    let len = utf8_sequence_length byte in
    let more = check_surrogate len (read_tail (len - 1) s (head_bits len byte)) in
    if leb (suc (suc (length s))) len
    then none
    else if len == 0
    then none
    else if len == 1
    then some (byte, 1)
    else more

abbrev pub is_tail : ℕ → Bool
is_tail byte = leb 0x80 byte && leb byte 0xbf

-- The inner loop of `is_valid_utf8`: what is left after so many tail bytes.
unfoldable pub skip_tail : ℕ → List ℕ → Option (List ℕ)
skip_tail zero s = some s
skip_tail (suc n) [] = none
skip_tail (suc n) (byte ∷ s) = let rest = skip_tail n s in if is_tail byte then rest else none

-- A second byte in a range of its own, and then tail bytes.
unfoldable pub skip_special : ℕ → ℕ → ℕ → List ℕ → Option (List ℕ)
skip_special first last n [] = none
skip_special first last n (byte ∷ s) =
    let rest = skip_tail n s in if leb first byte && leb byte last then rest else none

-- The branches of `is_valid_utf8` on the leading byte: what is left behind its sequence.
unfoldable pub skip_sequence : ℕ → List ℕ → Option (List ℕ)
skip_sequence byte s =
    if leb byte 0x7f
    then some s
    else if leb 0xc2 byte && leb byte 0xdf
    then skip_tail 1 s
    else if byte == 0xe0
    then skip_special 0xa0 0xbf 1 s
    else if leb 0xe1 byte && leb byte 0xec
    then skip_tail 2 s
    else if byte == 0xed
    then skip_special 0x80 0x9f 1 s
    else if leb 0xee byte && leb byte 0xef
    then skip_tail 2 s
    else if byte == 0xf0
    then skip_special 0x90 0xbf 2 s
    else if leb 0xf1 byte && leb byte 0xf3
    then skip_tail 3 s
    else if byte == 0xf4
    then skip_special 0x80 0x8f 2 s
    else none

-- The outer loop of `is_valid_utf8`; each round reads a byte at least.
unfoldable pub valid_loop : ℕ → List ℕ → Bool
valid_loop fuel [] = true
valid_loop zero (byte ∷ s) = false
valid_loop (suc fuel) (byte ∷ s) = elim (skip_sequence byte s) [
  | none ↦ false
  | some rest ↦ valid_loop fuel rest
]

-- `is_valid_utf8`.
unfoldable pub is_valid_utf8 : List ℕ → Bool
is_valid_utf8 s = valid_loop (length s) s
