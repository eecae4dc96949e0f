-- ===== src/Tests/Keymaps.antt =====
-- The theorems on keymaps, applied.
use libxkbcommon.Base.{
  ℕ, ◌+◌, ◌-◌, ◌%◌, ◌<◌, ◌≡◌, refl, arith, false, true, some, is_negative, [], ◌∷◌, drop,
}
use libxkbcommon.Keymap.{wrap, clamp, redirect, wrap_group_into_range, xkb_key, search_key}
use libxkbcommon.Keymap.Wrap.{wrap_group-lt, wrap_group_remainder, wrap_group_idem}
use libxkbcommon.Keymap.Iterator.{
  KeyIterator, key_iterator_new, key_iterator_next, next_from, seek, advance,
}
use libxkbcommon.Keymap.Iterator.Ascending.{
  read_keys, given_codes, first_key, read_keys-key_iterator_new,
}
use libxkbcommon.Keymap.KeyTable.{RefersTo, xkb_key-RefersTo}
use libxkbcommon.Tests.Example.{keymap, letter_key}

wrap_group-lt_example : wrap_group_into_range 0xffffffff 4 redirect 7 < 4
wrap_group-lt_example = wrap_group-lt 0xffffffff 4 redirect 7 (omega arith)

wrap_group_remainder_example :
    (is_negative 0xfffffffb ≡ false → wrap_group_into_range 0xfffffffb 4 wrap 0 ≡ 0xfffffffb % 4)
    × (is_negative 0xfffffffb ≡ true
        → (wrap_group_into_range 0xfffffffb 4 wrap 0 + (4294967296 - 0xfffffffb)) % 4 ≡ 0)
wrap_group_remainder_example =
    wrap_group_remainder 0xfffffffb 4 0 (omega arith) (omega arith) (omega arith)

wrap_group_idem_example :
    wrap_group_into_range (wrap_group_into_range 9 4 wrap 0) 4 clamp 0
    ≡ wrap_group_into_range 9 4 wrap 0
wrap_group_idem_example = wrap_group_idem 9 4 wrap clamp 0 0 (omega arith) (omega arith)

pub letter_found : xkb_key keymap 11 ≡ some (record { address = 5; key = letter_key })
unfolding xkb_key search_key
letter_found = refl

xkb_key-RefersTo_example :
    (i : ℕ) × RefersTo keymap.keys i (record { address = 5; key = letter_key })
    × (letter_key.key_code ≡ 11)
xkb_key-RefersTo_example = xkb_key-RefersTo keymap 11 (λ i k h e. absurd (omega arith)) letter_found

abbrev bound_keys : KeyIterator
bound_keys = record { descending = false; skip_unbound = true; min = 0; max = 2; next = some 0 }

bound_keys-made : key_iterator_new keymap 2 ≡ some bound_keys
unfolding key_iterator_new
bound_keys-made = refl

read_keys-key_iterator_new_example :
    read_keys 3 keymap bound_keys ≡ given_codes true (drop (first_key keymap) keymap.keys)
read_keys-key_iterator_new_example =
    read_keys-key_iterator_new keymap 2 3 bound_keys bound_keys-made refl
      (omega arith, (omega arith, (omega arith, tt))) (omega arith)

-- From the last key down.
backwards :
    read_keys 4 keymap (record bound_keys { descending = true; next = some 2 })
    ≡ (12 ∷ 11 ∷ 10 ∷ [])
unfolding read_keys key_iterator_next next_from seek advance
backwards = refl
