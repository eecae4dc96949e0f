-- ===== src/Keymap/Iterator.antt =====
-- The key iterator of src/keymap.c. A pointer to a key is its index in the array; the pointers `min`
-- and `max` of an iterator over no keys are `NULL`, here 0, and its `increment` of 0 is not read.
pub mod Ascending
use libxkbcommon.Base.{
  ℕ, zero, suc, ◌+◌, ◌-◌, Bool, true, false, not, ◌&&◌, ◌||◌, Option, none, some, List, [], ◌∷◌,
  ltb, ◌==◌, if◌then◌else◌, length, get_elem?, drop, has,
}
use libxkbcommon.Keymap.{Key, Keymap, keycode_invalid}

-- `struct xkb_keymap_key_iterator`: an `increment` of -1 is `descending`.
pub record KeyIterator : Type 0 where
  pub descending : Bool
  pub skip_unbound : Bool
  pub min : ℕ
  pub max : ℕ
  pub next : Option ℕ

-- Bits of `enum xkb_keymap_key_iterator_flags`.
abbrev pub descending_order : ℕ
descending_order = 1

abbrev pub skip_unbound_keys : ℕ
skip_unbound_keys = 2

-- `xkb_keymap_key_iterator_new`: `none` where a flag is not recognized.
unfoldable pub key_iterator_new : Keymap → ℕ → Option KeyIterator
key_iterator_new keymap flags =
    let descending = has flags descending_order in
    let min = if keymap.num_keys_low == 0 then 0 else keymap.min_key_code in
    let max = length keymap.keys - 1 in
    if ltb 3 flags
    then none
    else if length keymap.keys == 0
    then some (record { descending = false; skip_unbound = false; min = 0; max = 0; next = none })
    else some (record {
      descending = descending;
      skip_unbound = has flags skip_unbound_keys;
      min = min;
      max = max;
      next = some (if descending then max else min);
    })

-- The position after `i`, unless it is out of bounds.
unfoldable pub advance : KeyIterator → ℕ → Option ℕ
advance iter i =
    if iter.descending
    then (if ltb i (iter.min + 1) || ltb iter.max (i - 1) then none else some (i - 1))
    else (if ltb (i + 1) iter.min || ltb iter.max (i + 1) then none else some (i + 1))

-- Undefined keys, and on request unbound keys, are skipped.
abbrev pub is_skipped : Bool → Key → Bool
is_skipped skip_unbound key = key.name == 0 || (skip_unbound && (length key.groups == 0))

-- The loop of `xkb_keymap_key_iterator_next`, over `n` keys at most.
unfoldable pub seek : ℕ → List Key → KeyIterator → ℕ → Option Key × ℕ
seek zero keys iter i = (none, i)
seek (suc n) keys iter i = elim (get_elem? keys i) [
  | none ↦ (none, i)
  | some key ↦ elim (is_skipped iter.skip_unbound key) [
    | false ↦ (some key, i)
    | true ↦ elim (advance iter i) [ none ↦ (none, i) | some j ↦ seek n keys iter j ]
  ]
]

-- `xkb_keymap_key_iterator_next`, by the position of the next key.
unfoldable pub next_from : Keymap → KeyIterator → Option ℕ → KeyIterator × ℕ
next_from keymap iter none = (iter, keycode_invalid)
next_from keymap iter (some i) =
    let found = seek (length keymap.keys) keymap.keys iter i in
    elim found.0 [
      | none ↦ (record iter { next = none }, keycode_invalid)
      | some key ↦ (record iter { next = advance iter found.1 }, key.key_code)
    ]

unfoldable pub key_iterator_next : Keymap → KeyIterator → KeyIterator × ℕ
key_iterator_next keymap iter = next_from keymap iter iter.next
