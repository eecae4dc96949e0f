-- ===== src/Keymap/KeyTable.antt =====
-- Key lookup by keycode: the direct index below `num_keys_low` and the binary search above it
-- (`XkbKey` of src/keymap.h).
use libxkbcommon.Base.{
  ℕ, zero, suc, ◌+◌, ◌-◌, ◌/◌, ◌≤◌, ◌<◌, ◌≡◌, some, List, arith, ltb, length, get_elem?, Bool-cases,
  Option-cases, inl, inr, ◌||◌, ltb→lt,
}
use libxkbcommon.Keymap.{Key, Keymap, KeyRef, search_key, xkb_key}

-- The keys from index `lo` on stand in strictly ascending order of their keycodes.
abbrev pub IsSortedFrom : ℕ → List Key → Type 0
IsSortedFrom lo keys =
    (i j : ℕ) (a b : Key)
    → lo ≤ i
    → i < j
    → get_elem? keys i ≡ some a
    → get_elem? keys j ≡ some b
    → a.key_code < b.key_code

-- A reference to the key at index `i` of the array.
abbrev pub RefersTo : List Key → ℕ → KeyRef → Type 0
RefersTo keys i r = (r.address ≡ i + 4) × (get_elem? keys i ≡ some r.key)

search_key-RefersTo :
    (fuel : ℕ) (keys : List Key) (kc lower upper : ℕ) {r : KeyRef}
    → search_key fuel keys kc lower upper ≡ some r
    → (i : ℕ) × RefersTo keys i r × (r.key.key_code ≡ kc)
unfolding search_key
search_key-RefersTo zero keys kc lower upper e = absurd (ground arith)
search_key-RefersTo (suc fuel) keys kc lower upper e =
    let mid = lower + (upper - 1 - lower) / 2 in
    elim (Bool-cases (ltb lower upper)) [
      | inr f ↦ absurd (ground arith)
      | inl t ↦ elim (Option-cases (get_elem? keys mid)) [
        | inl g ↦ absurd (ground arith)
        | inr (key, g) ↦ elim (Bool-cases (ltb key.key_code kc)) [
          | inl u ↦ search_key-RefersTo fuel keys kc (mid + 1) upper (ground arith)
          | inr u ↦ elim (Bool-cases (ltb kc key.key_code)) [
            | inl v ↦ search_key-RefersTo fuel keys kc lower mid (ground arith)
            | inr v ↦ (mid, ground arith, ground arith)
          ]
        ]
      ]
    ]

-- What `XkbKey` returns is the key of the array that has this keycode, when the first
-- `num_keys_low` keys stand at the index of their keycode.
pub xkb_key-RefersTo :
    (keymap : Keymap) (kc : ℕ) {r : KeyRef}
    → ((i : ℕ) (k : Key)
        → i < keymap.num_keys_low
        → get_elem? keymap.keys i ≡ some k
        → k.key_code ≡ i)
    → xkb_key keymap kc ≡ some r
    → (i : ℕ) × RefersTo keymap.keys i r × (r.key.key_code ≡ kc)
unfolding xkb_key
xkb_key-RefersTo keymap kc low e =
    elim (Bool-cases (ltb kc keymap.min_key_code || ltb keymap.max_key_code kc)) [
      | inl out ↦ absurd (ground arith)
      | inr in_bounds ↦ elim (Bool-cases (ltb kc keymap.num_keys_low)) [
        | inl below ↦ elim (Option-cases (get_elem? keymap.keys kc)) [
          | inl missing ↦ absurd (ground arith)
          | inr (k, g) ↦ (kc, ground arith, ground (arith, low kc k (ltb→lt _ _ below) g))
        ]
        | inr above ↦
            search_key-RefersTo (suc (length keymap.keys)) keymap.keys kc keymap.num_keys_low
              (length keymap.keys) (ground arith)
      ]
    ]
