-- ===== src/Keymap/Iterator/Ascending.antt =====
-- An ascending iterator over the keys of a keymap gives every key that is not skipped, in order.
use mathlib.Core.Option.{some-injective}
use libxkbcommon.Base.{
  ℕ, zero, suc, ◌+◌, ◌≡◌, ◌⊎◌, ◌<◌, ◌≤◌, refl, sym, ap, ◌∙◌, arith, Bool, false, ◌||◌, Bool-cases,
  inl, inr, Option, none, some, List, [], ◌∷◌, ltb, ◌==◌, if◌then◌else◌, length, get_elem?, drop,
  has,
}
use libxkbcommon.Keymap.{Key, Keymap, keycode_invalid}
use libxkbcommon.Keymap.Iterator.{
  KeyIterator, descending_order, skip_unbound_keys, key_iterator_new, advance, is_skipped, seek,
  key_iterator_next, next_from,
}

-- The codes of the keys that are not skipped.
abbrev pub given_codes : Bool → List Key → List ℕ
given_codes skip [] = []
given_codes skip (key ∷ rest) =
    let later = given_codes skip rest in if is_skipped skip key then later else key.key_code ∷ later

-- What a client reads by at most `n` calls.
unfoldable pub read_keys : ℕ → Keymap → KeyIterator → List ℕ
read_keys zero keymap iter = []
read_keys (suc n) keymap iter =
    let step = key_iterator_next keymap iter in
    let later = read_keys n keymap step.0 in
    if step.1 == keycode_invalid then [] else step.1 ∷ later

-- An ascending iterator with the last key as its bound.
pub record IsAscending (keys : List Key) (iter : KeyIterator) : Type 0 where
  pub ascends : iter.descending ≡ false
  pub last : iter.max + 1 ≡ length keys

drop_cases :
    (keys : List Key) (i : ℕ)
    → ((get_elem? keys i ≡ none) × (drop i keys ≡ []) × (length keys ≤ i))
      ⊎ ((key : Key) × (get_elem? keys i ≡ some key)
          × (drop i keys ≡ key ∷ drop (suc i) keys)
          × (i < length keys))
drop_cases [] zero = inl (refl, refl, omega arith)
drop_cases [] (suc i) = inl (refl, refl, omega arith)
drop_cases (x ∷ keys) zero = inr (x, refl, refl, omega arith)
drop_cases (x ∷ keys) (suc i) = elim (drop_cases keys i) [
  | inl (e, d, b) ↦ inl (e, d, omega arith)
  | inr (key, e, d, b) ↦ inr (key, e, d, omega arith)
]

advance-ascends :
    (keys : List Key) (iter : KeyIterator) (i : ℕ)
    → IsAscending keys iter
    → iter.min ≤ i
    → ((advance iter i ≡ none) × (length keys ≤ suc i))
      ⊎ ((advance iter i ≡ some (suc i)) × (suc i < length keys))
unfolding advance
advance-ascends keys iter i a b =
    let next : i + 1 ≡ suc i = omega arith in
    elim (Bool-cases (ltb (i + 1) iter.min || ltb iter.max (i + 1))) [
      | inl t ↦ inl (rw (a.ascends, t) refl, ground (arith, a.last))
      | inr f ↦ inr (rw (a.ascends, f) (ap some next), ground (arith, a.last))
    ]

-- What the loop finds from position `i` on: no key to give, or the first one.
Found : List Key → KeyIterator → ℕ → Option Key × ℕ → Type 0
Found keys iter i found =
    ((found.0 ≡ none) × (given_codes iter.skip_unbound (drop i keys) ≡ []))
    ⊎ ((key : Key) × (found.0 ≡ some key)
        × (i ≤ found.1)
        × (get_elem? keys found.1 ≡ some key)
        × (found.1 < length keys)
        × (given_codes iter.skip_unbound (drop i keys)
            ≡ key.key_code ∷ given_codes iter.skip_unbound (drop (suc found.1) keys)))

Found-later :
    (keys : List Key) (iter : KeyIterator) (i : ℕ) (found : Option Key × ℕ)
    → given_codes iter.skip_unbound (drop i keys)
      ≡ given_codes iter.skip_unbound (drop (suc i) keys)
    → Found keys iter (suc i) found
    → Found keys iter i found
unfolding Found
Found-later keys iter i found passed (inl (gone, none_left)) = inl (gone, passed ∙ none_left)
Found-later keys iter i found passed (inr (key, at, behind, held, inside, codes)) =
    inr (key, at, omega arith, held, inside, passed ∙ codes)

seek_ascending :
    (n : ℕ) (keys : List Key) (iter : KeyIterator) (i : ℕ)
    → IsAscending keys iter
    → iter.min ≤ i
    → length keys ≤ n + i
    → Found keys iter i (seek n keys iter i)
unfolding seek Found
seek_ascending zero keys iter i a b enough = elim (drop_cases keys i) [
  | inl (e, d, out) ↦ inl (refl, rw d refl)
  | inr (key, e, d, inside) ↦ absurd (omega arith)
]
seek_ascending (suc n) keys iter i a b enough = elim (drop_cases keys i) [
  | inl (e, d, out) ↦ rw (seek, e) (inl (refl, rw d refl))
  | inr (key, e, d, inside) ↦ elim (Bool-cases (is_skipped iter.skip_unbound key)) [
    | inr kept ↦ rw (seek, e, kept) (inr (key, refl, omega arith, e, inside, rw (d, kept) refl))
    | inl skipped ↦ elim (advance-ascends keys iter i a b) [
      | inl (stop, out) ↦ elim (drop_cases keys (suc i)) [
        | inl (e', d', out') ↦ rw (seek, e, skipped, stop) (inl (refl, rw (d, skipped, d') refl))
        | inr (key', e', d', inside') ↦ absurd (omega arith)
      ]
      | inr (go, inside') ↦
          let passed : given_codes iter.skip_unbound (drop i keys)
              ≡ given_codes iter.skip_unbound (drop (suc i) keys) =
            rw (d, skipped) refl in
          rw (seek, e, skipped, go)
            (Found-later keys iter i (seek n keys iter (suc i)) passed
              (seek_ascending n keys iter (suc i) a (omega arith) (omega arith)))
    ]
  ]
]

-- No key has the code that means there is none.
abbrev pub IsReadable : List Key → Type 0
IsReadable [] = Unit
IsReadable (key ∷ rest) = (key.key_code < keycode_invalid) × IsReadable rest

readable_at :
    (keys : List Key) (i : ℕ) (key : Key)
    → IsReadable keys
    → get_elem? keys i ≡ some key
    → (key.key_code == keycode_invalid) ≡ false
readable_at [] i key r e = absurd (ground arith)
readable_at (x ∷ keys) zero key r e =
    let here : x.key_code ≡ key.key_code = ap (λ k. k.key_code) (some-injective x key e) in
    let below = r.0 in ground arith
readable_at (x ∷ keys) (suc i) key r e = readable_at keys i key r.1 e

read_end :
    (n : ℕ) (keymap : Keymap) (iter : KeyIterator) → iter.next ≡ none → read_keys n keymap iter ≡ []
unfolding read_keys key_iterator_next next_from
read_end zero keymap iter at = refl
read_end (suc n) keymap iter at =
    let ended = ap (λ step. step.1) (ap (next_from keymap iter) at) in rw ended refl

read_none : (keymap : Keymap) (iter : KeyIterator) → read_keys zero keymap iter ≡ []
unfolding read_keys
read_none keymap iter = refl

read_nothing :
    (n : ℕ) (keymap : Keymap) (iter : KeyIterator)
    → (key_iterator_next keymap iter).1 ≡ keycode_invalid
    → read_keys (suc n) keymap iter ≡ []
unfolding read_keys
read_nothing n keymap iter e = rw e refl

read_step :
    (n : ℕ) (keymap : Keymap) (iter : KeyIterator) (next : KeyIterator) (code : ℕ)
    → key_iterator_next keymap iter ≡ (next, code)
    → (code == keycode_invalid) ≡ false
    → read_keys (suc n) keymap iter ≡ code ∷ read_keys n keymap next
unfolding read_keys
read_step n keymap iter next code e valid = rw (e, valid) refl

-- From an iterator at position `i`, enough calls read what is left.
read_from :
    (n : ℕ) (keymap : Keymap) (iter : KeyIterator) (i : ℕ)
    → IsAscending keymap.keys iter
    → IsReadable keymap.keys
    → iter.min ≤ i
    → length keymap.keys ≤ n + i
    → iter.next ≡ some i
    → read_keys n keymap iter ≡ given_codes iter.skip_unbound (drop i keymap.keys)
unfolding Found key_iterator_next next_from
read_from zero keymap iter i a codes b enough at = elim (drop_cases keymap.keys i) [
  | inl (e, d, out) ↦ read_none keymap iter ∙ sym (ap (given_codes iter.skip_unbound) d)
  | inr (key, e, d, inside) ↦ absurd (omega arith)
]
read_from (suc n) keymap iter i a codes b enough at =
    elim (seek_ascending (length keymap.keys) keymap.keys iter i a b (omega arith)) [
      | inl (gone, none_left) ↦
          read_nothing n keymap iter
            (ap (λ p. (next_from keymap iter p).1) at ∙ rw (next_from, gone) refl)
          ∙ sym none_left
      | inr (key, found, behind, held, inside, left) ↦
          let j : ℕ = (seek (length keymap.keys) keymap.keys iter i).1 in
          let iter' : KeyIterator = record iter { next = advance iter j } in
          let a' : IsAscending keymap.keys iter' = record { ascends = a.ascends; last = a.last } in
          let stepped : key_iterator_next keymap iter ≡ (iter', key.key_code) =
            ap (next_from keymap iter) at ∙ rw (next_from, found) refl in
          let valid = readable_at keymap.keys j key codes held in
          let rest : read_keys n keymap iter'
              ≡ given_codes iter.skip_unbound (drop (suc j) keymap.keys) =
            elim (advance-ascends keymap.keys iter j a (omega arith)) [
              | inl (stop, out) ↦ elim (drop_cases keymap.keys (suc j)) [
                | inl (e', d', out') ↦
                    read_end n keymap iter' stop ∙ sym (ap (given_codes iter.skip_unbound) d')
                | inr (key', e', d', inside') ↦ absurd (omega arith)
              ]
              | inr (go, inside') ↦
                  read_from n keymap iter' (suc j) a' codes (omega arith) (omega arith) go
            ] in
          read_step n keymap iter iter' key.key_code stepped valid
          ∙ ap (λ l. key.key_code ∷ l) rest
          ∙ sym left
    ]

-- The first key that is defined.
abbrev pub first_key : Keymap → ℕ
first_key keymap = if keymap.num_keys_low == 0 then 0 else keymap.min_key_code

no_keys : (keys : List Key) (i : ℕ) → length keys ≡ 0 → drop i keys ≡ []
no_keys [] zero e = refl
no_keys [] (suc i) e = refl
no_keys (x ∷ keys) i e = absurd (ground arith)

new_ascends :
    (keymap : Keymap) (flags : ℕ) (iter : KeyIterator)
    → key_iterator_new keymap flags ≡ some iter
    → has flags descending_order ≡ false
    → ((length keymap.keys ≡ 0) × (iter.next ≡ none))
      ⊎ (IsAscending keymap.keys iter
          × (iter.next ≡ some (first_key keymap))
          × (iter.min ≡ first_key keymap)
          × (iter.skip_unbound ≡ has flags skip_unbound_keys))
unfolding key_iterator_new
new_ascends keymap flags iter e up = elim (Bool-cases (ltb 3 flags)) [
  | inl t ↦ absurd (ground arith)
  | inr f ↦ elim (Bool-cases (length keymap.keys == 0)) [
    | inl empty ↦
        let made = some-injective _ iter (rw (f, empty) at e) in
        inl (ground arith, ap (λ it. it.next) (sym made))
    | inr live ↦
        let made = some-injective _ iter (rw (f, live, up) at e) in
        let max_is = ap (λ it. it.max) made in
        let up_is = ap (λ it. it.descending) made in
        let ascends : IsAscending keymap.keys iter = record {
          ascends = sym up_is;
          last = ground (arith, max_is);
        } in
        inr (
          ascends,
          ap (λ it. it.next) (sym made),
          ap (λ it. it.min) (sym made),
          ap (λ it. it.skip_unbound) (sym made),
        )
  ]
]

-- A new iterator in ascending order, called as many times as the keymap has keys or more, gives the
-- codes of the keys from the first defined one on, in order, each that is not skipped once, and then
-- that there is none left, where no key has the code that says so.
pub read_keys-key_iterator_new :
    (keymap : Keymap) (flags n : ℕ) (iter : KeyIterator)
    → key_iterator_new keymap flags ≡ some iter
    → has flags descending_order ≡ false
    → IsReadable keymap.keys
    → length keymap.keys ≤ n
    → read_keys n keymap iter
      ≡ given_codes (has flags skip_unbound_keys) (drop (first_key keymap) keymap.keys)
read_keys-key_iterator_new keymap flags n iter e up codes enough =
    elim (new_ascends keymap flags iter e up) [
      | inl (empty, ended) ↦
          read_end n keymap iter ended
          ∙ sym (
              ap (given_codes (has flags skip_unbound_keys))
                (no_keys keymap.keys (first_key keymap) empty))
      | inr (a, at, first, skips) ↦
          read_from n keymap iter (first_key keymap) a codes (omega arith) (omega arith) at
          ∙ ap (λ s. given_codes s (drop (first_key keymap) keymap.keys)) skips
    ]
