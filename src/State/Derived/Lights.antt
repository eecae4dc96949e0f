-- ===== src/State/Derived/Lights.antt =====
-- The LED mask, bit by bit.
use libxkbcommon.Base.{
  ℕ, zero, suc, ◌+◌, ◌-◌, ◌≡◌, ap, ◌∙◌, arith, Bool, false, ◌||◌, List, [], ◌∷◌, testbit,
  testbit-bit_or, testbit-pow, testbit-zero, ◌==◌, leb, ltb, Bool-cases, inl, inr, ◌^◌, ◌&&◌,
}
use libxkbcommon.Keymap.{Keymap, Led}
use libxkbcommon.State.Types.{Components}
use libxkbcommon.State.Derived.{led_lit, led_mask, add_if, led_update_all}

-- Whether the LED at an index is lit; an index without an LED is dark.
abbrev pub lit_at : Components → List Led → ℕ → Bool
lit_at c [] i = false
lit_at c (led ∷ rest) zero = led_lit c led
lit_at c (led ∷ rest) (suc i) = lit_at c rest i

testbit-add_if :
    (b : Bool) (acc idx j : ℕ)
    → testbit (add_if b acc (2 ^ idx)) j ≡ (testbit acc j || (b && (idx == j)))
testbit-add_if b acc idx j = ground (arith, testbit-bit_or acc (2 ^ idx) j, testbit-pow idx j)

testbit-led_mask :
    (c : Components) (l : List Led) (idx acc j : ℕ)
    → testbit (led_mask c l idx acc) j ≡ (testbit acc j || (leb idx j && lit_at c l (j - idx)))
unfolding led_mask
testbit-led_mask c [] idx acc j = ground arith
testbit-led_mask c (led ∷ rest) idx acc j =
    testbit-led_mask c rest (idx + 1) _ j ∙ elim (Bool-cases (ltb idx j)) [
      | inl lt ↦
          let e : j - idx ≡ suc (j - (idx + 1)) = ground arith in
          rw e (ground (arith, testbit-add_if (led_lit c led) acc idx j))
      | inr ge ↦ elim (Bool-cases (idx == j)) [
        | inl same ↦
            let e : j - idx ≡ zero = ground arith in
            rw e (ground (arith, testbit-add_if (led_lit c led) acc idx j))
        | inr above ↦ ground (arith, testbit-add_if (led_lit c led) acc idx j)
      ]
    ]

-- Bit `j` of the LED mask is set exactly when the keymap has an LED `j` whose modifiers, groups or
-- controls are active: one LED does not disturb another.
pub led_update_all-testbit :
    (keymap : Keymap) (c : Components) (j : ℕ)
    → testbit (led_update_all keymap c).leds j ≡ lit_at c keymap.leds j
unfolding led_update_all
led_update_all-testbit keymap c j =
    testbit-led_mask c keymap.leds 0 0 j
    ∙ ground (arith, testbit-zero j, ap (lit_at c keymap.leds) (sub_zero j))
  where
    sub_zero : (j : ℕ) → j - 0 ≡ j
    sub_zero j = omega arith
