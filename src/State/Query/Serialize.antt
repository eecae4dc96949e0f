-- ===== src/State/Query/Serialize.antt =====
-- The serialized components of a state whose derived part agrees with the others, the modifier
-- match, and the LED query (`serialize_mods`, `match_mod_masks`, `xkb_state_led_index_is_active`).
use libxkbcommon.Base.{
  ℕ, ◌^◌, ◌<◌, ◌≡◌, ap, ◌∙◌, ◌↔◌, arith, true, false, some, ◌==◌, get_elem?, bit_and, clear, has,
  testbit, testbit_ext, testbit-bit_and, testbit-clear, testbit-zero, has-pow, clear-lt, bit_and-lt,
  Bool-cases, inl, inr, List, [], ◌∷◌, zero, suc,
}
use libxkbcommon.Keymap.{Keymap, Led}
use libxkbcommon.State.Types.{Components}
use libxkbcommon.State.Derived.{led_lit, led_update_all}
use libxkbcommon.State.Derived.Lights.{lit_at, led_update_all-testbit}
use libxkbcommon.State.Query.{serialize_mods, match_mod_masks, led_index_is_active}

none_outside :
    (active wanted : ℕ)
    → active < 4294967296
    → wanted < 4294967296
    → clear active wanted ≡ 0
    → bit_and active wanted ≡ wanted
    → active ≡ wanted
none_outside active wanted p q e f = testbit_ext 32 active wanted p q (λ i k. ground (
  arith,
  ap (λ x. testbit x i) e,
  ap (λ x. testbit x i) f,
  testbit-zero i,
  testbit-clear active wanted i q k,
  testbit-bit_and active wanted i,
))

clear_self : (x : ℕ) → x < 4294967296 → clear x x ≡ 0
clear_self x p =
    testbit_ext 32 (clear x x) 0 (clear-lt x x p) (omega arith)
      (λ i k. ground (arith, testbit-clear x x i p k, testbit-zero i))

bit_and_self : (x : ℕ) → x < 4294967296 → bit_and x x ≡ x
bit_and_self x p =
    testbit_ext 32 (bit_and x x) x (bit_and-lt 32 x x p) p
      (λ i k. ground (arith, testbit-bit_and x x i))

-- Without the flags for any modifier and for others besides, the match asks for exactly the wanted
-- modifiers, on masks of 32 bits.
pub match_mod_masks-exact :
    (c : Components) (type match wanted : ℕ)
    → serialize_mods c type < 4294967296
    → wanted < 4294967296
    → has match 65536 ≡ false
    → has match 1 ≡ false
    → (match_mod_masks c type match wanted ≡ true) ↔ (serialize_mods c type ≡ wanted)
unfolding match_mod_masks
match_mod_masks-exact c type match wanted p q exclusive all =
    let active = serialize_mods c type in
    (
      λ e. elim (Bool-cases (clear active wanted == 0)) [
        | inl t ↦ none_outside active wanted p q (ground arith) (ground arith)
        | inr f ↦ absurd (ground arith)
      ],
      λ e. rw e (ground (arith, clear_self wanted q, bit_and_self wanted q)),
    )

lit_at-get_elem? :
    (c : Components) (l : List Led) (i : ℕ) (led : Led)
    → get_elem? l i ≡ some led
    → lit_at c l i ≡ led_lit c led
lit_at-get_elem? c [] i led e = absurd (ground arith)
lit_at-get_elem? c (x ∷ l) zero led e = ap (led_lit c) (ground arith)
lit_at-get_elem? c (x ∷ l) (suc i) led e = lit_at-get_elem? c l i led e

-- After the LEDs are updated, an LED that has a name is reported active exactly when its own map
-- lights it.
pub led_index_is_active-lit :
    (keymap : Keymap) (c : Components) (i : ℕ) (led : Led)
    → get_elem? keymap.leds i ≡ some led
    → led.named ≡ true
    → led_index_is_active keymap (led_update_all keymap c) i ≡ some (led_lit c led)
unfolding led_index_is_active led_lit
led_index_is_active-lit keymap c i led e n =
    let lit : has (led_update_all keymap c).leds (2 ^ i) ≡ led_lit c led =
      has-pow (led_update_all keymap c).leds i
      ∙ led_update_all-testbit keymap c i
      ∙ lit_at-get_elem? c keymap.leds i led e in
    rw (led_index_is_active, e, n) (ap some lit)
