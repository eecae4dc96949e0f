-- ===== src/Machine/Overlays/Stack.antt =====
-- The overlays of a machine as a stack, and the target that a key finds on it.
use libxkbcommon.Base.{
  ℕ, zero, suc, ◌+◌, ◌-◌, ◌*◌, ◌/◌, ◌^◌, ◌≤◌, ◌<◌, ◌≡◌, refl, arith, false, Bool-cases, inl, inr,
  Option, none, some, List, [], ◌∷◌, ◌==◌, if◌then◌else◌, length, bit_and, bit_and-lt_right,
  has-pow, testbit,
}
use libxkbcommon.Digits.{bit_and-15}
use libxkbcommon.Keymap.{Keymap, Key}
use libxkbcommon.Machine.{Machine}
use libxkbcommon.Machine.Overlays.{
  overlays_from_controls, machine_update_overlays, overlay_address, latest_target,
}
use libxkbcommon.Machine.Overlays.Digits.{value, AreNibbles}
use libxkbcommon.Machine.Overlays.Order.{
  order_after, IsStack, IsStack-length, order_after-IsStack, overlays_order_after-value, byte_pow,
}

-- The stack `l` stands in the machine's word, and holds the enabled overlays; those are the ones of
-- the controls.
pub record IsStacked (sm : Machine) (l : List ℕ) : Type 0 where
  pub order : sm.overlays_order ≡ value l
  pub stack : IsStack sm.overlays_enabled l
  pub word : sm.overlays_enabled < 256

pub overlays_from_controls-lt : (controls : ℕ) → overlays_from_controls controls < 256
overlays_from_controls-lt controls = bit_and-lt_right 8 (controls / 2) 255 (omega arith)

-- On a keymap that is not of the first format, where the order word holds the stack of enabled
-- overlays: after `machine_update_overlays` it holds the overlays that stay in their old order, and
-- on top of them the new ones, the highest index uppermost; the enabled overlays are those of the
-- controls, and each of them is on the stack exactly once.
pub machine_update_overlays-refines :
    (keymap : Keymap) (sm : Machine) (l : List ℕ)
    → keymap.v1_format ≡ false
    → IsStacked sm l
    → IsStacked
        (machine_update_overlays keymap sm)
        (order_after (overlays_from_controls sm.base.components.controls) sm.overlays_enabled l)
unfolding machine_update_overlays
machine_update_overlays-refines keymap sm l format s =
    let mask = overlays_from_controls sm.base.components.controls in
    let bound = overlays_from_controls-lt sm.base.components.controls in
    record {
      order =
          rw (format, s.order)
            (overlays_order_after-value 8 mask sm.overlays_enabled l
              (IsStack-length sm.overlays_enabled l s.stack) (omega arith) bound s.word s.stack);
      stack = order_after-IsStack mask sm.overlays_enabled l bound s.word s.stack;
      word = bound;
    }

-- The first overlay of the stack that the key has.
abbrev pub first_of : Key → List ℕ → Option ℕ
first_of key [] = none
first_of key (d ∷ l) = if testbit key.overlays (d - 1) then some d else first_of key l

abbrev pub target_of : Key → Option ℕ → Option ℕ
target_of key none = none
target_of key (some d) = some (overlay_address key (2 ^ (d - 1)))

-- The loop over the nibbles finds the target of the latest enabled overlay that the key has, with
-- one round for each overlay of the stack.
pub latest_target-finds :
    (fuel : ℕ) (key : Key) (l : List ℕ)
    → length l ≤ fuel
    → AreNibbles l
    → latest_target fuel key (value l) ≡ target_of key (first_of key l)
unfolding latest_target
latest_target-finds zero key [] h d = refl
latest_target-finds zero key (x ∷ l) h d = absurd (omega arith)
latest_target-finds (suc fuel) key [] h d = refl
latest_target-finds (suc fuel) key (x ∷ l) h d =
    let v : ℕ = value l in
    let low : bit_and (x + 16 * v) 15 ≡ x = omega (arith, bit_and-15 (x + 16 * v)) in
    let rest : (x + 16 * v) / 16 ≡ v = omega arith in
    let some_left : (x + 16 * v == 0) ≡ false = ground arith in
    rw (low, rest, some_left, byte_pow x d.1, has-pow key.overlays (x - 1))
      (elim (Bool-cases (testbit key.overlays (x - 1))) [
        | inl t ↦ rw t refl
        | inr f ↦ rw f (latest_target-finds fuel key l (omega arith) d.2)
      ])
