-- ===== src/State/Derived/Effective.antt =====
-- What the effective modifiers and group are after `xkb_state_update_derived`.
use libxkbcommon.Base.{
  ℕ, ◌+◌, ◌≤◌, ◌<◌, ◌≡◌, refl, arith, ap, sym, ◌∙◌, Bool-cases, inl, inr, List, [], ◌∷◌, bit_or,
  add32, ◌==◌,
}
use libxkbcommon.Keymap.{Keymap, Led, Policy, wrap_group_into_range}
use libxkbcommon.Keymap.Wrap.{wrap_group-lt, wrap_group_idem}
use libxkbcommon.State.Types.{Components}
use libxkbcommon.State.Derived.{led_lit, led_mask, led_update_all, valid_or_zero, update_derived}

-- The derived components agree with the others: the effective modifiers are the union of the base,
-- latched and locked ones, the effective group is the 32-bit sum of the base, latched and locked ones
-- brought into range by the layout policy, the locked and the effective group are layouts of the
-- keymap (0 where it has none), and the LEDs are those that their maps light.
pub record IsDerived (keymap : Keymap) (p : Policy) (number : ℕ) (c : Components) : Type 0 where
  pub effective_mods : c.mods ≡ bit_or (bit_or c.base_mods c.latched_mods) c.locked_mods
  pub effective_group :
      c.group
      ≡ valid_or_zero (
          wrap_group_into_range
            (add32 (add32 c.base_group c.latched_group) c.locked_group)
            keymap.num_groups
            p
            number)
  pub locked_in_range : 0 < keymap.num_groups → c.locked_group < keymap.num_groups
  pub group_in_range : 0 < keymap.num_groups → c.group < keymap.num_groups
  pub locked_of_none : keymap.num_groups ≡ 0 → c.locked_group ≡ 0
  pub group_of_none : keymap.num_groups ≡ 0 → c.group ≡ 0
  pub leds_lit : c.leds ≡ led_mask c keymap.leds 0 0

brought-lt :
    (g n : ℕ) (p : Policy) (number : ℕ)
    → n ≤ 32
    → 0 < n
    → valid_or_zero (wrap_group_into_range g n p number) < n
brought-lt g n p number k h = ground (arith, wrap_group-lt g n p number h)

brought_of_none :
    (g n : ℕ) (p : Policy) (number : ℕ)
    → n ≡ 0
    → valid_or_zero (wrap_group_into_range g n p number) ≡ 0
unfolding wrap_group_into_range
brought_of_none g n p number e = ground arith

-- The LEDs do not depend on the old LEDs.
led_mask-leds :
    (c : Components) (old : ℕ) (l : List Led) (idx acc : ℕ)
    → led_mask c l idx acc ≡ led_mask (record c { leds = old }) l idx acc
unfolding led_mask led_lit
led_mask-leds c old [] idx acc = refl
led_mask-leds c old (led ∷ rest) idx acc = led_mask-leds c old rest (idx + 1) _

-- With at most 32 groups, the state after an update of the derived part agrees with itself.
pub update_derived-IsDerived :
    (keymap : Keymap) (p : Policy) (number : ℕ) (c : Components)
    → keymap.num_groups ≤ 32
    → IsDerived keymap p number (update_derived keymap p number c)
unfolding update_derived led_update_all
update_derived-IsDerived keymap p number c k = record {
  effective_mods = refl;
  effective_group = refl;
  locked_in_range = brought-lt c.locked_group keymap.num_groups p number k;
  group_in_range = brought-lt _ keymap.num_groups p number k;
  locked_of_none = brought_of_none c.locked_group keymap.num_groups p number;
  group_of_none = brought_of_none _ keymap.num_groups p number;
  leds_lit = led_mask-leds _ _ keymap.leds 0 0;
}

brought_idem :
    (g n : ℕ) (p : Policy) (number : ℕ)
    → n ≤ 32
    → valid_or_zero
        (wrap_group_into_range (valid_or_zero (wrap_group_into_range g n p number)) n p number)
      ≡ valid_or_zero (wrap_group_into_range g n p number)
brought_idem g n p number k = elim (Bool-cases (n == 0)) [
  | inl e ↦
      let zero_groups : n ≡ 0 = ground arith in
      brought_of_none _ n p number zero_groups ∙ sym (brought_of_none g n p number zero_groups)
  | inr e ↦ ground (
    arith,
    wrap_group-lt g n p number (ground arith),
    wrap_group_idem g n p p number number (ground arith) k,
  )
]

-- With at most 32 groups, deriving twice is deriving once.
pub update_derived_idem :
    (keymap : Keymap) (p : Policy) (number : ℕ) (c : Components)
    → keymap.num_groups ≤ 32
    → update_derived keymap p number (update_derived keymap p number c)
      ≡ update_derived keymap p number c
update_derived_idem keymap p number c k =
    unfold update_derived led_update_all in
    rw (brought_idem c.locked_group keymap.num_groups p number k) (
      ap (λ leds. record (update_derived keymap p number c) { leds = leds })
        (sym (
          led_mask-leds (record (update_derived keymap p number c) { leds = c.leds })
            (update_derived keymap p number c).leds keymap.leds 0 0)))

-- The old derived components play no part.
pub update_derived-stale :
    (keymap : Keymap) (p : Policy) (number : ℕ) (c : Components) (group mods leds : ℕ)
    → update_derived keymap p number (record c { group = group; mods = mods; leds = leds })
      ≡ update_derived keymap p number c
update_derived-stale keymap p number c group mods leds =
    unfold update_derived led_update_all in
    ap (λ new. record (update_derived keymap p number c) { leds = new })
      (led_mask-leds (record (update_derived keymap p number c) { leds = leds }) c.leds keymap.leds
        0 0)
