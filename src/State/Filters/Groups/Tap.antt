-- ===== src/State/Filters/Groups/Tap.antt =====
-- The private word of a group latch, and a tap of its key (`union group_latch_priv`,
-- `xkb_filter_group_latch_new`, `xkb_filter_group_latch_func`).
use libxkbcommon.Base.{
  ℕ, ◌≤◌, ◌<◌, ◌≡◌, ◌⊎◌, inl, inr, refl, arith, true, false, ◌==◌, if◌then◌else◌, has, add32, sub32,
}
use libxkbcommon.Keymap.{KeyRef, lock_clear, absolute_switch}
use libxkbcommon.State.Types.{up, Filter, ServerState, apply_group_delta}
use libxkbcommon.State.Filters.Groups.{
  latch_key_down, latch_pending, pack_latch, priv_latch, priv_delta, group_latch_new,
  drop_base_group, group_latch_up, group_latch_handler,
}

-- The pattern of a signed number that fits 30 bits, as deltas between groups do.
abbrev pub IsSmall : ℕ → Type 0
IsSmall d = (d < 536870912) ⊎ ((3758096384 ≤ d) × (d < 4294967296))

-- Both fields of the private word are read back, for a latch state of two bits and a delta of 30.
pub priv-pack_latch :
    (latch delta : ℕ)
    → latch < 4
    → IsSmall delta
    → (priv_latch (pack_latch latch delta) ≡ latch) × (priv_delta (pack_latch latch delta) ≡ delta)
unfolding priv_latch priv_delta pack_latch
priv-pack_latch latch delta h (inl small) = (omega arith, ground arith)
priv-pack_latch latch delta h (inr (low, high)) = (omega arith, ground arith)

-- What the key adds to the group while it is held.
abbrev pub group_delta : ServerState → Filter → ℕ
group_delta s f =
    if has f.action.flags absolute_switch
    then sub32 f.action.group s.components.base_group
    else f.action.group

base_after :
    (s : ServerState) (f : Filter)
    → s.components.base_group < 4294967296
    → f.action.group < 4294967296
    → sub32 (apply_group_delta f s.components.base_group) (group_delta s f)
      ≡ s.components.base_group
base_after s f h k = ground arith

-- A tap of a LatchGroup key without the flag that clears locks, where the groups are 32-bit
-- patterns and the delta fits 30 bits: the base group is again as it was, the delta is on the
-- latched group, the filter waits for the next key, and the release is not consumed.
pub group_latch_tap :
    (s : ServerState) (f : Filter) (key : KeyRef)
    → key.address ≡ f.key
    → has f.action.flags lock_clear ≡ false
    → s.components.base_group < 4294967296
    → f.action.group < 4294967296
    → IsSmall (group_delta s f)
    → let r = group_latch_handler (group_latch_new s f).state (group_latch_new s f).filter key up in
      (r.state.components.base_group ≡ s.components.base_group)
      × (r.state.components.latched_group ≡ add32 s.components.latched_group (group_delta s f))
      × (priv_latch r.filter.priv ≡ latch_pending)
      × (r.consumed ≡ false)
unfolding group_latch_handler group_latch_new group_latch_up drop_base_group
group_latch_tap s f key own keep h k small =
    let own_key : (key.address == f.key) ≡ true = ground arith in
    let packed = priv-pack_latch latch_key_down (group_delta s f) (omega arith) small in
    let pending = priv-pack_latch latch_pending (group_delta s f) (omega arith) small in
    rw (own_key, group_latch_up, keep, packed.0, packed.1)
      (base_after s f h k, refl, pending.0, refl)
