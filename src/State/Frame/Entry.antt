-- ===== src/State/Frame/Entry.antt =====
-- The entry points that run filters keep the base modifiers, the counts and the bounds on masks.
use libxkbcommon.Base.{
  ℕ, zero, suc, ◌+◌, ◌<◌, ◌≡◌, refl, arith, Bool-cases, inl, inr, List, [], ◌∷◌, bit_and,
  bit_and-lt, bit_or-lt, bit_and-lt_right, clear, clear-lt, has, ◌==◌, drop, if◌then◌else◌,
}
use libxkbcommon.Keymap.{
  Action, action_of, mod_latch, group_latch, absolute_switch, Mod, Keymap, KeyRef, resolve_virtual,
  mod_mask_get_effective,
}
use libxkbcommon.State.Types.{
  Direction, up, down, ServerState, FilterResult, mod_latch_func, group_latch_func, layout_latched,
}
use libxkbcommon.State.Apply.{filter_new}
use libxkbcommon.State.Latches.{
  ComponentsUpdate, synthetic_key, synthetic_break_key, break_mod_latch_key, break_group_latch_key,
  resolve_to_canonical_mods, tap_mod_latch, tap_group_latch, update_latch_modifiers,
  update_latch_group, update_locked, state_update_latched_locked, clear_everything,
  clear_all_latches_and_locks, filter_apply_all,
}
use libxkbcommon.State.Latches.Synthetic.{key_get_actions_synthetic}
use libxkbcommon.State.Filters.Modifiers.{mod_latch_new, unlatch_mods}
use libxkbcommon.State.Filters.Groups.{group_latch_new}
use libxkbcommon.State.Frame.{Keeps-trans, IsSound, IsFrame, IsFramed}
use libxkbcommon.State.Frame.Handlers.{
  mod_latch_new-IsFramed, mod_latch_handler-IsFramed, group_latch_new-IsFramed,
  group_latch_handler-IsFramed,
}
use libxkbcommon.State.Frame.Events.{
  IsFrame-trans, IsFrame-refl, IsFramed-put, filter_new-IsFrame, apply_all-IsFrame, HasWordMasks,
}

-- The mappings of the keymap's modifiers fit 32 bits.
abbrev pub WordMappings : List Mod → Type 0
WordMappings [] = Unit
WordMappings (m ∷ rest) = (m.mapping < 4294967296) × WordMappings rest

WordMappings-drop : (n : ℕ) (l : List Mod) → WordMappings l → WordMappings (drop n l)
WordMappings-drop zero l w = w
WordMappings-drop (suc n) [] w = w
WordMappings-drop (suc n) (m ∷ l) w = WordMappings-drop n l w.1

resolve_virtual-lt :
    (l : List Mod) (i mods mask : ℕ)
    → WordMappings l
    → mask < 4294967296
    → resolve_virtual l i mods mask < 4294967296
unfolding resolve_virtual
resolve_virtual-lt [] i mods mask w h = h
resolve_virtual-lt (m ∷ l) i mods mask w h =
    resolve_virtual-lt l (i + 1) mods _ w.1 (ground (arith, bit_or-lt 32 mask m.mapping h w.0))

pub resolve_to_canonical_mods-lt :
    (keymap : Keymap) (mods : ℕ)
    → WordMappings keymap.mods
    → mods < 4294967296
    → resolve_to_canonical_mods keymap mods < 4294967296
unfolding resolve_to_canonical_mods mod_mask_get_effective
resolve_to_canonical_mods-lt keymap mods w h =
    bit_or-lt 32 _ _ (bit_and-lt 32 mods keymap.canonical_state_mask h) (
      resolve_virtual-lt (drop 8 keymap.mods) 8 _ _ (WordMappings-drop 8 keymap.mods w)
        (bit_and-lt_right 32 _ 255 (omega arith)))

synthetic-HasWordMasks :
    (address : ℕ) (a : Action)
    → a.mask < 4294967296
    → HasWordMasks (synthetic_break_key address a).key
synthetic-HasWordMasks address a h c = rw (key_get_actions_synthetic c address a) (h, tt)

IsFramed-IsSound : {s : ServerState} {r : FilterResult} → IsFramed s r → IsSound r.state
IsFramed-IsSound h = record {
  base_word = h.base_word;
  latched_word = h.latched_word;
  locked_word = h.locked_word;
  set_word = h.set_word;
  clear_word = h.clear_word;
  filters = h.filters;
}

IsFramed-trans :
    {s : ServerState} {r q : FilterResult} → IsFramed s r → IsFramed r.state q → IsFramed s q
IsFramed-trans a b = record {
  keeps = Keeps-trans a.keeps b.keeps;
  base_word = b.base_word;
  latched_word = b.latched_word;
  locked_word = b.locked_word;
  set_word = b.set_word;
  clear_word = b.clear_word;
  filters = b.filters;
  safe = b.safe;
}

tap_mod_latch-IsFrame :
    (s : ServerState) (mask : ℕ) → IsSound s → mask < 4294967296 → IsFrame s (tap_mod_latch s mask)
unfolding tap_mod_latch
tap_mod_latch-IsFrame s mask a w =
    let made = filter_new-IsFrame s a in
    let t = (filter_new s).0 in
    let f = record (filter_new s).2 {
      key = synthetic_key.address;
      func = mod_latch_func;
      action = record (action_of mod_latch) { mask = mask };
    } in
    let new = mod_latch_new-IsFramed t f made.sound w refl in
    let r = mod_latch_new t f in
    let stays : r.filter.func ≡ mod_latch_func = unfold mod_latch_new in refl in
    IsFrame-trans made (
      IsFramed-put (filter_new s).1 (
        IsFramed-trans new (
          mod_latch_handler-IsFramed r.state r.filter synthetic_key (IsFramed-IsSound new) new.safe
            up stays)))

tap_group_latch-IsFrame :
    (s : ServerState) (group : ℕ) → IsSound s → IsFrame s (tap_group_latch s group)
unfolding tap_group_latch
tap_group_latch-IsFrame s group a =
    let made = filter_new-IsFrame s a in
    let t = (filter_new s).0 in
    let f = record (filter_new s).2 {
      key = synthetic_key.address;
      func = group_latch_func;
      action = record (action_of group_latch) { flags = absolute_switch; group = group };
    } in
    let new = group_latch_new-IsFramed t f made.sound (omega arith) refl in
    let r = group_latch_new t f in
    let stays : r.filter.func ≡ group_latch_func = unfold group_latch_new in refl in
    IsFrame-trans made (
      IsFramed-put (filter_new s).1 (
        IsFramed-trans new (
          group_latch_handler-IsFramed r.state r.filter synthetic_key (IsFramed-IsSound new)
            new.safe up stays)))

module _ (keymap : Keymap) (words : WordMappings keymap.mods) where
  module _ (clear_all : ServerState → ServerState)
      (h : (t : ServerState) → IsSound t → IsFrame t (clear_all t)) where
    update_latch_modifiers-IsFrame :
        (s : ServerState) (mask latches : ℕ)
        → IsSound s
        → mask < 4294967296
        → IsFrame s (update_latch_modifiers keymap clear_all s mask latches)
    unfolding update_latch_modifiers
    update_latch_modifiers-IsFrame s mask latches a w =
        let cleared = clear mask latches in
        let unlatched : IsFrame s (unlatch_mods s cleared) =
          ground (arith, clear-lt s.components.latched_mods cleared) in
        let broken =
          apply_all-IsFrame keymap clear_all h (unlatch_mods s cleared)
            (break_mod_latch_key cleared) down unlatched.sound
            (synthetic-HasWordMasks 2 _ (omega arith)) in
        IsFrame-trans unlatched (
          IsFrame-trans broken (
            tap_mod_latch-IsFrame _ (bit_and mask latches) broken.sound
              (bit_and-lt 32 mask latches w)))

    update_latch_group-IsFrame :
        (s : ServerState) (group : ℕ)
        → IsSound s
        → IsFrame s (update_latch_group keymap clear_all s group)
    unfolding update_latch_group
    update_latch_group-IsFrame s group a =
        let broken =
          apply_all-IsFrame keymap clear_all h s break_group_latch_key down a
            (synthetic-HasWordMasks 3 _ (omega arith)) in
        IsFrame-trans broken (tap_group_latch-IsFrame _ group broken.sound)

    update_locked-IsFrame :
        (s : ServerState) (update : ComponentsUpdate)
        → IsSound s
        → update.locked_mods < 4294967296
        → IsFrame s (update_locked keymap clear_all s update)
    unfolding update_locked
    update_locked-IsFrame s update a y =
        let affect : ℕ = resolve_to_canonical_mods keymap update.affect_locked_mods in
        let locked : ℕ = resolve_to_canonical_mods keymap update.locked_mods in
        ground (
          arith,
          clear-lt s.components.locked_mods affect,
          bit_and-lt 32 locked affect
              (resolve_to_canonical_mods-lt keymap update.locked_mods words y),
          bit_or-lt 32 (clear s.components.locked_mods affect) (bit_and locked affect),
        )

    pub state_update_latched_locked-IsFrame :
        (s : ServerState) (update : ComponentsUpdate)
        → IsSound s
        → update.affect_latched_mods < 4294967296
        → update.locked_mods < 4294967296
        → IsFrame s (state_update_latched_locked keymap clear_all s update)
    unfolding state_update_latched_locked
    state_update_latched_locked-IsFrame s update a w y =
        let t = update_locked keymap clear_all s update in
        let locked : IsFrame s t = update_locked-IsFrame s update a y in
        let affect = resolve_to_canonical_mods keymap update.affect_latched_mods in
        let u =
          if affect == 0
          then t
          else update_latch_modifiers keymap clear_all t affect
              (resolve_to_canonical_mods keymap update.latched_mods) in
        let latched : IsFrame t u = elim (Bool-cases (affect == 0)) [
          | inl none ↦ rw none (IsFrame-refl locked.sound)
          | inr some ↦ rw some (
              update_latch_modifiers-IsFrame t affect _ locked.sound
                (resolve_to_canonical_mods-lt keymap update.affect_latched_mods words w))
        ] in
        let both = IsFrame-trans locked latched in
        elim (Bool-cases (has update.components layout_latched)) [
          | inl group ↦
              rw group
                (IsFrame-trans both (update_latch_group-IsFrame u update.latched_layout both.sound))
          | inr keep ↦ rw keep both
        ]

  -- Where the mappings of the modifiers fit 32 bits, and so do the masks of the state before:
  -- clearing all latches and locks leaves base modifiers, counts, mode, layout policy and flags
  -- alone, and keeps within 32 bits the base, latched and locked modifiers, those that are asked to
  -- be set or cleared, the masks of the filters' actions, and what a SetMods filter is to clear.
  pub clear_all_latches_and_locks-IsFrame :
      (s : ServerState) → IsSound s → IsFrame s (clear_all_latches_and_locks keymap s)
  unfolding clear_all_latches_and_locks
  clear_all_latches_and_locks-IsFrame s a =
      state_update_latched_locked-IsFrame (λ t. t) (λ t b. IsFrame-refl b) s
        (clear_everything keymap) a (omega arith) (omega arith)

  -- Where the mappings of the modifiers and the masks of the actions of the key fit 32 bits, and so
  -- do the masks of the state before: on any key event no filter touches base modifiers, counts,
  -- mode, layout policy or flags, and the base, latched and locked modifiers, those that are asked
  -- to be set or cleared, the masks of the filters' actions, and what a SetMods filter is to clear
  -- all stay within 32 bits.
  pub filter_apply_all-IsFrame :
      (s : ServerState) (key : KeyRef) (d : Direction)
      → IsSound s
      → HasWordMasks key.key
      → IsFrame s (filter_apply_all keymap s key d)
  unfolding filter_apply_all
  filter_apply_all-IsFrame s key d a w =
      apply_all-IsFrame keymap (clear_all_latches_and_locks keymap)
        clear_all_latches_and_locks-IsFrame s key d a w
