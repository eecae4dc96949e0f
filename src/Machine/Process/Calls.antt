-- ===== src/Machine/Process/Calls.antt =====
-- Any sequence of calls on a new machine.
use libxkbcommon.Base.{
  ℕ, suc, ◌+◌, ◌<◌, ◌≡◌, refl, sym, ap, ◌∙◌, arith, false, Option, none, some, Option-cases, inl,
  inr, List, [], ◌∷◌, testbit-zero,
}
use mathlib.Core.Path.{subst}
use libxkbcommon.Keymap.{Keymap, Policy}
use libxkbcommon.State.Types.{Direction, Mode, ServerState, server_state}
use libxkbcommon.State.Derived.{derive, update_derived, led_update_all}
use libxkbcommon.Machine.Overlays.{overlays_from_controls}
use libxkbcommon.State.Latches.{ComponentsUpdate}
use libxkbcommon.State.Update.{server_state_init, state_init}
use libxkbcommon.State.Update.Invariant.{IsCompiled}
use libxkbcommon.State.Update.Synthetic.{WordUpdate}
use libxkbcommon.State.Update.Calls.{server_state_init-IsValid}
use libxkbcommon.Machine.{MachineBuilder, Machine}
use libxkbcommon.Machine.Config.{machine_new, machine_set_mods, machine_set_shortcuts}
use libxkbcommon.Machine.Process.{machine_process_key, machine_process_synthetic}
use libxkbcommon.Machine.Process.Invariant.{
  WordArray, IsReadyMachine, machine_process_key-IsReadyMachine,
  machine_process_synthetic-IsReadyMachine,
}
use libxkbcommon.Machine.Process.Tracking.{
  IsTracking, machine_process_key-IsTracking, machine_process_synthetic-IsTracking,
}

-- A call of one of the entry points.
pub data MachineCall : Type 0 where
  key : ℕ → Direction → MachineCall
  synthetic : Option (Option Policy × ℕ) → Option ComponentsUpdate → MachineCall

-- A synthetic update that is refused leaves the machine as it is.
abbrev pub machine_after : Machine → Option Machine → Machine
machine_after sm none = sm
machine_after sm (some after) = after

abbrev pub machine_call : Keymap → Machine → MachineCall → Machine
machine_call keymap sm (key kc d) = machine_process_key keymap sm kc d
machine_call keymap sm (synthetic p u) = machine_after sm (machine_process_synthetic keymap sm p u)

abbrev pub machine_calls : Keymap → Machine → List MachineCall → Machine
machine_calls keymap sm [] = sm
machine_calls keymap sm (c ∷ rest) = machine_calls keymap (machine_call keymap sm c) rest

abbrev pub WordMachineCalls : List MachineCall → Type 0
WordMachineCalls [] = Unit
WordMachineCalls (key kc d ∷ rest) = WordMachineCalls rest
WordMachineCalls (synthetic p u ∷ rest) = WordUpdate u × WordMachineCalls rest

abbrev pub machine_keys : List MachineCall → ℕ
machine_keys [] = 0
machine_keys (key kc d ∷ rest) = suc (machine_keys rest)
machine_keys (_ ∷ rest) = machine_keys rest

set_shortcuts-same :
    (keymap : Keymap) (sm : Machine) (mask : ℕ) (targets : List ℕ)
    → ((machine_set_shortcuts keymap sm mask targets).base ≡ sm.base)
      × ((machine_set_shortcuts keymap sm mask targets).overlays_order ≡ sm.overlays_order)
      × ((machine_set_shortcuts keymap sm mask targets).overlays_enabled ≡ sm.overlays_enabled)
      × ((machine_set_shortcuts keymap sm mask targets).overlaid_keys ≡ sm.overlaid_keys)
unfolding machine_set_shortcuts
set_shortcuts-same keymap sm mask targets = ground arith

-- What a new machine starts from.
machine_new-parts :
    (b : MachineBuilder)
    → ((machine_new b).base ≡ server_state_init b.keymap server_state b.a11y_affect b.a11y_flags)
      × ((machine_new b).overlays_order ≡ 0)
      × ((machine_new b).overlays_enabled ≡ 0)
      × ((machine_new b).overlaid_keys ≡ [])
unfolding machine_new machine_set_mods
machine_new-parts b = set_shortcuts-same b.keymap _ b.shortcuts_mask b.shortcuts_targets

machine_new-IsReadyMachine :
    (b : MachineBuilder) (spare : ℕ)
    → IsCompiled b.keymap
    → spare < 32768
    → IsReadyMachine b.keymap spare (machine_new b)
machine_new-IsReadyMachine b spare compiled h =
    let (base, order, enabled, entries) = machine_new-parts b in
    record {
      state = rw base (
          server_state_init-IsValid b.keymap server_state b.a11y_affect b.a11y_flags spare compiled
            h);
      targets = rw entries tt;
    }

init-controls :
    (keymap : Keymap) (mode : Mode) (affect flags : ℕ)
    → (server_state_init keymap mode affect flags).components.controls ≡ 0
unfolding server_state_init state_init derive update_derived led_update_all
init-controls keymap mode affect flags = refl

machine_new-IsTracking : (b : MachineBuilder) → IsTracking (machine_new b)
machine_new-IsTracking b =
    let (base, order, enabled, entries) = machine_new-parts b in
    record {
      stack = [];
      stacked = record {
        order = order;
        stack = rw enabled (record { nibbles = tt; once = λ j k. ground (arith, testbit-zero j) });
        word = omega (arith, enabled);
      };
      enabled =
          enabled
          ∙ sym (
              ap overlays_from_controls (
                ap (λ (s : ServerState). s.components.controls) base
                ∙ init-controls b.keymap server_state b.a11y_affect b.a11y_flags));
    }

module _ (keymap : Keymap) (compiled : IsCompiled keymap) (array : WordArray keymap) where
  synthetic-IsReadyMachine :
      (spare : ℕ) (sm : Machine) (p : Option (Option Policy × ℕ)) (u : Option ComponentsUpdate)
      → WordUpdate u
      → IsReadyMachine keymap spare sm
      → IsReadyMachine keymap spare (machine_call keymap sm (synthetic p u))
  synthetic-IsReadyMachine spare sm p u w r =
      elim (Option-cases (machine_process_synthetic keymap sm p u)) [
        | inl e ↦ rw e r
        | inr (after, e) ↦
            rw e (machine_process_synthetic-IsReadyMachine keymap compiled array spare sm p u w r e)
      ]

  calls-IsReadyMachine :
      (l : List MachineCall) (sm : Machine) (spare : ℕ)
      → WordMachineCalls l
      → IsReadyMachine keymap (machine_keys l + spare) sm
      → IsReadyMachine keymap spare (machine_calls keymap sm l)
  calls-IsReadyMachine [] sm spare w r = subst (λ n. IsReadyMachine keymap n sm) (omega arith) r
  calls-IsReadyMachine (key kc d ∷ l) sm spare w r =
      calls-IsReadyMachine l (machine_process_key keymap sm kc d) spare w (
        machine_process_key-IsReadyMachine keymap compiled array (machine_keys l + spare) sm kc d
          (subst (λ n. IsReadyMachine keymap n sm) (omega arith) r))
  calls-IsReadyMachine (synthetic p u ∷ l) sm spare w r =
      calls-IsReadyMachine l (machine_call keymap sm (synthetic p u)) spare w.1
        (synthetic-IsReadyMachine (machine_keys l + spare) sm p u w.0 r)

calls-IsTracking :
    (keymap : Keymap) (l : List MachineCall) (sm : Machine)
    → keymap.v1_format ≡ false
    → IsTracking sm
    → IsTracking (machine_calls keymap sm l)
calls-IsTracking keymap [] sm format t = t
calls-IsTracking keymap (key kc d ∷ l) sm format t =
    calls-IsTracking keymap l _ format (machine_process_key-IsTracking keymap format sm kc d t)
calls-IsTracking keymap (synthetic p u ∷ l) sm format t =
    calls-IsTracking keymap l _ format
      (elim (Option-cases (machine_process_synthetic keymap sm p u)) [
        | inl e ↦ rw e t
        | inr (after, e) ↦ rw e (machine_process_synthetic-IsTracking keymap format sm p u t e)
      ])

-- On a keymap whose masks fit 32 bits and that has at most 32 groups: after any sequence of fewer
-- than 32768 key events and of synthetic updates, where the masks of latches and locks handed over
-- fit 32 bits, on a new machine, whatever its builder was told: the base modifiers are exactly
-- those that some key is counted to hold; the base, latched, locked and effective modifiers fit 32
-- bits, and so do the masks that the filters ask to be set or cleared and those of the actions of
-- overlaid keys; the effective modifiers are the union of the other three, the effective group is
-- the 32-bit sum of the base, latched and locked groups brought into range by the layout policy, the
-- locked and the effective group are layouts of the keymap or 0 where it has none, and the LEDs are
-- those that their maps light.
pub reachable-IsReadyMachine :
    (b : MachineBuilder) (l : List MachineCall)
    → IsCompiled b.keymap
    → WordArray b.keymap
    → WordMachineCalls l
    → machine_keys l < 32768
    → IsReadyMachine b.keymap 0 (machine_calls b.keymap (machine_new b) l)
reachable-IsReadyMachine b l compiled array w h =
    calls-IsReadyMachine b.keymap compiled array l (machine_new b) 0 w
      (machine_new-IsReadyMachine b _ compiled (omega arith))

-- After any sequence of calls on a new machine, on a keymap that is not of the first format, its
-- order word holds a stack of exactly the overlays that the controls enable, each once.
pub reachable-IsTracking :
    (b : MachineBuilder) (l : List MachineCall)
    → b.keymap.v1_format ≡ false
    → IsTracking (machine_calls b.keymap (machine_new b) l)
reachable-IsTracking b l format =
    calls-IsTracking b.keymap l (machine_new b) format (machine_new-IsTracking b)
