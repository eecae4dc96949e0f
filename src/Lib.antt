-- ===== src/Lib.antt =====
-- The keyboard state machine of libxkbcommon, modelled from its C sources.
--
-- A compiled keymap (src/keymap.h) says which keys exist and what each does at each level of each
-- group. A state (src/state.c) follows key events: the actions of a key start filters, which change
-- groups, latched and locked modifiers and controls, and ask for base modifiers to be set or
-- cleared; the entry points then count the keys that hold each base modifier, and derive the
-- effective modifiers, the effective group and the LEDs. A client state is told the serialized
-- components instead.
--
-- A machine (the end of src/state.c) wraps a server state: it replaces keys by the targets of
-- overlays, remaps modifiers and layouts around a key event, and queues the events that tell a
-- client of each change; a client state is kept in step with it by those events. Its options are
-- collected in a builder.
--
-- Compose (src/compose) is a second machine beside it: a table of sequences, kept as a ternary search
-- tree, and a state that follows keysyms through the tree and says when a sequence is complete.
-- Names are interned as numbers by the atom table of src/atom.c, which the keymap compiler uses.
-- Strings are UTF-8, which src/utf8.c writes and src/utf8-decoding.c reads.
--
-- Files, and the code they are about:
--   Base, Digits     numbers, lists, machine words, bit masks and shifts
--   Keymap           structures of src/keymap.h; XkbKey; XkbWrapGroupIntoRange and the look-ups of
--                    src/keymap-priv.c; mod_mask_get_effective of src/state.c
--   Keymap/Wrap      group wrapping
--   Keymap/KeyTable  key look-up
--   Keymap/Queries   xkb_keymap_* of src/keymap.c, except queries by name
--   Keymap/Iterator  xkb_keymap_key_iterator_* (Ascending: what a client reads)
--   State/Types      structures of src/state.c and src/state-priv.h
--   State/Actions    xkb_key_get_actions, xkb_action_breaks_latch
--   State/Filters    the handlers xkb_filter_*_new and xkb_filter_*_func
--                    (Groups/Tap: a tap of a group latch)
--   State/Apply      xkb_filter_new, xkb_filter_apply_all
--   State/Derived    xkb_state_update_derived, xkb_state_led_update_all
--   State/Latches    update_latch_modifiers, update_latch_group, state_update_latched_locked,
--                    clear_all_latches_and_locks
--   State/Update     the entry points xkb_state_new*, xkb_state_update_key,
--                    xkb_state_update_latched_locked, xkb_state_update_synthetic,
--                    xkb_state_update_mask, and state_update_enabled_controls
--   State/Query      serialize_*, match_mod_masks, xkb_state_*_is_active, key_get_consumed
--                    (Levels: the modifiers of a level against the level of a state)
--   State/Frame      what the filters leave alone
--   Machine          struct xkb_machine, struct xkb_machine_builder
--   Machine/Builder  xkb_machine_builder_* (Remap: the mappings as a map, and errors)
--   Machine/Config   xkb_machine_new, machine_set_mods, machine_set_shortcuts, cmp_mod_masks
--                    (Mappings: their order; Remaps: what a key event remaps)
--   Machine/Overlays machine_update_overlays, process_overlayable_key (Digits, Order, Stack: the
--                    order word as a stack; Keys: the overlaid keys as a map)
--   Machine/Tweaks   do_remap_modifiers, do_shortcuts_tweak, undo_tweaks
--   Machine/Events   xkb_events_next, xkb_event_*, xkb_state_update_event
--   Machine/Process  xkb_machine_process_key, xkb_machine_process_synthetic (Invariant, Tracking,
--                    Calls: what they keep; Following: a state that follows the events)
--   Compose          struct compose_node, add_production, xkb_compose_state_*
--   Compose/Trie     children behind their parents, and paths through the tree
--   Compose/Insert   insertion, step by step
--   Compose/Feed     following a path
--   Atom             struct atom_table, atom_intern, atom_text
--   Atom/Probing     linear probing finds what was put (Room: a free position; Placed: the resize)
--   Atom/Table       the invariant of the table and the resize (Search: the list of the strings;
--                    Interned: interning against a search of the list)
--   Utf8             utf32_to_utf8 and is_valid_utf8 of src/utf8.c, utf8_next_code_point of
--                    src/utf8-decoding.c
--   Tests            small keymaps, and the theorems applied to it
--
-- Choices. A state is passed explicitly. A `uint32_t` is a number; an `int32_t` is its bit pattern,
-- and group arithmetic wraps, where the signed overflow of C is undefined. A filter is passed to its
-- handler by value and written back at its index; the handler a filter points to is a constructor.
-- A pointer to a key is an address with the key, since the source compares keys by address. The
-- event queue is part of the state, absent where the source passes NULL. Memory is not modelled:
-- allocation succeeds, and reference counts of the API objects are left out.
--
-- Fuel. `search_key` has the length of the key array and one more: the interval shrinks at each
-- round. `run_filters` has three times the number of filters and one more: a filter is visited once,
-- and appends at most two, for the two latches that clearing all latches and locks adds, which stay
-- on their own event. The loops over modifiers have 32 rounds, one per modifier.
-- A Compose lookup has the length of the node array, and an insertion that and the length of the
-- sequence: children stand behind their parents.
-- `clear_all_latches_and_locks` runs the filters on two synthetic keys and takes the identity for
-- the control handlers inside: those act on releases of their own key only.
-- The loops of a machine over the overlays have 17, 8 and 8 rounds: a round of the first keeps or
-- takes out one of at most eight overlays, and both others have one for each overlay.
-- `qsort` is an insertion sort: the comparison is a total order on different masks, and a builder
-- holds each source mask once, so that there is one sorted result.
-- The loops of the atom table have as many rounds as the index has positions, as in the source; that
-- the end of the loop is never reached is a theorem.
-- The union of a Compose node is its two words, read by the flag of a leaf; offsets into the strings
-- stay below 2 ^ 31.
--
-- Not modelled: the checks of the sizes of update structures in src/state.c, queries by name,
-- keysyms and strings of a key, the names and the output of src/keymap.c, src/xkbcomp,
-- src/registry.c, src/context.c, src/x11, tools, and of src/compose the lexer, the iterator and
-- the strings of a state. `xkb_state_update_mask` on a mixed state sets base modifiers that no
-- key is counted to hold, and is left out of the calls after which the two are compared.
pub mod Atom
pub mod Base
pub mod Compose
pub mod Digits
pub mod Keymap
pub mod Machine
pub mod State
pub mod Tests
pub mod Utf8
