-- ===== src/Machine/Overlays.antt =====
-- The overlays of a machine: the order in which they were enabled (`machine_update_overlays`), and
-- the keys that are overlaid (`process_overlayable_key` of src/state.c).
pub mod Digits
pub mod Order
pub mod Stack
pub mod Keys
use libxkbcommon.Base.{
  ℕ, zero, suc, ◌+◌, ◌-◌, ◌*◌, ◌/◌, ◌^◌, Bool, ◌||◌, Option, none, some, List, [], ◌∷◌, ◌==◌, leb,
  if◌then◌else◌, get_elem?, get_or, set, bit_and, bit_or, has, clear, u8, u32,
}
use libxkbcommon.Keymap.{Keymap, Key, KeyRef, key_at}
use libxkbcommon.State.Types.{Direction, up, down, repeated}
use libxkbcommon.Machine.{OverlaidKey, Machine}
use libxkbcommon.Machine.Config.{popcount32}

-- `OVERLAYS_FROM_CONTROLS`.
abbrev pub overlays_from_controls : ℕ → ℕ
overlays_from_controls controls = bit_and (controls / 2) 255

-- `format_max_overlays`.
abbrev pub format_max_overlays : Bool → ℕ
format_max_overlays v1_format = if v1_format then 2 else 8

-- `(order & head) | ((order >> 4) & ~head)`: the nibble `n` taken out.
abbrev pub remove_nibble : ℕ → ℕ → ℕ
remove_nibble order n =
    let head = u32 (2 ^ (n * 4)) - 1 in bit_or (bit_and order head) (clear (order / 16) head)

-- The loop that takes out the overlays that are no longer enabled, at nibble `n`, with the mask
-- `added`. A round goes on to the next nibble or shortens the rest, hence the fuel.
unfoldable pub keep_enabled : ℕ → ℕ → ℕ → ℕ → ℕ → ℕ → ℕ × ℕ
keep_enabled zero overlay_max mask n order added = (order, added)
keep_enabled (suc fuel) overlay_max mask n order added =
    let index = bit_and (order / 2 ^ (n * 4)) 15 in
    let overlay_mask = u8 (2 ^ (index - 1)) in
    let stays = has mask overlay_mask in
    let next =
      keep_enabled fuel overlay_max mask (if stays then n + 1 else n)
        (if stays then order else remove_nibble order n)
        (if stays then clear added overlay_mask else added) in
    if leb overlay_max n || (index == 0) then (order, added) else next

-- The loop that adds the new overlays in ascending order, from index `k` on.
unfoldable pub add_overlays : ℕ → ℕ → ℕ → ℕ → ℕ
add_overlays zero k added order = order
add_overlays (suc fuel) k added order =
    add_overlays fuel (k + 1) (added / 2)
      (if has added 1 then bit_or (u32 (order * 16)) (k + 1) else order)

-- The new order; `mask` are the overlays that are now enabled. Eight nibbles are all that 32 bits
-- hold, so 16 rounds are enough; `added` has 8 bits.
unfoldable pub overlays_order_after : ℕ → ℕ → ℕ → ℕ → ℕ
overlays_order_after overlay_max mask enabled order =
    let (order', added) = keep_enabled 17 overlay_max mask 0 order (clear mask enabled) in
    add_overlays 8 0 added order'

-- `machine_update_overlays`.
unfoldable pub machine_update_overlays : Keymap → Machine → Machine
machine_update_overlays keymap sm =
    let mask = overlays_from_controls sm.base.components.controls in
    record sm {
      overlays_order =
          overlays_order_after (format_max_overlays keymap.v1_format) mask sm.overlays_enabled
            sm.overlays_order;
      overlays_enabled = mask;
    }

-- The `switch (direction)` on the entry of an overlaid key. The count is at least 1 in an entry
-- that is not free.
unfoldable pub count_presses : Direction → ℕ → ℕ
count_presses down refcnt = refcnt + 1
count_presses repeated refcnt = refcnt
count_presses up refcnt = refcnt - 1

-- The entry of the key with address `old`, if any.
unfoldable pub find_entry : List OverlaidKey → ℕ → Option OverlaidKey
find_entry [] old = none
find_entry (entry ∷ rest) old =
    let further = find_entry rest old in if entry.old == old then some entry else further

-- A use of an entry, which is given up with its last press.
abbrev pub use_entry : OverlaidKey → Direction → OverlaidKey
use_entry entry d =
    let refcnt = count_presses d entry.refcnt in
    record entry { refcnt = refcnt; old = if refcnt == 0 then 0 else entry.old }

-- The entries with that of the key used.
unfoldable pub use_key : List OverlaidKey → ℕ → Direction → List OverlaidKey
use_key [] old d = []
use_key (entry ∷ rest) old d =
    let further = use_key rest old d in
    if entry.old == old then use_entry entry d ∷ rest else entry ∷ further

-- The first free entry taken, or a new one appended.
unfoldable pub put_entry : List OverlaidKey → OverlaidKey → List OverlaidKey
put_entry [] new = new ∷ []
put_entry (entry ∷ rest) new =
    let further = put_entry rest new in if entry.old == 0 then new ∷ rest else entry ∷ further

-- The address of the target of one overlay, given as a mask of one bit.
abbrev pub overlay_address : Key → ℕ → ℕ
overlay_address key mask =
    if key.overlays_inline
    then key.overlay_key
    else get_or key.overlays_keys (popcount32 (bit_and key.overlays (mask - 1))) 0

-- The loop over the stack of overlays: the target of the latest one that the key has.
unfoldable pub latest_target : ℕ → Key → ℕ → Option ℕ
latest_target zero key stack = none
latest_target (suc fuel) key stack =
    let mask = u8 (2 ^ (bit_and stack 15 - 1)) in
    let next = latest_target fuel key (stack / 16) in
    if stack == 0
    then none
    else if has key.overlays mask
    then some (overlay_address key mask)
    else next

-- The key that a press of an overlayable key stands for. A target that is no key of the keymap
-- does not occur; the key then stands for itself.
unfoldable pub overlay_target : Keymap → Machine → KeyRef → KeyRef
overlay_target keymap sm key =
    if has key.key.overlays sm.overlays_enabled
    then elim (latest_target 8 key.key sm.overlays_order) [
      | none ↦ key
      | some address ↦ elim (key_at keymap address) [ none ↦ key | some target ↦ target ]
    ]
    else key

abbrev pub with_overlaid : Machine → List OverlaidKey → Machine
with_overlaid sm entries = record sm { overlaid_keys = entries }

-- A key that is not overlaid yet.
unfoldable pub enable_overlay : Keymap → Machine → KeyRef → Direction → Machine × KeyRef
enable_overlay keymap sm key down =
    let new = overlay_target keymap sm key in
    (
      with_overlaid sm
          (put_entry sm.overlaid_keys (record { old = key.address; new = new; refcnt = 1 })),
      new,
    )
enable_overlay keymap sm key _ = (sm, key)

-- `process_overlayable_key`: the machine and the key that takes the place of `key`.
unfoldable pub process_overlayable_key : Keymap → Machine → KeyRef → Direction → Machine × KeyRef
process_overlayable_key keymap sm key d = elim (find_entry sm.overlaid_keys key.address) [
  | none ↦ enable_overlay keymap sm key d
  | some entry ↦ (with_overlaid sm (use_key sm.overlaid_keys key.address d), entry.new)
]
