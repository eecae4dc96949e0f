-- ===== src/Atom.antt =====
-- The atom table of src/atom.c: strings interned as numbers, by a hash table with linear probing.
-- A string is the list of its bytes, without the NUL at its end; no byte of it is NUL. An atom is 0,
-- `XKB_ATOM_NONE`, or the position of its string behind the `NULL` at position 0.
pub mod Probing
pub mod Room
pub mod Placed
pub mod Search
pub mod Table
pub mod Interned
use libxkbcommon.Base.{
  ℕ, zero, suc, ◌+◌, ◌-◌, ◌*◌, ◌/◌, ◌%◌, Bool, true, false, ◌&&◌, Option, none, some, List, [], ◌∷◌,
  ◌++◌, ◌==◌, ltb, if◌then◌else◌, length, get_elem?, get_or, set, replicate, bit_and, bit_xor, u8,
  u32,
}

-- `struct atom_table`; `strings` are those behind the `NULL` at position 0.
pub record AtomTable : Type 0 where
  pub index : List ℕ
  pub index_size : ℕ
  pub strings : List (List ℕ)

-- The loop of `hash_buf` from `i` on, over `n` rounds.
unfoldable pub hash_loop : ℕ → List ℕ → ℕ → ℕ → ℕ
hash_loop zero string i hash = hash
hash_loop (suc n) string i hash =
    let front = u32 (bit_xor hash (get_or string i 0) * 0x01000193) in
    let back = u32 (bit_xor front (get_or string (length string - 1 - i) 0) * 0x01000193) in
    hash_loop n string (i + 1) back

-- `hash_buf`.
unfoldable pub hash_buf : List ℕ → ℕ
hash_buf string = hash_loop ((length string + 1) / 2) string 0 2166136261

-- `atom_table_new`.
unfoldable pub atom_table_new : AtomTable
atom_table_new = record { index = replicate 4 0; index_size = 4; strings = [] }

-- `atom_table_size`, which counts the `NULL`.
unfoldable pub atom_table_size : AtomTable → ℕ
atom_table_size table = suc (length table.strings)

-- `atom_text`: `none` for `NULL` and for what the assertion excludes.
unfoldable pub atom_text : AtomTable → ℕ → Option (List ℕ)
atom_text table zero = none
atom_text table (suc i) = get_elem? table.strings i

-- The comparison with an existing value, which ends where the string does.
abbrev pub same_text : List ℕ → List ℕ → Bool
same_text [] [] = true
same_text (x ∷ xs) (y ∷ ys) = x == y && same_text xs ys
same_text _ _ = false

abbrev pub index_pos : ℕ → ℕ → ℕ → ℕ
index_pos size hash i = bit_and (hash + i) (size - 1)

-- What a probe ends at: the atom of the string, a free position, or the end of the loop.
pub data Probe : Type 0 where
  existing vacant : ℕ → Probe
  full : Probe

abbrev pub is_text : AtomTable → ℕ → List ℕ → Bool
is_text table atom string = elim (get_elem? table.strings (atom - 1)) [
  | none ↦ false
  | some value ↦ same_text value string
]

-- The probing loop of `atom_intern` from `i` on, over `n` rounds. Position 0 is passed over.
unfoldable pub probe : ℕ → AtomTable → List ℕ → ℕ → ℕ → Probe
probe zero table string hash i = full
probe (suc n) table string hash i =
    let pos = index_pos table.index_size hash i in
    let atom = get_or table.index pos 0 in
    let next = probe n table string hash (i + 1) in
    if pos == 0
    then next
    else if atom == 0
    then vacant pos
    else if is_text table atom string
    then existing atom
    else next

-- The inner loop of the resize: the atom is put at the first free position.
unfoldable pub place : ℕ → List ℕ → ℕ → ℕ → ℕ → ℕ → List ℕ
place zero index size hash atom i = index
place (suc n) index size hash atom i =
    let pos = index_pos size hash i in
    let next = place n index size hash atom (i + 1) in
    if pos == 0 then next else if get_or index pos 0 == 0 then set index pos atom else next

-- The loop of the resize over the strings, from atom `j` on.
unfoldable pub place_all : List (List ℕ) → ℕ → List ℕ → ℕ → List ℕ
place_all [] j index size = index
place_all (string ∷ rest) j index size =
    place_all rest (j + 1) (place size index size (hash_buf string) j 0) size

-- The resize of `atom_intern`, where memory is available.
unfoldable pub grow_index : AtomTable → AtomTable
grow_index table =
    if ltb (table.index_size / 5 * 4) (atom_table_size table)
    then (let size = table.index_size * 2 in
        record table {
          index_size = size;
          index = place_all table.strings 1 (replicate size 0) size;
        })
    else table

-- `atom_intern`: the table and the atom. The end of the loop is an assertion that fails.
unfoldable pub intern_at : AtomTable → List ℕ → Bool → Probe → AtomTable × ℕ
intern_at table string add (existing atom) = (table, atom)
intern_at table string add (vacant pos) =
    let atom = atom_table_size table in
    if add
    then (
      record table { strings = table.strings ++ (string ∷ []); index = set table.index pos atom },
      atom,
    )
    else (table, 0)
intern_at table string add full = (table, 0)

unfoldable pub atom_intern : AtomTable → List ℕ → Bool → AtomTable × ℕ
atom_intern table string add =
    let grown = grow_index table in
    intern_at grown string add (probe grown.index_size grown string (hash_buf string) 0)
