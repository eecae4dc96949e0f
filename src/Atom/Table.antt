-- ===== src/Atom/Table.antt =====
-- What holds of a table between the calls of src/atom.c, and the resize that keeps it.
use native.Mathlib.Nat.{div-add-mod, pow-suc}
use libxkbcommon.Base.{
  ℕ, suc, ◌+◌, ◌*◌, ◌/◌, ◌^◌, ◌<◌, ◌≡◌, refl, sym, ap, ◌∙◌, arith, Bool-cases, inl, inr, some, List,
  ltb, length, get_elem?, replicate,
}
use libxkbcommon.Atom.{AtomTable, hash_buf, atom_table_new, atom_table_size, place_all, grow_index}
use libxkbcommon.Atom.Probing.{Reaches}
use libxkbcommon.Atom.Room.{taken, taken-replicate, length-replicate}
use libxkbcommon.Atom.Placed.{IsPlacing, place_all-IsPlacing}

-- The size is a power of two, the index holds the atoms of the strings and leaves room, no string has
-- two atoms, and a probe for a string comes to its atom.
pub record IsAtomTable (table : AtomTable) : Type 0 where
  pub width : ℕ
  pub size_power : table.index_size ≡ 2 ^ width
  pub length_index : length table.index ≡ 2 ^ width
  pub taken_index : taken table.index ≡ length table.strings
  pub room : length table.strings < 2 ^ width
  pub distinct :
      (a b : ℕ) (string : List ℕ)
      → get_elem? table.strings a ≡ some string
      → get_elem? table.strings b ≡ some string
      → a ≡ b
  pub reached :
      (a : ℕ) (string : List ℕ)
      → get_elem? table.strings a ≡ some string
      → Reaches table.index (2 ^ width) (hash_buf string) (suc a) 0 (2 ^ width)

pub atom_table_new-IsAtomTable : IsAtomTable atom_table_new
unfolding atom_table_new
atom_table_new-IsAtomTable = record {
  width = 2;
  size_power = refl;
  length_index = refl;
  taken_index = refl;
  room = omega arith;
  distinct = λ a b string e f. absurd (ground arith);
  reached = λ a string e. absurd (ground arith);
}

-- After the resize the table is as before it, and has room for another string.
pub record IsRoomy (before table : AtomTable) : Type 0 where
  pub valid : IsAtomTable table
  pub more_room : length table.strings + 1 < 2 ^ valid.width
  pub strings_kept : table.strings ≡ before.strings

resized :
    (table : AtomTable)
    → IsAtomTable table
    → IsRoomy table (record table {
      index_size = table.index_size * 2;
      index = place_all table.strings 1 (replicate (table.index_size * 2) 0) (table.index_size * 2);
    })
resized table v =
    let w : ℕ = suc v.width in
    let power : 2 ^ w ≡ 2 ^ v.width * 2 = pow-suc 2 v.width in
    let twice : table.index_size * 2 ≡ 2 ^ w = ap (λ n. n * 2) v.size_power ∙ sym power in
    let roomy : length table.strings + 1 < 2 ^ w = omega (arith, power, v.room) in
    let placed : IsPlacing w table.strings 1 (replicate (2 ^ w) 0)
        (place_all table.strings 1 (replicate (2 ^ w) 0) (2 ^ w)) =
      place_all-IsPlacing w table.strings 1 (replicate (2 ^ w) 0) (ground arith)
        (length-replicate (2 ^ w) 0) (omega (arith, taken-replicate (2 ^ w), roomy)) in
    rw twice (record {
      valid = record {
        width = w;
        size_power = refl;
        length_index = placed.length_kept;
        taken_index = omega (arith, placed.taken_grown, taken-replicate (2 ^ w));
        room = omega arith;
        distinct = v.distinct;
        reached = λ a string e.
            let behind_null : suc a ≡ 1 + a = omega arith in
            rw behind_null (placed.reached a string e);
      };
      more_room = roomy;
      strings_kept = refl;
    })

pub grow_index-IsRoomy : (table : AtomTable) → IsAtomTable table → IsRoomy table (grow_index table)
unfolding grow_index atom_table_size
grow_index-IsRoomy table v =
    elim (Bool-cases (ltb (table.index_size / 5 * 4) (suc (length table.strings)))) [
      | inl t ↦ rw t (resized table v)
      | inr f ↦ rw f (record {
        valid = v;
        more_room = ground (arith, div-add-mod table.index_size 5, v.size_power);
        strings_kept = refl;
      })
    ]
