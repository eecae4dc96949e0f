-- ===== src/Tests/Atoms.antt =====
-- Atom tables for the theorems on src/atom.c.
use libxkbcommon.Base.{ℕ, ◌≡◌, refl, true, false, some, List, [], ◌∷◌}
use libxkbcommon.Atom.{
  AtomTable, hash_buf, hash_loop, atom_table_new, atom_table_size, atom_text, atom_intern,
  intern_at, probe, place, place_all, grow_index,
}
use libxkbcommon.Atom.Search.{intern_list}
use libxkbcommon.Atom.Table.{IsAtomTable, atom_table_new-IsAtomTable}
use libxkbcommon.Atom.Interned.{
  strings_and_atom, atom_intern-IsAtomTable, atom_intern-refines, atom_text-atom_intern,
}

abbrev letter_a : List ℕ
letter_a = 97 ∷ []

abbrev word : List ℕ
word = 120 ∷ 107 ∷ 98 ∷ []

abbrev one_string : AtomTable
one_string = (atom_intern atom_table_new letter_a true).0

one_string-IsAtomTable : IsAtomTable one_string
one_string-IsAtomTable =
    atom_intern-IsAtomTable atom_table_new letter_a true atom_table_new-IsAtomTable

-- FNV-1a over the bytes from both ends.
hash_of_word : hash_buf word ≡ 2598373685
unfolding hash_buf hash_loop
hash_of_word = refl

second_atom : (atom_intern one_string word true).1 ≡ 2
unfolding atom_intern intern_at probe grow_index atom_table_new atom_table_size hash_buf hash_loop
    place_all
second_atom = refl

intern_all : List (List ℕ) → AtomTable → AtomTable
intern_all [] table = table
intern_all (string ∷ rest) table = intern_all rest (atom_intern table string true).0

-- The fifth string makes the index grow, and the atoms stay.
after_growth :
    (atom_intern
      (intern_all (letter_a ∷ word ∷ (1 ∷ []) ∷ (2 ∷ []) ∷ (3 ∷ []) ∷ []) atom_table_new)
      word
      false).1
    ≡ 2
unfolding atom_intern intern_at probe grow_index atom_table_new atom_table_size hash_buf hash_loop
    place_all place intern_all
after_growth = refl

atom_intern-refines_example :
    strings_and_atom (atom_intern one_string word true) ≡ intern_list one_string.strings word true
atom_intern-refines_example = atom_intern-refines one_string word true one_string-IsAtomTable

atom_intern-IsAtomTable_example : IsAtomTable (atom_intern one_string word true).0
atom_intern-IsAtomTable_example =
    atom_intern-IsAtomTable one_string word true one_string-IsAtomTable

atom_text-atom_intern_example :
    atom_text (atom_intern one_string word true).0 (atom_intern one_string word true).1 ≡ some word
atom_text-atom_intern_example = atom_text-atom_intern one_string word one_string-IsAtomTable
