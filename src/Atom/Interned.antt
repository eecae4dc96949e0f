-- ===== src/Atom/Interned.antt =====
-- `atom_intern` does to the strings what a search of their list does.
use mathlib.Core.Option.{some-injective}
use libxkbcommon.Base.{
  ℕ, zero, suc, ◌+◌, ◌-◌, ◌^◌, ◌<◌, ◌≡◌, ◌≢◌, ◌⊎◌, refl, sym, ap, ◌∙◌, arith, Bool, true, false,
  Option-cases, inl, inr, Option, none, some, List, [], ◌∷◌, ◌++◌, length, get_elem?, set,
  length-set,
}
use libxkbcommon.Atom.{
  AtomTable, hash_buf, atom_table_size, atom_text, same_text, index_pos, existing, vacant, is_text,
  probe, grow_index, intern_at, atom_intern,
}
use libxkbcommon.Atom.Probing.{
  Reaches-set, probe-finds, same_text_refl, same_text-eq, IsUnique, IsAbsent, IsVacancy, vacancy,
}
use libxkbcommon.Atom.Room.{taken, taken-set, index_pos-lt, HasVacant-of_room}
use libxkbcommon.Atom.Search.{find_string, find_string-some, find_string-none, intern_list}
use libxkbcommon.Atom.Table.{IsAtomTable, IsRoomy, grow_index-IsRoomy}

is_text-of_text :
    (table : AtomTable) (a : ℕ) (string : List ℕ)
    → get_elem? table.strings a ≡ some string
    → is_text table (suc a) string ≡ true
is_text-of_text table a string e =
    let behind_null : suc a - 1 ≡ a = omega arith in
    rw (is_text, behind_null, e) (same_text_refl string)

text-of_is_text :
    (table : AtomTable) (b : ℕ) (string : List ℕ)
    → is_text table b string ≡ true
    → get_elem? table.strings (b - 1) ≡ some string
text-of_is_text table b string e = elim (Option-cases (get_elem? table.strings (b - 1))) [
  | inl out ↦ absurd (ground arith)
  | inr (value, at) ↦
      let hit : same_text value string ≡ true = ground arith in
      at ∙ ap some (same_text-eq value string hit)
]

present_is_found :
    (table : AtomTable) (string : List ℕ) (a : ℕ)
    → IsAtomTable table
    → get_elem? table.strings a ≡ some string
    → probe table.index_size table string (hash_buf string) 0 ≡ existing (suc a)
present_is_found table string a v e =
    let unique : IsUnique table (suc a) string = λ b live hit.
      let at = v.distinct (b - 1) a string (text-of_is_text table b string hit) e in
      omega (arith, at, live) in
    probe-finds table.index_size table string (hash_buf string) (suc a) 0
      (λ h. absurd (ground arith)) (is_text-of_text table a string e) unique
      (rw v.size_power (v.reached a string e))

find_string-IsAbsent :
    (table : AtomTable) (string : List ℕ)
    → find_string table.strings string ≡ none
    → IsAbsent table string
find_string-IsAbsent table string e = λ b live.
    elim (Option-cases (get_elem? table.strings (b - 1))) [
      | inl out ↦ rw (is_text, out) refl
      | inr (value, at) ↦
          rw (is_text, at) (find_string-none table.strings string value (b - 1) e at)
    ]

-- The table with the string put at a free position.
abbrev added : AtomTable → List ℕ → ℕ → AtomTable
added table string pos = record table {
  strings = table.strings ++ (string ∷ []);
  index = set table.index pos (suc (length table.strings));
}

length_append : (l : List (List ℕ)) (string : List ℕ) → length (l ++ (string ∷ [])) ≡ suc (length l)
length_append [] string = refl
length_append (x ∷ l) string = ap suc (length_append l string)

-- What stands in the longer list: an earlier string, or the new one behind them.
append_cases :
    (l : List (List ℕ)) (string value : List ℕ) (a : ℕ)
    → get_elem? (l ++ (string ∷ [])) a ≡ some value
    → (get_elem? l a ≡ some value) ⊎ ((a ≡ length l) × (string ≡ value))
append_cases [] string value zero e = inr (refl, some-injective string value e)
append_cases [] string value (suc a) e = absurd (ground arith)
append_cases (x ∷ l) string value zero e = inl e
append_cases (x ∷ l) string value (suc a) e = elim (append_cases l string value a e) [
  | inl old ↦ inl old
  | inr (at, is) ↦ inr (ap suc at, is)
]

absent_at :
    (table : AtomTable) (string : List ℕ) (a : ℕ)
    → find_string table.strings string ≡ none
    → get_elem? table.strings a ≡ some string
    → ⊥
absent_at table string a n e =
    let hit = same_text_refl string in
    let miss = find_string-none table.strings string string a n e in absurd (ground arith)

added-IsAtomTable :
    (before table : AtomTable) (string : List ℕ) (pos : ℕ) (r : IsRoomy before table)
    → find_string table.strings string ≡ none
    → pos < length table.index
    → IsVacancy table.index
        (2 ^ r.valid.width)
        (hash_buf string)
        (suc (length table.strings))
        0
        (2 ^ r.valid.width)
        pos
    → IsAtomTable (added table string pos)
added-IsAtomTable before table string pos r n b v =
    let old = r.valid in
    let new : ℕ = suc (length table.strings) in
    let longer = length_append table.strings string in
    let live : new ≢ 0 = λ e. absurd (ground arith) in
    record {
      width = old.width;
      size_power = old.size_power;
      length_index = length-set table.index pos new ∙ old.length_index;
      taken_index =
          omega (arith, longer, taken-set table.index pos new v.free b live, old.taken_index);
      room = omega (arith, longer, r.more_room);
      distinct = λ a c value e f. elim (append_cases table.strings string value a e) [
        | inl here ↦ elim (append_cases table.strings string value c f) [
          | inl there ↦ old.distinct a c value here there
          | inr (at, is) ↦ absurd (absent_at table string a n (here ∙ ap some (sym is)))
        ]
        | inr (at, is) ↦ elim (append_cases table.strings string value c f) [
          | inl there ↦ absurd (absent_at table string c n (there ∙ ap some (sym is)))
          | inr (at', is') ↦ at ∙ sym at'
        ]
      ];
      reached = λ a value e. elim (append_cases table.strings string value a e) [
        | inl here ↦
            Reaches-set (2 ^ old.width) table.index (2 ^ old.width) (hash_buf value) (suc a) 0 pos
              new (λ h. absurd (ground arith)) v.free b live (old.reached a value here)
        | inr (at, is) ↦ rw (at, ← is) v.reached
      ];
    }

-- The list of the strings and the atom.
abbrev pub strings_and_atom : AtomTable × ℕ → List (List ℕ) × ℕ
strings_and_atom (table, atom) = (table.strings, atom)

abbrev interned : AtomTable → List ℕ → Bool → AtomTable × ℕ
interned table string add =
    intern_at table string add (probe table.index_size table string (hash_buf string) 0)

-- Where no atom has the string, the probe ends at a free position for it.
absent_is_vacant :
    (before table : AtomTable) (string : List ℕ) (r : IsRoomy before table)
    → find_string table.strings string ≡ none
    → (pos : ℕ) × (pos < length table.index)
      × IsVacancy table.index
          (2 ^ r.valid.width)
          (hash_buf string)
          (suc (length table.strings))
          0
          (2 ^ r.valid.width)
          pos
      × (probe table.index_size table string (hash_buf string) 0 ≡ vacant pos)
absent_is_vacant before table string r missing =
    let w : ℕ = r.valid.width in
    let bound : (i : ℕ) → index_pos (2 ^ w) (hash_buf string) i < length table.index =
      λ i. rw r.valid.length_index (index_pos-lt w (hash_buf string) i) in
    let roomy : taken table.index + 1 < length table.index =
      omega (arith, r.more_room, r.valid.length_index, r.valid.taken_index) in
    let (pos, inside, v) =
      vacancy table.index (2 ^ w) (hash_buf string) (suc (length table.strings))
        (λ e. absurd (ground arith)) bound (2 ^ w) 0
        (HasVacant-of_room table.index w (hash_buf string) r.valid.length_index roomy) in
    let ended =
      ap (λ n. probe n (record table { index_size = n }) string (hash_buf string) 0)
        r.valid.size_power
      ∙ v.probed table.strings string (find_string-IsAbsent table string missing) in
    (pos, inside, v, ended)

intern_vacant_lem :
    (before table : AtomTable) (string : List ℕ) (add : Bool) (pos : ℕ) (r : IsRoomy before table)
    → find_string table.strings string ≡ none
    → pos < length table.index
    → IsVacancy table.index
        (2 ^ r.valid.width)
        (hash_buf string)
        (suc (length table.strings))
        0
        (2 ^ r.valid.width)
        pos
    → IsAtomTable (intern_at table string add (vacant pos)).0
      × (strings_and_atom (intern_at table string add (vacant pos))
          ≡ intern_list table.strings string add)
unfolding intern_at atom_table_size
intern_vacant_lem before table string true pos r missing inside v =
    (added-IsAtomTable before table string pos r missing inside v, rw (intern_list, missing) refl)
intern_vacant_lem before table string false pos r missing inside v =
    (r.valid, rw (intern_list, missing) refl)

interned_lem :
    (before table : AtomTable) (string : List ℕ) (add : Bool)
    → IsRoomy before table
    → IsAtomTable (interned table string add).0
      × (strings_and_atom (interned table string add) ≡ intern_list table.strings string add)
unfolding intern_at
interned_lem before table string add r = elim (Option-cases (find_string table.strings string)) [
  | inr (i, found) ↦
      let at = find_string-some table.strings string i found in
      rw (present_is_found table string i r.valid at) (r.valid, rw (intern_list, found) refl)
  | inl missing ↦
      let (pos, inside, v, ended) = absent_is_vacant before table string r missing in
      rw ended (intern_vacant_lem before table string add pos r missing inside v)
]

-- Interning a string, whether it may be added or not, keeps the invariant of the table: the index has
-- a power of two for its size, holds the atoms of the strings and a free position more, no string has
-- two atoms, and probing for a string comes to its atom before any free position.
pub atom_intern-IsAtomTable :
    (table : AtomTable) (string : List ℕ) (add : Bool)
    → IsAtomTable table
    → IsAtomTable (atom_intern table string add).0
unfolding atom_intern
atom_intern-IsAtomTable table string add v =
    (interned_lem table (grow_index table) string add (grow_index-IsRoomy table v)).0

-- On a table with the invariant, the hash table with its probing and its resize does what a search of
-- the list of the strings does: a string that is there gives its position, one that is not is appended
-- and gives the next position where it may be added, and otherwise gives no atom and no change. In
-- particular the loop never comes to its end, where an assertion fails.
pub atom_intern-refines :
    (table : AtomTable) (string : List ℕ) (add : Bool)
    → IsAtomTable table
    → strings_and_atom (atom_intern table string add) ≡ intern_list table.strings string add
unfolding atom_intern
atom_intern-refines table string add v =
    let r = grow_index-IsRoomy table v in
    (interned_lem table (grow_index table) string add r).1
    ∙ ap (λ strings. intern_list strings string add) r.strings_kept

get_elem?-append :
    (l : List (List ℕ)) (string : List ℕ) → get_elem? (l ++ (string ∷ [])) (length l) ≡ some string
get_elem?-append [] string = refl
get_elem?-append (x ∷ l) string = get_elem?-append l string

text_in : List (List ℕ) × ℕ → Option (List ℕ)
text_in (strings, atom) = atom_text (record { index = []; index_size = 0; strings = strings }) atom

text_in_interned :
    (strings : List (List ℕ)) (string : List ℕ)
    → text_in (intern_list strings string true) ≡ some string
unfolding text_in atom_text
text_in_interned strings string = elim (Option-cases (find_string strings string)) [
  | inl missing ↦ rw (intern_list, missing) (get_elem?-append strings string)
  | inr (i, found) ↦ rw (intern_list, found) (find_string-some strings string i found)
]

text_in_view :
    (table : AtomTable) (atom : ℕ) → atom_text table atom ≡ text_in (strings_and_atom (table, atom))
unfolding text_in atom_text
text_in_view table zero = refl
text_in_view table (suc i) = refl

-- On a table with the invariant, the text of the atom that interning a string gives is that string.
pub atom_text-atom_intern :
    (table : AtomTable) (string : List ℕ)
    → IsAtomTable table
    → atom_text (atom_intern table string true).0 (atom_intern table string true).1 ≡ some string
atom_text-atom_intern table string v =
    text_in_view (atom_intern table string true).0 (atom_intern table string true).1
    ∙ ap text_in (atom_intern-refines table string true v)
    ∙ text_in_interned table.strings string
