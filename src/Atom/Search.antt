-- ===== src/Atom/Search.antt =====
-- What interning does to the list of the strings: a search, and an append where it finds nothing.
use libxkbcommon.Base.{
  ℕ, zero, suc, ◌≡◌, refl, arith, Bool, false, Bool-cases, Option-cases, inl, inr, Option, none,
  some, List, [], ◌∷◌, ◌++◌, if◌then◌else◌, length, get_elem?,
}
use libxkbcommon.Atom.{same_text}
use libxkbcommon.Atom.Probing.{same_text-eq}

abbrev pub find_string : List (List ℕ) → List ℕ → Option ℕ
find_string [] string = none
find_string (x ∷ l) string =
    let rest = find_string l string in
    if same_text x string then some 0 else elim rest [ none ↦ none | some i ↦ some (suc i) ]

abbrev pub intern_list : List (List ℕ) → List ℕ → Bool → List (List ℕ) × ℕ
intern_list strings string add = elim (find_string strings string) [
  | some i ↦ (strings, suc i)
  | none ↦ if add then (strings ++ (string ∷ []), suc (length strings)) else (strings, 0)
]

pub find_string-some :
    (l : List (List ℕ)) (string : List ℕ) (i : ℕ)
    → find_string l string ≡ some i
    → get_elem? l i ≡ some string
find_string-some [] string i e = absurd (ground arith)
find_string-some (x ∷ l) string i e = elim (Bool-cases (same_text x string)) [
  | inl hit ↦ let first : i ≡ 0 = ground arith in rw (first, same_text-eq x string hit) refl
  | inr miss ↦ elim (Option-cases (find_string l string)) [
    | inl none_found ↦ absurd (ground arith)
    | inr (j, found) ↦
        let later : i ≡ suc j = ground arith in rw later (find_string-some l string j found)
  ]
]

pub find_string-none :
    (l : List (List ℕ)) (string value : List ℕ) (i : ℕ)
    → find_string l string ≡ none
    → get_elem? l i ≡ some value
    → same_text value string ≡ false
find_string-none [] string value i e f = absurd (ground arith)
find_string-none (x ∷ l) string value zero e f = ground arith
find_string-none (x ∷ l) string value (suc i) e f = elim (Option-cases (find_string l string)) [
  | inl none_found ↦ find_string-none l string value i none_found f
  | inr (j, found) ↦ absurd (ground arith)
]
