-- ===== src/Atom/Placed.antt =====
-- The resize puts every string where a probe comes to it.
use mathlib.Core.Option.{some-injective}
use libxkbcommon.Base.{
  ℕ, zero, suc, ◌+◌, ◌^◌, ◌<◌, ◌≡◌, ◌≢◌, ◌∙◌, arith, some, List, [], ◌∷◌, length, get_elem?, set,
  length-set,
}
use libxkbcommon.Atom.{index_pos, hash_buf, place_all}
use libxkbcommon.Atom.Probing.{Reaches, Reaches-set, vacancy}
use libxkbcommon.Atom.Room.{taken, taken-set, index_pos-lt, HasVacant-of_room}

-- What placing the strings `rest`, from atom `j` on, makes of the index.
pub record IsPlacing (w : ℕ) (rest : List (List ℕ)) (j : ℕ) (index result : List ℕ) : Type 0 where
  pub length_kept : length result ≡ 2 ^ w
  pub taken_grown : taken result ≡ taken index + length rest
  pub kept :
      (hash atom : ℕ)
      → atom ≢ 0
      → Reaches index (2 ^ w) hash atom 0 (2 ^ w)
      → Reaches result (2 ^ w) hash atom 0 (2 ^ w)
  pub reached :
      (k : ℕ) (string : List ℕ)
      → get_elem? rest k ≡ some string
      → Reaches result (2 ^ w) (hash_buf string) (j + k) 0 (2 ^ w)

reached_step :
    (w : ℕ) (result : List ℕ) (first : List ℕ) (rest : List (List ℕ)) (j : ℕ)
    → Reaches result (2 ^ w) (hash_buf first) j 0 (2 ^ w)
    → ((k : ℕ) (string : List ℕ)
        → get_elem? rest k ≡ some string
        → Reaches result (2 ^ w) (hash_buf string) (j + 1 + k) 0 (2 ^ w))
    → (k : ℕ) (string : List ℕ) → get_elem? (first ∷ rest) k ≡ some string
    → Reaches result (2 ^ w) (hash_buf string) (j + k) 0 (2 ^ w)
reached_step w result first rest j here later zero string e =
    let same_atom : j + 0 ≡ j = omega arith in rw (same_atom, ← some-injective first string e) here
reached_step w result first rest j here later (suc k) string e =
    let same_atom : j + suc k ≡ j + 1 + k = omega arith in rw same_atom (later k string e)

pub place_all-IsPlacing :
    (w : ℕ) (rest : List (List ℕ)) (j : ℕ) (index : List ℕ)
    → j ≢ 0
    → length index ≡ 2 ^ w
    → taken index + length rest < 2 ^ w
    → IsPlacing w rest j index (place_all rest j index (2 ^ w))
unfolding place_all
place_all-IsPlacing w [] j index live l r = record {
  length_kept = l;
  taken_grown = omega arith;
  kept = λ hash atom a reached. reached;
  reached = λ k string e. absurd (ground arith);
}
place_all-IsPlacing w (string ∷ rest) j index live l r =
    let hash : ℕ = hash_buf string in
    let bound : (i : ℕ) → index_pos (2 ^ w) hash i < length index =
      λ i. rw l (index_pos-lt w hash i) in
    let (pos, inside, v) =
      vacancy index (2 ^ w) hash j live bound (2 ^ w) 0
        (HasVacant-of_room index w hash l (ground arith)) in
    let grown = taken-set index pos j v.free inside live in
    let later =
      place_all-IsPlacing w rest (j + 1) (set index pos j) (ground arith)
        (length-set index pos j ∙ l) (ground arith) in
    rw v.placed (record {
      length_kept = later.length_kept;
      taken_grown = omega (arith, later.taken_grown, grown);
      kept = λ hash atom a reached.
          later.kept hash atom a
            (Reaches-set (2 ^ w) index (2 ^ w) hash atom 0 pos j a v.free inside live reached);
      reached =
          reached_step w (place_all rest (j + 1) (set index pos j) (2 ^ w)) string rest j
            (later.kept hash j live v.reached) later.reached;
    })
