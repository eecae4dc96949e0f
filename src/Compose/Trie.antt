-- ===== src/Compose/Trie.antt =====
-- The shape of the trie: children stand behind their parents in the array, and paths through it.
use libxkbcommon.Base.{
  ℕ, zero, suc, ◌≤◌, ◌<◌, ◌≡◌, ◌≢◌, ◌⊎◌, inl, inr, refl, sym, ◌∙◌, arith, false, Bool-cases, some,
  List, [], ◌∷◌, ◌++◌, length, get_elem?, set, ◌==◌, if◌then◌else◌, length-set, get_elem?-set_self,
  get_elem?-set_ne, lt_of_get_elem?-some,
}
use libxkbcommon.Compose.{Node, Side, lo, hi, eq}

-- A child offset of the node at `i`: none, or one of an array of `n` nodes behind it.
abbrev pub IsBehind : ℕ → ℕ → ℕ → Type 0
IsBehind n i j = (j ≡ 0) ⊎ ((i < j) × (j < n))

abbrev pub child : Side → Node → ℕ
child lo node = node.lokid
child hi node = node.hikid
child eq node = if node.is_leaf then 0 else node.payload

abbrev pub HasChildren : ℕ → ℕ → Node → Type 0
HasChildren n i node = (side : Side) → IsBehind n i (child side node)

-- Every child of every node stands behind it in the array.
abbrev pub IsAscending : List Node → Type 0
IsAscending nodes =
    (i : ℕ) (node : Node) → get_elem? nodes i ≡ some node → HasChildren (length nodes) i node

-- A path from the node at an offset that spells a sequence and ends in a node with a property.
pub data PathTo (nodes : List Node) (P : Node → Type 0) : ℕ → List ℕ → Type 0 where
  lower :
      (c k : ℕ) (rest : List ℕ) (node : Node)
      → get_elem? nodes c ≡ some node
      → k < node.keysym
      → c < node.lokid
      → PathTo nodes P node.lokid (k ∷ rest)
      → PathTo nodes P c (k ∷ rest)
  higher :
      (c k : ℕ) (rest : List ℕ) (node : Node)
      → get_elem? nodes c ≡ some node
      → node.keysym < k
      → c < node.hikid
      → PathTo nodes P node.hikid (k ∷ rest)
      → PathTo nodes P c (k ∷ rest)
  down :
      (c k k' : ℕ) (rest : List ℕ) (node : Node)
      → get_elem? nodes c ≡ some node
      → node.keysym ≡ k
      → node.is_leaf ≡ false
      → c < node.payload
      → PathTo nodes P node.payload (k' ∷ rest)
      → PathTo nodes P c (k ∷ k' ∷ rest)
  result :
      (c k : ℕ) (node : Node)
      → get_elem? nodes c ≡ some node
      → node.keysym ≡ k
      → P node
      → PathTo nodes P c (k ∷ [])

pub get_elem?-append_left :
    (l r : List Node) (i : ℕ) → i < length l → get_elem? (l ++ r) i ≡ get_elem? l i
get_elem?-append_left [] r i h = elim h [ ]
get_elem?-append_left (x ∷ l) r zero h = refl
get_elem?-append_left (x ∷ l) r (suc i) h = get_elem?-append_left l r i (omega arith)

pub get_elem?-append_last :
    (l : List Node) (x : Node) → get_elem? (l ++ (x ∷ [])) (length l) ≡ some x
get_elem?-append_last [] x = refl
get_elem?-append_last (y ∷ l) x = get_elem?-append_last l x

pub IsBehind-mono : (n m i j : ℕ) → n ≤ m → IsBehind n i j → IsBehind m i j
IsBehind-mono n m i j h (inl e) = inl e
IsBehind-mono n m i j h (inr (p, q)) = inr (p, omega arith)

-- A node put in the place of another.
pub set-IsAscending :
    (nodes : List Node) (i : ℕ) (node : Node)
    → IsAscending nodes
    → HasChildren (length nodes) i node
    → IsAscending (set nodes i node)
set-IsAscending nodes i node a h j x e side =
    let size : length (set nodes i node) ≡ length nodes = length-set nodes i node in
    rw size (elim (Bool-cases (i == j)) [
      | inl t ↦
          let same : i ≡ j = ground arith in
          let below : i < length nodes =
            omega (arith, lt_of_get_elem?-some (set nodes i node) j e) in
          let put : node ≡ x = ground (arith, get_elem?-set_self nodes i node below, same) in
          rw (← put, ← same) (h side)
      | inr f ↦
          let other : i ≢ j = λ q. absurd (ground arith) in
          a j x (sym (get_elem?-set_ne nodes i j node other) ∙ e) side
    ])
