-- ===== src/Compose.antt =====
-- Compose sequences: the ternary search tree of src/compose/table.h, the insertion of a sequence
-- (`add_production` of src/compose/parser.c) and the state that follows keysyms through the tree
-- (src/compose/state.c).
pub mod Trie
pub mod Insert
pub mod Feed
use libxkbcommon.Base.{
  ℕ, zero, suc, ◌+◌, ◌-◌, ◌≤◌, ◌<◌, Bool, true, false, not, ◌&&◌, ◌||◌, Option, none, some, List,
  [], ◌∷◌, ◌++◌, leb, ltb, ◌==◌, if◌then◌else◌, length, get_elem?, set, drop,
}

-- `struct compose_node`. The union's two words: `utf8` is the padding of an internal node and the
-- string offset of a leaf, `payload` the `eqkid` of an internal node and the result keysym of a
-- leaf.
pub record Node : Type 0 where
  pub keysym : ℕ
  pub lokid : ℕ
  pub hikid : ℕ
  pub utf8 : ℕ
  pub is_leaf : Bool
  pub payload : ℕ

-- `struct xkb_compose_table`, the trie and the strings, which end in a zero byte each.
pub record Table : Type 0 where
  pub nodes : List Node
  pub utf8 : List ℕ

-- The dummy leaf at offset 0.
abbrev pub dummy_node : Node
dummy_node = record { keysym = 0; lokid = 0; hikid = 0; utf8 = 0; is_leaf = true; payload = 0 }

-- A table as `xkb_compose_table_new` makes it.
abbrev pub table_new : Table
table_new = record { nodes = dummy_node ∷ []; utf8 = 0 ∷ [] }

-- `struct production`, without the modifiers, which the matching does not use; the Options are the
-- fields `has_keysym` and `has_string`.
pub record Production : Type 0 where
  pub lhs : List ℕ
  pub keysym : Option ℕ
  pub string : Option (List ℕ)

-- The pointer `pptr` to a child offset: which one, of the node at which offset.
pub data Side : Type 0 where
  lo hi eq : Side

abbrev pub with_side : Side → Node → ℕ → Node
with_side lo node offset = record node { lokid = offset }
with_side hi node offset = record node { hikid = offset }
with_side eq node offset = record node { payload = offset }

-- `*pptr = curr`.
abbrev pub link : List Node → Option (Side × ℕ) → ℕ → List Node
link nodes none offset = nodes
link nodes (some (side, i)) offset = elim (get_elem? nodes i) [
  | none ↦ nodes
  | some node ↦ set nodes i (with_side side node offset)
]

abbrev pub new_node : ℕ → Node
new_node keysym = record {
  keysym = keysym;
  lokid = 0;
  hikid = 0;
  utf8 = 0;
  is_leaf = false;
  payload = 0;
}

-- The creation of a node where `curr` is 0; the offset is that of the node to look at.
unfoldable pub grow : List Node → ℕ → Option (Side × ℕ) → ℕ → List Node × ℕ
grow nodes curr slot keysym =
    if curr == 0
    then (link nodes slot (length nodes) ++ (new_node keysym ∷ []), length nodes)
    else (nodes, curr)

-- A leaf on the way becomes an internal node.
abbrev pub open_node : Node → Node
open_node node = if node.is_leaf then record node { is_leaf = false; payload = 0 } else node

-- The bytes up to the zero byte.
abbrev pub c_string : List ℕ → List ℕ
c_string [] = []
c_string (b ∷ rest) = if b == 0 then [] else b ∷ c_string rest

abbrev pub streq : List ℕ → List ℕ → Bool
streq [] [] = true
streq (x ∷ xs) (y ∷ ys) = (x == y) && streq xs ys
streq _ _ = false

-- `memcpy` of `new` over the bytes from an offset on.
abbrev pub overwrite : List ℕ → ℕ → List ℕ → List ℕ
overwrite [] offset new = []
overwrite (b ∷ rest) (suc offset) new = b ∷ overwrite rest offset new
overwrite (b ∷ rest) zero [] = b ∷ rest
overwrite (b ∷ rest) zero (x ∷ new) = x ∷ overwrite rest zero new

abbrev pub same_string : Table → Node → Option (List ℕ) → Bool
same_string t node none = node.utf8 == 0
same_string t node (some string) =
    not (node.utf8 == 0) && streq (c_string (drop node.utf8 t.utf8)) string

abbrev pub same_keysym : Node → Option ℕ → Bool
same_keysym node none = node.payload == 0
same_keysym node (some keysym) = not (node.payload == 0) && (node.payload == keysym)

-- The strings with the result string, and its offset.
abbrev pub store_string : Table → Node → Option (List ℕ) → List ℕ × ℕ
store_string t node none = (t.utf8, 0)
store_string t node (some string) =
    if node.is_leaf
      && (not (node.utf8 == 0) && leb (length string) (length (c_string (drop node.utf8 t.utf8))))
    then (overwrite t.utf8 node.utf8 (string ++ (0 ∷ [])), node.utf8)
    else (t.utf8 ++ (string ++ (0 ∷ [])), length t.utf8)

-- `XKB_KEY_NoSymbol` is 0.
abbrev pub keysym_of : Option ℕ → ℕ
keysym_of none = 0
keysym_of (some keysym) = keysym

abbrev pub result_node : Node → ℕ → Option ℕ → Node
result_node node offset keysym = record node {
  utf8 = offset;
  is_leaf = true;
  payload = keysym_of keysym;
}

-- The end of the sequence: the node becomes a leaf with the result, unless it already is.
unfoldable pub finish : Table → ℕ → Node → Production → Table
finish t c node p =
    let stored = store_string t node p.string in
    if node.is_leaf && (same_string t node p.string && same_keysym node p.keysym)
    then t
    else record { nodes = set t.nodes c (result_node node stored.1 p.keysym); utf8 = stored.0 }

abbrev pub is_empty : List ℕ → Bool
is_empty [] = true
is_empty (k ∷ rest) = false

-- The loop of `add_production` on the rest of the sequence.
unfoldable pub insert_loop : ℕ → Table → List ℕ → ℕ → Option (Side × ℕ) → Production → Table
insert_loop zero t lhs curr slot p = t
insert_loop (suc fuel) t [] curr slot p = t
insert_loop (suc fuel) t (k ∷ rest) curr slot p =
    let g = grow t.nodes curr slot k in
    let t1 = record t { nodes = g.0 } in
    let c = g.1 in
    elim (get_elem? g.0 c) [
      | none ↦ t1
      | some node ↦
          let opened = open_node node in
          let below = insert_loop fuel t1 (k ∷ rest) node.lokid (some (lo, c)) p in
          let above = insert_loop fuel t1 (k ∷ rest) node.hikid (some (hi, c)) p in
          let next =
            insert_loop fuel (record t { nodes = set g.0 c opened }) rest opened.payload
              (some (eq, c)) p in
          if ltb k node.keysym
          then below
          else if ltb node.keysym k
          then above
          else if is_empty rest
          then finish t1 c node p
          else next
    ]

-- `MAX_COMPOSE_NODES`.
abbrev pub max_compose_nodes : ℕ
max_compose_nodes = 8388608

-- `add_production`; past the limit the sequence is discarded.
unfoldable pub add_production : Table → Production → Table
add_production t p =
    if leb max_compose_nodes (length t.nodes + length p.lhs)
    then t
    else insert_loop (length t.nodes + length p.lhs) t p.lhs (if length t.nodes == 1 then 0 else 1)
        none p

-- `struct xkb_compose_state`, the table apart.
pub record ComposeState : Type 0 where
  pub prev_context : ℕ
  pub context : ℕ

-- `xkb_keysym_is_modifier` of src/keysym.c.
unfoldable pub keysym_is_modifier : ℕ → Bool
keysym_is_modifier keysym =
    leb 0xffe1 keysym && leb keysym 0xffee
    || (leb 0xfe01 keysym && leb keysym 0xfe13 || (keysym == 0xff7e || keysym == 0xff7f))

-- The walk over the alternatives from an offset on; 0 where the keysym is not among them.
unfoldable pub search : ℕ → List Node → ℕ → ℕ → ℕ
search zero nodes keysym context = 0
search (suc fuel) nodes keysym context =
    let below = λ (node : Node). search fuel nodes keysym node.lokid in
    let above = λ (node : Node). search fuel nodes keysym node.hikid in
    if context == 0 then 0 else elim (get_elem? nodes context) [
      | none ↦ 0
      | some node ↦
          if ltb keysym node.keysym
          then below node
          else if ltb node.keysym keysym
          then above node
          else context
    ]

-- Where the alternatives for the next keysym begin. A leaf, also the dummy one, starts again at the
-- root.
unfoldable pub first_child : List Node → ℕ → ℕ
first_child nodes context =
    let child : ℕ = elim (get_elem? nodes context) [
      | none ↦ 0
      | some node ↦ if node.is_leaf then 1 else node.payload
    ] in
    if child == 1 && (length nodes == 1) then 0 else child

-- `xkb_compose_state_feed`: the new state, and whether the keysym was accepted.
unfoldable pub feed : List Node → ComposeState → ℕ → ComposeState × Bool
feed nodes s keysym = if keysym_is_modifier keysym then (s, false) else (
  record {
    prev_context = s.context;
    context = search (length nodes) nodes keysym (first_child nodes s.context);
  },
  true,
)

-- `xkb_compose_state_reset`, also the state of `xkb_compose_state_new`.
abbrev pub reset : ComposeState
reset = record { prev_context = 0; context = 0 }

pub data Status : Type 0 where
  nothing composing composed cancelled : Status

abbrev pub leaf_at : List Node → ℕ → Bool
leaf_at nodes offset = elim (get_elem? nodes offset) [ none ↦ true | some node ↦ node.is_leaf ]

-- `xkb_compose_state_get_status`.
unfoldable pub get_status : List Node → ComposeState → Status
get_status nodes s =
    if (s.context == 0) && not (leaf_at nodes s.prev_context)
    then cancelled
    else if s.context == 0
    then nothing
    else if not (leaf_at nodes s.context)
    then composing
    else composed

-- `xkb_compose_state_get_one_sym`.
unfoldable pub get_one_sym : List Node → ComposeState → ℕ
get_one_sym nodes s = elim (get_elem? nodes s.context) [
  | none ↦ 0
  | some node ↦ if node.is_leaf then node.payload else 0
]

-- The state after a sequence of keysyms.
abbrev pub feed_all : List Node → ComposeState → List ℕ → ComposeState
feed_all nodes s [] = s
feed_all nodes s (k ∷ rest) = feed_all nodes (feed nodes s k).0 rest
