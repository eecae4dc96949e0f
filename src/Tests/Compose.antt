-- ===== src/Tests/Compose.antt =====
-- The theorems on Compose sequences, applied: a sequence is inserted next to one with the same first
-- keysym, and one that overrides another.
use libxkbcommon.Base.{◌+◌, zero, suc, ◌≡◌, refl, arith, some, none, [], ◌∷◌, ◌<◌, length, inl}
use libxkbcommon.Compose.{
  Table, table_new, dummy_node, lo, hi, eq, Production, add_production, reset, feed_all, get_status,
  composed, get_one_sym, keysym_is_modifier, insert_loop, grow, finish,
}
use libxkbcommon.Compose.Trie.{IsAscending, PathTo}
use libxkbcommon.Compose.Insert.Round.{IsResult}
use libxkbcommon.Compose.Insert.Root.{IsTrie, add_production-finds}
use libxkbcommon.Compose.Feed.{NoModifiers, add_production-composes}

new-IsAscending : IsAscending table_new.nodes
new-IsAscending zero node e lo = let same : dummy_node ≡ node = cc in rw (← same) (inl refl)
new-IsAscending zero node e hi = let same : dummy_node ≡ node = cc in rw (← same) (inl refl)
new-IsAscending zero node e eq = let same : dummy_node ≡ node = cc in rw (← same) (inl refl)
new-IsAscending (suc i) node e side = absurd (ground arith)

new-IsTrie : IsTrie table_new.nodes
new-IsTrie = record { dummy = refl; ascending = new-IsAscending }

-- <dead_acute> <a> : aacute
abbrev acute_a : Production
acute_a = record { lhs = 0xfe51 ∷ 97 ∷ []; keysym = some 225; string = some (195 ∷ 161 ∷ []) }

abbrev with_a : Table
with_a = add_production table_new acute_a

with_a-IsTrie : IsTrie with_a.nodes
with_a-IsTrie =
    (add_production-finds table_new 0xfe51 (97 ∷ []) (some 225) (some (195 ∷ 161 ∷ [])) new-IsTrie
      (omega arith)).1

with_a-length : length with_a.nodes ≡ 3
unfolding add_production insert_loop grow finish
with_a-length = refl

-- <dead_acute> <A> : Aacute
abbrev acute_upper : Production
acute_upper = record { lhs = 0xfe51 ∷ 65 ∷ []; keysym = some 193; string = none }

plain : NoModifiers (0xfe51 ∷ 65 ∷ [])
unfolding keysym_is_modifier
plain = (refl, (refl, tt))

room : length with_a.nodes + suc (suc 0) < 8388608
room = rw with_a-length (omega arith)

add_production-composes_example :
    (get_status
        (add_production with_a acute_upper).nodes
        (feed_all (add_production with_a acute_upper).nodes reset (0xfe51 ∷ 65 ∷ []))
      ≡ composed)
    × (get_one_sym
          (add_production with_a acute_upper).nodes
          (feed_all (add_production with_a acute_upper).nodes reset (0xfe51 ∷ 65 ∷ []))
        ≡ 193)
add_production-composes_example =
    add_production-composes with_a 0xfe51 (65 ∷ []) (some 193) none with_a-IsTrie room plain

-- <dead_acute> alone, a prefix of the other, which it overrides.
abbrev acute : Production
acute = record { lhs = 0xfe51 ∷ []; keysym = some 180; string = none }

add_production-finds_example :
    PathTo (add_production with_a acute).nodes (IsResult acute) 1 (0xfe51 ∷ [])
    × IsTrie (add_production with_a acute).nodes
add_production-finds_example =
    add_production-finds with_a 0xfe51 [] (some 180) none with_a-IsTrie
      (rw with_a-length (omega arith))
