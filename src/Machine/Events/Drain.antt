-- ===== src/Machine/Events/Drain.antt =====
-- Reading a batch of events to its end (`xkb_events_next`).
use libxkbcommon.Base.{
  ℕ, zero, suc, ◌+◌, ◌≤◌, ◌<◌, ◌≡◌, refl, ap, sym, ◌∙◌, arith, true, false, Bool-cases, inl, inr,
  Option, none, some, Option-cases, List, [], ◌∷◌, ltb, length, get_elem?, drop, lt→ltb,
  lt_of_get_elem?-some, get_elem?-some_of_lt,
}
use libxkbcommon.State.Types.{Event}
use libxkbcommon.Machine.Events.{EventBatch, events_next}

-- A client's loop `while ((event = xkb_events_next(events)))`, for `n` calls at most: the events
-- it gets, and whether it saw the end.
unfoldable pub drain : ℕ → EventBatch → Option (List Event)
drain zero b = none
drain (suc n) b =
    let next = drain n (events_next b).1 in
    elim (events_next b).0 [
      | none ↦ some []
      | some e ↦ elim next [ none ↦ none | some rest ↦ some (e ∷ rest) ]
    ]

drop-get_elem? :
    (l : List Event) (i : ℕ) (e : Event) → get_elem? l i ≡ some e → drop i l ≡ e ∷ drop (i + 1) l
drop-get_elem? [] i e h = absurd (ground arith)
drop-get_elem? (x ∷ l) zero e h = ground arith
drop-get_elem? (x ∷ l) (suc i) e h =
    let step : suc i + 1 ≡ suc (i + 1) = omega arith in
    drop-get_elem? l i e h ∙ ap (λ j. e ∷ drop j (x ∷ l)) (sym step)

drop_all : (l : List Event) (i : ℕ) → length l ≤ i → drop i l ≡ []
drop_all [] zero h = refl
drop_all [] (suc i) h = refl
drop_all (x ∷ l) zero h = absurd (omega arith)
drop_all (x ∷ l) (suc i) h = drop_all l i (omega arith)

next_at :
    (b : EventBatch) (e : Event)
    → get_elem? b.queue b.next ≡ some e
    → events_next b ≡ (some e, record b { next = b.next + 1 })
unfolding events_next
next_at b e at =
    let below : ltb b.next (length b.queue) ≡ true =
      lt→ltb b.next (length b.queue) (lt_of_get_elem?-some b.queue b.next at) in
    rw (below, at) refl

next_end : (b : EventBatch) → length b.queue ≤ b.next → events_next b ≡ (none, b)
unfolding events_next
next_end b h = let past : ltb b.next (length b.queue) ≡ false = ground arith in rw past refl

-- The loop ends, one call after the last event, and has then got the events that were not read
-- before, all of them in order.
pub drain-queue :
    (n : ℕ) (b : EventBatch)
    → b.next ≤ length b.queue
    → length b.queue < n + b.next
    → drain n b ≡ some (drop b.next b.queue)
unfolding drain
drain-queue zero b g h = absurd (omega arith)
drain-queue (suc n) b g h = elim (Bool-cases (ltb b.next (length b.queue))) [
  | inr f ↦
      rw (next_end b (ground arith), drain) (ap some (sym (drop_all b.queue b.next (ground arith))))
  | inl t ↦ elim (Option-cases (get_elem? b.queue b.next)) [
    | inl missing ↦
        let (e, at) = get_elem?-some_of_lt b.queue b.next (ground arith) in absurd (ground arith)
    | inr (e, at) ↦
        rw
          (
            next_at b e at,
            drain,
            next_at b e at,
            drain-queue n (record b { next = b.next + 1 }) (ground arith) (omega arith),
          )
          (ap some (sym (drop-get_elem? b.queue b.next e at)))
  ]
]
