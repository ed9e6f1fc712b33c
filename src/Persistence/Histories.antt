-- ===== src/Persistence/Histories.antt =====
-- The ids that a history of `next_id` hands out.
use lucius_engineering.Prelude.{
  ℕ, ◌+◌, ◌<◌, String, ◌≡◌, ◌≢◌, refl, sym, some, List, [], ◌∷◌, arith, lookup, lookup-insert,
  lookup-insert_self, eq_iff, ◌==◌, Bool-cases, inl, inr, ap, ◌∙◌,
}
use lucius_engineering.Domain.Ids.{Entity, entity_name, entity_prefix}
use lucius_engineering.Persistence.{IdState, next_number, next_id, public_id_number}
use lucius_engineering.Persistence.Fresh.{counter-le-next, public_id_number-public_id}

-- An id of one kind is handed out, and then the rows have the ids `rows`.
pub record Draw : Type 0 where
  pub entity : Entity
  pub rows : List String

abbrev pub draw : Draw → IdState → IdState
draw d s = record (next_id d.entity s).1 { persisted = d.rows }

unfoldable pub draw_all : List Draw → IdState → IdState
draw_all [] s = s
draw_all (d ∷ ds) s = draw_all ds (draw d s)

-- The counter of a kind is above `n`.
abbrev IsAbove : Entity → ℕ → IdState → Type 0
IsAbove e n s = (c : ℕ) × (lookup (entity_name e) s.counters ≡ some c) × (n < c)

draw-IsAbove :
    (e : Entity) (n : ℕ) (d : Draw) (s : IdState) → IsAbove e n s → IsAbove e n (draw d s)
unfolding next_id
draw-IsAbove e n d s (c, h, lt) = elim (Bool-cases (entity_name d.entity == entity_name e)) [
  | inl q ↦
      let same : entity_name d.entity ≡ entity_name e = (eq_iff _ _).0 q in
      (
        next_number d.entity s + 1,
        lookup-insert (entity_name d.entity) (entity_name e) (next_number d.entity s + 1) s.counters
            ∙ rw q refl,
        omega (arith, counter-le-next d.entity s c (rw same h)),
      )
  | inr q ↦ (
    c,
    lookup-insert (entity_name d.entity) (entity_name e) (next_number d.entity s + 1) s.counters
        ∙ rw q h,
    lt,
  )
]

draw_all-IsAbove :
    (e : Entity) (n : ℕ) (ds : List Draw) (s : IdState)
    → IsAbove e n s
    → IsAbove e n (draw_all ds s)
unfolding draw_all
draw_all-IsAbove e n [] s h = h
draw_all-IsAbove e n (d ∷ ds) s h = draw_all-IsAbove e n ds (draw d s) (draw-IsAbove e n d s h)

first-IsAbove : (d : Draw) (s : IdState) → IsAbove d.entity (next_number d.entity s) (draw d s)
unfolding next_id
first-IsAbove d s = (
  next_number d.entity s + 1,
  lookup-insert_self (entity_name d.entity) (next_number d.entity s + 1) s.counters,
  omega arith,
)

above-le-next : (e : Entity) (n : ℕ) (s : IdState) → IsAbove e n s → n < next_number e s
above-le-next e n s (c, h, lt) = omega (arith, counter-le-next e s c h)

-- No id is handed out again: after any history of `next_id` for ids of any kinds, whatever rows are
-- added and removed, the next id of a kind has a larger number than the one that was handed out before
-- the history, and is another id.
pub draw_all_never_repeats :
    (d : Draw) (ds : List Draw) (s : IdState)
    → (next_number d.entity s < next_number d.entity (draw_all ds (draw d s)))
      × ((next_id d.entity (draw_all ds (draw d s))).0 ≢ (next_id d.entity s).0)
draw_all_never_repeats d ds s =
    let t = draw_all ds (draw d s) in
    let larger : next_number d.entity s < next_number d.entity t =
      above-le-next d.entity (next_number d.entity s) t
        (draw_all-IsAbove d.entity (next_number d.entity s) ds (draw d s) (first-IsAbove d s)) in
    (larger, λ same. repeated d s t larger same)
  where
    repeated :
        (d : Draw) (s t : IdState)
        → next_number d.entity s < next_number d.entity t
        → (next_id d.entity t).0 ≡ (next_id d.entity s).0
        → ⊥
    repeated d s t larger same =
        let numbers : next_number d.entity t ≡ next_number d.entity s =
          sym (public_id_number-public_id d.entity (next_number d.entity t))
          ∙ unfold next_id in
            ap (λ id. public_id_number id (entity_prefix d.entity)) same
            ∙ public_id_number-public_id d.entity (next_number d.entity s) in
        omega (arith, larger, numbers)
