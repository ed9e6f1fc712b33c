-- ===== src/Persistence/Tests.antt =====
-- Concrete runs of `next_id`.
use lucius_engineering.Prelude.{◌≡◌, ◌≢◌, ◌<◌, false, some, List, [], ◌∷◌, mem}
use lucius_engineering.Domain.Ids.{task, project, public_id, format_public_id, entity_prefix}
use lucius_engineering.Persistence.{IdState, next_id, next_number, public_id_number}
use lucius_engineering.Persistence.Fresh.{public_id_number-public_id, next_id_fresh}
use lucius_engineering.Persistence.Histories.{Draw, draw, draw_all, draw_all_never_repeats}

-- a counter that is behind the rows
abbrev behind : IdState
behind = record { counters = ("task", 2) ∷ []; persisted = "LTASK_000007" ∷ "LPROJ_000009" ∷ [] }

public_id_number-public_id_example :
    public_id_number (public_id task 1234567) (entity_prefix task) ≡ 1234567
public_id_number-public_id_example = public_id_number-public_id task 1234567

next_id_fresh_example :
    (mem (next_id task behind).0 behind.persisted ≡ false)
    × (format_public_id task (next_number task behind) ≡ some (next_id task behind).0)
next_id_fresh_example = next_id_fresh task behind

abbrev drawn : Draw
drawn = record { entity = task; rows = [] }

abbrev history : List Draw
history = record { entity = project; rows = "LTASK_000003" ∷ [] } ∷ drawn ∷ []

draw_all_never_repeats_example :
    (next_number task behind < next_number task (draw_all history (draw drawn behind)))
    × ((next_id task (draw_all history (draw drawn behind))).0 ≢ (next_id task behind).0)
draw_all_never_repeats_example = draw_all_never_repeats drawn history behind
