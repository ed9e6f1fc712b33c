-- ===== src/Persistence.antt =====
-- persistence/repositories.py: `next_id`, which hands out public ids from the counter of their kind
-- and never below an id that a row already has.
pub mod Fresh
pub mod Histories
pub mod Orm
mod Tests
use Prim.Native.Char.{Char, code}
use Prim.Native.String.{◌++◌ as append}
use lucius_engineering.Prelude.{
  ℕ, ◌+◌, ◌-◌, ◌*◌, max, String, Bool, ◌&&◌, Option, none, some, List, [], ◌∷◌, leb, ltb, eqb,
  if◌then◌else◌, Table, lookup, insert,
}
use lucius_engineering.Domain.Ids.{Entity, entity_name, entity_prefix, public_id}

-- The table `id_counters` and the ids of all rows of all tables.
pub record IdState : Type 0 where
  pub counters : Table ℕ
  pub persisted : List String

-- `text[len(prefix):]` if `text.startswith(prefix)`
unfoldable pub strip_prefix : String → String → Option String
strip_prefix String.[] text = some text
strip_prefix (String.◌∷◌ c prefix) String.[] = none
strip_prefix (String.◌∷◌ c prefix) (String.◌∷◌ d text) =
    let rest = strip_prefix prefix text in if eqb (code c) (code d) then rest else none

-- The digits 0 to 9. Python's `isdigit` takes the digits of other scripts too; ids of rows are taken to
-- have none, as those that `next_id` hands out.
abbrev pub is_digit : Char → Bool
is_digit c = leb 48 (code c) && leb (code c) 57

-- `int(s)` if all characters are digits, after the digits of `acc`
unfoldable pub parse_digits : ℕ → String → Option ℕ
parse_digits acc String.[] = some acc
parse_digits acc (String.◌∷◌ c s) =
    let rest = parse_digits (acc * 10 + (code c - 48)) s in if is_digit c then rest else none

-- The empty suffix is no number (`"".isdigit()` is false).
abbrev pub suffix_number : Option String → ℕ
suffix_number none = 0
suffix_number (some String.[]) = 0
suffix_number (some (String.◌∷◌ c s)) = elim (parse_digits 0 (String.◌∷◌ c s)) [
  | none ↦ 0
  | some n ↦ n
]

unfoldable pub public_id_number : String → String → ℕ
public_id_number id prefix = suffix_number (strip_prefix (append prefix "_") id)

-- the loop over the ids that the tables hold
unfoldable pub highest_number : String → List String → ℕ
highest_number prefix [] = 0
highest_number prefix (id ∷ ids) = max (public_id_number id prefix) (highest_number prefix ids)

unfoldable pub persisted_next_number : Entity → IdState → ℕ
persisted_next_number e s = highest_number (entity_prefix e) s.persisted + 1

abbrev pub number_or : ℕ → Option ℕ → ℕ
number_or d none = d
number_or d (some n) = n

-- The value of the counter after the `UPDATE … RETURNING`, less one. `INSERT OR IGNORE` sets a
-- counter that has no row.
unfoldable pub next_number : Entity → IdState → ℕ
next_number e s =
    let persisted_next = persisted_next_number e s in
    let current = number_or persisted_next (lookup (entity_name e) s.counters) in
    if ltb current persisted_next then persisted_next else current

unfoldable pub next_id : Entity → IdState → String × IdState
next_id e s = (
  public_id e (next_number e s),
  record s { counters = insert (entity_name e) (next_number e s + 1) s.counters },
)

-- `session.add(row)`, as far as the ids are concerned
unfoldable pub add_row_id : String → IdState → IdState
add_row_id id s = record s { persisted = id ∷ s.persisted }
