-- ===== src/Pilots/Queue/Operations/Changes.antt =====
-- What a change of one item of a backlog keeps.
use lucius_engineering.Prelude.{
  ℕ, suc, ◌+◌, String, ◌≡◌, ◌≢◌, refl, Bool, true, false, List, [], ◌∷◌, arith, map, if◌then◌else◌,
  eq_iff, find_first, ok,
}
use lucius_engineering.Persistence.Orm.{WorkItem}
use lucius_engineering.Pilots.Queue.Items.{item_id_of}
use lucius_engineering.Pilots.Queue.Guards.{get_item}
use lucius_engineering.Pilots.Queue.Operations.{change_item}

-- `f` keeps the id of each item
abbrev pub KeepsId : (WorkItem → WorkItem) → Type 0
KeepsId f = (item : WorkItem) → item_id_of (f item) ≡ item_id_of item

-- how many items satisfy `p`
unfoldable pub count_items : (WorkItem → Bool) → List WorkItem → ℕ
count_items p [] = 0
count_items p (item ∷ items) = if p item then suc (count_items p items) else count_items p items

unfoldable pub to_ℕ : Bool → ℕ
to_ℕ true = 1
to_ℕ false = 0

module _ (id : String) (f : WorkItem → WorkItem) where
  -- the ids stand as they stood
  pub ids-change_item :
      KeepsId f
      → (items : List WorkItem) → map item_id_of (change_item id f items) ≡ map item_id_of items
  unfolding change_item
  ids-change_item keeps [] = refl
  ids-change_item keeps (item ∷ items) = ground (arith, keeps item, ids-change_item keeps items)

  -- only the item that was changed counts anew
  pub count-change_item :
      (p : WorkItem → Bool) (items : List WorkItem) {item : WorkItem}
      → get_item items id ≡ ok item
      → count_items p (change_item id f items) + to_ℕ (p item)
        ≡ count_items p items + to_ℕ (p (f item))
  unfolding change_item get_item count_items to_ℕ find_first
  count-change_item p [] h = cc
  count-change_item p (x ∷ items) {item} h = ground (arith, count-change_item p items {item = item})

  -- the changed item is found under the id
  pub get_item-change_item :
      KeepsId f
      → (items : List WorkItem) {item : WorkItem} → get_item items id ≡ ok item
      → get_item (change_item id f items) id ≡ ok (f item)
  unfolding change_item get_item find_first
  get_item-change_item keeps [] h = cc
  get_item-change_item keeps (x ∷ items) {item} h =
      ground (arith, keeps x, get_item-change_item keeps items {item = item})

  -- no other item changes
  pub get_item-change_item_ne :
      KeepsId f
      → (items : List WorkItem) (j : String) → id ≢ j
      → get_item (change_item id f items) j ≡ get_item items j
  unfolding change_item get_item find_first
  get_item-change_item_ne keeps [] j ne = refl
  get_item-change_item_ne keeps (x ∷ items) j ne = ground (
    arith,
    keeps x,
    eq_iff (item_id_of x) id,
    eq_iff (item_id_of x) j,
    get_item-change_item_ne keeps items j ne,
  )

-- the item that is found has the id
pub get_item-id :
    (items : List WorkItem) (id : String) {item : WorkItem}
    → get_item items id ≡ ok item
    → item_id_of item ≡ id
unfolding get_item find_first
get_item-id [] id h = cc
get_item-id (x ∷ items) id {item} h =
    ground (arith, eq_iff (item_id_of x) id, get_item-id items id {item = item})
