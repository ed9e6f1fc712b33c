-- ===== src/Pilots/Queue/Selection/Independence.antt =====
-- pilots/queue.py: that `select_next` depends on which items there are, not on their order.
use lucius_engineering.Prelude.{
  ◌≡◌, ◌∙◌, refl, sym, subst, ap, String, Bool, true, false, ◌&&◌, none, some, List, [], ◌∷◌, ◌==◌,
  eq_iff, arith, map, keep, all, mem, mem_iff, ok, inl, inr, In, here, In-keep, In-of_keep, In-map,
  In-of_map, Bool-cases, Option-cases, str_leb_antisymm,
}
use lucius_engineering.Pilots.Queue.Items.{is_completed_state, has_state}
use lucius_engineering.Pilots.Queue.Parsed.{QueueItem}
use lucius_engineering.Pilots.Queue.Selection.{
  dependencies_complete, is_eligible, scoped_le, QueueSelection, executable, stateful, running_of,
  is_running, eligible_of, select_from,
}
use lucius_engineering.Pilots.Queue.Selection.Choice.{
  In-eligible_of, In-of_eligible, select_next_best, select_next_idle,
}

-- Every item of the one list stands in the other.
abbrev pub Within : List QueueItem → List QueueItem → Type 0
Within xs ys = (i : QueueItem) → In i xs → In i ys

bool_ext : (a b : Bool) → (a ≡ true → b ≡ true) → (b ≡ true → a ≡ true) → a ≡ b
bool_ext true b f g = sym (f refl)
bool_ext false b f g = elim (Bool-cases b) [ inl e ↦ g e ∙ sym e | inr e ↦ sym e ]

all_same :
    (p q : String → Bool) (ds : List String) → ((d : String) → p d ≡ q d) → all p ds ≡ all q ds
unfolding all
all_same p q [] h = refl
all_same p q (d ∷ ds) h = ground (arith, h d, all_same p q ds h)

abbrev is_done : QueueItem → QueueItem → Bool
is_done item c = c.workflow_id == item.workflow_id && has_state is_completed_state c.state

abbrev done_ids : QueueItem → List QueueItem → List String
done_ids item xs = map (λ (c : QueueItem). c.item_id) (keep (is_done item) xs)

done_ids-Within :
    (d : String) (item : QueueItem) (xs ys : List QueueItem)
    → Within xs ys
    → mem d (done_ids item xs) ≡ true
    → mem d (done_ids item ys) ≡ true
done_ids-Within d item xs ys w e =
    let (c, m, named) =
      In-of_map (λ (c : QueueItem). c.item_id) _ ((mem_iff d (done_ids item xs)).0 e) in
    let (i, done) = In-of_keep (is_done item) c xs m in
    let moved =
      In-map (λ (c : QueueItem). c.item_id) _ (In-keep (is_done item) c ys (w c i) done) in
    (mem_iff d (done_ids item ys)).1 (subst (λ x. In x (done_ids item ys)) named moved)

is_eligible_same :
    (item : QueueItem) (xs ys : List QueueItem)
    → Within xs ys
    → Within ys xs
    → is_eligible xs item ≡ is_eligible ys item
unfolding is_eligible dependencies_complete
is_eligible_same item xs ys w v =
    rw
      (all_same _ _ item.dependencies
        (λ d. bool_ext _ _ (done_ids-Within d item xs ys w) (done_ids-Within d item ys xs v)))
      refl

executable-Within : (xs ys : List QueueItem) → Within xs ys → Within (executable xs) (executable ys)
unfolding executable
executable-Within xs ys w i m = let (inner, s) = In-of_keep _ i xs m in In-keep _ i ys (w i inner) s

eligible_of-Within :
    (xs ys : List QueueItem)
    → Within xs ys
    → Within ys xs
    → Within (eligible_of xs) (eligible_of ys)
eligible_of-Within xs ys w v i m =
    let (inner, s, e) = In-eligible_of xs i m in
    let same =
      is_eligible_same i (executable xs) (executable ys) (executable-Within xs ys w)
        (executable-Within ys xs v) in
    In-of_eligible ys i (w i inner) s (sym same ∙ e)

running_of-Within : (xs ys : List QueueItem) → Within xs ys → Within (running_of xs) (running_of ys)
unfolding running_of stateful
running_of-Within xs ys w i m =
    let (inner, r) = In-of_keep is_running i _ m in
    let (item, s) = In-of_keep _ i xs inner in
    In-keep is_running i _ (In-keep _ i ys (w i item) s) r

empty-Within : (xs ys : List QueueItem) → Within xs ys → ys ≡ [] → xs ≡ []
empty-Within [] ys w e = refl
empty-Within (x ∷ xs) ys w e = absurd (elim (subst (In x) e (w x here)) [ ])

scoped_antisymm :
    (a b : QueueItem) → scoped_le a b ≡ true → scoped_le b a ≡ true → a.item_id ≡ b.item_id
unfolding scoped_le
scoped_antisymm a b p q =
    let both = str_leb_antisymm a.item_id b.item_id in
    (eq_iff a.item_id b.item_id).0 (ground (arith, p, q, both))

-- nothing is picked from the one list when nothing is picked from the other
idle_same :
    (xs ys : List QueueItem) (sel sel' : QueueSelection)
    → Within xs ys
    → Within ys xs
    → select_from xs ≡ ok sel
    → select_from ys ≡ ok sel'
    → sel.selected_item_id ≡ none
    → sel'.selected_item_id ≡ none
idle_same xs ys sel sel' w v h h' e =
    (select_next_idle ys sel' h').1 (elim ((select_next_idle xs sel h).0 e) [
      | inl busy ↦ inl (λ quiet. busy (empty-Within _ _ (running_of-Within xs ys w) quiet))
      | inr nothing ↦ inr (empty-Within _ _ (eligible_of-Within ys xs v w) nothing)
    ])

-- Two lists with the same parsed items, in whatever order, lead select_next to the same item.
pub select_from-same_items :
    (xs ys : List QueueItem) (sel sel' : QueueSelection)
    → Within xs ys
    → Within ys xs
    → select_from xs ≡ ok sel
    → select_from ys ≡ ok sel'
    → sel.selected_item_id ≡ sel'.selected_item_id
select_from-same_items xs ys sel sel' w v h h' = elim (Option-cases sel.selected_item_id) [
  | inl e ↦ e ∙ sym (idle_same xs ys sel sel' w v h h' e)
  | inr (id, e) ↦ elim (Option-cases sel'.selected_item_id) [
    | inl e' ↦ absurd (ground (arith, e, idle_same ys xs sel' sel v w h' h e'))
    | inr (id', e') ↦
        let best = select_next_best xs sel id h e in
        let best' = select_next_best ys sel' id' h' e' in
        let mine = In-of_eligible xs best.item best.present best.schedulable best.eligible in
        let yours = In-of_eligible ys best'.item best'.present best'.schedulable best'.eligible in
        let same =
          scoped_antisymm best.item best'.item
            (best.least best'.item (eligible_of-Within ys xs v w best'.item yours))
            (best'.least best.item (eligible_of-Within xs ys w v best.item mine)) in
        e ∙ ap some (sym best.named ∙ same ∙ best'.named) ∙ sym e'
  ]
]
