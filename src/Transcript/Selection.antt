-- ===== src/Transcript/Selection.antt =====
-- Selecting several messages.
use mathlib.Core.Option.{get_or}
use token_dance_chat.Base.{
  refl, true, false, not, ◌&&◌, List, [], ◌∷◌, Text, ◌==◌, includes, length, eqb, arith, Distinct,
  if◌then◌else◌,
}
use token_dance_chat.Message.{ChatMessage}
use token_dance_chat.Store.Lists.{add_name, remove_name, add_name-Distinct, remove_name-Distinct}
use token_dance_chat.Store.Messages.{system}
use token_dance_chat.Transcript.{View}

unfoldable pub exit_select_mode : View → View
exit_select_mode v = record v { select_mode = false; selected_ids = [] }

-- The last id to be taken out ends the mode.
unfoldable pub toggle_select : Text → View → View
toggle_select id v =
    let fewer = remove_name id v.selected_ids in
    if includes v.selected_ids id
    then record v {
      selected_ids = fewer;
      select_mode = if eqb (length fewer) 0 then false else v.select_mode;
    }
    else record v { selected_ids = add_name id v.selected_ids }

unfoldable pub start_drag_select : Text → View → View
start_drag_select id v = record v { drag_select = true; select_mode = true; selected_ids = id ∷ [] }

unfoldable pub handle_drag_select_enter : Text → View → View
handle_drag_select_enter id v =
    if v.drag_select then record v { selected_ids = add_name id v.selected_ids } else v

unfoldable pub handle_pointer_up : View → View
handle_pointer_up v = record v { drag_select = false }

-- `new Set(ids)`
unfoldable pub set_of : List Text → List Text → List Text
set_of [] seen = seen
set_of (id ∷ rest) seen = set_of rest (add_name id seen)

unfoldable pub selectable_ids : List ChatMessage → List Text
selectable_ids [] = []
selectable_ids (m ∷ ms) =
    let rest = selectable_ids ms in
    if not (m.username == system) && not (get_or m.deleted false) then m.id ∷ rest else rest

unfoldable pub handle_select_all : List ChatMessage → View → View
handle_select_all messages v = record v { selected_ids = set_of (selectable_ids messages) [] }

-- What the handlers do to the selection; a click beside the messages leaves the mode.
pub data SelectEvent : Type 0 where
  toggles starts_drag enters : Text → SelectEvent
  lifts exits : SelectEvent
  selects_all : List ChatMessage → SelectEvent

unfoldable pub select_step : SelectEvent → View → View
select_step (toggles id) v = toggle_select id v
select_step (starts_drag id) v = start_drag_select id v
select_step (enters id) v = handle_drag_select_enter id v
select_step lifts v = handle_pointer_up v
select_step exits v = exit_select_mode v
select_step (selects_all messages) v = handle_select_all messages v

unfoldable pub select_all : List SelectEvent → View → View
select_all [] v = v
select_all (e ∷ es) v = select_all es (select_step e v)

set_of-Distinct : (xs seen : List Text) → Distinct seen → Distinct (set_of xs seen)
unfolding set_of
set_of-Distinct [] seen d = d
set_of-Distinct (x ∷ xs) seen d = set_of-Distinct xs (add_name x seen) (add_name-Distinct x seen d)

select_step-Distinct :
    (e : SelectEvent) (v : View) → Distinct v.selected_ids → Distinct (select_step e v).selected_ids
unfolding select_step toggle_select start_drag_select handle_drag_select_enter handle_pointer_up
    exit_select_mode handle_select_all
select_step-Distinct (toggles id) v d =
    ground (arith, remove_name-Distinct id v.selected_ids d, add_name-Distinct id v.selected_ids d)
select_step-Distinct (starts_drag id) v d = (unfold includes in refl, tt)
select_step-Distinct (enters id) v d = ground (arith, add_name-Distinct id v.selected_ids d)
select_step-Distinct lifts v d = d
select_step-Distinct exits v d = tt
select_step-Distinct (selects_all messages) v d = set_of-Distinct (selectable_ids messages) [] tt

pub select_all-Distinct :
    (es : List SelectEvent) (v : View)
    → Distinct v.selected_ids
    → Distinct (select_all es v).selected_ids
unfolding select_all
select_all-Distinct [] v d = d
select_all-Distinct (e ∷ es) v d =
    select_all-Distinct es (select_step e v) (select_step-Distinct e v d)
