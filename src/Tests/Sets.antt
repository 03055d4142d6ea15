-- ===== src/Tests/Sets.antt =====
-- Examples for src/cw/msgset.c and src/ac/wtpman.c, over the tables of the CAPWAP module and lists for the trees.
use mathlib.Core.Option.{none-ne-some}
use actube.Base.{
  ℕ, ◌≡◌, ◌≢◌, ◌↔◌, refl, arith, Bool, true, Option, none, some, List, [], ◌∷◌, ◌==◌, ◌&&◌, ◌||◌,
  if◌then◌else◌, not, and-left, and-right,
}
use Prim.Native.Nat.{bit_and}
use actube.MsgSet.{ElemData, ElemDef, ElemHandler, MsgDef}
use actube.MsgSet.Order.{same_elem}
use actube.MsgSet.Mavl.{Mavl, In}
use actube.MsgSet.Elements.{IsSame, look, nothing}
use actube.MsgSet.Update.{Elems, cw_append, update_msgdata}
use actube.MsgSet.Update.Elementwise.{NoAppend, same_elem-IsSame, view, effects}
use actube.MsgSet.Update.Consistent.{Mandatory, IsConsistent, update_msgdata-IsConsistent}
use actube.MsgSet.Add.{Message, Set, same_type, same_handler, get_msgdata, msgset_add}
use actube.MsgSet.Add.Total.{NoAppends, IsConsistentSet, msgset_add-IsConsistentSet}
use actube.MsgSet.States.{MachineState, same_state, add_states}
use actube.Capwap.Names.{
  state_data_check, state_dtls_setup, state_join, state_run, elem_result_code, elem_ac_name,
}
use actube.Capwap.Messages.{messages, join_response_elements}
use actube.Capwap.Handlers.{Handler, handlers}
use actube.Capwap.Cisco.{messages70, merged}
use actube.Capwap.Machine.{capwap_states, cisco_states}
use actube.Machine.Session.{Session, joined}
use actube.Machine.Session.Closed.{loaded}
use actube.Machine.Session.Tables.{Goes, place, capwap-Session, cisco-Session}
use actube.Tests.ListMap.{list_map}

not_append : (n : ℕ) → not (n == cw_append) ≡ true → n ≢ cw_append
not_append n h = ground arith

-- Whether none of the definitions appends.
abbrev no_append : List ElemDef → Bool
no_append [] = true
no_append (d ∷ ds) = not (bit_and d.op 0xff == cw_append) && no_append ds

no_append-NoAppend : (ds : List ElemDef) → no_append ds ≡ true → NoAppend ds
no_append-NoAppend [] h = tt
no_append-NoAppend (d ∷ ds) h =
    (not_append (bit_and d.op 0xff) (and-left _ _ h), no_append-NoAppend ds (and-right _ _ h))

abbrev no_appends : List (MsgDef ℕ) → Bool
no_appends [] = true
no_appends (d ∷ ds) = no_append d.elements && no_appends ds

no_appends-NoAppends : (ds : List (MsgDef ℕ)) → no_appends ds ≡ true → NoAppends ds
no_appends-NoAppends [] h = tt
no_appends-NoAppends (d ∷ ds) h =
    (no_append-NoAppend d.elements (and-left _ _ h), no_appends-NoAppends ds (and-right _ _ h))

same_elem_self : (x : ElemData) → same_elem x x ≡ true
unfolding same_elem
same_elem_self x = ground arith

abbrev elem_map : Mavl ElemData same_elem
elem_map = list_map same_elem same_elem-IsSame same_elem_self

same_type-IsSame : IsSame (same_type {S = ℕ} {Tree = elem_map.Tree})
same_type-IsSame = record { sym_lem = λ x y. ground arith; trans_lem = λ x y z h. ground arith }

same_type_self : (x : Message ℕ elem_map.Tree) → same_type x x ≡ true
same_type_self x = ground arith

abbrev message_map : Mavl (Message ℕ elem_map.Tree) same_type
message_map = list_map same_type same_type-IsSame same_type_self

same_handler-IsSame : IsSame (same_handler {S = ℕ})
same_handler-IsSame = record { sym_lem = λ x y. ground arith; trans_lem = λ x y z h. ground arith }

same_handler_self : (x : ElemHandler ℕ) → same_handler x x ≡ true
same_handler_self x = ground arith

abbrev handler_map : Mavl (ElemHandler ℕ) same_handler
handler_map = list_map same_handler same_handler-IsSame same_handler_self

same_state-IsSame : IsSame same_state
same_state-IsSame = record { sym_lem = λ x y. ground arith; trans_lem = λ x y z h. ground arith }

same_state_self : (x : MachineState) → same_state x x ≡ true
same_state_self x = ground arith

abbrev state_map : Mavl MachineState same_state
state_map = list_map same_state same_state-IsSame same_state_self

-- An element's id is its key; there are no callbacks.
abbrev elem_handler : Handler → ElemHandler ℕ
elem_handler h = record {
  id = h.id;
  vendor = h.vendor;
  proto = h.proto;
  key = h.id;
  min_len = h.min_len;
  max_len = h.max_len;
  get = none;
  put = none;
}

abbrev elem_handlers : List Handler → List (ElemHandler ℕ)
elem_handlers [] = []
elem_handlers (h ∷ hs) = elem_handler h ∷ elem_handlers hs

abbrev two_handlers : ℕ → ℕ → ℕ → Option (ElemHandler ℕ)
two_handlers proto vendor id =
    if id == elem_result_code || id == elem_ac_name
    then some (elem_handler (record { id = id; vendor = 0; proto = 0; min_len = 4; max_len = 4 }))
    else none

abbrev no_elems : Elems elem_map.Tree
no_elems = record { elements_tree = elem_map.empty; elements_list = []; mand_keys = [] }

no_elems-IsConsistent : IsConsistent elem_map two_handlers no_elems
unfolding look
no_elems-IsConsistent = record { once = nothing; agreed = λ x. rw (elem_map.get-empty x) refl }

update_msgdata-IsConsistent_example :
    (e : Elems elem_map.Tree) × (update_msgdata elem_map two_handlers no_elems
        join_response_elements
      ≡ some e)
    × IsConsistent elem_map two_handlers e
    × ((x : ElemData)
        → view elem_map two_handlers e x
          ≡ effects two_handlers x (view elem_map two_handlers no_elems x) join_response_elements)
    × ((k : ℕ)
        → In k e.mand_keys
          ↔ Mandatory two_handlers (λ x. elem_map.get e.elements_tree x ≡ some x) k)
update_msgdata-IsConsistent_example =
    update_msgdata-IsConsistent elem_map two_handlers no_elems join_response_elements
      (no_append-NoAppend join_response_elements refl) no_elems-IsConsistent

abbrev no_set : Set elem_map handler_map message_map
no_set = record { msgdata = message_map.empty; handlers_by_id = handler_map.empty }

no_set-IsConsistentSet : IsConsistentSet elem_map handler_map message_map no_set
unfolding list_map look get_msgdata
no_set-IsConsistentSet type msg h = absurd (none-ne-some msg h)

msgset_add-IsConsistentSet_example :
    (set : Set elem_map handler_map message_map) × (msgset_add elem_map handler_map message_map
        no_set
        (messages none)
        (elem_handlers handlers)
      ≡ some set)
    × IsConsistentSet elem_map handler_map message_map set
msgset_add-IsConsistentSet_example =
    msgset_add-IsConsistentSet elem_map handler_map message_map no_set (messages none)
      (elem_handlers handlers) (no_appends-NoAppends (messages none) refl) no_set-IsConsistentSet

capwap-Session_example :
    Goes state_map (loaded state_map capwap_states) (place state_dtls_setup state_join)
    × (state_join ≢ state_run)
capwap-Session_example =
    capwap-Session {S = ℕ} state_map none (place state_dtls_setup state_join) joined

cisco-Session_example :
    Goes state_map
      (add_states state_map (loaded state_map capwap_states) cisco_states)
      (place state_dtls_setup state_join)
    × Session state_map
        (add_states state_map (loaded state_map capwap_states) cisco_states)
        (merged (messages {S = ℕ} none) messages70)
        (place state_data_check state_run)
cisco-Session_example =
    cisco-Session {S = ℕ} state_map none (place state_dtls_setup state_join) joined
