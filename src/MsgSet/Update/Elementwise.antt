-- ===== src/MsgSet/Update/Elementwise.antt =====
-- What a list of definitions does to one message element, whatever else the message has.
use Prim.Native.Nat.{bit_and}
use actube.Base.{
  ℕ, ◌≡◌, ◌≢◌, refl, ap, ◌∙◌, inl, inr, arith, Bool, true, false, Option, none, some, List, [], ◌∷◌,
  if◌then◌else◌, ◌==◌, ◌&&◌, Bool-cases, Option-cases,
}
use actube.MsgSet.{ElemDef, ElemData, ElemHandler}
use actube.MsgSet.Order.{same_elem, same_elem_sym, same_elem_trans}
use actube.MsgSet.Mavl.{Mavl, get-replace}
use actube.MsgSet.Elements.{
  IsSame, Once, look, look-replace, look-append, look-delete, replace-Once, append-Once,
  delete-Once,
}
use actube.MsgSet.Update.{
  Elems, data_of, cw_delete, cw_append, cw_ignore, replace_or_append, switch_op, update_element,
  update_elements,
}

-- What a message holds for one element: how it is sent, and how it is accepted.
pub record View : Type 0 where
  pub sent : Option ElemData
  pub accepted : Option ElemData

pub same_elem-IsSame : IsSame same_elem
same_elem-IsSame = record { sym_lem = same_elem_sym; trans_lem = same_elem_trans }

module _ {S : Type 0} (handler : ℕ → ℕ → ℕ → Option (ElemHandler S)) where
  abbrev pub is_known : ElemDef → Bool
  is_known d = elim (handler d.proto d.vendor d.id) [ none ↦ false | some h ↦ true ]

  abbrev pub effect : ElemDef → View → View
  effect d v =
      if bit_and d.op 0xff == cw_ignore
      then record v { accepted = some (data_of d) }
      else if bit_and d.op 0xff == cw_delete
      then record { sent = none; accepted = none }
      else record { sent = some (data_of d); accepted = some (data_of d) }

  -- The definitions that are about `x` act one after the other; the others do nothing.
  abbrev pub effects : ElemData → View → List ElemDef → View
  effects x v [] = v
  effects x v (d ∷ ds) =
      let rest = effects x (if is_known d && same_elem (data_of d) x then effect d v else v) ds in
      if d.id == 0 then v else rest

abbrev pub NoAppend : List ElemDef → Type 0
NoAppend [] = Unit
NoAppend (d ∷ ds) = (bit_and d.op 0xff ≢ cw_append) × NoAppend ds

module _ {S : Type 0} (M : Mavl ElemData same_elem)
    (handler : ℕ → ℕ → ℕ → Option (ElemHandler S)) where
  open M use {Tree, get}

  abbrev pub view : Elems Tree → ElemData → View
  view e x = record { sent = look same_elem e.elements_list x; accepted = get e.elements_tree x }

  look-replace_or_append :
      (list : List ElemData) (d x : ElemData)
      → look same_elem (replace_or_append M handler list d) x
        ≡ (if same_elem d x then some d else look same_elem list x)
  unfolding replace_or_append
  look-replace_or_append list d x = elim (Option-cases (look same_elem list d)) [
    | inl absent ↦
        rw (replace_or_append, absent) (look-append same_elem same_elem-IsSame list d x absent)
    | inr (old, here) ↦
        rw (replace_or_append, here) (look-replace same_elem same_elem-IsSame list d x old here)
  ]

  replace_or_append-Once :
      (list : List ElemData) (d : ElemData)
      → Once same_elem list
      → Once same_elem (replace_or_append M handler list d)
  unfolding replace_or_append
  replace_or_append-Once list d o = elim (Option-cases (look same_elem list d)) [
    | inl absent ↦
        rw (replace_or_append, absent) (append-Once same_elem same_elem-IsSame list d absent o)
    | inr (old, here) ↦
        rw (replace_or_append, here) (replace-Once same_elem same_elem-IsSame list d o)
  ]

  switch_op-view :
      (op : ℕ) (e : Elems Tree) (d : ElemDef) (x : ElemData)
      → bit_and d.op 0xff ≡ op
      → op ≢ cw_append
      → Once same_elem e.elements_list
      → view (switch_op M handler op e (data_of d)) x
        ≡ (if same_elem (data_of d) x then effect handler d (view e x) else view e x)
  unfolding switch_op
  switch_op-view op e d x h ne once = ground (
    arith,
    get-replace M e.elements_tree (data_of d) x,
    M.get-del e.elements_tree (data_of d) x,
    look-replace_or_append e.elements_list (data_of d) x,
    look-delete same_elem same_elem-IsSame e.elements_list (data_of d) x once,
  )

  switch_op-Once :
      (op : ℕ) (e : Elems Tree) (d : ElemData)
      → op ≢ cw_append
      → Once same_elem e.elements_list
      → Once same_elem (switch_op M handler op e d).elements_list
  unfolding switch_op
  switch_op-Once op e d ne once = ground (
    arith,
    replace_or_append-Once e.elements_list d once,
    delete-Once same_elem same_elem-IsSame e.elements_list d once,
  )

  update_element-view :
      (e : Elems Tree) (d : ElemDef) (x : ElemData)
      → bit_and d.op 0xff ≢ cw_append
      → Once same_elem e.elements_list
      → view (update_element M handler e d) x ≡ (
          if is_known handler d && same_elem (data_of d) x
          then effect handler d (view e x)
          else view e x)
  unfolding update_element
  update_element-view e d x ne once = elim (Option-cases (handler d.proto d.vendor d.id)) [
    | inl absent ↦ rw (update_element, is_known, absent) refl
    | inr (h, present) ↦
        rw (update_element, is_known, present)
          (switch_op-view (bit_and d.op 0xff) e d x refl ne once)
  ]

  update_element-Once :
      (e : Elems Tree) (d : ElemDef)
      → bit_and d.op 0xff ≢ cw_append
      → Once same_elem e.elements_list
      → Once same_elem (update_element M handler e d).elements_list
  unfolding update_element
  update_element-Once e d ne once = elim (Option-cases (handler d.proto d.vendor d.id)) [
    | inl absent ↦ rw (update_element, absent) once
    | inr (h, present) ↦
        rw (update_element, present) (switch_op-Once (bit_and d.op 0xff) e (data_of d) ne once)
  ]

  -- Where no definition appends and the list holds no element twice, the list of the elements and the
  -- tree hold for each element what the definitions about this element with a handler say, in order.
  pub update_elements-effects :
      (ds : List ElemDef) (e : Elems Tree) (x : ElemData)
      → NoAppend ds
      → Once same_elem e.elements_list
      → (view (update_elements M handler e ds) x ≡ effects handler x (view e x) ds)
        × Once same_elem (update_elements M handler e ds).elements_list
  unfolding update_elements
  update_elements-effects [] e x ok once = (refl, once)
  update_elements-effects (d ∷ ds) e x ok once = elim (Bool-cases (d.id == 0)) [
    | inl end ↦ rw end (refl, once)
    | inr more ↦
        let (later, kept) =
          update_elements-effects ds (update_element M handler e d) x ok.1
            (update_element-Once e d ok.0 once) in
        rw more
          (later ∙ ap (λ v. effects handler x v ds) (update_element-view e d x ok.0 once), kept)
  ]
