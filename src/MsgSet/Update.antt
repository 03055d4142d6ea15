-- ===== src/MsgSet/Update.antt =====
-- `update_msgdata` of src/cw/msgset.c: a message's elements are changed by a list of definitions. The list
-- of the elements is what is sent, the tree is what is accepted.
pub mod Elementwise
pub mod Consistent
use Prim.Native.Nat.{bit_and}
use actube.Base.{ℕ, Bool, true, false, Option, none, some, List, [], ◌∷◌, ◌++◌, if◌then◌else◌, ◌==◌}
use actube.MsgSet.{ElemDef, ElemData, ElemHandler}
use actube.MsgSet.Order.{same_elem}
use actube.MsgSet.Mavl.{Mavl}
use actube.MsgSet.Mavl
use actube.MsgSet.Elements

abbrev pub cw_delete : ℕ
cw_delete = 1

abbrev pub cw_append : ℕ
cw_append = 2

abbrev pub cw_ignore : ℕ
cw_ignore = 5

-- The three containers of a message's data.
pub record Elems (Tree : Type 0) : Type 0 where
  pub elements_tree : Tree
  pub elements_list : List ElemData
  pub mand_keys : List ℕ

abbrev pub data_of : ElemDef → ElemData
data_of d = record { proto = d.proto; vendor = d.vendor; id = d.id; mand = d.mand }

module _ {S : Type 0} (handler : ℕ → ℕ → ℕ → Option (ElemHandler S)) where
  -- The keys of the mandatory elements, in the order of the tree. `none` stands for the access through
  -- the null pointer that an element without a handler gives.
  unfoldable pub mandatory_keys : List ElemData → Option (List ℕ)
  mandatory_keys [] = some []
  mandatory_keys (ed ∷ eds) =
      if ed.mand
      then elim (handler ed.proto ed.vendor ed.id) [
        | none ↦ none
        | some h ↦ elim (mandatory_keys eds) [ none ↦ none | some keys ↦ some (h.key ∷ keys) ]
      ]
      else mandatory_keys eds

module _ {S : Type 0} (M : Mavl ElemData same_elem)
    (handler : ℕ → ℕ → ℕ → Option (ElemHandler S)) where
  open M use {Tree, del, to_list}

  -- The message elements which the list and the tree hold after the `switch`.
  unfoldable pub replace_or_append : List ElemData → ElemData → List ElemData
  replace_or_append list ed = elim (Elements.look same_elem list ed) [
    | none ↦ list ++ ed ∷ []
    | some old ↦ Elements.replace same_elem list ed
  ]

  unfoldable pub switch_op : ℕ → Elems Tree → ElemData → Elems Tree
  unfolding replace_or_append
  switch_op op e ed =
      if op == cw_ignore
      then record e { elements_tree = Mavl.replace M e.elements_tree ed }
      else if op == cw_delete
      then record e {
        elements_tree = del e.elements_tree ed;
        elements_list = Elements.delete same_elem e.elements_list ed;
      }
      else if op == cw_append
      then record e {
        elements_tree = Mavl.replace M e.elements_tree ed;
        elements_list = e.elements_list ++ ed ∷ [];
      }
      else record e {
        elements_tree = Mavl.replace M e.elements_tree ed;
        elements_list = replace_or_append e.elements_list ed;
      }

  -- A definition without a handler is skipped.
  unfoldable pub update_element : Elems Tree → ElemDef → Elems Tree
  unfolding switch_op
  update_element e d = elim (handler d.proto d.vendor d.id) [
    | none ↦ e
    | some h ↦ switch_op (bit_and d.op 0xff) e (data_of d)
  ]

  -- The definitions end with one whose id is 0.
  unfoldable pub update_elements : Elems Tree → List ElemDef → Elems Tree
  unfolding update_element
  update_elements e [] = e
  update_elements e (d ∷ ds) =
      let rest = update_elements (update_element e d) ds in if d.id == 0 then e else rest

  unfoldable pub update_msgdata : Elems Tree → List ElemDef → Option (Elems Tree)
  unfolding update_elements mandatory_keys
  update_msgdata e ds =
      let e' = update_elements e ds in
      elim (mandatory_keys handler (to_list e'.elements_tree)) [
        | none ↦ none
        | some keys ↦ some (record e' { mand_keys = keys })
      ]
