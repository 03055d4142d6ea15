-- ===== src/MsgSet/Add.antt =====
-- `cw_msgset_add` and the lookups of src/cw/msgset.c, over the trees of handlers and of messages.
pub mod Total
use actube.Base.{ℕ, Mem, Bool, ℤ, Option, none, some, List, [], ◌∷◌, if◌then◌else◌, ◌==◌, ◌&&◌}
use actube.MsgSet.{State, ElemData, ElemHandler, MsgDef}
use actube.MsgSet.Order.{same_elem}
use actube.MsgSet.Mavl.{Mavl, or_else}
use actube.MsgSet.Mavl
use actube.MsgSet.Update.{Elems, update_msgdata}

-- `struct cw_MsgData` as it stands in the tree of messages.
pub record Message (S : Type 0) (Tree : Type 0) : Type 0 where
  pub type : ℕ
  pub receiver : ℕ
  pub states : Option (List State)
  pub preprocess : Option (S → S)
  pub postprocess : Option (S → Mem → ℤ → S)
  pub elems : Elems Tree

abbrev pub same_type : {S Tree : Type 0} → Message S Tree → Message S Tree → Bool
same_type m1 m2 = m1.type == m2.type

abbrev pub same_handler : {S : Type 0} → ElemHandler S → ElemHandler S → Bool
same_handler h1 h2 = h1.id == h2.id && (h1.vendor == h2.vendor && h1.proto == h2.proto)

abbrev pub kept {ℓ} : {A : Type ℓ} → Option A → Option A → Option A
kept none old = old
kept (some new) old = some new

module _ {S : Type 0} (M : Mavl ElemData same_elem) (H : Mavl (ElemHandler S) same_handler)
    (D : Mavl (Message S M.Tree) same_type) where
  pub record Set : Type 0 where
    pub msgdata : D.Tree
    pub handlers_by_id : H.Tree

  -- What the lookups search for; the fields that the comparison does not read are arbitrary.
  abbrev pub handler_key : ℕ → ℕ → ℕ → ElemHandler S
  handler_key proto vendor id = record {
    id = id;
    vendor = vendor;
    proto = proto;
    key = 0;
    min_len = 0;
    max_len = 0;
    get = none;
    put = none;
  }

  unfoldable pub get_elemhandler : Set → ℕ → ℕ → ℕ → Option (ElemHandler S)
  get_elemhandler set proto vendor id = H.get set.handlers_by_id (handler_key proto vendor id)

  abbrev pub fresh : ℕ → Message S M.Tree
  fresh type = record {
    type = type;
    receiver = 0;
    states = none;
    preprocess = none;
    postprocess = none;
    elems = record { elements_tree = M.empty; elements_list = []; mand_keys = [] };
  }

  unfoldable pub get_msgdata : Set → ℕ → Option (Message S M.Tree)
  get_msgdata set type = D.get set.msgdata (fresh type)

  -- What the definition says of the message itself.
  abbrev pub overwrite : Message S M.Tree → MsgDef S → Message S M.Tree
  overwrite msg d = record msg {
    receiver = d.receiver;
    states = kept d.states msg.states;
    preprocess = kept d.preprocess msg.preprocess;
    postprocess = kept d.postprocess msg.postprocess;
  }

  -- `mavl_insert` gives the message of that type, a new one if there is none.
  unfoldable pub add_message : Set → MsgDef S → Option Set
  unfolding get_msgdata
  add_message set d =
      let msg = overwrite (or_else (get_msgdata set d.type) (fresh d.type)) d in
      elim (update_msgdata M (get_elemhandler set) msg.elems d.elements) [
        | none ↦ none
        | some elems ↦ some (record set {
          msgdata = D.store (D.insert set.msgdata (fresh d.type)) (record msg { elems = elems });
        })
      ]

  -- Both arrays end with an entry that holds 0.
  unfoldable pub add_handlers : H.Tree → List (ElemHandler S) → H.Tree
  add_handlers t [] = t
  add_handlers t (h ∷ hs) =
      let rest = add_handlers (Mavl.replace H t h) hs in if h.id == 0 then t else rest

  unfoldable pub add_messages : Set → List (MsgDef S) → Option Set
  unfolding add_message
  add_messages set [] = some set
  add_messages set (d ∷ ds) =
      let rest : Option Set = elim (add_message set d) [
        | none ↦ none
        | some set' ↦ add_messages set' ds
      ] in
      if d.type == 0 then some set else rest

  -- `none` stands for an access through a null pointer.
  unfoldable pub msgset_add : Set → List (MsgDef S) → List (ElemHandler S) → Option Set
  unfolding add_handlers add_messages
  msgset_add set messages handlers =
      add_messages (record set { handlers_by_id = add_handlers set.handlers_by_id handlers })
        messages
