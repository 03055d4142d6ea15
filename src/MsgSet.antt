-- ===== src/MsgSet.antt =====
-- The message definitions a connection works with: the structs of src/cw/msgset.h and the lookups of
-- src/cw/msgset.c. A `mavl` tree is a lookup function; a handler is what its two callbacks do to a
-- state `S`, which stands for all that they can reach (connection and configuration).
pub mod Mavl
pub mod Order
pub mod Elements
pub mod Update
pub mod Add
pub mod States
use actube.Base.{ℕ, Mem, Bool, Option, List, ℤ}

pub record ElemDef : Type 0 where
  pub proto : ℕ
  pub vendor : ℕ
  pub id : ℕ
  pub mand : Bool
  pub op : ℕ

pub record ElemData : Type 0 where
  pub proto : ℕ
  pub vendor : ℕ
  pub id : ℕ
  pub mand : Bool

-- `get` reads the data of an element, given its length. `put` writes an element to a memory at an
-- offset, and returns how many bytes it wrote.
pub record ElemHandler (S : Type 0) : Type 0 where
  pub id : ℕ
  pub vendor : ℕ
  pub proto : ℕ
  pub key : ℕ
  pub min_len : ℕ
  pub max_len : ℕ
  pub get : Option (S → Mem → ℕ → S × ℤ)
  pub put : Option (S → Mem → ℕ → S × Mem × ℕ)

pub record State : Type 0 where
  pub state : ℕ
  pub next : ℕ

-- A missing pointer of a definition leaves what the message has.
pub record MsgDef (S : Type 0) : Type 0 where
  pub type : ℕ
  pub receiver : ℕ
  pub states : Option (List State)
  pub elements : List ElemDef
  pub preprocess : Option (S → S)
  pub postprocess : Option (S → Mem → ℤ → S)

-- `states` ends with an entry whose state is 0. The two callbacks may be missing.
pub record MsgData (S : Type 0) : Type 0 where
  pub type : ℕ
  pub states : List State
  pub receiver : ℕ
  pub elements_tree : ℕ → ℕ → ℕ → Option ElemData
  pub elements_list : List ElemData
  pub mand_keys : List ℕ
  pub preprocess : Option (S → S)
  pub postprocess : Option (S → Mem → ℤ → S)

-- `cw_msgset_get_msgdata` and `cw_msgset_get_elemhandler` (by protocol, vendor and id).
pub record MsgSet (S : Type 0) : Type 0 where
  pub get_msgdata : ℕ → Option (MsgData S)
  pub get_elemhandler : ℕ → ℕ → ℕ → Option (ElemHandler S)
