-- ===== src/Generic.antt =====
-- The element handlers that go by a type: `cw_in_generic`, `cw_out_generic` and `cw_in_radio_generic` of src/cw/cw.c,
-- src/cw/cw_in_generic_with_index.c and src/cw/cw_write_radio_element.c, with the headers of
-- src/mod/capwap/capwap_actions.c. Elements are read at `src` and written at `dst` in a memory.
pub mod Delivery
use actube.Base.{
  ℕ, zero, suc, [], ◌+◌, ◌-◌, Option, none, some, List, ◌∷◌, ◌++◌, if◌then◌else◌, ◌==◌, ℤ, pos,
  negsuc, Mem, set_byte, pos_part, neg_part, sub_ℕ,
}
use actube.MsgSet.Mavl.{Mavl}
use actube.Message.{put_elem_hdr, put_elem_vendor_hdr, unrecognized_message_element}
use actube.Value.Decimal.{print_nat}
use actube.Value.Struct.{Kind}
use actube.Value.Kinds.{get_byte_l}
use actube.Cfg.Store.{Entry, same_entry}

-- The fields of `struct cw_ElemHandler` that these handlers look at, with the `param` in the type.
pub record TypedHandler (Tree : Type 0) : Type 0 where
  pub id : ℕ
  pub vendor : ℕ
  pub kind : Option (Kind Tree)
  pub key : List ℕ
  pub mkkey : Option (List ℕ → Mem → ℕ → ℤ → List ℕ)

abbrev pub header_len : {Tree : Type 0} → TypedHandler Tree → ℕ
header_len handler = if handler.vendor == 0 then 4 else 10

unfoldable pub write_header : {Tree : Type 0} → TypedHandler Tree → Mem → ℕ → ℕ → Mem × ℕ
unfolding put_elem_vendor_hdr put_elem_hdr
write_header handler m dst len =
    if handler.vendor == 0
    then ((put_elem_hdr m dst handler.id len).0, len + 4)
    else ((put_elem_vendor_hdr m dst handler.vendor handler.id len).0, len + 10)

abbrev pub element_key : {Tree : Type 0} → TypedHandler Tree → Mem → ℕ → ℤ → List ℕ
element_key handler m src len = elim handler.mkkey [
  | none ↦ handler.key
  | some mkkey ↦ mkkey handler.key m src len
]

abbrev pub without_byte : ℤ → ℤ
without_byte len = sub_ℕ (pos_part len) (neg_part len + 1)

-- "radio.%d/%s"
abbrev pub radio_key : ℕ → List ℕ → List ℕ
radio_key radio key = b'r' ∷ b'a' ∷ b'd' ∷ b'i' ∷ b'o' ∷ b'.' ∷ (print_nat radio ++ b'/' ∷ key)

module _ {Tree : Type 0} where
  -- The configuration, and the result of the element: 0 is CAPWAP_RESULT_SUCCESS.
  unfoldable pub in_generic : TypedHandler Tree → Tree → Mem → ℕ → ℤ → Tree × ℤ
  in_generic handler cfg m src len = elim handler.kind [
    | none ↦ (cfg, unrecognized_message_element)
    | some kind ↦ ((kind.read cfg (element_key handler m src len) m src len).0, pos 0)
  ]

  unfoldable pub in_radio_generic : TypedHandler Tree → Tree → Mem → ℕ → ℤ → Tree × ℤ
  in_radio_generic handler cfg m src len = elim handler.kind [
    | none ↦ (cfg, unrecognized_message_element)
    | some kind ↦
        ((kind.read cfg (radio_key (m src) handler.key) m (src + 1) (without_byte len)).0, pos 0)
  ]

  -- "%s.%d"; `none`: the access through a type that is missing.
  unfoldable pub in_generic_with_index : TypedHandler Tree → Tree → Mem → ℕ → ℤ → Option (Tree × ℤ)
  in_generic_with_index handler cfg m src len = elim handler.kind [
    | none ↦ none
    | some kind ↦
        let key = handler.key ++ b'.' ∷ print_nat (m src) in
        some ((kind.read cfg key m (src + 1) (without_byte len)).0, pos 1)
  ]

  -- What is done with the length that `write` returned; -1 says that there is no value.
  unfoldable pub finish_element : TypedHandler Tree → ℕ → Mem × ℤ → Option (Mem × ℕ)
  unfolding write_header
  finish_element handler dst (m, pos n) = some (write_header handler m dst n)
  finish_element handler dst (m, negsuc n) = if n == 0 then some (m, 0) else none

  -- `none`: a type that is missing, or a negative length.
  unfoldable pub out_generic : TypedHandler Tree → List Tree → Mem → ℕ → Option (Mem × ℕ)
  unfolding finish_element
  out_generic handler cfgs m dst = elim handler.kind [
    | none ↦ none
    | some kind ↦
        finish_element handler dst (kind.write cfgs handler.key m (dst + header_len handler))
  ]

  -- The number of the radio is put behind the value.
  unfoldable pub finish_radio_element : TypedHandler Tree → ℕ → ℕ → Mem × ℤ → Option (Mem × ℕ)
  unfolding write_header
  finish_radio_element handler idx dst (m, pos n) =
      some (write_header handler (set_byte m (dst + header_len handler + n) idx) dst (n + 1))
  finish_radio_element handler idx dst (m, negsuc n) = if n == 0 then some (m, 0) else none

  unfoldable pub write_radio_element :
      TypedHandler Tree → List Tree → ℕ → Mem → ℕ → Option (Mem × ℕ)
  unfolding finish_radio_element
  write_radio_element handler cfgs idx m dst = elim handler.kind [
    | none ↦ none
    | some kind ↦
        finish_radio_element handler idx dst
          (kind.write cfgs (radio_key idx handler.key) m (dst + header_len handler))
  ]

  -- The rest of a radio's element: what is written, and how long all elements are then.
  unfoldable pub put_radio : TypedHandler Tree → ℕ → ℕ → ℕ → Mem × ℤ → Option (Mem × ℕ)
  unfolding write_header
  put_radio handler i dst len (m, pos n) =
      let (m', l) =
        write_header handler (set_byte m (dst + (header_len handler + len)) i) (dst + len)
          (n + 1) in
      some (m', len + l)
  put_radio handler i dst len (m, negsuc n) = if n == 0 then some (m, len) else none

  -- The loop over the radios from the i-th on, of which `left` are to come.
  unfoldable pub out_radios :
      ℕ → ℕ → TypedHandler Tree → Kind Tree → List Tree → Mem → ℕ → ℕ → Option (Mem × ℕ)
  unfolding put_radio
  out_radios zero i handler kind cfgs m dst len = some (m, len)
  out_radios (suc left) i handler kind cfgs m dst len =
      let start = header_len handler + len in
      let w = kind.write cfgs (radio_key i handler.key) m (dst + start + 1) in
      elim (put_radio handler i dst len w) [
        | none ↦ none
        | some (m', len') ↦ out_radios left (i + 1) handler kind cfgs m' dst len'
      ]

-- "capwap/wtp-descriptor/max-radios"
abbrev max_radios : List ℕ
max_radios =
    b'c' ∷ b'a' ∷ b'p' ∷ b'w' ∷ b'a' ∷ b'p' ∷ b'/' ∷ b'w' ∷ b't' ∷ b'p' ∷ b'-' ∷ b'd' ∷ b'e' ∷ b's'
    ∷ b'c' ∷ b'r' ∷ b'i' ∷ b'p' ∷ b't' ∷ b'o' ∷ b'r' ∷ b'/' ∷ b'm' ∷ b'a' ∷ b'x' ∷ b'-' ∷ b'r'
    ∷ b'a' ∷ b'd' ∷ b'i' ∷ b'o' ∷ b's' ∷ []

module _ (M : Mavl Entry same_entry) where
  -- `none`: a type that is missing, if there is a radio; or a negative length.
  unfoldable pub out_radio_generic : TypedHandler M.Tree → List M.Tree → Mem → ℕ → Option (Mem × ℕ)
  unfolding out_radios get_byte_l
  out_radio_generic handler cfgs m dst =
      let radios = get_byte_l M cfgs max_radios 0 in
      elim handler.kind [
        | none ↦ if radios == 0 then some (m, 0) else none
        | some kind ↦ out_radios radios 0 handler kind cfgs m dst 0
      ]
