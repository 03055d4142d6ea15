-- ===== src/Message.antt =====
-- Message elements: src/cw/message.c, src/cw/cw_check_missing_mand.c, the macros `cw_foreach_elem` and
-- `cw_put_elem_hdr` of src/cw/cw.h and the functions of src/cw/cw_inline.c that put an element. The
-- lookups of the configuration are an argument. Debug output is left out, but for the one that reads
-- a field of a missing handler.
pub mod Elems
pub mod Decode
pub mod Encode
pub mod Put
use actube.Base.{
  ℕ, zero, suc, ◌+◌, ◌-◌, ◌*◌, ◌^◌, Mem, from, Bool, true, false, not, ◌&&◌, ◌||◌, Option, none,
  some, List, [], ◌∷◌, ◌++◌, length, ltb, ◌==◌, if◌then◌else◌, bit_or, ℤ, pos, negsuc, get_word,
  set_word, set_dword, set_byte, memcpy,
}
use actube.MsgSet.{ElemData, ElemHandler, MsgData, MsgSet}

-- Element headers. A pointer to an element is an offset into the message's memory.
abbrev pub get_elem_id : Mem → ℕ → ℕ
get_elem_id m e = get_word m e

abbrev pub get_elem_len : Mem → ℕ → ℕ
get_elem_len m e = get_word m (e + 2)

-- The macro `cw_foreach_elem`, with a bound on the number of its turns.
unfoldable pub foreach_elem {ℓ} : {A : Type ℓ} → (A → ℕ → A) → Mem → ℕ → ℕ → ℕ → A → A
foreach_elem body m zero i end a = a
foreach_elem body m (suc fuel) i end a = elim (ltb i end) [
  | true ↦ foreach_elem body m fuel (i + 4 + get_elem_len m i) end (body a i)
  | false ↦ a
]

unfoldable pub put_elem_hdr : Mem → ℕ → ℕ → ℕ → Mem × ℕ
put_elem_hdr m dst type len = (set_dword m dst (bit_or (type * 2 ^ 16) len), 4)

unfoldable pub put_elem_vendor_hdr : Mem → ℕ → ℕ → ℕ → ℕ → Mem × ℕ
unfolding put_elem_hdr
put_elem_vendor_hdr m dst vendorid elemid len =
    let m1 = (put_elem_hdr m dst 37 (len + 6)).0 in
    (set_word (set_dword m1 (dst + 4) vendorid) (dst + 8) elemid, 10)

unfoldable pub addelem : Mem → ℕ → ℕ → Mem → ℕ → Mem × ℕ
unfolding put_elem_hdr
addelem m dst type bytes len =
    let (m1, l) = put_elem_hdr m dst type len in (memcpy m1 (dst + l) bytes 0 len, l + len)

unfoldable pub put_elem_result_code : Mem → ℕ → ℕ → Mem × ℕ
unfolding put_elem_hdr
put_elem_result_code m dst code =
    let (m1, l) = put_elem_hdr (set_dword m (dst + 4) code) dst 33 4 in (m1, 4 + l)

unfoldable pub put_elem_radio_operational_state : Mem → ℕ → ℕ → ℕ → ℕ → Mem × ℕ
unfolding put_elem_hdr
put_elem_radio_operational_state m dst rid state cause =
    let m1 = set_byte (set_byte (set_byte m (dst + 4) rid) (dst + 5) state) (dst + 6) cause in
    let (m2, l) = put_elem_hdr m1 dst 32 3 in (m2, 3 + l)

unfoldable pub put_elem_radio_administrative_state : Mem → ℕ → ℕ → ℕ → Mem × ℕ
unfolding put_elem_hdr
put_elem_radio_administrative_state m dst rid state =
    let m1 = set_byte (set_byte m (dst + 4) rid) (dst + 5) state in
    let (m2, l) = put_elem_hdr m1 dst 31 2 in (m2, 2 + l)

unfoldable pub put_elem_session_id : Mem → ℕ → Mem → ℕ → Mem × ℕ
unfolding put_elem_hdr
put_elem_session_id m dst session_id len =
    let (m1, l) = put_elem_hdr (memcpy m (dst + 4) session_id 0 len) dst 35 len in (m1, len + l)

-- `CAPWAP_RESULT_UNRECOGNIZED_MESSAGE_ELEMENT`
abbrev pub unrecognized_message_element : ℤ
unrecognized_message_element = pos 21

abbrev pub result_is_ok : ℤ → Bool
result_is_ok (pos n) = n == 0 || n == 2
result_is_ok (negsuc n) = false

-- What decoding keeps in `cw_ElemHandlerParams`: the state that handlers reach, the set of mandatory
-- keys that were found, and the unrecognized elements. Either collection may be missing (NULL).
pub record Params (S : Type 0) : Type 0 where
  pub state : S
  pub mand_found : Option (ℕ → Bool)
  pub unrecognized : Option (List ℕ)

-- `if (elem_data->mand && params->mand_found) mavl_add_str(...)`
abbrev pub found : ElemData → ℕ → Option (ℕ → Bool) → Option (ℕ → Bool)
found elem key none = none
found elem key (some keys) =
    some (if elem.mand then (λ k. if k == key then true else keys k) else keys)

abbrev pub append_elem : ℕ → Option (List ℕ) → Option (List ℕ)
append_elem e none = none
append_elem e (some es) = some (es ++ e ∷ [])

abbrev pub is_unrecognized : ℤ → Bool
is_unrecognized (pos n) = n == 21
is_unrecognized (negsuc n) = false

module _ {S : Type 0} where
  abbrev pub call_get : ElemHandler S → Params S → Mem → ℕ → Params S × ℤ
  call_get handler params bytes len = elim handler.get [
    | none ↦ (params, unrecognized_message_element)
    | some get ↦ let (s, rc) = get params.state bytes len in (record params { state = s }, rc)
  ]

  -- The length checks of `cw_decode_element` and what they enclose.
  unfoldable pub decode_known : ElemHandler S → ElemData → Params S → Mem → ℕ → Params S × ℤ
  decode_known handler elem_data params bytes len =
      if ltb len handler.min_len
      then (params, negsuc 0)
      else let params' = record params {
        mand_found = found elem_data handler.key params.mand_found;
      } in
        if ltb handler.max_len len && not (handler.max_len == 0)
        then (params', negsuc 0)
        else call_get handler params' bytes len

  abbrev pub allowed : Option (MsgData S) → ℕ → ℕ → ℕ → Option ElemData
  allowed none proto vendor id = none
  allowed (some msgdata) proto vendor id = msgdata.elements_tree proto vendor id

  unfoldable pub decode_element :
      MsgSet S → Option (MsgData S) → Params S → ℕ → ℕ → ℕ → Mem → ℕ → Params S × ℤ
  unfolding decode_known
  decode_element msgset msgdata params proto vendor elem_id bytes len =
      elim (msgset.get_elemhandler proto vendor elem_id) [
        | none ↦ (params, unrecognized_message_element)
        | some handler ↦ elim (allowed msgdata proto vendor elem_id) [
          | none ↦ (params, unrecognized_message_element)
          | some elem_data ↦ decode_known handler elem_data params bytes len
        ]
      ]

  -- The body of the loop of `cw_decode_elements`. A claimed length beyond the end is only reported.
  unfoldable pub decode_at : MsgSet S → Option (MsgData S) → Mem → Params S → ℕ → Params S
  unfolding decode_element
  decode_at msgset msgdata m params elem =
      let (params', rc) =
        decode_element msgset msgdata params 0 0 (get_elem_id m elem) (from m (elem + 4))
          (get_elem_len m elem) in
      if result_is_ok rc
      then params'
      else if is_unrecognized rc
      then record params' { unrecognized = append_elem elem params'.unrecognized }
      else params'

  -- Every turn moves on by four bytes at least, so that `elems_len` turns are enough.
  unfoldable pub decode_elements : MsgSet S → Option (MsgData S) → Mem → Params S → ℕ → ℕ → Params S
  unfolding decode_at
  decode_elements msgset msgdata m params elems_ptr elems_len =
      foreach_elem (decode_at msgset msgdata m) m elems_len elems_ptr (elems_ptr + elems_len) params

  -- A handler's part in `cw_encode_elements`: the state, the memory and the length so far.
  -- `base_exists` is `cw_cfg_base_exists` on `cfg_list[0]`.
  unfoldable pub encode_with :
      (S → ℕ → Bool) → ElemHandler S → ℕ → ElemData → S × Mem × ℕ → S × Mem × ℕ
  encode_with base_exists handler dst elem (s, m, len) = elim handler.put [
    | none ↦ (s, m, len)
    | some put ↦
        if not elem.mand && not (base_exists s handler.key)
        then (s, m, len)
        else let (s', m', l) = put s m (dst + len) in (s', m', len + l)
  ]

  -- One turn of the loop. `none`: the name of a handler that does not exist is read.
  unfoldable pub encode_element :
      (S → ℕ → Bool) → MsgSet S → ℕ → ElemData → S × Mem × ℕ → Option (S × Mem × ℕ)
  unfolding encode_with
  encode_element base_exists msgset dst elem out =
      elim (msgset.get_elemhandler elem.proto elem.vendor elem.id) [
        | none ↦ none
        | some handler ↦ some (encode_with base_exists handler dst elem out)
      ]

  unfoldable pub encode_elements :
      (S → ℕ → Bool) → MsgSet S → ℕ → List ElemData → S × Mem × ℕ → Option (S × Mem × ℕ)
  unfolding encode_element
  encode_elements base_exists msgset dst [] out = some out
  encode_elements base_exists msgset dst (elem ∷ elements_list) out =
      elim (encode_element base_exists msgset dst elem out) [
        | none ↦ none
        | some out' ↦ encode_elements base_exists msgset dst elements_list out'
      ]

abbrev count_missing : List ℕ → (ℕ → Bool) → ℕ
count_missing [] keys = 0
count_missing (mandkey ∷ mand_keys) keys =
    if keys mandkey then count_missing mand_keys keys else suc (count_missing mand_keys keys)

-- The number of mandatory keys that were not found; 0 without a message, and when the list of missing
-- keys cannot be allocated (`created` is false).
unfoldable pub check_missing_mand : {S : Type 0} → Bool → Option (MsgData S) → (ℕ → Bool) → ℕ
check_missing_mand created none keys = 0
check_missing_mand created (some msgdata) keys =
    if created then count_missing msgdata.mand_keys keys else 0
