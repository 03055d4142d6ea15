-- ===== src/Conn/Process.antt =====
-- `process_message` and `process_elements` of src/cw/conn.c, with the functions of that file that set
-- up and send a message, and `cw_compose_message` of src/cw/message.c. The modules that detect a
-- peer's kind, the callbacks and the configuration are arguments; what they reach is the state `S`,
-- which holds no field of the connection that is named here. Debug output is left out, and with it
-- the call of `cw_check_missing_mand`, whose result is only reported.
pub mod Kept
pub mod Transition
pub mod Response
pub mod Error
use actube.Base.{
  ℕ, zero, suc, ◌+◌, ◌-◌, ◌*◌, ◌/◌, ◌%◌, ◌^◌, Mem, from, Bool, true, false, not, ◌&&◌, ◌||◌, Option,
  none, some, List, [], ◌∷◌, ◌++◌, ltb, ◌==◌, if◌then◌else◌, bit_and, ℤ, pos, negsuc, pos_part,
  neg_part, sub_ℕ, ltb_ℤ, memcpy, set_dword,
}
use actube.Header.{
  Bstr, get_hdr_msg_offset, get_msg_type, get_msg_seqnum, get_msg_elems_field, get_msg_elems_ptr,
  set_msg_type, set_msg_seqnum, set_msg_elems_len, set_msg_flags, set_hdr_rmac, set_hdr_preamble,
  set_hdr_wbid, set_hdr_rid,
}
use actube.MsgSet.{State, MsgData, MsgSet}
use actube.Message.{Params, decode_elements, encode_elements, put_elem_result_code}

-- `sent` are the buffers given to `conn_send_msg`, oldest first.
pub record Conn (S : Type 0) : Type 0 where
  pub role : ℕ
  pub capwap_state : ℕ
  pub capwap_prevstate : ℕ
  pub strict_hdr : Bool
  pub detected : Bool
  pub seqnum : ℤ
  pub last_seqnum_received : ℤ
  pub wbid : ℕ
  pub base_rmac : Bstr
  pub req_buffer : Mem
  pub resp_buffer : Mem
  pub msgset : MsgSet S
  pub state : S
  pub sent : List Mem

-- What stands outside this file. `load_msg_set` is given the message, its length and that of its
-- elements; `setup` is `setup_cfg` and `setup_complete`; `clear_update` and `set_result_code` act on
-- `update_cfg`.
pub record Outside (S : Type 0) : Type 0 where
  pub load_msg_set : S → Mem → ℕ → ℤ → Option (MsgSet S)
  pub setup : S → S
  pub get_msg_cb : S → ℕ → Option (S → Mem → ℤ → S × ℤ)
  pub clear_update : S → S
  pub set_result_code : S → ℤ → S
  pub base_exists : S → ℕ → Bool

-- `(conn->seqnum+1)&0xff`
abbrev pub next_seqnum : ℤ → ℕ
next_seqnum (pos n) = (n + 1) % 2 ^ 8
next_seqnum (negsuc n) = (2 ^ 8 - n % 2 ^ 8) % 2 ^ 8

abbrev pub eq_ℤ : ℤ → ℤ → Bool
eq_ℤ a b = pos_part a + neg_part b == pos_part b + neg_part a

abbrev pub is_request : ℕ → Bool
is_request type = type % 2 == 1

abbrev pub result_msg_invalid_in_current_state : ℕ
result_msg_invalid_in_current_state = 18

abbrev pub result_msg_unrecognized : ℕ
result_msg_unrecognized = 19

-- The state's entry in `message->states`; an entry with state 0 ends the list.
unfoldable pub find_state : ℕ → List State → Option State
find_state capwap_state [] = none
find_state capwap_state (ui ∷ states) =
    if ui.state == 0
    then none
    else if ui.state == capwap_state
    then some ui
    else find_state capwap_state states

-- The length of the elements after the check of the header; `none` if the message is dropped.
unfoldable pub check_len : Bool → ℤ → ℤ → Option ℤ
check_len strict_hdr elems_len payload =
    if eq_ℤ payload elems_len
    then some elems_len
    else if strict_hdr
    then none
    else if ltb_ℤ payload elems_len
    then some payload
    else some elems_len

-- `(sd > 0 && sd < 128) || (sd < 0 && sd < -128) || s1 < 0`, with `sd = s2 - s1`.
abbrev pub seqnum_ok : ℤ → ℕ → Bool
seqnum_ok (negsuc s1) s2 = true
seqnum_ok (pos s1) s2 = ltb s1 s2 && ltb s2 (s1 + 128) || ltb (s2 + 128) s1

abbrev pub same_seqnum : ℤ → ℕ → Bool
same_seqnum (negsuc s1) s2 = false
same_seqnum (pos s1) s2 = s1 == s2

-- The type of the message in the response buffer, less one, on 32 bits.
abbrev pub cached_type : Mem → ℕ
cached_type resp_buffer =
    (get_msg_type resp_buffer (get_hdr_msg_offset resp_buffer 0) + (2 ^ 32 - 1)) % 2 ^ 32

module _ {S : Type 0} where
  unfoldable pub init_response : Conn S → Mem → Conn S
  init_response conn req =
      let shbytes = get_hdr_msg_offset req 0 in
      let b1 = memcpy conn.resp_buffer 0 req 0 shbytes in
      let b2 = set_hdr_rmac b1 0 conn.base_rmac in
      let dhbytes = get_hdr_msg_offset b2 0 in
      let b3 = set_msg_type b2 dhbytes (get_msg_type req shbytes + 1) in
      let b4 = set_msg_seqnum b3 dhbytes (get_msg_seqnum req shbytes) in
      record conn { resp_buffer = set_msg_flags b4 dhbytes 0 }

  unfoldable pub init_request : Conn S → ℕ → Conn S
  init_request conn msg_id =
      let b1 = set_dword (set_dword conn.req_buffer 0 0) 4 0 in
      let b2 = set_hdr_rmac (set_hdr_preamble b1 0 0) 0 conn.base_rmac in
      let b3 = set_hdr_rid (set_hdr_wbid b2 0 conn.wbid) 0 0 in
      let msgptr = get_hdr_msg_offset b3 0 in
      let b4 = set_msg_flags (set_msg_type b3 msgptr msg_id) msgptr 0 in
      record conn { req_buffer = set_msg_elems_len b4 msgptr 0 }

  unfoldable pub init_data_msg : Conn S → Conn S
  init_data_msg conn =
      let b1 = set_dword (set_dword conn.req_buffer 0 0) 4 0 in
      record conn { req_buffer = set_hdr_preamble b1 0 0 }

  abbrev pub send_msg : Conn S → Mem → Conn S
  send_msg conn buffer = record conn { sent = conn.sent ++ buffer ∷ [] }

  unfoldable pub send_error_response : Conn S → Mem → ℕ → Conn S
  unfolding init_response
  send_error_response conn rawmsg result_code =
      let conn1 = init_response conn rawmsg in
      let out = conn1.resp_buffer in
      let offset = get_hdr_msg_offset out 0 in
      let (out1, l) = put_elem_result_code out (get_msg_elems_ptr offset) result_code in
      let conn2 = record conn1 {
        resp_buffer = set_msg_elems_len out1 (get_hdr_msg_offset out1 0) l;
      } in
      send_msg conn2 conn2.resp_buffer

  abbrev pub run_hook : Option (S → S) → S → S
  run_hook none s = s
  run_hook (some f) s = f s

  -- The end of `cw_compose_message`: the length, and a sequence number for a request.
  unfoldable pub finish_message : Conn S → ℕ → ℕ → S × Mem × ℕ → Conn S × Mem
  finish_message conn msgptr type (s, m, len) =
      let m1 = set_msg_elems_len m msgptr len in
      if is_request type
      then (
        record conn { state = s; seqnum = pos (next_seqnum conn.seqnum) },
        set_msg_seqnum m1 msgptr (next_seqnum conn.seqnum),
      )
      else (record conn { state = s }, m1)

  abbrev pub drop : Conn S → Option (Conn S × ℤ)
  drop conn = some (conn, negsuc 0)

  unfoldable pub retransmitted : Conn S → ℕ → Option (Conn S × ℤ)
  retransmitted conn type =
      if not (cached_type conn.resp_buffer == type)
      then drop conn
      else drop (send_msg conn conn.resp_buffer)

-- What composing a message comes to: the buffer, the result "unrecognized", or the reading of a
-- missing handler's name.
pub data Composed (S : Type 0) : Type 0 where
  composed : Conn S → Mem → Composed S
  unrecognized : Composed S
  fault : Composed S

module _ {S : Type 0} (o : Outside S) where
  unfoldable pub compose_elements : Conn S → Mem → ℕ → ℕ → MsgData S → Composed S
  unfolding finish_message
  compose_elements conn rawout msgptr type msg =
      let s = run_hook msg.preprocess conn.state in
      elim (encode_elements o.base_exists conn.msgset (msgptr + 8) msg.elements_list
        (s, rawout, 0)) [
          | none ↦ fault
          | some out ↦ let (conn', m) = finish_message conn msgptr type out in composed conn' m
        ]

  unfoldable pub compose_message : Conn S → Mem → Composed S
  unfolding compose_elements
  compose_message conn rawout =
      let msgptr = get_hdr_msg_offset rawout 0 in
      let type = get_msg_type rawout msgptr in
      elim (conn.msgset.get_msgdata type) [
        | none ↦ unrecognized
        | some msg ↦ compose_elements conn rawout msgptr type msg
      ]

  -- `none` is the fault.
  unfoldable pub send_response : Conn S → Mem → Option (Conn S)
  unfolding compose_message init_response
  send_response conn rawmsg =
      let conn1 = init_response conn rawmsg in
      elim (compose_message conn1 conn1.resp_buffer) [
        | fault ↦ none
        | unrecognized ↦ some conn1
        | composed conn2 m ↦ some (send_msg (record conn2 { resp_buffer = m }) m)
      ]

  -- The transition to the successor that the message's entry for the state names, if it names one.
  abbrev pub enter_next : State → Conn S → Conn S
  enter_next ui conn =
      if ui.next == 0
      then conn
      else record conn { capwap_prevstate = conn.capwap_state; capwap_state = ui.next }

  -- What a request is answered with, by the callback's result.
  unfoldable pub answer_request : Conn S → Mem → State → ℤ → Option (Conn S × ℤ)
  unfolding send_error_response send_response
  answer_request conn rawmsg ui (pos zero) =
      let conn1 = record conn { state = o.set_result_code conn.state (pos 0) } in
      elim (send_response (enter_next ui conn1) rawmsg) [
        | none ↦ none
        | some conn2 ↦ some (conn2, pos 0)
      ]
  answer_request conn rawmsg ui (pos (suc n)) =
      some (send_error_response conn rawmsg (suc n), pos (suc n))
  answer_request conn rawmsg ui (negsuc n) = some (conn, negsuc n)

  -- What follows the callback; its result is returned.
  unfoldable pub respond : Conn S → Mem → MsgData S → State → ℤ → Option (Conn S × ℤ)
  unfolding answer_request
  respond conn rawmsg message ui result_code =
      if is_request message.type
      then answer_request conn rawmsg ui result_code
      else some (conn, result_code)

  -- `message->postprocess` and the connection's callback for the message; its result, 0 without one.
  unfoldable pub end_message : MsgData S → Mem → ℤ → S → S × ℤ
  end_message message elems elems_len s =
      let s1 : S = elim message.postprocess [ none ↦ s | some f ↦ f s elems elems_len ] in
      elim (o.get_msg_cb s1 message.type) [
        | none ↦ (o.clear_update s1, pos 0)
        | some cb_fun ↦ cb_fun s1 elems elems_len
      ]

  unfoldable pub run_message : Conn S → Mem → ℕ → ℤ → MsgData S → State → Option (Conn S × ℤ)
  unfolding end_message respond
  run_message conn rawmsg elems_ptr elems_len message ui =
      let params : Params S = record {
        state = conn.state;
        mand_found = some (λ k. false);
        unrecognized = some [];
      } in
      let params' =
        decode_elements conn.msgset (some message) rawmsg params elems_ptr (pos_part elems_len) in
      let (s, result_code) = end_message message (from rawmsg elems_ptr) elems_len params'.state in
      respond (record conn { state = s }) rawmsg message ui result_code

  -- The message's receiver and its states.
  unfoldable pub check_message : Conn S → Mem → ℕ → ℤ → MsgData S → Option (Conn S × ℤ)
  unfolding run_message
  check_message conn rawmsg elems_ptr elems_len message =
      if bit_and message.receiver conn.role == 0
      then drop conn
      else elim (find_state conn.capwap_state message.states) [
        | none ↦ drop (send_error_response conn rawmsg result_msg_invalid_in_current_state)
        | some ui ↦ run_message conn rawmsg elems_ptr elems_len message ui
      ]

  unfoldable pub search_message : Conn S → Mem → ℕ → ℤ → Option (Conn S × ℤ)
  unfolding check_message
  search_message conn rawmsg offset elems_len =
      let type = get_msg_type rawmsg offset in
      elim (conn.msgset.get_msgdata type) [
        | none ↦
            if is_request type
            then drop (send_error_response conn rawmsg result_msg_unrecognized)
            else drop conn
        | some message ↦ check_message conn rawmsg (get_msg_elems_ptr offset) elems_len message
      ]

  -- The first message of a peer selects the message set.
  unfoldable pub detect : Conn S → Mem → ℕ → ℤ → Option (Conn S)
  detect conn rawmsg len elems_len =
      if conn.detected then some conn else elim (o.load_msg_set conn.state rawmsg len elems_len) [
        | none ↦ none
        | some set ↦
            some (record conn { state = o.setup conn.state; msgset = set; detected = true })
      ]

  -- The result -1 with `errno` EAGAIN is `negsuc 0`; `none` is the fault.
  unfoldable pub process_elements : Conn S → Mem → ℕ → Option (Conn S × ℤ)
  unfolding search_message detect
  process_elements conn rawmsg len =
      let offset = get_hdr_msg_offset rawmsg 0 in
      elim (check_len conn.strict_hdr (sub_ℕ (get_msg_elems_field rawmsg offset) 3)
        (sub_ℕ len (offset + 8))) [
          | none ↦ drop conn
          | some elems_len ↦ elim (detect conn rawmsg len elems_len) [
            | none ↦ drop conn
            | some conn1 ↦ search_message conn1 rawmsg offset elems_len
          ]
        ]

  unfoldable pub process_message : Conn S → Mem → ℕ → Option (Conn S × ℤ)
  unfolding process_elements retransmitted
  process_message conn rawmsg rawlen =
      let msgptr = get_hdr_msg_offset rawmsg 0 in
      let type = get_msg_type rawmsg msgptr in
      let seqnum = get_msg_seqnum rawmsg msgptr in
      if not (is_request type)
      then process_elements conn rawmsg rawlen
      else if seqnum_ok conn.last_seqnum_received seqnum
      then process_elements (record conn { last_seqnum_received = pos seqnum }) rawmsg rawlen
      else if not (same_seqnum conn.last_seqnum_received seqnum)
      then drop conn
      else retransmitted conn type
