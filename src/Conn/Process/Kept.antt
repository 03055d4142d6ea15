-- ===== src/Conn/Process/Kept.antt =====
-- The fields of the connection that composing and sending a message leave as they are.
use actube.Base.{
  ℕ, ◌+◌, ◌≡◌, refl, ◌∙◌, inl, inr, Mem, Option, none, some, Option-cases, Bool-cases,
}
use actube.Header.{get_hdr_msg_offset, get_msg_type}
use actube.MsgSet.{MsgData}
use actube.Message.{encode_elements}
use actube.Conn.Process.{
  Conn, Outside, Composed, composed, unrecognized, fault, is_request, init_response, send_msg,
  send_error_response, run_hook, finish_message, compose_elements, compose_message, send_response,
}

module _ {S : Type 0} where
  -- The fields that a message leaves alone but for a transition.
  pub record Kept (conn conn' : Conn S) : Type 0 where
    pub same_seqnum : conn'.last_seqnum_received ≡ conn.last_seqnum_received
    pub same_role : conn'.role ≡ conn.role
    pub same_state : conn'.capwap_state ≡ conn.capwap_state
    pub same_prevstate : conn'.capwap_prevstate ≡ conn.capwap_prevstate
    pub same_msgset : conn'.msgset ≡ conn.msgset

  pub Kept-trans : {a b c : Conn S} → Kept a b → Kept b c → Kept a c
  Kept-trans h k = record {
    same_seqnum = k.same_seqnum ∙ h.same_seqnum;
    same_role = k.same_role ∙ h.same_role;
    same_state = k.same_state ∙ h.same_state;
    same_prevstate = k.same_prevstate ∙ h.same_prevstate;
    same_msgset = k.same_msgset ∙ h.same_msgset;
  }

  pub Kept-refl : (conn : Conn S) → Kept conn conn
  Kept-refl conn = record {
    same_seqnum = refl;
    same_role = refl;
    same_state = refl;
    same_prevstate = refl;
    same_msgset = refl;
  }

  pub send_error_response-Kept :
      (conn : Conn S) (rawmsg : Mem) (code : ℕ) → Kept conn (send_error_response conn rawmsg code)
  unfolding send_error_response init_response
  send_error_response-Kept conn rawmsg code = record {
    same_seqnum = refl;
    same_role = refl;
    same_state = refl;
    same_prevstate = refl;
    same_msgset = refl;
  }

  pub same_fields :
      (conn conn' : Conn S)
      → conn'.last_seqnum_received ≡ conn.last_seqnum_received
      → conn'.role ≡ conn.role
      → conn'.capwap_state ≡ conn.capwap_state
      → conn'.capwap_prevstate ≡ conn.capwap_prevstate
      → conn'.msgset ≡ conn.msgset
      → Kept conn conn'
  same_fields conn conn' a b c d e = record {
    same_seqnum = a;
    same_role = b;
    same_state = c;
    same_prevstate = d;
    same_msgset = e;
  }

  pub data Sent (conn : Conn S) : Option (Conn S) → Type 0 where
    faulted_here : Sent conn none
    sent_kept : {conn' : Conn S} → Kept conn conn' → Sent conn (some conn')

  data Kind (conn : Conn S) : Composed S → Type 0 where
    kind_fault : Kind conn fault
    kind_unrecognized : Kind conn unrecognized
    kind_composed : {conn' : Conn S} {m : Mem} → Kept conn conn' → Kind conn (composed conn' m)

  finish_message-Kept :
      (conn : Conn S) (msgptr type : ℕ) (out : S × Mem × ℕ)
      → Kept conn (finish_message conn msgptr type out).0
  unfolding finish_message
  finish_message-Kept conn msgptr type out = elim (Bool-cases (is_request type)) [
    | inl yes_request ↦ rw yes_request (same_fields conn _ refl refl refl refl refl)
    | inr response ↦ rw response (same_fields conn _ refl refl refl refl refl)
  ]

module _ {S : Type 0} (o : Outside S) where
  compose_elements-Kind :
      (conn : Conn S) (rawout : Mem) (msgptr type : ℕ) (msg : MsgData S)
      → Kind conn (compose_elements o conn rawout msgptr type msg)
  unfolding compose_elements
  compose_elements-Kind conn rawout msgptr type msg =
      elim (Option-cases (
        encode_elements o.base_exists conn.msgset (msgptr + 8) msg.elements_list
          (run_hook msg.preprocess conn.state, rawout, 0))) [
            | inl bad ↦ rw (compose_elements, bad) kind_fault
            | inr (out, good) ↦
                rw (compose_elements, good)
                  (kind_composed (finish_message-Kept conn msgptr type out))
          ]

  compose_message-Kind : (conn : Conn S) (rawout : Mem) → Kind conn (compose_message o conn rawout)
  unfolding compose_message
  compose_message-Kind conn rawout =
      let msgptr = get_hdr_msg_offset rawout 0 in
      let type = get_msg_type rawout msgptr in
      elim (Option-cases (conn.msgset.get_msgdata type)) [
        | inl absent ↦ rw (compose_message, absent) kind_unrecognized
        | inr (msg, present) ↦
            rw (compose_message, present) (compose_elements-Kind conn rawout msgptr type msg)
      ]

  pub init_response-Kept : (conn : Conn S) (req : Mem) → Kept conn (init_response conn req)
  unfolding init_response
  init_response-Kept conn req = same_fields conn _ refl refl refl refl refl

  after_compose :
      (conn conn1 : Conn S) (c : Composed S)
      → Kept conn conn1
      → Kind conn1 c
      → Sent conn (elim c [
        | fault ↦ none
        | unrecognized ↦ some conn1
        | composed conn2 m ↦ some (send_msg (record conn2 { resp_buffer = m }) m)
      ])
  after_compose conn conn1 _ h kind_fault = faulted_here
  after_compose conn conn1 _ h kind_unrecognized = sent_kept h
  after_compose conn conn1 _ h (kind_composed k) = sent_kept (
      Kept-trans h
        (same_fields conn1 _ k.same_seqnum k.same_role k.same_state k.same_prevstate k.same_msgset))

  pub send_response-Sent : (conn : Conn S) (rawmsg : Mem) → Sent conn (send_response o conn rawmsg)
  unfolding send_response
  send_response-Sent conn rawmsg =
      let conn1 = init_response conn rawmsg in
      after_compose conn conn1 (compose_message o conn1 conn1.resp_buffer)
        (init_response-Kept conn rawmsg) (compose_message-Kind conn1 conn1.resp_buffer)
