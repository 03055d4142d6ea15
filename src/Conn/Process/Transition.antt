-- ===== src/Conn/Process/Transition.antt =====
-- What `process_elements` of src/cw/conn.c may do to the connection's own fields: the CAPWAP state
-- changes only along the message's list of states.
use actube.Base.{
  ℕ, zero, suc, ◌+◌, ◌≡◌, refl, ◌∙◌, ◌⊎◌, inl, inr, Mem, Bool, true, false, Option, none, some,
  Option-cases, Bool-cases, ◌==◌, bit_and, ℤ, pos, negsuc, sub_ℕ,
}
use actube.Header.{get_hdr_msg_offset, get_msg_type, get_msg_elems_field, get_msg_elems_ptr}
use actube.MsgSet.{State, MsgData, MsgSet}
use actube.Conn.Process.{
  Conn, Outside, is_request, find_state, check_len, send_response, enter_next, answer_request,
  respond, run_message, check_message, search_message, detect, process_elements,
  result_msg_invalid_in_current_state, result_msg_unrecognized,
}
use actube.Conn.Process.Kept.{
  Kept, same_fields, Kept-refl, Kept-trans, Sent, faulted_here, sent_kept, send_error_response-Kept,
  send_response-Sent,
}

module _ {S : Type 0} where
  -- A request that was answered with success, in a state that its message lists with a successor.
  pub record Moved (conn : Conn S) (rawmsg : Mem) (conn' : Conn S) (rc : ℤ) : Type 0 where
    pub message : MsgData S
    pub ui : State
    pub known :
        conn.msgset.get_msgdata (get_msg_type rawmsg (get_hdr_msg_offset rawmsg 0)) ≡ some message
    pub request : is_request message.type ≡ true
    pub receives : (bit_and message.receiver conn.role == 0) ≡ false
    pub listed : find_state conn.capwap_state message.states ≡ some ui
    pub success : rc ≡ pos 0
    pub next_state : conn'.capwap_state ≡ ui.next
    pub prev_state : conn'.capwap_prevstate ≡ conn.capwap_state
    pub same_seqnum : conn'.last_seqnum_received ≡ conn.last_seqnum_received
    pub same_role : conn'.role ≡ conn.role
    pub same_msgset : conn'.msgset ≡ conn.msgset

  pub data Outcome (conn : Conn S) (rawmsg : Mem) : Option (Conn S × ℤ) → Type 0 where
    faulted : Outcome conn rawmsg none
    stayed : {conn' : Conn S} {rc : ℤ} → Kept conn conn' → Outcome conn rawmsg (some (conn', rc))
    moved :
        {conn' : Conn S} {rc : ℤ}
        → Moved conn rawmsg conn' rc
        → Outcome conn rawmsg (some (conn', rc))

module _ {S : Type 0} (o : Outside S) where
  after_send :
      (conn conn1 : Conn S) (rawmsg : Mem) (message : MsgData S) (ui : State)
      (sent : Option (Conn S))
      → conn.msgset.get_msgdata (get_msg_type rawmsg (get_hdr_msg_offset rawmsg 0)) ≡ some message
      → is_request message.type ≡ true
      → (bit_and message.receiver conn.role == 0) ≡ false
      → find_state conn.capwap_state message.states ≡ some ui
      → conn1.last_seqnum_received ≡ conn.last_seqnum_received
      → conn1.role ≡ conn.role
      → conn1.msgset ≡ conn.msgset
      → ((conn1.capwap_state ≡ conn.capwap_state)
          × (conn1.capwap_prevstate ≡ conn.capwap_prevstate))
        ⊎ ((conn1.capwap_state ≡ ui.next) × (conn1.capwap_prevstate ≡ conn.capwap_state))
      → Sent conn1 sent
      → Outcome conn rawmsg (elim sent [ none ↦ none | some conn3 ↦ some (conn3, pos 0) ])
  after_send conn conn1 rawmsg message ui _ known request receives listed seq role set states
        faulted_here =
      faulted
  after_send conn conn1 rawmsg message ui _ known request receives listed seq role set
        (inl (st, prev)) (sent_kept k) =
      stayed (Kept-trans (same_fields conn conn1 seq role st prev set) k)
  after_send conn conn1 rawmsg message ui _ known request receives listed seq role set
        (inr (st, prev)) (sent_kept k) =
      moved (record {
        message = message;
        ui = ui;
        known = known;
        request = request;
        receives = receives;
        listed = listed;
        success = refl;
        next_state = k.same_state ∙ st;
        prev_state = k.same_prevstate ∙ prev;
        same_seqnum = k.same_seqnum ∙ seq;
        same_role = k.same_role ∙ role;
        same_msgset = k.same_msgset ∙ set;
      })

  enter_next-fields :
      (ui : State) (conn : Conn S)
      → ((enter_next o ui conn).last_seqnum_received ≡ conn.last_seqnum_received)
        × ((enter_next o ui conn).role ≡ conn.role)
        × ((enter_next o ui conn).msgset ≡ conn.msgset)
        × (((enter_next o ui conn).capwap_state ≡ conn.capwap_state)
              × ((enter_next o ui conn).capwap_prevstate ≡ conn.capwap_prevstate)
            ⊎ ((enter_next o ui conn).capwap_state ≡ ui.next)
              × ((enter_next o ui conn).capwap_prevstate ≡ conn.capwap_state))
  enter_next-fields ui conn = elim (Bool-cases (ui.next == 0)) [
    | inl last ↦ rw last (refl, refl, refl, inl (refl, refl))
    | inr next ↦ rw next (refl, refl, refl, inr (refl, refl))
  ]

  module _ (conn : Conn S) (rawmsg : Mem) (message : MsgData S)
      (known : conn.msgset.get_msgdata (get_msg_type rawmsg (get_hdr_msg_offset rawmsg 0))
        ≡ some message)
      (receives : (bit_and message.receiver conn.role == 0) ≡ false) (ui : State)
      (listed : find_state conn.capwap_state message.states ≡ some ui) where
    answer_request-Outcome :
        (s : S) (rc : ℤ)
        → is_request message.type ≡ true
        → Outcome conn rawmsg (answer_request o (record conn { state = s }) rawmsg ui rc)
    unfolding answer_request
    answer_request-Outcome s (pos zero) request =
        let conn1 = record conn { state = o.set_result_code s (pos 0) } in
        let (seq, role, set, states) = enter_next-fields ui conn1 in
        after_send conn (enter_next o ui conn1) rawmsg message ui
          (send_response o (enter_next o ui conn1) rawmsg) known request receives listed seq role
          set states (send_response-Sent o (enter_next o ui conn1) rawmsg)
    answer_request-Outcome s (pos (suc n)) request =
        let k = send_error_response-Kept (record conn { state = s }) rawmsg (suc n) in
        stayed
          (same_fields conn _ k.same_seqnum k.same_role k.same_state k.same_prevstate k.same_msgset)
    answer_request-Outcome s (negsuc n) request =
        stayed (same_fields conn _ refl refl refl refl refl)

    respond-Outcome :
        (s : S) (rc : ℤ)
        → Outcome conn rawmsg (respond o (record conn { state = s }) rawmsg message ui rc)
    unfolding respond
    respond-Outcome s rc = elim (Bool-cases (is_request message.type)) [
      | inl request ↦ rw (respond, request) (answer_request-Outcome s rc request)
      | inr response ↦ rw (respond, response) (stayed (same_fields conn _ refl refl refl refl refl))
    ]

    run_message-Outcome :
        (elems_ptr : ℕ) (elems_len : ℤ)
        → Outcome conn rawmsg (run_message o conn rawmsg elems_ptr elems_len message ui)
    unfolding run_message
    run_message-Outcome elems_ptr elems_len = respond-Outcome _ _

  check_message-Outcome :
      (conn : Conn S) (rawmsg : Mem) (elems_ptr : ℕ) (elems_len : ℤ) (message : MsgData S)
      → conn.msgset.get_msgdata (get_msg_type rawmsg (get_hdr_msg_offset rawmsg 0)) ≡ some message
      → Outcome conn rawmsg (check_message o conn rawmsg elems_ptr elems_len message)
  unfolding check_message
  check_message-Outcome conn rawmsg elems_ptr elems_len message known =
      elim (Bool-cases (bit_and message.receiver conn.role == 0)) [
        | inl other ↦ rw (check_message, other) (stayed (Kept-refl conn))
        | inr receives ↦ elim (Option-cases (find_state conn.capwap_state message.states)) [
          | inl unlisted ↦
              rw (check_message, receives, unlisted)
                (stayed (send_error_response-Kept conn rawmsg result_msg_invalid_in_current_state))
          | inr (ui, listed) ↦
              rw (check_message, receives, listed)
                (run_message-Outcome conn rawmsg message known receives ui listed elems_ptr
                  elems_len)
        ]
      ]

  search_message-Outcome :
      (conn : Conn S) (rawmsg : Mem) (elems_len : ℤ)
      → Outcome conn rawmsg (search_message o conn rawmsg (get_hdr_msg_offset rawmsg 0) elems_len)
  unfolding search_message
  search_message-Outcome conn rawmsg elems_len =
      let offset = get_hdr_msg_offset rawmsg 0 in
      elim (Option-cases (conn.msgset.get_msgdata (get_msg_type rawmsg offset))) [
        | inl unknown ↦ elim (Bool-cases (is_request (get_msg_type rawmsg offset))) [
          | inl request ↦
              rw (search_message, unknown, request)
                (stayed (send_error_response-Kept conn rawmsg result_msg_unrecognized))
          | inr response ↦ rw (search_message, unknown, response) (stayed (Kept-refl conn))
        ]
        | inr (message, found) ↦
            rw (search_message, found)
              (check_message-Outcome conn rawmsg (get_msg_elems_ptr offset) elems_len message found)
      ]

  detected_same :
      (conn : Conn S) (s : S) (d : Bool) (rawmsg : Mem) (out : Option (Conn S × ℤ))
      → Outcome (record conn { state = s; detected = d }) rawmsg out
      → Outcome conn rawmsg out
  detected_same conn s d rawmsg _ faulted = faulted
  detected_same conn s d rawmsg _ (stayed k) =
      stayed
        (same_fields conn _ k.same_seqnum k.same_role k.same_state k.same_prevstate k.same_msgset)
  detected_same conn s d rawmsg _ (moved k) = moved (record {
    message = k.message;
    ui = k.ui;
    known = k.known;
    request = k.request;
    receives = k.receives;
    listed = k.listed;
    success = k.success;
    next_state = k.next_state;
    prev_state = k.prev_state;
    same_seqnum = k.same_seqnum;
    same_role = k.same_role;
    same_msgset = k.same_msgset;
  })

  -- The message set that a message is processed with: the connection's own, or the one that its
  -- detection loads.
  pub SetOf : Conn S → Mem → MsgSet S → Type 0
  SetOf conn rawmsg set =
      (set ≡ conn.msgset)
      ⊎ (conn.detected ≡ false)
        × ((len : ℕ) × (elems_len : ℤ) × (o.load_msg_set conn.state rawmsg len elems_len
              ≡ some set))

  pub process_elements-Outcome :
      (conn : Conn S) (rawmsg : Mem) (len : ℕ)
      → (set : MsgSet S) × SetOf conn rawmsg set
        × Outcome (record conn { msgset = set }) rawmsg (process_elements o conn rawmsg len)
  unfolding process_elements detect SetOf
  process_elements-Outcome conn rawmsg len =
      let offset = get_hdr_msg_offset rawmsg 0 in
      elim (Option-cases (
        check_len conn.strict_hdr (sub_ℕ (get_msg_elems_field rawmsg offset) 3)
          (sub_ℕ len (offset + 8)))) [
            | inl bad ↦
                (conn.msgset, inl refl, rw (process_elements, bad) (stayed (Kept-refl conn)))
            | inr (elems_len, good) ↦ elim (Bool-cases conn.detected) [
              | inl yes_detected ↦ (
                conn.msgset,
                inl refl,
                rw (process_elements, good, detect, yes_detected)
                    (search_message-Outcome (record conn { detected = true }) rawmsg elems_len),
              )
              | inr fresh ↦ elim (Option-cases (o.load_msg_set conn.state rawmsg len elems_len)) [
                | inl unknown ↦ (
                  conn.msgset,
                  inl refl,
                  rw (process_elements, good, detect, fresh, unknown)
                      (stayed (
                        same_fields (record conn { detected = false }) conn refl refl refl refl
                          refl)),
                )
                | inr (set, loaded) ↦ (
                  set,
                  inr (fresh, (len, elems_len, loaded)),
                  rw (process_elements, good, detect, fresh, loaded)
                      (detected_same (record conn { msgset = set; detected = false })
                        (o.setup conn.state) true rawmsg _
                        (search_message-Outcome
                          (record conn {
                            state = o.setup conn.state;
                            msgset = set;
                            detected = true;
                          })
                          rawmsg elems_len)),
                )
              ]
            ]
          ]
