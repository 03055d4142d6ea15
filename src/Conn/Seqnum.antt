-- ===== src/Conn/Seqnum.antt =====
-- The sequence numbers of requests: `process_message` of src/cw/conn.c.
use actube.Base.{
  ℕ, ◌+◌, ◌-◌, ◌%◌, ◌≤◌, ◌<◌, ◌≡◌, refl, sym, ap, ◌∙◌, ◌↔◌, inl, inr, arith, Mem, true, false,
  Option, none, some, Bool-cases, ◌==◌, ℤ, pos,
}
use actube.Header.{get_hdr_msg_offset, get_msg_type, get_msg_seqnum}
use actube.Conn.Process.{
  Conn, Outside, is_request, send_msg, drop, seqnum_ok, same_seqnum, cached_type, retransmitted,
  process_elements, process_message,
}
use actube.Conn.Process.Transition.{Outcome, faulted, stayed, moved, process_elements-Outcome}

-- A request is new, on 8-bit sequence numbers, exactly if its number is at most 127 ahead of the one
-- received last, counted modulo 256, and not the same.
pub seqnum_ok_iff :
    (s1 s2 : ℕ)
    → s1 < 256
    → s2 < 256
    → (seqnum_ok (pos s1) s2 ≡ true) ↔ ((1 ≤ (s2 + 256 - s1) % 256) × ((s2 + 256 - s1) % 256 ≤ 127))
seqnum_ok_iff s1 s2 h k = ground arith

abbrev seqnum_of : Mem → ℕ
seqnum_of rawmsg = get_msg_seqnum rawmsg (get_hdr_msg_offset rawmsg 0)

abbrev type_of : Mem → ℕ
type_of rawmsg = get_msg_type rawmsg (get_hdr_msg_offset rawmsg 0)

not_ok_same : (s : ℕ) → seqnum_ok (pos s) s ≡ false
not_ok_same s = ground arith

same : (s : ℕ) → same_seqnum (pos s) s ≡ true
same s = ground arith

module _ {S : Type 0} where
  abbrev seqnum_after : ℤ → Option (Conn S × ℤ) → ℤ
  seqnum_after s none = s
  seqnum_after s (some (conn, rc)) = conn.last_seqnum_received

  Outcome-seqnum :
      (conn : Conn S) (rawmsg : Mem) (out : Option (Conn S × ℤ))
      → Outcome conn rawmsg out
      → seqnum_after conn.last_seqnum_received out ≡ conn.last_seqnum_received
  Outcome-seqnum conn rawmsg _ faulted = refl
  Outcome-seqnum conn rawmsg _ (stayed k) = k.same_seqnum
  Outcome-seqnum conn rawmsg _ (moved k) = k.same_seqnum

  -- What a request that repeats the last sequence number leads to: the connection stays as it is, and
  -- at most the buffered response is sent again.
  pub data Repeated (conn : Conn S) : Option (Conn S × ℤ) → Type 0 where
    ignored : Repeated conn (drop conn)
    response_again : Repeated conn (drop (send_msg conn conn.resp_buffer))

module _ {S : Type 0} (o : Outside S) where
  repeated :
      (conn : Conn S) (rawmsg : Mem) (len : ℕ)
      → is_request (type_of rawmsg) ≡ true
      → conn.last_seqnum_received ≡ pos (seqnum_of rawmsg)
      → Repeated conn (process_message o conn rawmsg len)
  unfolding process_message retransmitted
  repeated conn rawmsg len request last =
      elim (Bool-cases (cached_type conn.resp_buffer == type_of rawmsg)) [
        | inl cached ↦
            rw
              (
                process_message,
                request,
                last,
                not_ok_same (seqnum_of rawmsg),
                same (seqnum_of rawmsg),
                retransmitted,
                cached,
              )
              response_again
        | inr other ↦
            rw
              (
                process_message,
                request,
                last,
                not_ok_same (seqnum_of rawmsg),
                same (seqnum_of rawmsg),
                retransmitted,
                other,
              )
              ignored
      ]

  new_request :
      (conn : Conn S) (rawmsg : Mem) (len : ℕ)
      → is_request (type_of rawmsg) ≡ true
      → seqnum_ok conn.last_seqnum_received (seqnum_of rawmsg) ≡ true
      → process_message o conn rawmsg len
        ≡ process_elements o
            (record conn { last_seqnum_received = pos (seqnum_of rawmsg) })
            rawmsg
            len
  unfolding process_message
  new_request conn rawmsg len request new = rw (process_message, request, new) refl

  -- Once a request has been processed, a copy of it, of whatever length, that comes next is not
  -- processed again: all of the connection stays as it is, but that the response in the buffer may
  -- be sent once more.
  pub process_message_twice :
      (conn conn' : Conn S) (rawmsg : Mem) (len len' : ℕ) (rc : ℤ)
      → is_request (get_msg_type rawmsg (get_hdr_msg_offset rawmsg 0)) ≡ true
      → seqnum_ok conn.last_seqnum_received (get_msg_seqnum rawmsg (get_hdr_msg_offset rawmsg 0))
        ≡ true
      → process_message o conn rawmsg len ≡ some (conn', rc)
      → Repeated conn' (process_message o conn' rawmsg len')
  process_message_twice conn conn' rawmsg len len' rc request new e =
      let conn1 = record conn { last_seqnum_received = pos (seqnum_of rawmsg) } in
      let (set, origin, outcome) = process_elements-Outcome o conn1 rawmsg len in
      let last : conn'.last_seqnum_received ≡ pos (seqnum_of rawmsg) =
        sym (
          ap (seqnum_after (pos (seqnum_of rawmsg)))
            (sym (new_request conn rawmsg len request new) ∙ e))
        ∙ Outcome-seqnum (record conn1 { msgset = set }) rawmsg _ outcome in
      repeated conn' rawmsg len' request last
