-- ===== src/Conn/Process/Error.antt =====
-- The error response of src/cw/conn.c: what `cw_send_error_response` puts into the buffer that it sends.
use actube.Base.{
  ℕ, ◌+◌, ◌*◌, ◌%◌, ◌^◌, ◌≤◌, ◌≡◌, refl, ap, ◌∙◌, arith, Mem, IsBytes, none, some, [], ◌∷◌, ◌++◌,
  bit_or, get_word, set_word, get_dword, set_dword, memcpy, memcpy-IsBytes,
}
use actube.Header.{
  Bstr, bstr_len, get_hdr_hlen, get_hdr_msg_offset, get_msg_type, get_msg_seqnum,
  get_msg_elems_field, set_msg_type, set_msg_seqnum, set_msg_flags, set_msg_elems_len, set_hdr_rmac,
}
use actube.Header.Fields.{get_hdr_hlen_lem}
use actube.Header.Rmac.{get_dword-set_hdr_rmac-none, get_dword-set_hdr_rmac-some, rmac_hlen-lt}
use actube.Send.Start.{IsMac, rmac_len_covered}
use actube.Message.{get_elem_id, get_elem_len, put_elem_hdr, put_elem_result_code}
use actube.Conn.Process.{Conn, init_response, send_error_response}
use actube.Conn.Process.Response.{
  header_put, response_header, code_header, header_header, response_type, response_seqnum,
  response_len, response_id, response_elem_len, reads_code,
}

offset_of :
    (m k : Mem) → get_dword m 0 ≡ get_dword k 0 → get_hdr_msg_offset m 0 ≡ get_hdr_msg_offset k 0
unfolding get_hdr_hlen
offset_of m k e = rw e refl

-- The header with the radio MAC set has room for the two dwords of the transport header.
rmac_room :
    (m : Mem) (rmac : Bstr)
    → IsBytes m
    → IsMac rmac
    → 8 ≤ get_hdr_msg_offset (set_hdr_rmac m 0 rmac) 0
rmac_room m none b ok = rw get_hdr_hlen_lem (omega (arith, get_dword-set_hdr_rmac-none m 0 b))
rmac_room m (some rmac) b (rb, there, short) = rw get_hdr_hlen_lem (
    omega (
      arith,
      get_dword-set_hdr_rmac-some m 0 b rmac rb,
      rmac_hlen-lt (bstr_len rmac) short,
      rmac_len_covered (bstr_len rmac),
    ))

-- A response in the connection's buffer, with a result code as its only element.
pub record Answer {S : Type 0} (conn conn' : Conn S) (type seqnum code : ℕ) : Type 0 where
  pub sent : conn'.sent ≡ conn.sent ++ conn'.resp_buffer ∷ []
  pub offset : ℕ
  pub at_offset : get_hdr_msg_offset conn'.resp_buffer 0 ≡ offset
  pub room : 8 ≤ offset
  pub has_type : get_msg_type conn'.resp_buffer offset ≡ type % 2 ^ 32
  pub has_seqnum : get_msg_seqnum conn'.resp_buffer offset ≡ seqnum
  pub has_len : get_msg_elems_field conn'.resp_buffer offset ≡ 8 + 3
  pub elem_id : get_elem_id conn'.resp_buffer (offset + 8) ≡ 33
  pub elem_len : get_elem_len conn'.resp_buffer (offset + 8) ≡ 4
  pub elem_code : get_dword conn'.resp_buffer (offset + 8 + 4) ≡ code % 2 ^ 32

module _ {S : Type 0} (conn : Conn S) (rawmsg : Mem) (code : ℕ)
    (buffer_bytes : IsBytes conn.resp_buffer) (msg_bytes : IsBytes rawmsg)
    (mac : IsMac conn.base_rmac) where
  abbrev sh : ℕ
  sh = get_hdr_msg_offset rawmsg 0

  abbrev base : Mem
  base = set_hdr_rmac (memcpy conn.resp_buffer 0 rawmsg 0 sh) 0 conn.base_rmac

  abbrev dh : ℕ
  dh = get_hdr_msg_offset base 0

  base_room : 8 ≤ dh
  base_room =
      rmac_room (memcpy conn.resp_buffer 0 rawmsg 0 sh) conn.base_rmac
        (memcpy-IsBytes conn.resp_buffer 0 rawmsg 0 sh buffer_bytes msg_bytes) mac

  abbrev type : ℕ
  type = get_msg_type rawmsg sh + 1

  abbrev seqnum : ℕ
  seqnum = rawmsg (sh + 4)

  -- The header of the answer, and the answer with the result code at `o`, its length field at `o'`.
  abbrev head : Mem
  head = header_put base dh type seqnum code (omega (arith, base_room)) (msg_bytes (sh + 4))

  abbrev coded : ℕ → Mem
  coded o = set_dword (set_dword head (o + 8 + 4) code) (o + 8) (bit_or (33 * 2 ^ 16) 4)

  abbrev placed : ℕ → ℕ → Mem
  placed o o' = set_word (coded o) (o' + 5) (8 + 3)

  buffer_is : (send_error_response conn rawmsg code).resp_buffer ≡ placed dh dh
  unfolding send_error_response init_response put_elem_result_code put_elem_hdr set_msg_type
      set_msg_seqnum set_msg_flags set_msg_elems_len get_msg_seqnum
  buffer_is =
      ap (λ o. placed o (get_hdr_msg_offset (coded o) 0))
        (offset_of head base
          (header_header base dh type seqnum code (omega (arith, base_room)) (msg_bytes (sh + 4))))
      ∙ ap (placed dh) (
          offset_of (coded dh) base
            (code_header base dh type seqnum code (omega (arith, base_room)) (msg_bytes (sh + 4))))

  -- The buffers hold bytes and the radio MAC, if there is one, is one that HLEN can count. Then
  -- `cw_send_error_response` sends the response buffer, and finds in it, behind a header of at least
  -- 8 bytes: the request's type plus 1, the request's sequence number, and 8 bytes of elements, which
  -- are one result code element with the code.
  pub send_error_response-Answer :
      Answer conn
        (send_error_response conn rawmsg code)
        (get_msg_type rawmsg (get_hdr_msg_offset rawmsg 0) + 1)
        (get_msg_seqnum rawmsg (get_hdr_msg_offset rawmsg 0))
        code
  unfolding send_error_response get_msg_seqnum
  send_error_response-Answer =
      let r : 4 ≤ dh = omega (arith, base_room) in
      let byte = msg_bytes (sh + 4) in
      record {
        sent = refl;
        offset = dh;
        at_offset =
            ap (λ m. get_hdr_msg_offset m 0) buffer_is
            ∙ offset_of (placed dh dh) base (response_header base dh type seqnum code r byte);
        room = base_room;
        has_type =
            ap (λ m. get_dword m dh) buffer_is ∙ response_type base dh type seqnum code r byte;
        has_seqnum =
            ap (λ m. m (dh + 4)) buffer_is ∙ response_seqnum base dh type seqnum code r byte;
        has_len =
            ap (λ m. get_word m (dh + 5)) buffer_is ∙ response_len base dh type seqnum code r byte;
        elem_id =
            ap (λ m. get_word m (dh + 8)) buffer_is ∙ response_id base dh type seqnum code r byte;
        elem_len =
            ap (λ m. get_word m (dh + 8 + 2)) buffer_is
            ∙ response_elem_len base dh type seqnum code r byte;
        elem_code =
            ap (λ m. get_dword m (dh + 8 + 4)) buffer_is
            ∙ reads_code base dh type seqnum code r byte;
      }
