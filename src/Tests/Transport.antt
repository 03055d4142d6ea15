-- ===== src/Tests/Transport.antt =====
-- Examples for the transport header, the sender and the receiver of src/cw: a message of 276 bytes, sent
-- with an MTU of 24, and single packets.
use actube.Base.{
  ℕ, suc, ◌+◌, ◌/◌, ◌%◌, ◌^◌, ◌≤◌, ◌<◌, ◌≡◌, ◌≢◌, refl, ◌↔◌, ◌⊎◌, inl, arith, Mem, true, none, some,
  List, length, IsBytes, ◌==◌, ltb, ◌&&◌, if◌then◌else◌, get_dword, get_word,
}
use actube.Header.{
  bstr_len, get_hdr_hlen, get_hdr_wbid, get_hdr_rid, get_hdr_flag, get_hdr_msg_offset, rmac_hlen,
  set_hdr_hlen, set_hdr_rid, set_hdr_rmac,
}
use actube.Header.Fields.{set_hdr_hlen_lem, get_hdr_rid-set_hdr_rid}
use actube.Header.Rmac.{set_hdr_rmac_lem}
use actube.Fragman.{
  Frag, Realloc, frag_get, frag_new, fragman_create, find_or_new, frag_dst, fragman_add,
}
use actube.Fragman.Slots.{Succeeds, HasRoom}
use actube.Fragman.Bounds.{is_overflow, fragman_add_overflow}
use actube.Send.{Sender, Sent, Packet, send_msg, send_loop}
use actube.Send.Start.{CanFragment, msg_total}
use actube.Send.Misaligned.{EndsShort, send_loop_misaligned}
use actube.Conn.Packet.{process_packet}
use actube.Conn.Packet.Verdict.{Verdict, process_packet-Verdict}
use actube.Conn.Delivery.{Reassembled, receive, receive-send_msg}

abbrev message : Mem
message i = if i == 5 then 0 else if i == 6 then 15 else 1

message-IsBytes : IsBytes message
message-IsBytes i = ground arith

abbrev zeros : Mem
zeros i = 0

zeros-IsBytes : IsBytes zeros
zeros-IsBytes i = omega arith

abbrev long_message : Mem
long_message i = if i == 5 then 1 else if i == 6 then 15 else 1

long_message-IsBytes : IsBytes long_message
long_message-IsBytes i = ground arith

abbrev sender : Sender
sender = record { mtu = 24; fragid = 7; wbid = 1; base_rmac = none }

abbrev memory : Realloc
memory o = some zeros

memory-Succeeds : Succeeds memory
memory-Succeeds o = (zeros, refl)

sender-CanFragment : CanFragment sender long_message
unfolding get_word
sender-CanFragment = record {
  fragid = omega arith;
  mac = tt;
  aligned = refl;
  header_aligned = refl;
  room = omega arith;
  above_short = omega arith;
  in_buffer = omega arith;
  bytes = long_message-IsBytes;
  fits = omega arith;
  long = omega arith;
}

no_fragment : frag_get fragman_create 7 ≡ none
unfolding frag_get fragman_create
no_fragment = refl

fresh-HasRoom : HasRoom 0 fragman_create
unfolding fragman_create
fresh-HasRoom = inl refl

receive-send_msg_example :
    (ps : List Packet) × (send_msg (λ k. true) zeros sender long_message ≡ Sent.done ps)
    × Reassembled
        (msg_total long_message)
        long_message
        (length ps)
        (receive memory (λ k. k) 0 fragman_create ps)
receive-send_msg_example =
    receive-send_msg memory (λ k. k) fragman_create (λ k. true) zeros sender long_message
      (λ k. refl) memory-Succeeds zeros-IsBytes sender-CanFragment no_fragment fresh-HasRoom

-- A header of eight bytes, version 0, not a fragment.
abbrev plain_packet : Mem
plain_packet i = if i == 1 then 16 else 0

process_packet-Verdict_example :
    Verdict memory 0 fragman_create plain_packet 20
      (process_packet memory 0 fragman_create plain_packet 20)
process_packet-Verdict_example = process_packet-Verdict memory 0 fragman_create plain_packet 20

-- A fragment at the offset 8191, so that its payload starts at byte 65528.
abbrev far_packet : Mem
far_packet i = if i == 6 then 255 else if i == 7 then 248 else 0

abbrev first_slot : Frag
first_slot = record {
  buffer = some zeros;
  fragid = 0;
  bytesreceived = 0;
  bytesneeded = 0;
  tv_sec = 3;
}

far_slot :
    find_or_new memory 3 fragman_create
      (get_dword far_packet 4 / 2 ^ 16)
      (frag_get fragman_create (get_dword far_packet 4 / 2 ^ 16))
    ≡ ((frag_new memory 3 fragman_create 0).0, some (0, first_slot))
unfolding find_or_new frag_get frag_new fragman_create get_dword
far_slot = refl

fragman_add_overflow_example :
    is_overflow (fragman_add memory 3 fragman_create far_packet 8 9).1
    ≡ (ltb 65536 (frag_dst far_packet + 9) && ltb (frag_dst far_packet + 9) 65540)
fragman_add_overflow_example =
    fragman_add_overflow memory 3 fragman_create (frag_new memory 3 fragman_create 0).0 far_packet 8
      9 0 first_slot far_slot

-- A radio MAC of six bytes.
abbrev mac : Mem
mac i = if i == 0 then 6 else 17

mac-IsBytes : IsBytes mac
mac-IsBytes i = ground arith

set_hdr_rmac_lem_example :
    let m' = set_hdr_rmac zeros 0 (some mac) in
    (get_hdr_flag 0x10 m' 0 ≡ true)
    × (get_hdr_hlen m' 0 ≡ rmac_hlen (bstr_len mac))
    × ((j : ℕ) → j ≤ bstr_len mac → m' (0 + 8 + j) ≡ mac j)
    × ((9 + bstr_len mac ≤ get_hdr_msg_offset m' 0) ↔ (bstr_len mac % 4 ≢ 0))
set_hdr_rmac_lem_example = set_hdr_rmac_lem zeros 0 mac zeros-IsBytes mac-IsBytes (omega arith)

set_hdr_hlen_lem_example :
    (get_hdr_hlen (set_hdr_hlen message 0 4) 0 ≡ 4 % 2 ^ 5)
    × (get_hdr_wbid (set_hdr_hlen message 0 4) 0 ≡ get_hdr_wbid message 0)
    × (get_dword (set_hdr_hlen message 0 4) 0 / 2 ^ 24 ≡ get_dword message 0 / 2 ^ 24)
    × (get_dword (set_hdr_hlen message 0 4) 0 % 2 ^ 19 ≡ get_dword message 0 % 2 ^ 19)
    × (get_hdr_flag 0x80 (set_hdr_hlen message 0 4) 0 ≡ get_hdr_flag 0x80 message 0)
    × (get_hdr_flag 0x40 (set_hdr_hlen message 0 4) 0 ≡ get_hdr_flag 0x40 message 0)
    × (get_hdr_flag 0x10 (set_hdr_hlen message 0 4) 0 ≡ get_hdr_flag 0x10 message 0)
    × ((i : ℕ) → (i < 0) ⊎ (0 + 4 ≤ i) → set_hdr_hlen message 0 4 i ≡ message i)
set_hdr_hlen_lem_example = set_hdr_hlen_lem message 0 4 message-IsBytes

get_hdr_rid-set_hdr_rid_example :
    (get_dword (set_hdr_rid zeros 0 3) 0 / 2 ^ 14 % 2 ^ 5 ≡ 3 % 2 ^ 5)
    × (get_hdr_rid (set_hdr_rid zeros 0 3) 0 ≡ 0)
get_hdr_rid-set_hdr_rid_example = get_hdr_rid-set_hdr_rid zeros 0 3 zeros-IsBytes

-- An MTU of 20 leaves 12 bytes beside the header; the message has 20.
send_loop_misaligned_example :
    EndsShort 20 8 20 message (send_loop (λ k. true) 7 20 message (suc (suc 19)) 0 zeros 20 0 8)
send_loop_misaligned_example =
    send_loop_misaligned (λ k. true) 7 20 message zeros 19 20 8 (λ k. refl) (omega arith)
      (omega arith) message-IsBytes (omega arith) (omega arith) refl (omega arith) (omega arith)
