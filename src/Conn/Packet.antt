-- ===== src/Conn/Packet.antt =====
-- `conn_process_packet2` of src/cw/conn.c: the checks of a received packet, and its way through the
-- fragment manager. Debug output is left out.
pub mod Verdict
use actube.Base.{
  ℕ, ◌+◌, ◌-◌, ◌*◌, ◌/◌, ◌%◌, ◌^◌, ◌≤◌, ◌<◌, ◌≡◌, ◌≢◌, refl, ◌⊎◌, inl, inr, ap, ◌∙◌, arith, Mem,
  Bool, true, false, List, [], ◌∷◌, ltb, ◌==◌, if◌then◌else◌, bit_and, not, ◌&&◌,
}
use actube.Header.{
  get_hdr_preamble, get_hdr_msg_offset, get_hdr_flag, get_hdr_rmac_len, flag_hdr_m, flag_hdr_f,
}
use actube.Fragman.{
  Frag, Realloc, AddResult, complete, incomplete, no_memory, overflow, fragman_add,
}

-- Why a packet is dropped; each of them is -1 with `errno` EAGAIN.
pub data Discard : Type 0 where
  too_short wrong_version encrypted header_too_long wrong_rmac fragment_kept : Discard

-- `message` is the call of `conn->process_message`; `fault` is undefined behaviour.
pub data Action : Type 0 where
  discard : Discard → Action
  message : Mem → ℕ → Action
  fault : Action

unfoldable pub add_action : AddResult → Action
add_action (complete n out) = message out n
add_action incomplete = discard fragment_kept
add_action no_memory = discard fragment_kept
add_action overflow = fault

unfoldable pub process_fragment : Realloc → ℕ → List Frag → Mem → ℕ → ℕ → List Frag × Action
unfolding add_action
process_fragment realloc now frags packet offs payloadlen =
    let (frags', r) = fragman_add realloc now frags packet offs payloadlen in (frags', add_action r)

-- The checks in their order; CAPWAP_VERSION is 0.
unfoldable pub process_packet : Realloc → ℕ → List Frag → Mem → ℕ → List Frag × Action
process_packet realloc now frags packet len =
    let preamble = get_hdr_preamble packet 0 in
    let offs = get_hdr_msg_offset packet 0 in
    if ltb len 8
    then (frags, discard too_short)
    else if not (bit_and preamble 0xf0 == 0)
    then (frags, discard wrong_version)
    else if not (bit_and preamble 0xf == 0)
    then (frags, discard encrypted)
    else if ltb len offs
    then (frags, discard header_too_long)
    else if get_hdr_flag flag_hdr_m packet 0 && ltb offs (get_hdr_rmac_len packet 0 + 8)
    then (frags, discard wrong_rmac)
    else if get_hdr_flag flag_hdr_f packet 0
    then process_fragment realloc now frags packet offs (len - offs)
    else (frags, message packet len)
