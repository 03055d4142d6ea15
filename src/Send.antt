-- ===== src/Send.antt =====
-- Sending a control message in fragments: `cw_send_msg` of src/cw/send.c. The message is taken from
-- `msg` at its control header; `write` tells for the k-th call of `conn->write` whether it succeeds.
pub mod Fragment
pub mod Copy
pub mod Loop
pub mod Start
pub mod Misaligned
use actube.Base.{
  ℕ, zero, suc, ◌+◌, ◌-◌, ◌*◌, ◌/◌, ◌^◌, Mem, Bool, true, false, Option, none, some, List, [], ◌∷◌,
  bit_and, bit_or, ltb, ◌==◌, if◌then◌else◌, set_dword, memcpy, ◌||◌,
}
use actube.Header.{
  Bstr, set_hdr_preamble, set_hdr_rmac, set_hdr_wbid, set_hdr_rid, set_hdr_flags, set_hdr_hlen,
  get_hdr_hlen, get_msg_elems_field, flag_hdr_m, flag_hdr_w, flag_hdr_f,
}

pub record Packet : Type 0 where
  pub bytes : Mem
  pub len : ℕ

-- `failed` is the return of -1 or of the last write's error, with what was written before.
-- `overrun` is a `memcpy` past the end of `buf` or of a negative length.
pub data Sent : Type 0 where
  done : List Packet → Sent
  failed : List Packet → Sent
  overrun no_fuel : Sent

abbrev pub after : Packet → Sent → Sent
after p (done ps) = done (p ∷ ps)
after p (failed ps) = failed (p ∷ ps)
after p overrun = overrun
after p no_fuel = no_fuel

-- The members of `struct cw_Conn` that `cw_send_msg` reads.
pub record Sender : Type 0 where
  pub mtu : ℕ
  pub fragid : ℕ
  pub wbid : ℕ
  pub base_rmac : Bstr

-- `uint8_t buf[MAX_MTU]`
abbrev pub max_mtu : ℕ
max_mtu = 9500

-- memcpy(buf+hlen,msg+(fragoffset*8),mtu-hlen)
unfoldable pub copy_payload : Mem → Mem → ℕ → ℕ → ℕ → Option Mem
copy_payload buf msg fragoffset hlen mtu =
    if ltb mtu hlen || ltb max_mtu mtu
    then none
    else some (memcpy buf hlen msg (fragoffset * 8) (mtu - hlen))

-- cw_set_dword(buf+4, conn->fragid<<16 | fragoffset<<3 )
unfoldable pub put_frag_dword : Mem → ℕ → ℕ → Mem
put_frag_dword buf fragid fragoffset =
    set_dword buf 4 (bit_or (fragid * 2 ^ 16) (fragoffset * 2 ^ 3))

-- The header of all fragments but the first: no radio MAC, no wireless info.
unfoldable pub next_header : Mem → Mem
next_header buf =
    set_hdr_hlen (set_hdr_flags (set_hdr_flags buf 0 flag_hdr_m false) 0 flag_hdr_w false) 0 2

unfoldable pub fragment_flag : Mem → ℕ → Mem
fragment_flag buf zero = set_hdr_flags buf 0 flag_hdr_f false
fragment_flag buf (suc fragoffset) = set_hdr_flags buf 0 0xc0 true

module _ (write : ℕ → Bool) (fragid mtu : ℕ) (msg : Mem) where
  unfoldable pub send_last : ℕ → Mem → ℕ → ℕ → ℕ → Sent
  send_last k buf msglen fragoffset hlen =
      elim (copy_payload (fragment_flag buf fragoffset) msg fragoffset hlen mtu) [
        | none ↦ overrun
        | some b ↦
            if write k
            then done
                (record { bytes = put_frag_dword b fragid fragoffset; len = msglen + hlen } ∷ [])
            else failed []
      ]

  unfoldable pub send_loop : ℕ → ℕ → Mem → ℕ → ℕ → ℕ → Sent
  send_loop zero k buf msglen fragoffset hlen = no_fuel
  send_loop (suc fuel) k buf msglen fragoffset hlen = elim (ltb mtu (msglen + hlen)) [
    | true ↦ elim (copy_payload buf msg fragoffset hlen mtu) [
      | none ↦ overrun
      | some b ↦
          let sent = put_frag_dword (set_hdr_flags b 0 flag_hdr_f true) fragid fragoffset in
          elim (write k) [
            | true ↦
                after (record { bytes = sent; len = mtu })
                  (send_loop fuel (k + 1) (next_header sent) (msglen - (mtu - hlen))
                    (fragoffset + (mtu - hlen) / 8) 8)
            | false ↦ failed []
          ]
    ]
    | false ↦ send_last k buf msglen fragoffset hlen
  ]

-- The header of the first fragment, in a `buf` whose old contents are `stack`.
unfoldable pub first_header : Mem → Sender → Mem
first_header stack conn =
    let b1 = set_dword (set_dword stack 0 0) 4 0 in
    let b2 = set_hdr_rmac (set_hdr_preamble b1 0 0) 0 conn.base_rmac in
    set_hdr_rid (set_hdr_wbid b2 0 conn.wbid) 0 0

-- mtu &= ~3
abbrev pub aligned_mtu : ℕ → ℕ
aligned_mtu mtu = bit_and mtu 0xfffffffc

unfoldable pub send_msg : (ℕ → Bool) → Mem → Sender → Mem → Sent
send_msg write stack conn msg =
    let buf = first_header stack conn in
    let msglen = get_msg_elems_field msg 0 + 5 in
    send_loop write conn.fragid (aligned_mtu conn.mtu) msg (msglen + 1) 0 buf msglen 0
      (get_hdr_hlen buf 0 * 4)
