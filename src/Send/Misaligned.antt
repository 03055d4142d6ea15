-- ===== src/Send/Misaligned.antt =====
-- The MTU that `cw_send_msg` of src/cw/send.c works with is a multiple of 4, not of 8: what happens to a
-- message of two fragments.
use actube.Base.{
  refl, ℕ, suc, ◌+◌, ◌-◌, ◌*◌, ◌/◌, ◌%◌, ◌^◌, ◌≤◌, ◌<◌, ◌≡◌, ap, ◌∙◌, arith, Mem, Bool, true, [],
  ◌∷◌, IsBytes, memcpy, memcpy_inside, inr, sym,
}
use actube.Fragman.{frag_dst}
use actube.Send.{
  Packet, Sent, done, after, put_frag_dword, next_header, fragment_flag, send_loop, max_mtu,
}
use actube.Send.Fragment.{frag_dst_put, put_outside}
use actube.Send.Copy.{flagged}
use actube.Header.{flag_hdr_f}
use actube.Header.Fields.{set_hdr_flags_outside}
use actube.Send.Loop.{middle, loop_steps, loop_ends, last_steps}

-- Two packets. The first is as long as the MTU and carries the message from its start. The second
-- carries, behind eight bytes of header, the bytes of the message from the place on where the receiver
-- will put them, which is four bytes before the end of what the first carries, and ends four bytes
-- before the end of the message.
pub record EndsShort (msglen hlen mtu : ℕ) (msg : Mem) (sent : Sent) : Type 0 where
  pub first : Packet
  pub second : Packet
  pub returns : sent ≡ done (first ∷ second ∷ [])
  pub first_len : first.len ≡ mtu
  pub first_payload : (j : ℕ) → j < mtu - hlen → first.bytes (hlen + j) ≡ msg j
  pub second_payload :
      (j : ℕ) → j < second.len - 8 → second.bytes (8 + j) ≡ msg (frag_dst second.bytes + j)
  pub again : frag_dst second.bytes + 4 ≡ mtu - hlen
  pub short : frag_dst second.bytes + (second.len - 8) + 4 ≡ msglen

-- A message takes two fragments, and the room for its bytes in the first one is a multiple of 4 but
-- not of 8. Then the loop of `cw_send_msg`, with every write a success, returns with two packets: the
-- first carries the start of the message in all its room; the second carries the bytes from the
-- offset in its header on, four bytes that the first one has already among them, and ends four bytes
-- before the end of the message, so that the last four bytes are in neither.
pub send_loop_misaligned :
    (write : ℕ → Bool) (fragid mtu : ℕ) (msg buf : Mem) (fuel msglen hlen : ℕ)
    → ((k : ℕ) → write k ≡ true)
    → fragid < 2 ^ 16
    → mtu ≤ max_mtu
    → IsBytes msg
    → 8 ≤ hlen
    → hlen ≤ mtu
    → (mtu - hlen) % 8 ≡ 4
    → mtu < msglen + hlen
    → msglen + hlen ≤ mtu + (mtu - 8)
    → EndsShort msglen hlen mtu msg
        (send_loop write fragid mtu msg (suc (suc fuel)) 0 buf msglen 0 hlen)
send_loop_misaligned write fragid mtu msg buf fuel msglen hlen ok id_fits mtu_fits bytes room le odd
      long two =
    let p1 : Packet = record {
      bytes = middle write ok fragid mtu msg id_fits mtu_fits bytes buf 0 hlen;
      len = mtu;
    } in
    let fo = 0 + (mtu - hlen) / 8 in
    let rest = msglen - (mtu - hlen) in
    let next = next_header p1.bytes in
    let p2 : Packet = record {
      bytes = put_frag_dword (memcpy (fragment_flag next fo) 8 msg (fo * 8) (mtu - 8)) fragid fo;
      len = rest + 8;
    } in
    let dst : frag_dst p2.bytes ≡ fo * 8 =
      frag_dst_put (memcpy (fragment_flag next fo) 8 msg (fo * 8) (mtu - 8)) fragid fo id_fits
        (omega arith) in
    record {
      first = p1;
      second = p2;
      returns =
          loop_steps write ok fragid mtu msg id_fits mtu_fits bytes (suc fuel) 0 buf msglen 0 hlen
            le long
          ∙ ap (after p1) (
              loop_ends write ok fragid mtu msg id_fits mtu_fits bytes fuel (0 + 1) next rest fo 8
                (omega arith)
              ∙ last_steps write ok fragid mtu msg id_fits mtu_fits bytes (0 + 1) next rest fo 8
                  (omega arith));
      first_len = refl;
      first_payload = λ j lt.
          put_outside (flagged fragid mtu msg id_fits mtu_fits bytes buf 0 hlen) fragid 0 (hlen + j)
            (inr (omega arith))
          ∙ set_hdr_flags_outside (memcpy buf hlen msg (0 * 8) (mtu - hlen)) 0 flag_hdr_f true
              (hlen + j) (inr (omega arith))
          ∙ memcpy_inside buf hlen msg (0 * 8) (mtu - hlen) j lt
          ∙ ap msg (omega arith);
      second_payload = λ j lt.
          put_outside (memcpy (fragment_flag next fo) 8 msg (fo * 8) (mtu - 8)) fragid fo (8 + j)
            (inr (omega arith))
          ∙ memcpy_inside (fragment_flag next fo) 8 msg (fo * 8) (mtu - 8) j (omega arith)
          ∙ ap (λ n. msg (n + j)) (sym dst);
      again = omega (arith, dst);
      short = omega (arith, dst);
    }
