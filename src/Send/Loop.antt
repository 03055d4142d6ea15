-- ===== src/Send/Loop.antt =====
-- What `cw_send_msg` writes: the fragments of the message, one after the other.
use native.Mathlib.Decide.{dec_lt}
use actube.Base.{
  ℕ, zero, suc, ◌+◌, ◌-◌, ◌*◌, ◌/◌, ◌%◌, ◌^◌, ◌≤◌, ◌<◌, ◌≡◌, refl, subst, ◌⊎◌, inl, arith, Mem,
  Bool, true, List, [], ◌∷◌, bit_and, IsBytes, get_dword, memcpy, lt→ltb, le→ltb,
}
use actube.Send.{
  Packet, Sent, done, after, put_frag_dword, next_header, fragment_flag, send_last, send_loop,
  max_mtu,
}
use actube.Send.Fragment.{HasHeader, IsFragment, Fragments, more}
use actube.Send.Copy.{copies, flagged, middle-IsFragment, middle_l, next-HasHeader, last-Fragments}

module _ (write : ℕ → Bool) (ok : (k : ℕ) → write k ≡ true) (fragid mtu : ℕ) (msg : Mem)
    (id_fits : fragid < 2 ^ 16) (mtu_fits : mtu ≤ max_mtu) (msg_bytes : IsBytes msg) where
  abbrev pub middle : Mem → ℕ → ℕ → Mem
  middle buf fo hlen =
      put_frag_dword (flagged fragid mtu msg id_fits mtu_fits msg_bytes buf fo hlen) fragid fo

  -- One round of the loop.
  pub loop_steps :
      (fuel k : ℕ) (buf : Mem) (msglen fo hlen : ℕ)
      → hlen ≤ mtu
      → mtu < msglen + hlen
      → send_loop write fragid mtu msg (suc fuel) k buf msglen fo hlen
        ≡ after
            (record { bytes = middle buf fo hlen; len = mtu })
            (send_loop write fragid mtu msg fuel
              (k + 1)
              (next_header (middle buf fo hlen))
              (msglen - (mtu - hlen))
              (fo + (mtu - hlen) / 8)
              8)
  unfolding send_loop
  loop_steps fuel k buf msglen fo hlen le long =
      rw
        (
          send_loop,
          lt→ltb mtu (msglen + hlen) long,
          copies fragid mtu msg id_fits mtu_fits msg_bytes buf fo hlen le,
          ok k,
        )
        refl

  pub loop_ends :
      (fuel k : ℕ) (buf : Mem) (msglen fo hlen : ℕ)
      → msglen + hlen ≤ mtu
      → send_loop write fragid mtu msg (suc fuel) k buf msglen fo hlen
        ≡ send_last write fragid mtu msg k buf msglen fo hlen
  unfolding send_loop
  loop_ends fuel k buf msglen fo hlen short = rw (send_loop, le→ltb mtu (msglen + hlen) short) refl

  -- The last fragment, with the payload behind its header.
  pub last_steps :
      (k : ℕ) (buf : Mem) (msglen fo hlen : ℕ)
      → hlen ≤ mtu
      → send_last write fragid mtu msg k buf msglen fo hlen
        ≡ done (
            record {
              bytes =
                  put_frag_dword
                    (memcpy (fragment_flag buf fo) hlen msg (fo * 8) (mtu - hlen))
                    fragid
                    fo;
              len = msglen + hlen;
            }
            ∷ [])
  unfolding send_last
  last_steps k buf msglen fo hlen le =
      rw
        (
          send_last,
          copies fragid mtu msg id_fits mtu_fits msg_bytes (fragment_flag buf fo) fo hlen le,
          ok k,
        )
        refl

module _ (write : ℕ → Bool) (ok : (k : ℕ) → write k ≡ true) (fragid mtu : ℕ) (msg : Mem)
    (id_fits : fragid < 2 ^ 16) (mtu_fits : mtu ≤ max_mtu) (aligned : mtu % 8 ≡ 0) (room : 8 < mtu)
    (msg_bytes : IsBytes msg) where
  abbrev pub Delivers : ℕ → ℕ → Sent → Type 0
  Delivers total n s = (ps : List Packet) × (s ≡ done ps) × Fragments fragid total msg n ps

  send_last-Fragments :
      (k : ℕ) (buf : Mem) (msglen fo hlen total : ℕ)
      → HasHeader buf hlen
      → hlen ≤ mtu
      → 0 < msglen
      → fo * 8 + msglen ≡ total
      → total ≤ 65536
      → 0 < fo
      → msglen + hlen ≤ mtu
      → Delivers total (fo * 8) (send_last write fragid mtu msg k buf msglen fo hlen)
  send_last-Fragments k buf msglen fo hlen total h le some_left sum fits pos short = (
    _,
    last_steps write ok fragid mtu msg id_fits mtu_fits msg_bytes k buf msglen fo hlen le,
    last-Fragments fragid mtu msg id_fits mtu_fits msg_bytes buf fo hlen h msglen total pos fits le
        some_left short sum,
  )

  -- A fragment before what the rest of the loop delivers.
  Delivers-after :
      (total n n' len : ℕ) (p : Packet) (s : Sent)
      → IsFragment fragid n len msg p
      → bit_and (get_dword p.bytes 0) 0x40 ≡ 0
      → n' ≡ n + len
      → Delivers total n' s
      → Delivers total n (after p s)
  Delivers-after total n n' len p s f l e (ps, done_ps, rest) = (
    p ∷ ps,
    rw done_ps refl,
    more len p ps f l (subst (λ x. Fragments fragid total msg x ps) e rest),
  )

  -- With every write a success, the loop ends by itself and its packets carry the message from
  -- byte `fo * 8` on.
  pub send_loop-Fragments :
      (fuel k : ℕ) (buf : Mem) (msglen fo hlen total : ℕ)
      → HasHeader buf hlen
      → hlen < mtu
      → hlen % 8 ≡ 0
      → 0 < msglen
      → msglen < fuel
      → fo * 8 + msglen ≡ total
      → total ≤ 65536
      → (0 < fo) ⊎ (mtu < msglen + hlen)
      → Delivers total (fo * 8) (send_loop write fragid mtu msg fuel k buf msglen fo hlen)
  send_loop-Fragments zero k buf msglen fo hlen total h lt al some_left fuel_ok sum fits long =
      absurd (omega arith)
  send_loop-Fragments (suc fuel) k buf msglen fo hlen total h lt al some_left fuel_ok sum fits
        long =
      elim (dec_lt mtu (msglen + hlen)) [
        | yes more_to_come ↦
            rw
              (loop_steps write ok fragid mtu msg id_fits mtu_fits msg_bytes fuel k buf msglen fo
                hlen (omega arith) more_to_come)
              (Delivers-after total (fo * 8) ((fo + (mtu - hlen) / 8) * 8) (mtu - hlen) _ _
                (middle-IsFragment fragid mtu msg id_fits mtu_fits msg_bytes buf fo hlen h total
                  fits lt (omega arith))
                (middle_l fragid mtu msg id_fits mtu_fits msg_bytes buf fo hlen h) (omega arith)
                (send_loop-Fragments fuel (k + 1)
                  (next_header
                    (middle write ok fragid mtu msg id_fits mtu_fits msg_bytes buf fo hlen))
                  (msglen - (mtu - hlen)) (fo + (mtu - hlen) / 8) 8 total
                  (next-HasHeader fragid mtu msg id_fits mtu_fits msg_bytes buf fo hlen h) room refl
                  (omega arith) (omega arith) (omega arith) fits (inl (omega arith))))
        | no short ↦
            rw
              (loop_ends write ok fragid mtu msg id_fits mtu_fits msg_bytes fuel k buf msglen fo
                hlen (omega arith))
              (send_last-Fragments k buf msglen fo hlen total h (omega arith) some_left sum fits
                (omega arith) (omega arith))
      ]
