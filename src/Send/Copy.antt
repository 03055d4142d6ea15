-- ===== src/Send/Copy.antt =====
-- The fragments that `cw_send_msg` of src/cw/send.c copies together: those in the middle, the header
-- that follows, and the last one.
use actube.Base.{
  ℕ, zero, suc, ◌+◌, ◌-◌, ◌*◌, ◌/◌, ◌%◌, ◌^◌, ◌≤◌, ◌<◌, ◌≡◌, refl, ap, ◌∙◌, ◌⊎◌, inl, inr, arith,
  Mem, true, false, some, [], ◌∷◌, bit_and, IsBytes, get_dword, memcpy, memcpy_outside,
  memcpy_inside, set_dword-IsBytes, memcpy-IsBytes,
}
use actube.Header.{set_hdr_flags, flag_hdr_f}
use actube.Header.Dword.{
  get_dword-set_f, get_dword-set_fl, get_dword-clear_m, get_dword-clear_w, get_dword-set_hdr_hlen,
}
use actube.Header.Fields.{
  bit_and_l, set_hdr_flags_outside, set_hdr_flags-IsBytes, set_hdr_hlen-IsBytes,
}
use actube.Send.{copy_payload, put_frag_dword, next_header, fragment_flag, max_mtu}
use actube.Send.Fragment.{
  HasHeader, IsFragment, Fragments, last, packet-IsFragment, get_dword_zero, payload_keeps_header,
}

module _ (fragid mtu : ℕ) (msg : Mem) (id_fits : fragid < 2 ^ 16) (mtu_fits : mtu ≤ max_mtu)
    (msg_bytes : IsBytes msg) where
  pub copies :
      (buf : Mem) (fo hlen : ℕ)
      → hlen ≤ mtu
      → copy_payload buf msg fo hlen mtu ≡ some (memcpy buf hlen msg (fo * 8) (mtu - hlen))
  unfolding copy_payload
  copies buf fo hlen h = ground arith

  -- The middle fragment and the header of the next one.
  abbrev pub flagged : Mem → ℕ → ℕ → Mem
  flagged buf fo hlen = set_hdr_flags (memcpy buf hlen msg (fo * 8) (mtu - hlen)) 0 flag_hdr_f true

  module _ (buf : Mem) (fo hlen : ℕ) (h : HasHeader buf hlen) where
    copied-IsBytes : IsBytes (memcpy buf hlen msg (fo * 8) (mtu - hlen))
    copied-IsBytes = memcpy-IsBytes buf hlen msg _ _ h.bytes msg_bytes

    flagged_dword :
        get_dword (flagged buf fo hlen) 0
        ≡ (get_dword buf 0 / 2 ^ 8 * 2 + 1) * 2 ^ 7 + get_dword buf 0 % 2 ^ 7
    flagged_dword =
        get_dword-set_f _ 0 copied-IsBytes
        ∙ ap (λ (d : ℕ). (d / 2 ^ 8 * 2 + 1) * 2 ^ 7 + d % 2 ^ 7)
            (payload_keeps_header buf msg hlen (fo * 8) (mtu - hlen) h.room)

    flagged_payload : (j : ℕ) → j < mtu - hlen → flagged buf fo hlen (hlen + j) ≡ msg (fo * 8 + j)
    flagged_payload j lt =
        set_hdr_flags_outside _ 0 _ true (hlen + j) (inr (omega (arith, h.room)))
        ∙ memcpy_inside buf hlen msg (fo * 8) (mtu - hlen) j lt

    copied_mac : 8 < hlen → memcpy buf hlen msg (fo * 8) (mtu - hlen) 8 ≡ buf 8
    copied_mac lt = memcpy_outside buf hlen msg (fo * 8) (mtu - hlen) 8 (inl lt)

    flagged_mac :
        (get_dword (flagged buf fo hlen) 0 / 2 ^ 4 % 2 ≡ 0) ⊎ (flagged buf fo hlen 8 + 8 ≤ hlen)
    flagged_mac = elim h.mac [
      | inl none_there ↦ inl (omega (arith, flagged_dword))
      | inr (lt, le) ↦ inr (
          omega (
            arith,
            set_hdr_flags_outside (memcpy buf hlen msg (fo * 8) (mtu - hlen)) 0 flag_hdr_f true 8
                (inr (omega arith)),
            copied_mac lt,
          ))
    ]

    pub middle-IsFragment :
        (total : ℕ)
        → total ≤ 65536
        → hlen < mtu
        → fo * 8 + (mtu - hlen) ≤ total
        → IsFragment fragid
            (fo * 8)
            (mtu - hlen)
            msg
            (record { bytes = put_frag_dword (flagged buf fo hlen) fragid fo; len = mtu })
    middle-IsFragment total fits lt le =
        packet-IsFragment fragid fo total msg id_fits fits (flagged buf fo hlen) hlen (mtu - hlen)
          (mtu - hlen) mtu (omega arith) (omega (arith, flagged_dword, h.offset))
          (omega (arith, flagged_dword)) h.room (omega arith) (omega arith) le flagged_payload
          (omega (arith, flagged_dword, h.version)) flagged_mac

    pub middle_l : bit_and (get_dword (put_frag_dword (flagged buf fo hlen) fragid fo) 0) 0x40 ≡ 0
    middle_l =
        rw (get_dword_zero (flagged buf fo hlen) fragid fo, bit_and_l)
          (omega (arith, flagged_dword, h.l_clear))

    sent-IsBytes : IsBytes (put_frag_dword (flagged buf fo hlen) fragid fo)
    unfolding put_frag_dword
    sent-IsBytes = set_dword-IsBytes _ 4 _ (set_hdr_flags-IsBytes _ 0 _ true copied-IsBytes)

    pub next-HasHeader : HasHeader (next_header (put_frag_dword (flagged buf fo hlen) fragid fo)) 8
    unfolding next_header
    next-HasHeader = record {
      bytes = set_hdr_hlen-IsBytes _ 0 2 no_w;
      offset = omega (arith, get_dword-set_hdr_hlen _ 0 2 no_w);
      l_clear = omega (
        arith,
        get_dword-set_hdr_hlen _ 0 2 no_w,
        get_dword-clear_w _ 0 no_m,
        get_dword-clear_m _ 0 sent-IsBytes,
        get_dword_zero (flagged buf fo hlen) fragid fo,
        flagged_dword,
        h.l_clear,
      );
      room = omega arith;
      version = omega (
        arith,
        get_dword-set_hdr_hlen _ 0 2 no_w,
        get_dword-clear_w _ 0 no_m,
        get_dword-clear_m _ 0 sent-IsBytes,
        get_dword_zero (flagged buf fo hlen) fragid fo,
        flagged_dword,
        h.version,
      );
      mac = inl (
          omega (
            arith,
            get_dword-set_hdr_hlen _ 0 2 no_w,
            get_dword-clear_w _ 0 no_m,
            get_dword-clear_m _ 0 sent-IsBytes,
          ));
    }
      where
        no_m : IsBytes (set_hdr_flags (put_frag_dword (flagged buf fo hlen) fragid fo) 0 0x10 false)
        no_m = set_hdr_flags-IsBytes _ 0 _ false sent-IsBytes

        no_w : IsBytes (
            set_hdr_flags
              (set_hdr_flags (put_frag_dword (flagged buf fo hlen) fragid fo) 0 0x10 false)
              0
              0x20
              false)
        no_w = set_hdr_flags-IsBytes _ 0 _ false no_m

    -- The last fragment: F and L are set before the payload is copied.
    abbrev pub closing : Mem
    closing = memcpy (fragment_flag buf fo) hlen msg (fo * 8) (mtu - hlen)

    closing_dword :
        0 < fo
        → get_dword closing 0
          ≡ (get_dword buf 0 / 2 ^ 8 * 2 ^ 2 + 3) * 2 ^ 6 + get_dword buf 0 % 2 ^ 6
    closing_dword pos =
        payload_keeps_header (fragment_flag buf fo) msg hlen (fo * 8) (mtu - hlen) h.room
        ∙ flag_dword fo pos
      where
        flag_dword :
            (k : ℕ)
            → 0 < k
            → get_dword (fragment_flag buf k) 0
              ≡ (get_dword buf 0 / 2 ^ 8 * 2 ^ 2 + 3) * 2 ^ 6 + get_dword buf 0 % 2 ^ 6
        flag_dword zero p = absurd (omega arith)
        flag_dword (suc k) p = unfold fragment_flag in get_dword-set_fl buf 0 h.bytes

    closing_mac : 0 < fo → (get_dword closing 0 / 2 ^ 4 % 2 ≡ 0) ⊎ (closing 8 + 8 ≤ hlen)
    closing_mac pos = elim h.mac [
      | inl none_there ↦ inl (omega (arith, closing_dword pos))
      | inr (lt, le) ↦ inr (
          omega (
            arith,
            memcpy_outside (fragment_flag buf fo) hlen msg (fo * 8) (mtu - hlen) 8 (inl lt),
            flag_at fo,
          ))
    ]
      where
        flag_at : (k : ℕ) → fragment_flag buf k 8 ≡ buf 8
        flag_at zero =
            unfold fragment_flag in set_hdr_flags_outside buf 0 _ false 8 (inr (omega arith))
        flag_at (suc k) =
            unfold fragment_flag in set_hdr_flags_outside buf 0 _ true 8 (inr (omega arith))

    pub last-Fragments :
        (msglen total : ℕ)
        → 0 < fo
        → total ≤ 65536
        → hlen ≤ mtu
        → 0 < msglen
        → msglen + hlen ≤ mtu
        → fo * 8 + msglen ≡ total
        → Fragments fragid total msg
            (fo * 8)
            (record { bytes = put_frag_dword closing fragid fo; len = msglen + hlen } ∷ [])
    last-Fragments msglen total pos fits le some_left short sum =
        last msglen _
          (packet-IsFragment fragid fo total msg id_fits fits closing hlen (mtu - hlen) msglen
            (msglen + hlen) refl (omega (arith, closing_dword pos, h.offset))
            (omega (arith, closing_dword pos)) h.room (omega arith) some_left (omega arith)
            (memcpy_inside (fragment_flag buf fo) hlen msg (fo * 8) (mtu - hlen))
            (omega (arith, closing_dword pos, h.version)) (closing_mac pos))
          (rw (get_dword_zero closing fragid fo, bit_and_l) (omega (arith, closing_dword pos))) sum
