-- ===== src/Header/Rmac.antt =====
-- The radio MAC in the transport header: `cw_set_hdr_rmac`.
use actube.Base.{
  ℕ, ◌+◌, ◌*◌, ◌/◌, ◌%◌, ◌^◌, ◌≤◌, ◌<◌, ◌≡◌, ◌≢◌, inl, inr, ap, ◌∙◌, ◌↔◌, arith, Mem, true, false,
  some, none, IsBytes, get_dword, get_dword_ext, memcpy, memcpy_outside, memcpy_inside,
  memcpy-IsBytes,
}
use actube.Header.{
  bstr_len, rmac_hlen, set_hdr_rmac, get_hdr_hlen, get_hdr_flag, get_hdr_msg_offset,
}
use actube.Header.Dword.{get_dword-set_hdr_hlen, get_dword-set_m, get_dword-clear_m}
use actube.Header.Fields.{
  get_hdr_hlen_lem, get_hdr_flag_m, set_hdr_flags_outside, set_hdr_hlen_outside,
  set_hdr_flags-IsBytes, set_hdr_hlen-IsBytes,
}

module _ (m : Mem) (th : ℕ) (bytes : IsBytes m) where
  pub get_dword-set_hdr_rmac-none :
      get_dword (set_hdr_rmac m th none) th
      ≡ (get_dword m th / 2 ^ 24 * 2 ^ 5 + 2) * 2 ^ 19
        + get_dword m th / 2 ^ 5 % 2 ^ 14 * 2 ^ 5
        + get_dword m th % 2 ^ 4
  unfolding set_hdr_rmac
  get_dword-set_hdr_rmac-none = omega (
    arith,
    get_dword-set_hdr_hlen _ th 2 (set_hdr_flags-IsBytes m th 0x10 false bytes),
    get_dword-clear_m m th bytes,
  )

  pub set_hdr_rmac-none-IsBytes : IsBytes (set_hdr_rmac m th none)
  unfolding set_hdr_rmac
  set_hdr_rmac-none-IsBytes =
      set_hdr_hlen-IsBytes _ th 2 (set_hdr_flags-IsBytes m th 0x10 false bytes)

  module _ (rmac : Mem) (rmac_bytes : IsBytes rmac) where
    copied-IsBytes : IsBytes (memcpy m (th + 8) rmac 0 (bstr_len rmac + 1))
    copied-IsBytes = memcpy-IsBytes m (th + 8) rmac 0 (bstr_len rmac + 1) bytes rmac_bytes

    copied_dword : get_dword (memcpy m (th + 8) rmac 0 (bstr_len rmac + 1)) th ≡ get_dword m th
    copied_dword =
        get_dword_ext _ m th
          (λ i lo hi. memcpy_outside m (th + 8) rmac 0 (bstr_len rmac + 1) i (inl (omega arith)))

    pub get_dword-set_hdr_rmac-some :
        get_dword (set_hdr_rmac m th (some rmac)) th
        ≡ (get_dword m th / 2 ^ 24 * 2 ^ 5 + rmac_hlen (bstr_len rmac) % 2 ^ 5) * 2 ^ 19
          + (get_dword m th / 2 ^ 5 % 2 ^ 14 * 2 + 1) * 2 ^ 4
          + get_dword m th % 2 ^ 4
    unfolding set_hdr_rmac
    get_dword-set_hdr_rmac-some = omega (
      arith,
      get_dword-set_hdr_hlen _ th (rmac_hlen (bstr_len rmac))
          (set_hdr_flags-IsBytes _ th 0x10 true copied-IsBytes),
      get_dword-set_m _ th copied-IsBytes,
      copied_dword,
    )

    pub set_hdr_rmac-some-IsBytes : IsBytes (set_hdr_rmac m th (some rmac))
    unfolding set_hdr_rmac
    set_hdr_rmac-some-IsBytes =
        set_hdr_hlen-IsBytes _ th _ (set_hdr_flags-IsBytes _ th 0x10 true copied-IsBytes)

    pub set_hdr_rmac-some_at :
        (j : ℕ) → j ≤ bstr_len rmac → set_hdr_rmac m th (some rmac) (th + 8 + j) ≡ rmac j
    unfolding set_hdr_rmac
    set_hdr_rmac-some_at j h =
        set_hdr_hlen_outside _ th _ (th + 8 + j) (inr (omega arith))
        ∙ set_hdr_flags_outside _ th _ true (th + 8 + j) (inr (omega arith))
        ∙ memcpy_inside m (th + 8) rmac 0 (bstr_len rmac + 1) j (omega arith)
        ∙ ap rmac (omega arith)

-- HLEN counts four-byte words, and its five bits hold the value for a MAC of at most 116 bytes.
pub rmac_hlen-lt : (n : ℕ) → n ≤ 116 → rmac_hlen n < 2 ^ 5
unfolding rmac_hlen
rmac_hlen-lt n h = ground arith

-- With a radio MAC of at most 116 bytes set in a header of bytes: the M flag is on, HLEN is the
-- computed length, the length byte and the bytes of the MAC read back behind the first two dwords,
-- and the header as HLEN counts it covers the whole MAC exactly when the MAC's length is no multiple
-- of four. (With an EUI-64 the last byte of the MAC lies where the message begins.)
pub set_hdr_rmac_lem :
    (m : Mem) (th : ℕ) (rmac : Mem)
    → IsBytes m
    → IsBytes rmac
    → bstr_len rmac ≤ 116
    → let m' = set_hdr_rmac m th (some rmac) in
      (get_hdr_flag 0x10 m' th ≡ true)
      × (get_hdr_hlen m' th ≡ rmac_hlen (bstr_len rmac))
      × ((j : ℕ) → j ≤ bstr_len rmac → m' (th + 8 + j) ≡ rmac j)
      × ((9 + bstr_len rmac ≤ get_hdr_msg_offset m' th) ↔ (bstr_len rmac % 4 ≢ 0))
set_hdr_rmac_lem m th rmac b rb h = (
  rw get_hdr_flag_m (ground (arith, dword)),
  hlen,
  set_hdr_rmac-some_at m th b rmac rb,
  rw hlen (unfold rmac_hlen in ground arith),
)
  where
    dword :
        get_dword (set_hdr_rmac m th (some rmac)) th
        ≡ (get_dword m th / 2 ^ 24 * 2 ^ 5 + rmac_hlen (bstr_len rmac) % 2 ^ 5) * 2 ^ 19
          + (get_dword m th / 2 ^ 5 % 2 ^ 14 * 2 + 1) * 2 ^ 4
          + get_dword m th % 2 ^ 4
    dword = get_dword-set_hdr_rmac-some m th b rmac rb

    hlen : get_hdr_hlen (set_hdr_rmac m th (some rmac)) th ≡ rmac_hlen (bstr_len rmac)
    hlen = rw get_hdr_hlen_lem (omega (arith, dword, rmac_hlen-lt (bstr_len rmac) h))
