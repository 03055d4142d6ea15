-- ===== src/Send/Start.antt =====
-- `cw_send_msg` as a whole: the header of the first fragment, and the loop from there.
use actube.Base.{
  ℕ, ◌+◌, ◌*◌, ◌/◌, ◌%◌, ◌^◌, ◌≤◌, ◌<◌, ◌≡◌, refl, ap, ◌∙◌, ◌⊎◌, inl, inr, arith, Mem, Bool, true,
  List, some, none, IsBytes, get_dword, set_dword, set_dword-IsBytes, set_byte-IsBytes, bit_and,
  bit_and_clear,
}
use actube.Header.{
  Bstr, bstr_len, rmac_hlen, set_hdr_preamble, set_hdr_rmac, set_hdr_wbid, set_hdr_rid,
  get_hdr_hlen, get_msg_elems_field,
}
use actube.Header.Dword.{get_dword-set_hdr_wbid, get_dword-set_hdr_rid}
use actube.Header.Fields.{
  get_hdr_hlen_lem, set_hdr_wbid-IsBytes, set_hdr_rid-IsBytes, set_hdr_wbid_outside,
  set_hdr_rid_outside,
}
use actube.Header.Rmac.{
  get_dword-set_hdr_rmac-none, get_dword-set_hdr_rmac-some, set_hdr_rmac-none-IsBytes,
  set_hdr_rmac-some-IsBytes, set_hdr_rmac-some_at, rmac_hlen-lt,
}
use actube.Send.Fragment.{HasHeader, Fragments}
use actube.Send.Loop.{send_loop-Fragments}
use actube.Send.{Sender, Sent, Packet, max_mtu, first_header, aligned_mtu, send_msg, send_loop}

-- A radio MAC that HLEN can count, and that is there.
abbrev pub IsMac : Bstr → Type 0
IsMac none = Unit {0}
IsMac (some rmac) = IsBytes rmac × (0 < bstr_len rmac) × (bstr_len rmac ≤ 116)

-- The length of the header that `cw_set_hdr_rmac` announces.
abbrev pub header_len : Bstr → ℕ
header_len none = 8
header_len (some rmac) = rmac_hlen (bstr_len rmac) * 4

abbrev blank : Mem → Mem
blank stack = set_hdr_preamble (set_dword (set_dword stack 0 0) 4 0) 0 0

blank_dword : (stack : Mem) → get_dword (blank stack) 0 ≡ 0
unfolding set_hdr_preamble set_dword get_dword
blank_dword stack = refl

blank-IsBytes : (stack : Mem) → IsBytes stack → IsBytes (blank stack)
unfolding set_hdr_preamble
blank-IsBytes stack b =
    set_byte-IsBytes _ 0 0 (set_dword-IsBytes _ 4 0 (set_dword-IsBytes stack 0 0 b))

-- The binding id and the radio id go on top of a header with its MAC.
module _ (m : Mem) (wbid hlen : ℕ) (b : IsBytes m) where
  abbrev ids : Mem
  ids = set_hdr_rid (set_hdr_wbid m 0 wbid) 0 0

  wbid-IsBytes : IsBytes (set_hdr_wbid m 0 wbid)
  wbid-IsBytes = set_hdr_wbid-IsBytes m 0 wbid b

  ids-HasHeader :
      get_dword m 0 / 2 ^ 19 % 2 ^ 5 * 4 ≡ hlen
      → get_dword m 0 / 2 ^ 6 % 2 ≡ 0
      → 8 ≤ hlen
      → get_dword m 0 / 2 ^ 24 ≡ 0
      → (get_dword m 0 / 2 ^ 4 % 2 ≡ 0) ⊎ ((8 < hlen) × (m 8 + 8 ≤ hlen))
      → HasHeader ids hlen
  ids-HasHeader off l room version mac = record {
    bytes = set_hdr_rid-IsBytes _ 0 0 wbid-IsBytes;
    offset = omega (arith, rid_dword, wbid_dword);
    l_clear = omega (arith, rid_dword, wbid_dword);
    room = room;
    version = omega (arith, rid_dword, wbid_dword);
    mac = omega (
      arith,
      rid_dword,
      wbid_dword,
      set_hdr_rid_outside (set_hdr_wbid m 0 wbid) 0 0 8 (inr (omega arith)),
      set_hdr_wbid_outside m 0 wbid 8 (inr (omega arith)),
    );
  }
    where
      wbid_dword :
          get_dword (set_hdr_wbid m 0 wbid) 0
          ≡ (get_dword m 0 / 2 ^ 14 * 2 ^ 5 + wbid % 2 ^ 5) * 2 ^ 9 + get_dword m 0 % 2 ^ 9
      wbid_dword = get_dword-set_hdr_wbid m 0 wbid b

      rid_dword :
          get_dword ids 0
          ≡ (get_dword (set_hdr_wbid m 0 wbid) 0 / 2 ^ 19 * 2 ^ 5 + 0) * 2 ^ 14
            + get_dword (set_hdr_wbid m 0 wbid) 0 % 2 ^ 14
      rid_dword = get_dword-set_hdr_rid (set_hdr_wbid m 0 wbid) 0 0 wbid-IsBytes

rmac_covers : (n : ℕ) → (12 ≤ rmac_hlen n * 4) ⊎ (n ≡ 0)
unfolding rmac_hlen
rmac_covers n = ground arith

pub rmac_len_covered : (n : ℕ) → 8 + n ≤ rmac_hlen n * 4
unfolding rmac_hlen
rmac_len_covered n = ground arith

with_mac :
    (m : Mem) (rmac : Bstr) (wbid : ℕ)
    → IsBytes m
    → get_dword m 0 ≡ 0
    → IsMac rmac
    → HasHeader (set_hdr_rid (set_hdr_wbid (set_hdr_rmac m 0 rmac) 0 wbid) 0 0) (header_len rmac)
with_mac m none wbid b z ok =
    ids-HasHeader _ wbid 8 (set_hdr_rmac-none-IsBytes m 0 b)
      (omega (arith, z, get_dword-set_hdr_rmac-none m 0 b))
      (omega (arith, z, get_dword-set_hdr_rmac-none m 0 b)) (omega arith)
      (omega (arith, z, get_dword-set_hdr_rmac-none m 0 b))
      (inl (omega (arith, z, get_dword-set_hdr_rmac-none m 0 b)))
with_mac m (some rmac) wbid b z (rb, there, short) =
    ids-HasHeader _ wbid (rmac_hlen (bstr_len rmac) * 4) (set_hdr_rmac-some-IsBytes m 0 b rmac rb)
      (omega (arith, z, dword, rmac_hlen-lt (bstr_len rmac) short)) (omega (arith, z, dword))
      (omega (arith, rmac_len_covered (bstr_len rmac))) (omega (arith, z, dword))
      (inr (
        omega (arith, rmac_len_covered (bstr_len rmac)),
        omega (
          arith,
          rmac_len_covered (bstr_len rmac),
          set_hdr_rmac-some_at m 0 b rmac rb 0 (omega arith),
        ),
      ))
  where
    dword :
        get_dword (set_hdr_rmac m 0 (some rmac)) 0
        ≡ (get_dword m 0 / 2 ^ 24 * 2 ^ 5 + rmac_hlen (bstr_len rmac) % 2 ^ 5) * 2 ^ 19
          + (get_dword m 0 / 2 ^ 5 % 2 ^ 14 * 2 + 1) * 2 ^ 4
          + get_dword m 0 % 2 ^ 4
    dword = get_dword-set_hdr_rmac-some m 0 b rmac rb

first_header-HasHeader :
    (stack : Mem) (conn : Sender)
    → IsBytes stack
    → IsMac conn.base_rmac
    → HasHeader (first_header stack conn) (header_len conn.base_rmac)
unfolding first_header
first_header-HasHeader stack conn b ok =
    with_mac (blank stack) conn.base_rmac conn.wbid (blank-IsBytes stack b) (blank_dword stack) ok

pub aligned_mtu_lem : (mtu : ℕ) → mtu < 2 ^ 32 → aligned_mtu mtu ≡ mtu / 4 * 4
aligned_mtu_lem mtu h =
    ap (λ (t : ℕ). bit_and t 0xfffffffc) split
    ∙ bit_and_clear 30 2 0 (mtu / 4) (mtu % 4) 0 (omega arith) (omega arith) (omega arith)
    ∙ omega arith
  where
    split : mtu ≡ (mtu / 4 * 2 ^ 2 + mtu % 4) * 2 ^ 0 + 0
    split = omega arith

-- The bytes of a control message: its header and its elements.
abbrev pub msg_total : Mem → ℕ
msg_total msg = get_msg_elems_field msg 0 + 5

-- What the sender must be like for a message to go out in fragments that fit together.
pub record CanFragment (conn : Sender) (msg : Mem) : Type 0 where
  pub fragid : conn.fragid < 2 ^ 16
  pub mac : IsMac conn.base_rmac
  pub aligned : conn.mtu % 8 ≡ 0
  pub header_aligned : header_len conn.base_rmac % 8 ≡ 0
  pub room : header_len conn.base_rmac < conn.mtu
  pub above_short : 8 < conn.mtu
  pub in_buffer : conn.mtu ≤ max_mtu
  pub bytes : IsBytes msg
  pub fits : msg_total msg ≤ 65536
  pub long : conn.mtu < msg_total msg + header_len conn.base_rmac

starts :
    (write : ℕ → Bool) (stack : Mem) (conn : Sender) (msg : Mem)
    → IsBytes stack
    → CanFragment conn msg
    → send_msg write stack conn msg
      ≡ send_loop write conn.fragid conn.mtu msg
          (msg_total msg + 1)
          0
          (first_header stack conn)
          (msg_total msg)
          0
          (header_len conn.base_rmac)
unfolding send_msg
starts write stack conn msg sb c = rw (mtu_lem, hlen_lem) refl
  where
    mtu_lem : aligned_mtu conn.mtu ≡ conn.mtu
    mtu_lem = omega (arith, aligned_mtu_lem conn.mtu (omega arith))

    hlen_lem : get_hdr_hlen (first_header stack conn) 0 * 4 ≡ header_len conn.base_rmac
    hlen_lem = rw get_hdr_hlen_lem ((first_header-HasHeader stack conn sb c.mac).offset)

-- With every write a success, `cw_send_msg` returns, and its packets carry the message.
pub send_msg-Fragments :
    (write : ℕ → Bool) (stack : Mem) (conn : Sender) (msg : Mem)
    → ((k : ℕ) → write k ≡ true)
    → IsBytes stack
    → CanFragment conn msg
    → (ps : List Packet) × (send_msg write stack conn msg ≡ Sent.done ps)
      × Fragments conn.fragid (msg_total msg) msg 0 ps
send_msg-Fragments write stack conn msg ok sb c = rw (starts write stack conn msg sb c) (
    send_loop-Fragments write ok conn.fragid conn.mtu msg c.fragid c.in_buffer c.aligned
      c.above_short c.bytes (msg_total msg + 1) 0 (first_header stack conn) (msg_total msg) 0
      (header_len conn.base_rmac) (msg_total msg) (first_header-HasHeader stack conn sb c.mac)
      c.room c.header_aligned (omega arith) (omega arith) (omega arith) c.fits
      (inr (omega (arith, c.long))))
