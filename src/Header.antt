-- ===== src/Header.antt =====
-- The CAPWAP transport header and the control message header: the macros of src/cw/cw.h and the
-- functions of src/cw/cw_inline.c. A pointer is a memory and an offset into it. The macros read
-- and write aligned dwords in network byte order; the flags are or-ed in with `htonl(flags)`, which
-- is the same as or-ing the flags into the dword in host order.
pub mod Dword
pub mod Fields
pub mod Rmac
use actube.Base.{
  ℕ, ◌+◌, ◌-◌, ◌*◌, ◌/◌, ◌%◌, ◌^◌, Mem, Bool, true, false, not, Option, none, some, bit_and, bit_or,
  bit_xor, ◌==◌, if◌then◌else◌, set_byte, get_word, set_word, get_dword, set_dword, memcpy,
}

abbrev pub flag_hdr_k : ℕ
flag_hdr_k = 0x08

abbrev pub flag_hdr_m : ℕ
flag_hdr_m = 0x10

abbrev pub flag_hdr_w : ℕ
flag_hdr_w = 0x20

abbrev pub flag_hdr_l : ℕ
flag_hdr_l = 0x40

abbrev pub flag_hdr_f : ℕ
flag_hdr_f = 0x80

abbrev pub flag_hdr_t : ℕ
flag_hdr_t = 0x100

abbrev pub get_hdr_preamble : Mem → ℕ → ℕ
get_hdr_preamble m th = m th

unfoldable pub get_hdr_fragid : Mem → ℕ → ℕ
get_hdr_fragid m th = bit_and (get_dword m (th + 4) / 2 ^ 16) 0xffff

unfoldable pub get_hdr_fragoffset : Mem → ℕ → ℕ
get_hdr_fragoffset m th = bit_and (get_dword m (th + 4) / 2 ^ 3) 0x1fff

unfoldable pub get_hdr_wbid : Mem → ℕ → ℕ
get_hdr_wbid m th = bit_and (get_dword m th / 2 ^ 9) 0x1f

unfoldable pub get_hdr_hlen : Mem → ℕ → ℕ
get_hdr_hlen m th = bit_and (get_dword m th / 2 ^ 19) 0x1f

-- The four bytes as a little-endian host loads them, and the byte swap of `ntohl` on such a host.
unfoldable pub load_le : Mem → ℕ → ℕ
load_le m p = m p + m (p + 1) * 2 ^ 8 + m (p + 2) * 2 ^ 16 + m (p + 3) * 2 ^ 24

unfoldable pub ntohl_le : ℕ → ℕ
ntohl_le x =
    x % 2 ^ 8 * 2 ^ 24
    + x / 2 ^ 8 % 2 ^ 8 * 2 ^ 16
    + x / 2 ^ 16 % 2 ^ 8 * 2 ^ 8
    + x / 2 ^ 24 % 2 ^ 8

-- The shift stands inside the call of `ntohl`.
unfoldable pub get_hdr_rid : Mem → ℕ → ℕ
unfolding load_le ntohl_le
get_hdr_rid m th = bit_and (ntohl_le (load_le m th / 2 ^ 14)) 0x1f

abbrev pub get_hdr_rmac_len : Mem → ℕ → ℕ
get_hdr_rmac_len m th = m (th + 8)

-- `cw_get_hdr_flag_k`, `_m`, `_w`, `_l`, `_f` and `_t`, by the flag.
unfoldable pub get_hdr_flag : ℕ → Mem → ℕ → Bool
get_hdr_flag flag m th = not (bit_and (get_dword m th) flag == 0)

abbrev pub get_hdr_msg_offset : Mem → ℕ → ℕ
get_hdr_msg_offset m th = 4 * get_hdr_hlen m th

unfoldable pub set_hdr_preamble : Mem → ℕ → ℕ → Mem
unfolding set_byte
set_hdr_preamble m th v = set_byte m th v

unfoldable pub set_hdr_hlen : Mem → ℕ → ℕ → Mem
set_hdr_hlen m th hlen =
    let d = bit_and (get_dword m th) (bit_xor (0x1f * 2 ^ 19) 0xffffffff) in
    set_dword m th (bit_or d (bit_and hlen 0x1f * 2 ^ 19))

unfoldable pub set_hdr_wbid : Mem → ℕ → ℕ → Mem
set_hdr_wbid m th wbid =
    let d = bit_and (get_dword m th) (bit_xor (0x1f * 2 ^ 9) 0xffffffff) in
    set_dword m th (bit_or d (bit_and wbid 0x1f * 2 ^ 9))

unfoldable pub set_hdr_rid : Mem → ℕ → ℕ → Mem
set_hdr_rid m th rid =
    let d = bit_and (get_dword m th) (bit_xor (0x1f * 2 ^ 14) 0xffffffff) in
    set_dword m th (bit_or d (bit_and rid 0x1f * 2 ^ 14))

unfoldable pub set_hdr_flags : Mem → ℕ → ℕ → Bool → Mem
set_hdr_flags m th flags true = set_dword m th (bit_or (get_dword m th) flags)
set_hdr_flags m th flags false =
    set_dword m th (bit_and (get_dword m th) (bit_xor 0xffffffff flags))

-- A `bstr_t` is its length in one byte, and then its bytes; `none` is NULL.
abbrev pub Bstr : Type 0
Bstr = Option Mem

abbrev pub bstr_len : Mem → ℕ
bstr_len b = b 0

-- `hlen` in `cw_set_hdr_rmac`.
unfoldable pub rmac_hlen : ℕ → ℕ
rmac_hlen rmac_len = let hlen = 2 + rmac_len / 4 in if rmac_len % 4 == 0 then hlen else hlen + 1

unfoldable pub set_hdr_rmac : Mem → ℕ → Bstr → Mem
set_hdr_rmac m th none = set_hdr_hlen (set_hdr_flags m th flag_hdr_m false) th 2
set_hdr_rmac m th (some rmac) =
    let m1 = memcpy m (th + 8) rmac 0 (bstr_len rmac + 1) in
    let m2 = set_hdr_flags m1 th flag_hdr_m true in set_hdr_hlen m2 th (rmac_hlen (bstr_len rmac))

-- Message header: type, sequence number, length of the elements plus 3, flags.
abbrev pub get_msg_type : Mem → ℕ → ℕ
get_msg_type m msgptr = get_dword m msgptr

unfoldable pub get_msg_seqnum : Mem → ℕ → ℕ
get_msg_seqnum m msgptr = m (msgptr + 4)

-- The field counts three bytes more than the elements; an `int` below zero is cut off at 0 here, and
-- what the code does with a field below 3 is stated with the code that reads it.
abbrev pub get_msg_elems_field : Mem → ℕ → ℕ
get_msg_elems_field m msgptr = get_word m (msgptr + 5)

abbrev pub get_msg_elems_ptr : ℕ → ℕ
get_msg_elems_ptr msgptr = msgptr + 8

unfoldable pub set_msg_type : Mem → ℕ → ℕ → Mem
set_msg_type m msgptr t = set_dword m msgptr t

unfoldable pub set_msg_seqnum : Mem → ℕ → ℕ → Mem
set_msg_seqnum m msgptr s = set_byte m (msgptr + 4) s

unfoldable pub set_msg_elems_len : Mem → ℕ → ℕ → Mem
set_msg_elems_len m msgptr n = set_word m (msgptr + 5) (n + 3)

unfoldable pub set_msg_flags : Mem → ℕ → ℕ → Mem
set_msg_flags m msgptr f = set_byte m (msgptr + 7) f
