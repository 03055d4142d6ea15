-- ===== src/Conn/Packet/Verdict.antt =====
-- Which packets `conn_process_packet2` of src/cw/conn.c takes, and what it does with them.
use mathlib.Core.Bool.{false≢true}
use actube.Base.{
  ℕ, ◌+◌, ◌-◌, ◌≤◌, ◌<◌, ◌≡◌, ◌≢◌, refl, ◌⊎◌, inl, inr, arith, Mem, Bool, true, false, List,
  Bool-cases, ltb, ◌==◌, bit_and, not, ◌&&◌,
}
use actube.Header.{get_hdr_msg_offset, get_hdr_flag, get_hdr_rmac_len, flag_hdr_m, flag_hdr_f}
use actube.Fragman.{
  Frag, Realloc, AddResult, complete, incomplete, no_memory, overflow, fragman_add,
}
use actube.Conn.Packet.{
  Discard, too_short, wrong_version, encrypted, header_too_long, wrong_rmac, fragment_kept, Action,
  discard, message, fault, add_action, process_fragment, process_packet,
}

-- Long enough, CAPWAP version 0, not encrypted, with its header inside the packet and the radio MAC,
-- if there is one, inside the header.
pub record Accepts (packet : Mem) (len : ℕ) : Type 0 where
  pub long_enough : 8 ≤ len
  pub version : bit_and (packet 0) 0xf0 ≡ 0
  pub plain : bit_and (packet 0) 0xf ≡ 0
  pub header_fits : get_hdr_msg_offset packet 0 ≤ len
  pub mac_fits :
      (get_hdr_flag flag_hdr_m packet 0 ≡ false)
      ⊎ (get_hdr_rmac_len packet 0 + 8 ≤ get_hdr_msg_offset packet 0)

-- Why a packet is not acceptable.
pub data Reason (packet : Mem) (len : ℕ) : Discard → Type 0 where
  short : len < 8 → Reason packet len too_short
  other_version : bit_and (packet 0) 0xf0 ≢ 0 → Reason packet len wrong_version
  dtls : bit_and (packet 0) 0xf ≢ 0 → Reason packet len encrypted
  long_header : len < get_hdr_msg_offset packet 0 → Reason packet len header_too_long
  long_mac :
      get_hdr_flag flag_hdr_m packet 0 ≡ true
      → get_hdr_msg_offset packet 0 < get_hdr_rmac_len packet 0 + 8
      → Reason packet len wrong_rmac

-- What becomes of a fragment, by the answer of the fragment manager.
pub data Assembled : AddResult → Action → Type 0 where
  whole : (n : ℕ) (out : Mem) → Assembled (complete n out) (message out n)
  waiting : Assembled incomplete (discard fragment_kept)
  no_slot : Assembled no_memory (discard fragment_kept)
  broken : Assembled overflow fault

add_action-Assembled : (r : AddResult) → Assembled r (add_action r)
unfolding add_action
add_action-Assembled (complete n out) = whole n out
add_action-Assembled incomplete = waiting
add_action-Assembled no_memory = no_slot
add_action-Assembled overflow = broken

pub data Verdict (realloc : Realloc) (now : ℕ) (frags : List Frag) (packet : Mem) (len : ℕ)
    : List Frag × Action → Type 0 where
  dropped :
      {d : Discard} → Reason packet len d → Verdict realloc now frags packet len (frags, discard d)
  unfragmented :
      Accepts packet len
      → get_hdr_flag flag_hdr_f packet 0 ≡ false
      → Verdict realloc now frags packet len (frags, message packet len)
  fragment :
      {frags' : List Frag} {r : AddResult} {action : Action}
      → Accepts packet len
      → get_hdr_flag flag_hdr_f packet 0 ≡ true
      → fragman_add realloc now frags packet
          (get_hdr_msg_offset packet 0)
          (len - get_hdr_msg_offset packet 0)
        ≡ (frags', r)
      → Assembled r action
      → Verdict realloc now frags packet len (frags', action)

not_zero : (n : ℕ) → not (n == 0) ≡ true → n ≢ 0
not_zero n h e = absurd (ground (arith, h, e))

is_zero : (n : ℕ) → not (n == 0) ≡ false → n ≡ 0
is_zero n h = ground (arith, h)

below : (a b : ℕ) → ltb a b ≡ true → a < b
below a b h = ground (arith, h)

not_below : (a b : ℕ) → ltb a b ≡ false → b ≤ a
not_below a b h = ground (arith, h)

mac_refused : (m : Bool) (offs need : ℕ) → (m && ltb offs need) ≡ true → (m ≡ true) × (offs < need)
mac_refused true offs need h = (refl, below offs need h)
mac_refused false offs need h = absurd (false≢true h)

mac_taken : (m : Bool) (offs need : ℕ) → (m && ltb offs need) ≡ false → (m ≡ false) ⊎ (need ≤ offs)
mac_taken true offs need h = inr (not_below offs need h)
mac_taken false offs need h = inl refl

-- `conn_process_packet2` does one of three things with a packet. It drops it, and leaves the fragments
-- as they are, for a reason that holds: it is shorter than 8 bytes, of another version, encrypted, has
-- a header that is longer than the packet, or a radio MAC that is longer than the header. It hands a
-- packet that is acceptable and no fragment to `process_message` as it is. And of an acceptable
-- fragment it gives the payload, behind its header, to the fragment manager: a message that this
-- completes is handed on with its length, and the packet counts as dropped when the message is not
-- complete or the manager has no place for it.
pub process_packet-Verdict :
    (realloc : Realloc) (now : ℕ) (frags : List Frag) (packet : Mem) (len : ℕ)
    → Verdict realloc now frags packet len (process_packet realloc now frags packet len)
unfolding process_packet process_fragment
process_packet-Verdict realloc now frags packet len =
    let offs = get_hdr_msg_offset packet 0 in
    let need = get_hdr_rmac_len packet 0 + 8 in
    let m = get_hdr_flag flag_hdr_m packet 0 in
    elim (Bool-cases (ltb len 8)) [
      | inl a ↦ rw a (dropped (short (below len 8 a)))
      | inr a ↦ elim (Bool-cases (not (bit_and (packet 0) 0xf0 == 0))) [
        | inl b ↦ rw (a, b) (dropped (other_version (not_zero (bit_and (packet 0) 0xf0) b)))
        | inr b ↦ elim (Bool-cases (not (bit_and (packet 0) 0xf == 0))) [
          | inl c ↦ rw (a, b, c) (dropped (dtls (not_zero (bit_and (packet 0) 0xf) c)))
          | inr c ↦ elim (Bool-cases (ltb len offs)) [
            | inl d ↦ rw (a, b, c, d) (dropped (long_header (below len offs d)))
            | inr d ↦ elim (Bool-cases (m && ltb offs need)) [
              | inl e ↦
                  let (has, longer) = mac_refused m offs need e in
                  rw (a, b, c, d, e) (dropped (long_mac has longer))
              | inr e ↦
                  let ok : Accepts packet len = record {
                    long_enough = not_below len 8 a;
                    version = is_zero (bit_and (packet 0) 0xf0) b;
                    plain = is_zero (bit_and (packet 0) 0xf) c;
                    header_fits = not_below len offs d;
                    mac_fits = mac_taken m offs need e;
                  } in
                  elim (Bool-cases (get_hdr_flag flag_hdr_f packet 0)) [
                    | inl f ↦
                        rw (a, b, c, d, e, f)
                          (fragment ok f refl (
                            add_action-Assembled
                              (fragman_add realloc now frags packet offs (len - offs)).1))
                    | inr f ↦ rw (a, b, c, d, e, f) (unfragmented ok f)
                  ]
            ]
          ]
        ]
      ]
    ]
