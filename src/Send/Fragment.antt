-- ===== src/Send/Fragment.antt =====
-- The header and the fragment dword that `cw_send_msg` of src/cw/send.c gives a packet, and what it
-- takes for a packet to be a fragment of a message.
use actube.Base.{
  ℕ, ◌+◌, ◌*◌, ◌/◌, ◌%◌, ◌^◌, ◌≤◌, ◌<◌, ◌≡◌, ◌≢◌, refl, ap₂, ◌∙◌, ◌⊎◌, inl, inr, arith, Mem, true,
  List, [], ◌∷◌, bit_and, bit_or, IsBytes, get_dword, memcpy, get_dword_ext, get_dword-set_dword,
  set_dword_outside, memcpy_outside, bit_or_field, bit_and_mask,
}
use actube.Header.{get_hdr_msg_offset, get_hdr_flag}
use actube.Header.Fields.{get_hdr_hlen_lem, get_hdr_flag_f}
use actube.Fragman.Order.{Carries}
use actube.Fragman.{frag_dst}
use actube.Send.{Packet, put_frag_dword}

-- A buffer with a transport header of `hlen` bytes that is not marked as the last fragment.
pub record HasHeader (buf : Mem) (hlen : ℕ) : Type 0 where
  pub bytes : IsBytes buf
  pub offset : get_dword buf 0 / 2 ^ 19 % 2 ^ 5 * 4 ≡ hlen
  pub l_clear : get_dword buf 0 / 2 ^ 6 % 2 ≡ 0
  pub room : 8 ≤ hlen
  pub version : get_dword buf 0 / 2 ^ 24 ≡ 0
  pub mac : (get_dword buf 0 / 2 ^ 4 % 2 ≡ 0) ⊎ ((8 < hlen) × (buf 8 + 8 ≤ hlen))

-- A packet that carries `len` bytes of the message from byte `n` on, marked as a fragment.
pub record IsFragment (fragid n len : ℕ) (msg : Mem) (p : Packet) : Type 0 where
  pub carries : Carries fragid n len msg p.bytes (get_hdr_msg_offset p.bytes 0)
  pub whole : p.len ≡ get_hdr_msg_offset p.bytes 0 + len
  pub marked : get_hdr_flag 0x80 p.bytes 0 ≡ true
  pub room : 8 ≤ get_hdr_msg_offset p.bytes 0
  pub version : get_dword p.bytes 0 / 2 ^ 24 ≡ 0
  pub mac : (get_dword p.bytes 0 / 2 ^ 4 % 2 ≡ 0) ⊎ (p.bytes 8 + 8 ≤ get_hdr_msg_offset p.bytes 0)

-- The packets carry the message from byte `n` to its end `total`, and only the last has the L flag.
pub data Fragments (fragid total : ℕ) (msg : Mem) : ℕ → List Packet → Type 0 where
  last :
      {n : ℕ} (len : ℕ) (p : Packet)
      → IsFragment fragid n len msg p
      → bit_and (get_dword p.bytes 0) 0x40 ≢ 0
      → n + len ≡ total
      → Fragments fragid total msg n (p ∷ [])
  more :
      {n : ℕ} (len : ℕ) (p : Packet) (ps : List Packet)
      → IsFragment fragid n len msg p
      → bit_and (get_dword p.bytes 0) 0x40 ≡ 0
      → Fragments fragid total msg (n + len) ps
      → Fragments fragid total msg n (p ∷ ps)

frag_dword :
    (fragid fragoffset : ℕ)
    → fragoffset < 2 ^ 13
    → bit_or (fragid * 2 ^ 16) (fragoffset * 2 ^ 3) ≡ fragid * 2 ^ 16 + fragoffset * 2 ^ 3
frag_dword fragid fo h = ap₂ bit_or (omega arith) (omega arith) ∙ fields ∙ omega arith
  where
    fields :
        bit_or ((fragid * 2 ^ 16 + 0) * 2 ^ 0 + 0) ((0 * 2 ^ 16 + fo * 2 ^ 3) * 2 ^ 0 + 0)
        ≡ (fragid * 2 ^ 16 + fo * 2 ^ 3) * 2 ^ 0 + 0
    fields = bit_or_field 16 0 fragid (fo * 2 ^ 3) 0 (omega arith) (omega arith)

module _ (b : Mem) (fragid fo : ℕ) (id_fits : fragid < 2 ^ 16) (fo_fits : fo < 2 ^ 13) where
  pub get_dword_four : get_dword (put_frag_dword b fragid fo) 4 ≡ fragid * 2 ^ 16 + fo * 2 ^ 3
  unfolding put_frag_dword
  get_dword_four = rw (get_dword-set_dword, frag_dword fragid fo fo_fits) (omega arith)

  pub frag_dst_put : frag_dst (put_frag_dword b fragid fo) ≡ fo * 8
  frag_dst_put =
      rw (get_dword_four, bit_and_mask 13 ((fragid * 2 ^ 16 + fo * 2 ^ 3) / 2 ^ 3)) (omega arith)

pub put_outside :
    (b : Mem) (fragid fo i : ℕ) → (i < 4) ⊎ (8 ≤ i) → put_frag_dword b fragid fo i ≡ b i
unfolding put_frag_dword
put_outside b fragid fo i h = set_dword_outside b 4 _ i h

pub get_dword_zero :
    (b : Mem) (fragid fo : ℕ) → get_dword (put_frag_dword b fragid fo) 0 ≡ get_dword b 0
get_dword_zero b fragid fo =
    get_dword_ext _ b 0 (λ i lo hi. put_outside b fragid fo i (inl (omega arith)))

-- The payload behind a header of at least eight bytes leaves the first two dwords alone.
pub payload_keeps_header :
    (buf msg : Mem) (hlen s n : ℕ)
    → 8 ≤ hlen
    → get_dword (memcpy buf hlen msg s n) 0 ≡ get_dword buf 0
payload_keeps_header buf msg hlen s n h =
    get_dword_ext _ buf 0 (λ i lo hi. memcpy_outside buf hlen msg s n i (inl (omega arith)))

module _ (fragid fo total : ℕ) (msg : Mem) (id_fits : fragid < 2 ^ 16) (fits : total ≤ 65536) where
  -- A packet made from a header, a payload of `avail` copied bytes, of which `len` count, and the
  -- fragment dword.
  pub packet-IsFragment :
      (b : Mem) (hlen avail len plen : ℕ)
      → plen ≡ len + hlen
      → get_dword b 0 / 2 ^ 19 % 2 ^ 5 * 4 ≡ hlen
      → get_dword b 0 / 2 ^ 7 % 2 ≡ 1
      → 8 ≤ hlen
      → len ≤ avail
      → 0 < len
      → fo * 8 + len ≤ total
      → ((j : ℕ) → j < avail → b (hlen + j) ≡ msg (fo * 8 + j))
      → get_dword b 0 / 2 ^ 24 ≡ 0
      → (get_dword b 0 / 2 ^ 4 % 2 ≡ 0) ⊎ (b 8 + 8 ≤ hlen)
      → IsFragment fragid
          (fo * 8)
          len
          msg
          (record { bytes = put_frag_dword b fragid fo; len = plen })
  packet-IsFragment b hlen avail len plen whole off f room le pos in_msg payload version mac =
      record {
        carries = record {
          id = omega (arith, get_dword_four b fragid fo id_fits (omega arith));
          dst = frag_dst_put b fragid fo id_fits (omega arith);
          payload = λ j h.
              rw at_offset
                (put_outside b fragid fo (hlen + j) (inr (omega arith)) ∙ payload j (omega arith));
          fits = omega arith;
        };
        whole = rw at_offset (omega arith);
        marked =
            rw (get_hdr_flag_f (put_frag_dword b fragid fo) 0, get_dword_zero b fragid fo, f) refl;
        room = rw at_offset room;
        version = rw (get_dword_zero b fragid fo) version;
        mac =
            rw (get_dword_zero b fragid fo, at_offset)
              (omega (arith, put_outside b fragid fo 8 (inr (omega arith))));
      }
    where
      at_offset : get_hdr_msg_offset (put_frag_dword b fragid fo) 0 ≡ hlen
      at_offset =
          rw (get_hdr_hlen_lem (put_frag_dword b fragid fo) 0, get_dword_zero b fragid fo)
            (omega arith)
