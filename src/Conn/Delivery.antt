-- ===== src/Conn/Delivery.antt =====
-- Sender and receiver together: the fragments that `cw_send_msg` writes, received in order by
-- `conn_process_packet2`.
use actube.Base.{
  ℕ, suc, ◌+◌, ◌<◌, ◌≡◌, refl, inl, inr, ap, ◌∙◌, arith, Mem, Bool, true, false, List, [], ◌∷◌,
  ◌++◌, length, replicate, ltb, ◌&&◌, zero-bit_and, get_dword, le→ltb, IsBytes, none,
}
use actube.Header.{get_hdr_msg_offset, get_hdr_flag, get_hdr_rmac_len}
use actube.Header.Fields.{get_hdr_flag_m}
use actube.Fragman.{frag_get, Frag, Realloc, complete, incomplete, fragman_add}
use actube.Fragman.Slots.{Succeeds, HasRoom}
use actube.Fragman.Order.{Ready, fragman_add_middle, fragman_add_last}
use actube.Send.{Packet, Sender, Sent, send_msg}
use actube.Send.Start.{CanFragment, msg_total, send_msg-Fragments}
use actube.Send.Fragment.{IsFragment, Fragments, last, more}
use actube.Conn.Packet.{
  Action, discard, message, fragment_kept, process_fragment, process_packet, add_action,
}

-- The packets in the order of their arrival, the k-th at the time `clock k`.
pub receive : Realloc → (ℕ → ℕ) → ℕ → List Frag → List Packet → List Frag × List Action
receive realloc clock k frags [] = (frags, [])
receive realloc clock k frags (p ∷ ps) =
    let (frags', a) = process_packet realloc (clock k) frags p.bytes p.len in
    let (frags'', actions) = receive realloc clock (suc k) frags' ps in (frags'', a ∷ actions)

module _ (realloc : Realloc) (now : ℕ) (frags : List Frag) {fragid n len : ℕ} {msg : Mem}
    (p : Packet) (f : IsFragment fragid n len msg p) where
  preamble_zero : p.bytes 0 ≡ 0
  preamble_zero = unfold get_dword in omega (arith, f.version)

  mac_fits :
      (get_hdr_flag 0x10 p.bytes 0
        && ltb (get_hdr_msg_offset p.bytes 0) (get_hdr_rmac_len p.bytes 0 + 8))
      ≡ false
  mac_fits = ground (arith, get_hdr_flag_m p.bytes 0, f.mac)

  enters_fragman :
      process_packet realloc now frags p.bytes p.len
      ≡ process_fragment realloc now frags p.bytes (get_hdr_msg_offset p.bytes 0) len
  unfolding process_packet
  enters_fragman =
      rw
        (
          preamble_zero,
          le→ltb p.len 8 (omega (arith, f.whole, f.room)),
          zero-bit_and 0xf0,
          zero-bit_and 0xf,
          le→ltb p.len (get_hdr_msg_offset p.bytes 0) (omega (arith, f.whole)),
          mac_fits,
          f.marked,
        )
        (ap (process_fragment realloc now frags p.bytes (get_hdr_msg_offset p.bytes 0))
          (omega (arith, f.whole)))

module _ (realloc : Realloc) (now : ℕ) (frags frags' : List Frag) {fragid n len : ℕ} {msg : Mem}
    (p : Packet) (f : IsFragment fragid n len msg p) where
  keeps :
      fragman_add realloc now frags p.bytes (get_hdr_msg_offset p.bytes 0) len
        ≡ (frags', incomplete)
      → process_packet realloc now frags p.bytes p.len ≡ (frags', discard fragment_kept)
  keeps e = enters_fragman realloc now frags p f ∙ unfold process_fragment add_action in rw e refl

  hands_out :
      (out : Mem)
      → fragman_add realloc now frags p.bytes (get_hdr_msg_offset p.bytes 0) len
        ≡ (frags', complete (n + len) out)
      → process_packet realloc now frags p.bytes p.len ≡ (frags', message out (n + len))
  hands_out out e =
      enters_fragman realloc now frags p f ∙ unfold process_fragment add_action in rw e refl

-- The outcome of a whole train of packets: every packet but the last is kept, and the last one
-- hands out the message.
pub record Reassembled (total : ℕ) (msg : Mem) (packets : ℕ) (out : List Frag × List Action)
    : Type 0 where
  pub kept : ℕ
  pub buffer : Mem
  pub count : suc kept ≡ packets
  pub actions : out.1 ≡ replicate kept (discard fragment_kept) ++ message buffer total ∷ []
  pub same : (j : ℕ) → j < total → buffer j ≡ msg j

module _ (realloc : Realloc) (ok : Succeeds realloc) (clock : ℕ → ℕ) (fragid total : ℕ) (msg : Mem)
    (some_bytes : 0 < total) where
  kept_first :
      (packets : ℕ) (fs : List Frag) (actions : List Action)
      → Reassembled total msg packets (fs, actions)
      → Reassembled total msg (suc packets) (fs, discard fragment_kept ∷ actions)
  kept_first packets fs actions r = record {
    kept = suc r.kept;
    buffer = r.buffer;
    count = ap suc r.count;
    actions = ap (◌∷◌ (discard fragment_kept)) r.actions;
    same = r.same;
  }

  pub receive-Fragments :
      {n : ℕ} (k : ℕ) (frags : List Frag) (ps : List Packet)
      → Fragments fragid total msg n ps
      → Ready fragid n msg (clock k) frags
      → Reassembled total msg (length ps) (receive realloc clock k frags ps)
  unfolding receive
  receive-Fragments k frags _ (last len p f l e) ready =
      let (frags', out, added, same) =
        fragman_add_last realloc (clock k) (get_hdr_msg_offset p.bytes 0) p.bytes frags ok f.carries
          ready l (omega arith) in
      rw (hands_out realloc (clock k) frags frags' p f out added) (record {
        kept = 0;
        buffer = out;
        count = refl;
        actions = ap (λ (t : ℕ). message out t ∷ []) e;
        same = λ j h. same j (omega arith);
      })
  receive-Fragments k frags _ (more len p ps f l rest) ready =
      let (frags', added, state) =
        fragman_add_middle realloc (clock k) (get_hdr_msg_offset p.bytes 0) p.bytes frags ok
          f.carries ready l in
      rw (keeps realloc (clock k) frags frags' p f added)
        (kept_first (length ps) _ _ (receive-Fragments (suc k) frags' ps rest (inl state)))

-- A control message that needs fragments, of at most 65536 bytes, is sent by a connection whose MTU
-- and header length are multiples of 8, whose MTU is above the header and within the send buffer,
-- and whose writes all succeed. Then `cw_send_msg` returns, and a receiver with memory and a free
-- slot, which holds no fragments under this id, keeps every packet but the last, and on the last one
-- hands out a message of the same length and the same bytes.
pub receive-send_msg :
    (realloc : Realloc) (clock : ℕ → ℕ) (frags : List Frag) (write : ℕ → Bool) (stack : Mem)
    (conn : Sender) (msg : Mem)
    → ((k : ℕ) → write k ≡ true)
    → Succeeds realloc
    → IsBytes stack
    → CanFragment conn msg
    → frag_get frags conn.fragid ≡ none
    → HasRoom (clock 0) frags
    → (ps : List Packet) × (send_msg write stack conn msg ≡ Sent.done ps)
      × Reassembled (msg_total msg) msg (length ps) (receive realloc clock 0 frags ps)
receive-send_msg realloc clock frags write stack conn msg writes ok sb c absent room =
    let (ps, sent, fragments) = send_msg-Fragments write stack conn msg writes sb c in
    (
      ps,
      sent,
      receive-Fragments realloc ok clock conn.fragid (msg_total msg) msg (omega arith) 0 frags ps
          fragments (inr (refl, absent, room)),
    )
