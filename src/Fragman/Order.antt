-- ===== src/Fragman/Order.antt =====
-- Fragments that arrive in order: each is kept, and the last one completes the message.
use actube.Base.{
  ℕ, ◌+◌, ◌-◌, ◌/◌, ◌^◌, ◌≤◌, ◌<◌, ◌≡◌, ◌≢◌, sym, refl, ◌⊎◌, inl, inr, arith, Mem, none, some, List,
  ◌∙◌, bit_and, get_dword, memcpy, from, set,
}
use actube.Fragman.{
  Frag, Realloc, complete, incomplete, Slot, frag_get, frag_dst, frag_copy, copy_payload, frag_last,
  finish, hand_out, find_or_new, add_to_slot, fragman_add,
}
use actube.Fragman.Slots.{HasRoom, Succeeds, IsFresh, frag_new-IsFresh, frag_get-set}

-- The first `n` bytes of `msg` have arrived under `fragid`, and the last fragment has not.
pub record Receiving (fragid n : ℕ) (msg : Mem) (frags : List Frag) : Type 0 where
  pub index : ℕ
  pub frame : Frag
  pub memory : Mem
  pub found : frag_get frags fragid ≡ some (index, frame)
  pub has_memory : frame.buffer ≡ some memory
  pub has_id : frame.fragid ≡ fragid
  pub received : frame.bytesreceived ≡ n
  pub needed : frame.bytesneeded ≡ 0
  pub content : (j : ℕ) → j < n → memory (4 + j) ≡ msg j

-- The packet carries `len` bytes of `msg` from `n` on, `hlen` bytes behind its start.
pub record Carries (fragid n len : ℕ) (msg packet : Mem) (hlen : ℕ) : Type 0 where
  pub id : get_dword packet 4 / 2 ^ 16 ≡ fragid
  pub dst : frag_dst packet ≡ n
  pub payload : (j : ℕ) → j < len → packet (hlen + j) ≡ msg (n + j)
  pub fits : n + len ≤ 65536

module _ {fragid n len : ℕ} {msg packet : Mem} {hlen : ℕ} (c : Carries fragid n len msg packet hlen)
    {frags : List Frag} (r : Receiving fragid n msg frags) where
  abbrev grown : Mem
  grown = memcpy r.memory (4 + n) packet hlen len

  grown_content : (j : ℕ) → j < n + len → grown (4 + j) ≡ msg j
  unfolding memcpy
  grown_content j h = ground (arith, c.payload (j - n), r.content j)

  abbrev kept : Frag
  kept = record r.frame { buffer = some grown; bytesreceived = n + len }

  copies : frag_copy r.frame packet hlen len ≡ some kept
  unfolding frag_copy copy_payload
  copies = ground (arith, c.dst, c.fits, r.has_memory, r.received)

  middle_steps :
      bit_and (get_dword packet 0) 0x40 ≡ 0
      → add_to_slot packet hlen len (frags, some (r.index, r.frame))
        ≡ (set frags r.index kept, incomplete)
  unfolding add_to_slot
  middle_steps l = rw (add_to_slot, copies) (unfold frag_last finish in ground (arith, r.needed))

  last_steps :
      bit_and (get_dword packet 0) 0x40 ≢ 0
      → 0 < n + len
      → add_to_slot packet hlen len (frags, some (r.index, r.frame)) ≡ (
        set frags r.index (record kept { bytesneeded = n + len; buffer = none }),
        complete (n + len) (from grown 4),
      )
  unfolding add_to_slot
  last_steps l h =
      rw (add_to_slot, copies) (unfold frag_last finish hand_out in ground (arith, c.dst))

  middle-Receiving : Receiving fragid (n + len) msg (set frags r.index kept)
  middle-Receiving = record {
    index = r.index;
    frame = kept;
    memory = grown;
    found = frag_get-set frags fragid r.index r.frame kept grown r.found r.has_id refl;
    has_memory = refl;
    has_id = r.has_id;
    received = refl;
    needed = r.needed;
    content = grown_content;
  }

-- Where a fragment of the message may arrive: its predecessors are held, or it is the first one and
-- the array has a place for it.
abbrev pub Ready : ℕ → ℕ → Mem → ℕ → List Frag → Type 0
Ready fragid n msg now frags =
    Receiving fragid n msg frags ⊎ ((n ≡ 0) × (frag_get frags fragid ≡ none) × HasRoom now frags)

-- The slot that the rest of `fragman_add` works on.
record Placed (fragid n : ℕ) (msg : Mem) (out : List Frag × Slot) : Type 0 where
  frags : List Frag
  state : Receiving fragid n msg frags
  placed : out ≡ (frags, some (state.index, state.frame))

fresh-Placed :
    {fragid n : ℕ} (msg : Mem) (out : List Frag × Slot)
    → n ≡ 0
    → IsFresh fragid out
    → Placed fragid n msg out
fresh-Placed {fragid} {n} msg (fs, s) zero f = record {
  frags = fs;
  state = state;
  placed = ground (arith, f.returned);
}
  where
    state : Receiving fragid n msg fs
    state = record {
      index = f.index;
      frame = f.frame;
      memory = f.memory;
      found = f.found;
      has_memory = f.has_memory;
      has_id = f.has_id;
      received = f.nothing_received ∙ sym zero;
      needed = f.nothing_needed;
      content = λ j h. absurd (omega arith);
    }

Ready-Placed :
    (realloc : Realloc) (now fragid n : ℕ) (msg : Mem) (frags : List Frag)
    → Succeeds realloc
    → Ready fragid n msg now frags
    → Placed fragid n msg (find_or_new realloc now frags fragid (frag_get frags fragid))
unfolding find_or_new
Ready-Placed realloc now fragid n msg frags ok (inl r) = record {
  frags = frags;
  state = r;
  placed = rw (r.found, find_or_new);
}
Ready-Placed realloc now fragid n msg frags ok (inr (zero, absent, room)) =
    rw (absent, find_or_new)
      (fresh-Placed msg _ zero (frag_new-IsFresh realloc now fragid frags ok absent room))

module _ (realloc : Realloc) (now hlen : ℕ) {fragid n len : ℕ} {msg : Mem} (packet : Mem)
    (frags : List Frag) (ok : Succeeds realloc) (c : Carries fragid n len msg packet hlen)
    (ready : Ready fragid n msg now frags) where
  place : Placed fragid n msg (find_or_new realloc now frags fragid (frag_get frags fragid))
  place = Ready-Placed realloc now fragid n msg frags ok ready

  adds :
      fragman_add realloc now frags packet hlen len
      ≡ add_to_slot packet hlen len (place.frags, some (place.state.index, place.state.frame))
  unfolding fragman_add
  adds = rw (c.id, place.placed)

  -- A fragment in order without the L flag is kept: the manager answers that it waits for more.
  pub fragman_add_middle :
      bit_and (get_dword packet 0) 0x40 ≡ 0
      → (frags' : List Frag) × (fragman_add realloc now frags packet hlen len
          ≡ (frags', incomplete))
        × Receiving fragid (n + len) msg frags'
  fragman_add_middle l = (_, adds ∙ middle_steps c place.state l, middle-Receiving c place.state)

  -- A fragment in order with the L flag completes the message.
  pub fragman_add_last :
      bit_and (get_dword packet 0) 0x40 ≢ 0
      → 0 < n + len
      → (frags' : List Frag) × (out : Mem) × (fragman_add realloc now frags packet hlen len
          ≡ (frags', complete (n + len) out))
        × ((j : ℕ) → j < n + len → out j ≡ msg j)
  fragman_add_last l h = (_, _, adds ∙ last_steps c place.state l h, grown_content c place.state)
