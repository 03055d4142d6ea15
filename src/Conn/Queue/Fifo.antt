-- ===== src/Conn/Queue/Fifo.antt =====
-- A ring that is being read: as many packets behind the read position as the semaphore counts, fewer
-- than the ring has slots.
use native.Mathlib.Decide.{dec_lt}
use actube.Base.{
  ℕ, zero, suc, ◌+◌, ◌-◌, ◌≤◌, ◌<◌, ◌≡◌, refl, sym, ap, ◌∙◌, arith, false, Option, none, some, List,
  [], ◌∷◌, ◌++◌, length, length-append, get_elem?, ltb, ◌==◌, if◌then◌else◌, pos,
}
use actube.Conn.Queue.{Queue, update, add_packet, get_packet, wrap, at_pos}

-- The position `k` places behind `r`.
abbrev pub place : ℕ → ℕ → ℕ → ℕ
place qsize r k = if ltb (r + k) qsize then r + k else r + k - qsize

next_place : (qsize r : ℕ) → r < qsize → wrap qsize (r + 1) ≡ place qsize r 1
next_place qsize r h = ground arith

place-in_ring : (qsize r k : ℕ) → r < qsize → k ≤ qsize → place qsize r k < qsize
place-in_ring qsize r k h le = ground arith

place-place :
    (qsize r k : ℕ)
    → r < qsize
    → suc k < qsize
    → place qsize (place qsize r 1) (k + 1) ≡ place qsize r (suc k + 1)
place-place qsize r k h lt = ground arith

module _ {ℓ} {A : Type ℓ} where
  -- The queue holds `items`, oldest first, behind the read position `r`.
  pub record Holds (c : Queue A) (r : ℕ) (items : List A) : Type ℓ where
    pub read_pos : c.qrpos ≡ pos r
    pub in_ring : r < c.qsize
    pub write_pos : wrap c.qsize c.qwpos ≡ place c.qsize r (length items + 1)
    pub counted : c.sem ≡ length items
    pub room : length items < c.qsize
    pub content : (i : ℕ) → i < length items → c.slots (place c.qsize r (i + 1)) ≡ get_elem? items i

  get_elem?-append_left :
      (xs : List A) (x : A) (i : ℕ) → i < length xs → get_elem? (xs ++ x ∷ []) i ≡ get_elem? xs i
  get_elem?-append_left [] x i h = absurd (omega arith)
  get_elem?-append_left (y ∷ ys) x zero h = refl
  get_elem?-append_left (y ∷ ys) x (suc i) h = get_elem?-append_left ys x i (omega arith)

  get_elem?-append_last : (xs : List A) (x : A) → get_elem? (xs ++ x ∷ []) (length xs) ≡ some x
  get_elem?-append_last [] x = refl
  get_elem?-append_last (y ∷ ys) x = get_elem?-append_last ys x

  -- A packet that is added to a ring with a free slot goes behind all others.
  pub add-Holds :
      (c : Queue A) (r : ℕ) (items : List A) (p : A)
      → Holds c r items
      → length items + 1 < c.qsize
      → Holds (add_packet c (some p)) r (items ++ p ∷ [])
  unfolding add_packet
  add-Holds c r items p h free = rw not_full (record {
    read_pos = h.read_pos;
    in_ring = h.in_ring;
    write_pos = ground (arith, h.write_pos, h.in_ring, length-append items (p ∷ []));
    counted = omega (arith, h.counted, length-append items (p ∷ []));
    room = omega (arith, length-append items (p ∷ []));
    content = λ i lt. at_index i (omega (arith, length-append items (p ∷ [])));
  })
    where
      not_full : at_pos c.qrpos (wrap c.qsize c.qwpos) ≡ false
      not_full = rw h.read_pos (ground (arith, h.write_pos, h.in_ring))

      -- The free slot is none of those that hold packets.
      at_index :
          (i : ℕ)
          → i ≤ length items
          → update c.slots (wrap c.qsize c.qwpos) (some p) (place c.qsize r (i + 1))
            ≡ get_elem? (items ++ p ∷ []) i
      at_index i le = elim (dec_lt i (length items)) [
        | yes lt ↦
            ground (arith, h.write_pos, h.in_ring, h.content i, get_elem?-append_left items p i)
        | no ge ↦
            let e : i ≡ length items = omega arith in
            rw (e, h.write_pos) (ground (arith, get_elem?-append_last items p))
      ]

  -- A full ring drops the packet.
  pub add_full :
      (c : Queue A) (r : ℕ) (items : List A) (o : Option A)
      → Holds c r items
      → length items + 1 ≡ c.qsize
      → add_packet c o ≡ c
  unfolding add_packet
  add_full c r items o h full = rw h.read_pos (ground (arith, h.write_pos, h.in_ring, full))

  -- An empty queue hands out nothing and stays as it is.
  pub get_empty : (c : Queue A) (r : ℕ) → Holds c r [] → get_packet c ≡ (c, none)
  unfolding get_packet
  get_empty c r h = rw h.counted refl

  -- The packet that was added first is taken first.
  pub get-Holds :
      (c : Queue A) (r : ℕ) (x : A) (items : List A)
      → Holds c r (x ∷ items)
      → ((get_packet c).1 ≡ some x) × Holds (get_packet c).0 (place c.qsize r 1) items
  unfolding get_packet
  get-Holds c r x items h =
      rw (h.read_pos, some_there, next_place c.qsize r h.in_ring)
        (
          h.content 0 (omega arith),
          record {
            read_pos = refl;
            in_ring = place-in_ring c.qsize r 1 h.in_ring (omega (arith, h.in_ring));
            write_pos = h.write_pos ∙ sym (place-place c.qsize r (length items) h.in_ring h.room);
            counted = omega (arith, h.counted);
            room = omega (arith, h.room);
            content = λ i lt.
                ap c.slots (place-place c.qsize r i h.in_ring (omega (arith, h.room)))
                ∙ h.content (suc i) (omega arith);
          },
        )
    where
      some_there : (c.sem == 0) ≡ false
      some_there = ground (arith, h.counted)
