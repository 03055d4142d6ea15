-- ===== src/Conn/Queue/Unread.antt =====
-- The queue before its first packet is read: `qrpos` is -1, which no write position equals, so that
-- the test of src/cw/conn_q_add_packet.c for a full queue never succeeds.
use actube.Base.{
  ℕ, zero, suc, sym, true, get_elem?, ◌+◌, ◌≤◌, ◌<◌, ◌≡◌, refl, ap, ◌∙◌, arith, false, Option, some,
  List, [], ◌∷◌, length, ◌==◌, if◌then◌else◌, negsuc,
}
use actube.Conn.Queue.{Queue, create, add_packet, wrap}

module _ {ℓ} {A : Type ℓ} where
  -- Packets added one after the other.
  abbrev pub add_all : Queue A → List A → Queue A
  add_all c [] = c
  add_all c (p ∷ ps) = add_all (add_packet c (some p)) ps

  -- The ring `d` is `c` with the packets `ps` behind what it had, in slots one after the other.
  pub record Filled (c d : Queue A) (ps : List A) : Type ℓ where
    pub unread : d.qrpos ≡ negsuc 0
    pub same_size : d.qsize ≡ c.qsize
    pub written : d.qwpos ≡ c.qwpos + length ps
    pub counted : d.sem ≡ c.sem + length ps
    pub kept : (i : ℕ) → i < c.qwpos → d.slots i ≡ c.slots i
    pub content : (i : ℕ) → i < length ps → d.slots (c.qwpos + i) ≡ get_elem? ps i

  one_more :
      (c : Queue A) (p : A)
      → c.qrpos ≡ negsuc 0
      → c.qwpos < c.qsize
      → Filled c (add_packet c (some p)) (p ∷ [])
  unfolding add_packet
  one_more c p unread room =
      rw (unread, not_wrapped)
        (record {
          unread = refl;
          same_size = refl;
          written = refl;
          counted = refl;
          kept = λ i h. ap (λ b. if b then some p else c.slots i) (other i h);
          content = λ i h.
              ap (λ b. if b then some p else c.slots (c.qwpos + i)) (here i h)
              ∙ sym (ap (get_elem? (p ∷ [])) (first i h));
        })
    where
      not_wrapped : wrap c.qsize c.qwpos ≡ c.qwpos
      not_wrapped = ground (arith, room)

      other : (i : ℕ) → i < c.qwpos → (i == c.qwpos) ≡ false
      other i h = ground (arith, h)

      here : (i : ℕ) → i < 1 → (c.qwpos + i == c.qwpos) ≡ true
      here i h = ground (arith, h)

      first : (i : ℕ) → i < 1 → i ≡ 0
      first i h = omega arith

  pub fills :
      (ps : List A) (c : Queue A)
      → c.qrpos ≡ negsuc 0
      → c.qwpos + length ps ≤ c.qsize
      → Filled c (add_all c ps) ps
  fills [] c unread room = record {
    unread = unread;
    same_size = refl;
    written = omega arith;
    counted = omega arith;
    kept = λ i h. refl;
    content = λ i h. absurd (omega arith);
  }
  fills (p ∷ ps) c unread room =
      let one = one_more c p unread (omega arith) in
      let d = add_packet c (some p) in
      let rest = fills ps d one.unread (omega (arith, one.written, one.same_size)) in
      record {
        unread = rest.unread;
        same_size = rest.same_size ∙ one.same_size;
        written = omega (arith, rest.written, one.written);
        counted = omega (arith, rest.counted, one.counted);
        kept = λ i h. rest.kept i (omega (arith, one.written, h)) ∙ one.kept i h;
        content = slot one.written rest.kept one.content rest.content;
      }
    where
      slot :
          (add_packet c (some p)).qwpos ≡ c.qwpos + 1
          → ((i : ℕ)
              → i < (add_packet c (some p)).qwpos
              → (add_all (add_packet c (some p)) ps).slots i ≡ (add_packet c (some p)).slots i)
          → ((i : ℕ) → i < 1 → (add_packet c (some p)).slots (c.qwpos + i) ≡ get_elem? (p ∷ []) i)
          → ((i : ℕ)
              → i < length ps
              → (add_all (add_packet c (some p)) ps).slots ((add_packet c (some p)).qwpos + i)
                ≡ get_elem? ps i)
          → (i : ℕ) → i < length (p ∷ ps)
          → (add_all (add_packet c (some p)) ps).slots (c.qwpos + i) ≡ get_elem? (p ∷ ps) i
      slot w kept one rest zero h = kept (c.qwpos + 0) (omega (arith, w)) ∙ one 0 (omega arith)
      slot w kept one rest (suc i) h =
          ap (add_all (add_packet c (some p)) ps).slots (omega (arith, w))
          ∙ rest i (omega (arith, h))

  fresh_write :
      (c : Queue A) (p : A)
      → c.qrpos ≡ negsuc 0
      → wrap c.qsize c.qwpos ≡ 0
      → ((add_packet c (some p)).slots 0 ≡ some p) × ((add_packet c (some p)).sem ≡ c.sem + 1)
  unfolding add_packet
  fresh_write c p unread at_zero = rw (unread, at_zero) (refl, refl)

  -- Before anything is read, `qsize` packets fill the ring: the oldest one is in slot 0. One more is
  -- not refused: it replaces the oldest in slot 0, and the semaphore counts `qsize + 1` packets.
  pub unread_overwrites :
      (slots : ℕ → Option A) (qsize : ℕ) (p : A) (ps : List A) (q : A)
      → suc (length ps) ≡ qsize
      → ((add_all (create slots qsize) (p ∷ ps)).slots 0 ≡ some p)
        × ((add_packet (add_all (create slots qsize) (p ∷ ps)) (some q)).slots 0 ≡ some q)
        × ((add_packet (add_all (create slots qsize) (p ∷ ps)) (some q)).sem ≡ suc qsize)
  unfolding create
  unread_overwrites slots qsize p ps q full =
      let start = create slots qsize in
      let one = one_more start p refl (omega arith) in
      let rest =
        fills ps (add_packet start (some p)) one.unread
          (omega (arith, one.written, one.same_size)) in
      let c = add_all start (p ∷ ps) in
      let at_zero : wrap c.qsize c.qwpos ≡ 0 =
        ground (arith, rest.written, rest.same_size, one.written, one.same_size) in
      let last = fresh_write c q rest.unread at_zero in
      (
        rest.kept 0 (omega (arith, one.written))
            ∙ (fresh_write start p refl (ground (arith, full))).0,
        last.0,
        last.1 ∙ omega (arith, rest.counted, one.counted),
      )
