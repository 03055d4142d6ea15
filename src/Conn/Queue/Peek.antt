-- ===== src/Conn/Queue/Peek.antt =====
-- The reading side of the queue as a caller sees it: the stream of a packet's bytes.
use actube.Base.{
  ℕ, zero, suc, ◌+◌, ◌-◌, ◌<◌, ◌≡◌, refl, sym, inl, inr, ap, ap₂, ◌∙◌, arith, Mem, Bool, true,
  false, some, List, ◌∷◌, ◌++◌, ltb, lt→ltb, Bool-cases, ◌==◌, if◌then◌else◌, bytes_of,
}
use actube.Conn.Queue.{Reader, read_current, refill, recv_packet}

recv_current :
    (c : Reader) (cur : Mem) (len : ℕ) (peek : Bool)
    → (refill c).cur_packet ≡ some cur
    → recv_packet c len peek ≡ read_current (refill c) cur len peek
unfolding recv_packet
recv_current c cur len peek h = rw (recv_packet, h) refl

refill_current : (c : Reader) (cur : Mem) → c.cur_packet ≡ some cur → refill c ≡ c
unfolding refill
refill_current c cur h = rw h refl

peek_stays : (c : Reader) (cur : Mem) (len : ℕ) → (read_current c cur len true).0 ≡ c
unfolding read_current
peek_stays c cur len = elim (Bool-cases (ltb len c.cur_packet_len)) [
  | inl e ↦ rw e refl
  | inr e ↦ rw e refl
]

same_bytes :
    (c : Reader) (cur : Mem) (len : ℕ)
    → (read_current c cur len false).1 ≡ (read_current c cur len true).1
unfolding read_current
same_bytes c cur len = elim (Bool-cases (ltb len c.cur_packet_len)) [
  | inl e ↦ rw e refl
  | inr e ↦ rw e refl
]

-- When there is a packet to read, a peek takes nothing: the read that follows gives the same result
-- and leaves the same state as without the peek, and a read of the peeked length gives the peeked
-- bytes.
pub recv-peek :
    (c : Reader) (cur : Mem) (len len' : ℕ)
    → (refill c).cur_packet ≡ some cur
    → (recv_packet (recv_packet c len true).0 len' false ≡ recv_packet c len' false)
      × ((recv_packet c len true).1 ≡ (recv_packet c len false).1)
recv-peek c cur len len' h =
    let peeked : (recv_packet c len true).0 ≡ refill c =
      ap (λ r. r.0) (recv_current c cur len true h) ∙ peek_stays (refill c) cur len in
    let again : refill (refill c) ≡ refill c = refill_current (refill c) cur h in
    (
      ap (λ r. recv_packet r len' false) peeked
          ∙ recv_current (refill c) cur len' false (ap (λ r. r.cur_packet) again ∙ h)
          ∙ ap (λ r. read_current r cur len' false) again
          ∙ sym (recv_current c cur len' false h),
      ap (λ r. r.1) (recv_current c cur len true h)
          ∙ sym (same_bytes (refill c) cur len)
          ∙ sym (ap (λ r. r.1) (recv_current c cur len false h)),
    )

bytes_of_append :
    (m : Mem) (p a b : ℕ) → bytes_of m p (a + b) ≡ bytes_of m p a ++ bytes_of m (p + a) b
bytes_of_append m p zero b = ap₂ (bytes_of m) (omega arith) (omega arith)
bytes_of_append m p (suc a) b =
    ap (bytes_of m p) (the_sum a b)
    ∙ ap (◌∷◌ (m p)) (bytes_of_append m (p + 1) a b)
    ∙ ap (λ q. m p ∷ bytes_of m (p + 1) a ++ bytes_of m q b) (omega arith)
  where
    the_sum : (k n : ℕ) → suc k + n ≡ suc (k + n)
    the_sum k n = omega arith

-- How many bytes a read of `len` takes from a packet with `rest` bytes left.
abbrev amount : ℕ → ℕ → ℕ
amount len rest = if ltb len rest then len else rest

amount_sum : (a b n : ℕ) → a < n → amount (a + b) n ≡ a + amount b (n - a)
amount_sum a b n lt = ground arith

read_result :
    (d : Reader) (cur : Mem) (n : ℕ)
    → (read_current d cur n false).1
      ≡ some (bytes_of cur d.cur_packet_pos (amount n d.cur_packet_len))
unfolding read_current
read_result d cur n = elim (Bool-cases (ltb n d.cur_packet_len)) [
  | inl e ↦ rw e refl
  | inr e ↦ rw e refl
]

-- The reader behind the first `a` bytes of the packet.
abbrev advance : Reader → Mem → ℕ → Reader
advance d cur a = record d {
  cur_packet = some cur;
  cur_packet_pos = d.cur_packet_pos + a;
  cur_packet_len = d.cur_packet_len - a;
}

read_part :
    (d : Reader) (cur : Mem) (a : ℕ)
    → a < d.cur_packet_len
    → (read_current d cur a false).0 ≡ advance d cur a
unfolding read_current
read_part d cur a lt = rw (lt→ltb a d.cur_packet_len lt, rest a d.cur_packet_len lt) refl
  where
    rest : (k n : ℕ) → k < n → (n - k == 0) ≡ false
    rest k n h = ground arith

read_after :
    (d : Reader) (cur : Mem) (a b : ℕ)
    → (recv_packet (advance d cur a) b false).1
      ≡ some (bytes_of cur (d.cur_packet_pos + a) (amount b (d.cur_packet_len - a)))
read_after d cur a b =
    let e = refill_current (advance d cur a) cur refl in
    ap (λ r. r.1) (recv_current (advance d cur a) cur b false (ap (λ r. r.cur_packet) e))
    ∙ ap (λ r. (read_current r cur b false).1) e
    ∙ read_result (advance d cur a) cur b

-- A read that leaves a rest of the packet, followed by a second read: together they give the bytes
-- that one read of both lengths gives.
pub recv_twice :
    (c : Reader) (cur : Mem) (a b : ℕ)
    → (refill c).cur_packet ≡ some cur
    → a < (refill c).cur_packet_len
    → (xs : List ℕ) × (ys : List ℕ) × ((recv_packet c a false).1 ≡ some xs)
      × ((recv_packet (recv_packet c a false).0 b false).1 ≡ some ys)
      × ((recv_packet c (a + b) false).1 ≡ some (xs ++ ys))
recv_twice c cur a b h lt =
    let d = refill c in
    let part : (recv_packet c a false).0 ≡ advance d cur a =
      ap (λ r. r.0) (recv_current c cur a false h) ∙ read_part d cur a lt in
    (
      bytes_of cur d.cur_packet_pos a,
      bytes_of cur (d.cur_packet_pos + a) (amount b (d.cur_packet_len - a)),
      ap (λ r. r.1) (recv_current c cur a false h)
          ∙ read_result d cur a
          ∙ ap (λ n. some (bytes_of cur d.cur_packet_pos n)) (whole a d.cur_packet_len lt),
      ap (λ r. (recv_packet r b false).1) part ∙ read_after d cur a b,
      ap (λ r. r.1) (recv_current c cur (a + b) false h)
          ∙ read_result d cur (a + b)
          ∙ ap (λ n. some (bytes_of cur d.cur_packet_pos n)) (amount_sum a b d.cur_packet_len lt)
          ∙ ap some (bytes_of_append cur d.cur_packet_pos a (amount b (d.cur_packet_len - a))),
    )
  where
    whole : (k n : ℕ) → k < n → amount k n ≡ k
    whole k n l = ground arith
