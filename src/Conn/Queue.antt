-- ===== src/Conn/Queue.antt =====
-- The packet queue between the receiving thread and the connection's own thread:
-- src/cw/conn_q_add_packet.c, conn_q_get_packet.c, conn_q_wait_packet.c and conn_q_recv_packet.c.
-- `malloc` and the semaphore's timeout are arguments.
pub mod Fifo
pub mod Unread
pub mod Refine
pub mod Started
pub mod Peek
use actube.Base.{
  ℕ, ◌+◌, ◌-◌, Mem, Bool, true, false, Option, none, some, List, ltb, ◌==◌, if◌then◌else◌, ℤ, pos,
  negsuc, memcpy, bytes_of,
}

pub record Queue {ℓ} (A : Type ℓ) : Type ℓ where
  pub slots : ℕ → Option A
  pub qsize : ℕ
  pub qrpos : ℤ
  pub qwpos : ℕ
  pub sem : ℕ

-- `conn->qrpos==qwpos`
abbrev pub at_pos : ℤ → ℕ → Bool
at_pos (pos n) p = n == p
at_pos (negsuc n) p = false

abbrev pub wrap : ℕ → ℕ → ℕ
wrap qsize p = if p == qsize then 0 else p

-- `conn->qrpos+1`; the position is never below -1.
abbrev pub next_pos : ℤ → ℕ
next_pos (pos n) = n + 1
next_pos (negsuc n) = 0

module _ {ℓ} {A : Type ℓ} where
  abbrev pub update : (ℕ → Option A) → ℕ → Option A → ℕ → Option A
  update slots p v i = if i == p then v else slots i

  -- What `cw_conn_create` sets up, over uninitialised slots.
  unfoldable pub create : (ℕ → Option A) → ℕ → Queue A
  create slots qsize = record { slots = slots; qsize = qsize; qrpos = negsuc 0; qwpos = 0; sem = 0 }

  unfoldable pub add_packet : Queue A → Option A → Queue A
  add_packet c packet =
      let qwpos = wrap c.qsize c.qwpos in
      if at_pos c.qrpos qwpos then c else elim packet [
        | none ↦ record c { slots = update c.slots qwpos none }
        | some p ↦ record c {
          slots = update c.slots qwpos (some p);
          qwpos = qwpos + 1;
          sem = c.sem + 1;
        }
      ]

  -- `sem_timedwait` fails exactly when no packet is counted within the second.
  unfoldable pub get_packet : Queue A → Queue A × Option A
  get_packet c =
      let qrpos = wrap c.qsize (next_pos c.qrpos) in
      if c.sem == 0
      then (c, none)
      else (record c { qrpos = pos qrpos; sem = c.sem - 1 }, c.slots qrpos)

  -- EAGAIN is `true`. The packet that was counted is given back.
  unfoldable pub wait_packet : Queue A → Queue A × Bool
  wait_packet c = if c.sem == 0 then (c, true) else (record c { sem = c.sem - 1 + 1 }, false)

-- A queued buffer: the length in the first four bytes, then the packet.
pub record Buffered : Type 0 where
  pub mem : Mem
  pub len : ℕ

-- What `conn_q_add_packet` allocates: `malloc(len+4)` and the copy.
unfoldable pub buffered : Mem → Mem → ℕ → Buffered
buffered fresh packet len = record { mem = memcpy fresh 4 packet 0 len; len = len }

-- The connection's queue and the packet that is being read.
pub record Reader : Type 0 where
  pub queue : Queue Buffered
  pub cur_packet : Option Mem
  pub cur_packet_len : ℕ
  pub cur_packet_pos : ℕ

-- `-1` is `none`; else the bytes that are copied to the caller's buffer, as many as the result says.
unfoldable pub read_current : Reader → Mem → ℕ → Bool → Reader × Option (List ℕ)
read_current c cur len peek =
    if ltb len c.cur_packet_len
    then if peek then (c, some (bytes_of cur c.cur_packet_pos len)) else (
      record c {
        cur_packet = if c.cur_packet_len - len == 0 then none else some cur;
        cur_packet_pos = c.cur_packet_pos + len;
        cur_packet_len = c.cur_packet_len - len;
      },
      some (bytes_of cur c.cur_packet_pos len),
    )
    else if peek
    then (c, some (bytes_of cur c.cur_packet_pos c.cur_packet_len))
    else (record c { cur_packet = none }, some (bytes_of cur c.cur_packet_pos c.cur_packet_len))

unfoldable pub fetch : Reader → Queue Buffered × Option Buffered → Reader
fetch c (q, none) = record c { queue = q; cur_packet = none }
fetch c (q, some b) = record {
  queue = q;
  cur_packet = some b.mem;
  cur_packet_len = b.len;
  cur_packet_pos = 4;
}

-- The packet that is read next is fetched if there is none.
unfoldable pub refill : Reader → Reader
unfolding fetch get_packet
refill c = elim c.cur_packet [ none ↦ fetch c (get_packet c.queue) | some cur ↦ c ]

unfoldable pub recv_packet : Reader → ℕ → Bool → Reader × Option (List ℕ)
unfolding refill read_current
recv_packet c len peek =
    let c' = refill c in
    elim c'.cur_packet [ none ↦ (c', none) | some cur ↦ read_current c' cur len peek ]
