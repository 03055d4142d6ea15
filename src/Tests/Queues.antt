-- ===== src/Tests/Queues.antt =====
-- Examples for the packet queue of src/cw/conn_q_*.c: a ring of two slots that is filled, and a
-- packet that is being read.
use actube.Base.{
  ℕ, ◌≡◌, refl, arith, Mem, true, false, Option, none, some, List, [], ◌∷◌, ◌++◌, ◌<◌, pos,
}
use actube.Conn.Queue.{Queue, Buffered, Reader, create, add_packet, recv_packet, refill}
use actube.Conn.Queue.Refine.{run, spec_run}
use actube.Conn.Queue.Started.{adds, run_created}
use actube.Conn.Queue.Peek.{recv-peek, recv_twice}
use actube.Conn.Queue.Unread.{add_all, unread_overwrites}

abbrev calls : List (Option ℕ)
calls = some 9 ∷ none ∷ some 8 ∷ some 7 ∷ some 6 ∷ none ∷ none ∷ none ∷ none ∷ []

abbrev no_slots : ℕ → Option ℕ
no_slots i = none

abbrev two_packets : List ℕ
two_packets = 5 ∷ 6 ∷ []

run_created_example :
    run (create no_slots 2) (adds two_packets ++ none ∷ calls) ≡ some 5 ∷ spec_run 1 (6 ∷ []) calls
run_created_example = run_created no_slots 2 5 (6 ∷ []) calls (omega arith)

unread_overwrites_example :
    ((add_all (create no_slots 2) two_packets).slots 0 ≡ some 5)
    × ((add_packet (add_all (create no_slots 2) two_packets) (some 7)).slots 0 ≡ some 7)
    × ((add_packet (add_all (create no_slots 2) two_packets) (some 7)).sem ≡ 3)
unread_overwrites_example = unread_overwrites no_slots 2 5 (6 ∷ []) 7 refl

abbrev contents : Mem
contents i = i

abbrev nothing_queued : Queue Buffered
nothing_queued = record { slots = λ i. none; qsize = 4; qrpos = pos 0; qwpos = 1; sem = 0 }

abbrev reader : Reader
reader = record {
  queue = nothing_queued;
  cur_packet = some contents;
  cur_packet_len = 10;
  cur_packet_pos = 4;
}

reader_current : (refill reader).cur_packet ≡ some contents
unfolding refill
reader_current = refl

reader_left : 3 < (refill reader).cur_packet_len
unfolding refill
reader_left = omega arith

recv-peek_example :
    (recv_packet (recv_packet reader 8 true).0 20 false ≡ recv_packet reader 20 false)
    × ((recv_packet reader 8 true).1 ≡ (recv_packet reader 8 false).1)
recv-peek_example = recv-peek reader contents 8 20 reader_current

recv_twice_example :
    (xs : List ℕ) × (ys : List ℕ) × ((recv_packet reader 3 false).1 ≡ some xs)
    × ((recv_packet (recv_packet reader 3 false).0 5 false).1 ≡ some ys)
    × ((recv_packet reader 8 false).1 ≡ some (xs ++ ys))
recv_twice_example = recv_twice reader contents 3 5 reader_current reader_left
