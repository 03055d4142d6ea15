-- ===== src/Conn/Queue/Started.antt =====
-- The packet queue from `cw_conn_create` on, when the reader starts before the ring overflows.
use actube.Base.{
  ℕ, suc, ◌+◌, ◌-◌, ◌≤◌, ◌<◌, ◌≡◌, refl, ap, ◌∙◌, arith, false, Option, none, some, List, [], ◌∷◌,
  ◌++◌, length, ◌==◌,
}
use actube.Conn.Queue.{Queue, create, add_packet, get_packet, wrap}
use actube.Conn.Queue.Fifo.{Holds, place}
use actube.Conn.Queue.Refine.{run, spec_run, get_size, run-spec_run}
use actube.Conn.Queue.Unread.{add_all, Filled, fills}

wrap_zero : (qsize n : ℕ) → suc n ≤ qsize → wrap qsize 0 ≡ 0
wrap_zero qsize n h = ground arith

in_order : (qsize n i : ℕ) → suc n ≤ qsize → i < n → place qsize 0 (i + 1) ≡ suc i
in_order qsize n i h lt = ground arith

module _ {ℓ} {A : Type ℓ} where
  -- The calls that add these packets.
  abbrev pub adds : List A → List (Option A)
  adds [] = []
  adds (p ∷ ps) = some p ∷ adds ps

  run-adds :
      (ps : List A) (c : Queue A) (ops : List (Option A))
      → run c (adds ps ++ ops) ≡ run (add_all c ps) ops
  run-adds [] c ops = refl
  run-adds (p ∷ ps) c ops = run-adds ps (add_packet c (some p)) ops

  created :
      (slots : ℕ → Option A) (qsize : ℕ) (p : A) (ps : List A)
      → suc (length ps) ≤ qsize
      → Filled (create slots qsize) (add_all (create slots qsize) (p ∷ ps)) (p ∷ ps)
  unfolding create
  created slots qsize p ps room = fills (p ∷ ps) (create slots qsize) refl (omega (arith, room))

  first-Holds :
      (slots : ℕ → Option A) (qsize : ℕ) (p : A) (ps : List A)
      → suc (length ps) ≤ qsize
      → ((get_packet (add_all (create slots qsize) (p ∷ ps))).1 ≡ some p)
        × Holds (get_packet (add_all (create slots qsize) (p ∷ ps))).0 0 ps
  unfolding get_packet create
  first-Holds slots qsize p ps room =
      let f = created slots qsize p ps room in
      let some_there : ((add_all (create slots qsize) (p ∷ ps)).sem == 0) ≡ false =
        ground (arith, f.counted) in
      rw (f.unread, some_there, f.same_size, wrap_zero qsize (length ps) room)
        (
          ap (add_all (create slots qsize) (p ∷ ps)).slots (omega arith)
              ∙ f.content 0 (omega arith),
          record {
            read_pos = refl;
            in_ring = omega (arith, f.same_size);
            write_pos = rw f.written (ground (arith, room));
            counted = omega (arith, f.counted);
            room = omega (arith, f.same_size);
            content = λ i lt.
                ap (add_all (create slots qsize) (p ∷ ps)).slots
                  (in_order qsize (length ps) i room lt ∙ omega arith)
                ∙ f.content (suc i) (omega (arith, lt));
          },
        )

  -- From `cw_conn_create` on: if between 1 and `qsize` packets are added before the first one is taken,
  -- then this take and all calls that follow, in every order, give the results of a FIFO queue that
  -- holds the packets in the order in which they were added, from the first take on `qsize - 1` of
  -- them at most, and drops what does not fit.
  pub run_created :
      (slots : ℕ → Option A) (qsize : ℕ) (p : A) (ps : List A) (ops : List (Option A))
      → suc (length ps) ≤ qsize
      → run (create slots qsize) (adds (p ∷ ps) ++ none ∷ ops)
        ≡ some p ∷ spec_run (qsize - 1) ps ops
  unfolding create
  run_created slots qsize p ps ops room =
      let c = add_all (create slots qsize) (p ∷ ps) in
      let (taken, rest) = first-Holds slots qsize p ps room in
      let size : (get_packet c).0.qsize ≡ qsize = size_kept slots qsize p ps room in
      run-adds (p ∷ ps) (create slots qsize) (none ∷ ops)
      ∙ ap (λ o. o ∷ run (get_packet c).0 ops) taken
      ∙ ap (◌∷◌ (some p))
          (run-spec_run ops (get_packet c).0 0 ps rest ∙ ap (λ n. spec_run (n - 1) ps ops) size)
    where
      size_kept :
          (slots : ℕ → Option A) (qsize : ℕ) (p : A) (ps : List A)
          → suc (length ps) ≤ qsize
          → (get_packet (add_all (create slots qsize) (p ∷ ps))).0.qsize ≡ qsize
      size_kept slots qsize p ps room =
          get_size (add_all (create slots qsize) (p ∷ ps))
          ∙ (created slots qsize p ps room).same_size
