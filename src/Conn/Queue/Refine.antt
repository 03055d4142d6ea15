-- ===== src/Conn/Queue/Refine.antt =====
-- The ring as a client sees it, from the first read on: a bounded FIFO queue of `qsize - 1` packets.
use native.Mathlib.Decide.{dec_lt}
use actube.Base.{
  ℕ, ◌-◌, ◌≡◌, refl, ap, ◌∙◌, arith, Option, none, some, List, [], ◌∷◌, ◌++◌, length, ltb, lt→ltb,
  le→ltb, if◌then◌else◌,
}
use actube.Conn.Queue.{Queue, add_packet, get_packet}
use actube.Conn.Queue.Fifo.{Holds, add-Holds, add_full, get_empty, get-Holds, place}

module _ {ℓ} {A : Type ℓ} where
  -- The specification: `some p` adds a packet, `none` takes one. The results are those of the takes.
  abbrev pub spec_run : ℕ → List A → List (Option A) → List (Option A)
  spec_run capacity items [] = []
  spec_run capacity items (some p ∷ ops) =
      spec_run capacity (if ltb (length items) capacity then items ++ p ∷ [] else items) ops
  spec_run capacity [] (none ∷ ops) = none ∷ spec_run capacity [] ops
  spec_run capacity (x ∷ items) (none ∷ ops) = some x ∷ spec_run capacity items ops

  abbrev pub run : Queue A → List (Option A) → List (Option A)
  run c [] = []
  run c (some p ∷ ops) = run (add_packet c (some p)) ops
  run c (none ∷ ops) = (get_packet c).1 ∷ run (get_packet c).0 ops

  add_size : (c : Queue A) (p : A) → (add_packet c (some p)).qsize ≡ c.qsize
  unfolding add_packet
  add_size c p = ground arith

  pub get_size : (c : Queue A) → (get_packet c).0.qsize ≡ c.qsize
  unfolding get_packet
  get_size c = ground arith

  pub run-spec_run :
      (ops : List (Option A)) (c : Queue A) (r : ℕ) (items : List A)
      → Holds c r items
      → run c ops ≡ spec_run (c.qsize - 1) items ops
  run-spec_run [] c r items h = refl
  run-spec_run (some p ∷ ops) c r items h = elim (dec_lt (length items) (c.qsize - 1)) [
    | yes lt ↦ rw (lt→ltb (length items) (c.qsize - 1) lt) (
        run-spec_run ops (add_packet c (some p)) r (items ++ p ∷ [])
          (add-Holds c r items p h (omega arith))
        ∙ ap (λ n. spec_run (n - 1) (items ++ p ∷ []) ops) (add_size c p))
    | no ge ↦ rw (le→ltb (length items) (c.qsize - 1) (omega arith)) (
        ap (λ d. run d ops) (add_full c r items (some p) h (omega (arith, h.room)))
        ∙ run-spec_run ops c r items h)
  ]
  run-spec_run (none ∷ ops) c r [] h =
      rw (get_empty c r h) (ap (◌∷◌ none) (run-spec_run ops c r [] h))
  run-spec_run (none ∷ ops) c r (x ∷ items) h =
      let (taken, rest) = get-Holds c r x items h in
      rw taken (
        ap (◌∷◌ (some x)) (
          run-spec_run ops (get_packet c).0 (place c.qsize r 1) items rest
          ∙ ap (λ n. spec_run (n - 1) items ops) (get_size c)))
