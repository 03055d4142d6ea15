-- ===== src/Machine/Session/Closed.antt =====
-- A list of places that no session leaves, checked by evaluation over the tables.
use mathlib.Core.Option.{some-injective, none-ne-some}
use mathlib.Core.Bool.{false≢true}
use actube.Base.{
  ℕ, zero, suc, ◌≡◌, ◌≢◌, refl, sym, ap, ◌∙◌, fun_ext, inl, inr, ◌⊎◌, arith, Bool, true, false,
  Option, none, some, List, [], ◌∷◌, if◌then◌else◌, ◌==◌, ◌&&◌, ◌||◌, and-left, and-right,
  Bool-cases,
}
use actube.MsgSet.{MsgDef}
use actube.MsgSet.Mavl.{Mavl, In}
use actube.MsgSet.States.{MachineState, same_state, add_states, last_state, get-add_states}
use actube.Capwap.Names.{state_dtls_setup, state_join, state_timeout}
use actube.Machine.{Place, Run, search, start_timer, turn, continue, run_state_machine}
use actube.Machine.Session.{next_state, Session, joined, kept, accepted, timed_out}

-- The loop over the table itself.
abbrev pub table_turn : List MachineState → Place → Run ⊎ Place
table_turn table p = elim (last_state (search p) none table) [
  | none ↦ inl (record { place = p; timer = none; retval = 0 })
  | some s ↦
      if s.jump_state == 0
      then inl (record { place = p; timer = start_timer s; retval = s.retval })
      else inr (record { prevstate = s.jump_prevstate; state = s.jump_state })
]

abbrev pub table_run : ℕ → List MachineState → Place → Option Run
table_run zero table p = none
table_run (suc fuel) table p = continue (table_turn table p) (table_run fuel table)

module _ (M : Mavl MachineState same_state) (table : List MachineState) where
  abbrev pub loaded : M.Tree
  loaded = add_states M M.empty table

  pub loaded_lem : (x : MachineState) → M.get loaded x ≡ last_state x none table
  loaded_lem x = get-add_states M table M.empty x ∙ ap (λ o. last_state x o table) (M.get-empty x)

  turn-table_turn : (p : Place) → turn M loaded p ≡ table_turn table p
  unfolding turn
  turn-table_turn p = rw (turn, loaded_lem (search p)) refl

  pub run-table_run :
      (fuel : ℕ) (p : Place) → run_state_machine M loaded fuel p ≡ table_run fuel table p
  unfolding run_state_machine
  run-table_run zero p = refl
  run-table_run (suc fuel) p =
      rw (run_state_machine, turn-table_turn p)
        (ap (continue (table_turn table p)) (fun_ext (run-table_run fuel)))

continue_unique :
    (o : Run ⊎ Place) (k l : Place → Option Run)
    → ((p : Place) (r q : Run) → k p ≡ some r → l p ≡ some q → r ≡ q)
    → (r q : Run) → continue o k ≡ some r
    → continue o l ≡ some q
    → r ≡ q
continue_unique (inl done) k l same r q e h = some-injective r q (sym e ∙ h)
continue_unique (inr next) k l same r q e h = same next r q e h

-- Two runs that return leave the same.
table_run_unique :
    (f g : ℕ) (table : List MachineState) (p : Place) (r q : Run)
    → table_run f table p ≡ some r
    → table_run g table p ≡ some q
    → r ≡ q
table_run_unique zero g table p r q e h = absurd (none-ne-some r e)
table_run_unique (suc f) zero table p r q e h = absurd (none-ne-some q h)
table_run_unique (suc f) (suc g) table p r q e h =
    continue_unique (table_turn table p) (table_run f table) (table_run g table)
      (table_run_unique f g table) r q e h

abbrev pub same_place : Place → Place → Bool
same_place p q = p.prevstate == q.prevstate && p.state == q.state

abbrev pub member : List Place → Place → Bool
member [] p = false
member (q ∷ qs) p = same_place q p || member qs p

-- Wherever an accepted request leads to, `next` holds.
abbrev pub passes : {S : Type 0} → ℕ → (ℕ → Bool) → MsgDef S → Bool
passes state ok d = elim (next_state 1 state d) [ none ↦ true | some next ↦ ok next ]

abbrev pub each_next : {S : Type 0} → ℕ → (ℕ → Bool) → List (MsgDef S) → Bool
each_next state ok [] = true
each_next state ok (d ∷ ds) = passes state ok d && each_next state ok ds

abbrev pub checks : (Place → Bool) → List Place → Bool
checks f [] = true
checks f (p ∷ ps) = f p && checks f ps

or-right : (n : ℕ) (b : Bool) → n ≢ 0 → n == 0 || b ≡ true → b ≡ true
or-right n b ne h = ground arith

-- All that may follow a run stays among the places.
abbrev pub stays_after : {S : Type 0} → List (MsgDef S) → List Place → Run → Bool
stays_after messages places r =
    member places r.place
    && (member places (record { prevstate = r.place.state; state = state_timeout })
        && each_next r.place.state
            (λ next. member places (record { prevstate = r.place.state; state = next })) messages)

-- Two turns are enough at this place.
abbrev pub stays : {S : Type 0} → List MachineState → List (MsgDef S) → List Place → Place → Bool
stays table messages places p = elim (table_run 2 table p) [
  | none ↦ false
  | some r ↦ r.retval == 0 || stays_after messages places r
]

same_place-eq : (q p : Place) → same_place q p ≡ true → q ≡ p
same_place-eq q p h = ground arith

pub checks-member :
    (f : Place → Bool) (ps : List Place) (p : Place)
    → checks f ps ≡ true
    → member ps p ≡ true
    → f p ≡ true
checks-member f [] p c m = absurd (false≢true m)
checks-member f (q ∷ qs) p c m = elim (Bool-cases (same_place q p)) [
  | inl same ↦ ap f (sym (same_place-eq q p same)) ∙ and-left (f q) (checks f qs) c
  | inr other ↦
      checks-member f qs p (and-right (f q) (checks f qs) c)
        (ap (λ b. b || member qs p) (sym other) ∙ m)
]

each_next-In :
    {S : Type 0} (state : ℕ) (ok : ℕ → Bool) (ds : List (MsgDef S)) (d : MsgDef S) (next : ℕ)
    → each_next state ok ds ≡ true
    → In d ds
    → next_state 1 state d ≡ some next
    → ok next ≡ true
each_next-In state ok [] d next c i e = absurd i
each_next-In state ok (x ∷ ds) d next c (inl here) e =
    ap (λ o. elim o as (λ x. Bool) [ none ↦ true | some n ↦ ok n ]) (sym e)
    ∙ ap (passes state ok) here
    ∙ and-left (passes state ok x) (each_next state ok ds) c
each_next-In state ok (x ∷ ds) d next c (inr later) e =
    each_next-In state ok ds d next (and-right (passes state ok x) (each_next state ok ds) c) later
      e

-- Places among which all that may follow stays, from the first run of a session on.
pub record IsClosed {S : Type 0} (table : List MachineState) (messages : List (MsgDef S))
    (places : List Place) : Type 0 where
  pub starts : member places (record { prevstate = state_dtls_setup; state = state_join }) ≡ true
  pub each : checks (stays table messages places) places ≡ true

module _ {S : Type 0} (M : Mavl MachineState same_state) (table : List MachineState)
    (messages : List (MsgDef S)) (places : List Place)
    (closed : IsClosed table messages places) where
  -- What holds of a run that the session goes on after.
  record Followed (r : Run) : Type 0 where
    same_state_member : member places r.place ≡ true
    timeout_member :
        member places (record { prevstate = r.place.state; state = state_timeout }) ≡ true
    next_member :
        each_next r.place.state
          (λ next. member places (record { prevstate = r.place.state; state = next }))
          messages
        ≡ true

  followed :
      (p : Place) (fuel : ℕ) (r : Run)
      → member places p ≡ true
      → run_state_machine M (loaded M table) fuel p ≡ some r
      → r.retval ≢ 0
      → Followed r
  followed p fuel r m e ne =
      from_check (table_run 2 table p) refl
        (checks-member (stays table messages places) places p closed.each m)
    where
      from_check :
          (o : Option Run)
          → table_run 2 table p ≡ o
          → elim o as (λ x. Bool) [
            | none ↦ false
            | some q ↦ q.retval == 0 || stays_after messages places q
          ]
            ≡ true
          → Followed r
      from_check none h c = absurd (false≢true c)
      from_check (some q) h c =
          let same : q ≡ r =
            table_run_unique 2 fuel table p q r h (sym (run-table_run M table fuel p) ∙ e) in
          let d : stays_after messages places r ≡ true =
            or-right r.retval (stays_after messages places r) ne
              (ap (λ k. k.retval == 0 || stays_after messages places k) (sym same) ∙ c) in
          record {
            same_state_member = and-left _ _ d;
            timeout_member = and-left _ _ (and-right _ _ d);
            next_member = and-right _ _ (and-right _ _ d);
          }

  -- No session leaves the places.
  pub Session-member : {p : Place} → Session M (loaded M table) messages p → member places p ≡ true
  Session-member joined = closed.starts
  Session-member (kept {p} fuel r s e ne) =
      (followed p fuel r (Session-member s) e ne).same_state_member
  Session-member (accepted {p} fuel r d next s e ne i n) =
      each_next-In r.place.state
        (λ next. member places (record { prevstate = r.place.state; state = next })) messages d next
        (followed p fuel r (Session-member s) e ne).next_member i n
  Session-member (timed_out {p} fuel r s e ne) =
      (followed p fuel r (Session-member s) e ne).timeout_member
