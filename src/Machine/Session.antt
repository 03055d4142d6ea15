-- ===== src/Machine/Session.antt =====
-- A session of `wtpman_main` in src/ac/wtpman.c: runs of the state machine, and between them what the received
-- messages and the timer do to the state.
pub mod Closed
pub mod Tables
use actube.Base.{
  ℕ, ◌≡◌, ◌≢◌, Bool, true, false, Option, none, some, List, [], ◌∷◌, ◌++◌, if◌then◌else◌, ◌==◌, ◌%◌,
  ◌&&◌, not,
}
use Prim.Native.Nat.{bit_and}
use actube.MsgSet.{MsgDef, State}
use actube.MsgSet.Mavl.{Mavl, In}
use actube.MsgSet.States.{MachineState, same_state}
use actube.Conn.Process.{find_state}
use actube.Capwap.Names.{state_dtls_setup, state_join, state_timeout}
use actube.Machine.{Place, Run, run_state_machine}

-- The state that a request for `role` leads to from `state`, if it is accepted there.
abbrev pub next_state : {S : Type 0} → ℕ → ℕ → MsgDef S → Option ℕ
next_state role state d =
    if d.type % 2 == 0 then none else if bit_and d.receiver role == 0 then none else elim d.states [
      | none ↦ none
      | some states ↦ elim (find_state state states) [
        | none ↦ none
        | some ui ↦ if ui.next == 0 then none else some ui.next
      ]
    ]

module _ {S : Type 0} (M : Mavl MachineState same_state) (states : M.Tree)
    (messages : List (MsgDef S)) where
  -- The places at which the state machine is run. After a run that returns a number other than 0 a
  -- message may have left the state alone, an accepted request may have changed it, or the timer has
  -- run out.
  pub data Session : Place → Type 0 where
    joined : Session (record { prevstate = state_dtls_setup; state = state_join })
    kept :
        {p : Place} (fuel : ℕ) (r : Run)
        → Session p
        → run_state_machine M states fuel p ≡ some r
        → r.retval ≢ 0
        → Session r.place
    accepted :
        {p : Place} (fuel : ℕ) (r : Run) (d : MsgDef S) (next : ℕ)
        → Session p
        → run_state_machine M states fuel p ≡ some r
        → r.retval ≢ 0
        → In d messages
        → next_state 1 r.place.state d ≡ some next
        → Session (record { prevstate = r.place.state; state = next })
    timed_out :
        {p : Place} (fuel : ℕ) (r : Run)
        → Session p
        → run_state_machine M states fuel p ≡ some r
        → r.retval ≢ 0
        → Session (record { prevstate = r.place.state; state = state_timeout })
