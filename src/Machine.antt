-- ===== src/Machine.antt =====
-- The state machine of a session on the access controller: `cw_run_state_machine` of src/ac/wtpman.c over
-- the states that the modules register.
pub mod Session
use actube.Base.{ℕ, zero, suc, Bool, Option, none, some, ◌⊎◌, inl, inr, if◌then◌else◌, ◌==◌}
use actube.MsgSet.Mavl.{Mavl}
use actube.MsgSet.States.{MachineState, same_state}

-- `conn->capwap_prevstate` and `conn->capwap_state`.
pub record Place : Type 0 where
  pub prevstate : ℕ
  pub state : ℕ

-- What a run leaves: the place after the jumps, the timer that was started, if any, by its key and its
-- default, and the return value.
pub record Run : Type 0 where
  pub place : Place
  pub timer : Option (ℕ × ℕ)
  pub retval : ℕ

abbrev pub search : Place → MachineState
search p = record {
  prevstate = p.prevstate;
  state = p.state;
  timer_key = none;
  timer_default = 0;
  retval = 0;
  jump_prevstate = 0;
  jump_state = 0;
}

abbrev pub start_timer : MachineState → Option (ℕ × ℕ)
start_timer s = elim s.timer_key [ none ↦ none | some key ↦ some (key, s.timer_default) ]

-- A turn that jumped is followed by the next one.
abbrev pub continue : Run ⊎ Place → (Place → Option Run) → Option Run
continue (inl done) rest = some done
continue (inr next) rest = rest next

module _ (M : Mavl MachineState same_state) (states : M.Tree) where
  -- One turn of the loop: it returns, or jumps to a place.
  unfoldable pub turn : Place → Run ⊎ Place
  turn p = elim (M.get states (search p)) [
    | none ↦ inl (record { place = p; timer = none; retval = 0 })
    | some s ↦
        if s.jump_state == 0
        then inl (record { place = p; timer = start_timer s; retval = s.retval })
        else inr (record { prevstate = s.jump_prevstate; state = s.jump_state })
  ]

  -- `none`: the fuel ran out before the loop returned.
  unfoldable pub run_state_machine : ℕ → Place → Option Run
  run_state_machine zero p = none
  run_state_machine (suc fuel) p = continue (turn p) (run_state_machine fuel)
