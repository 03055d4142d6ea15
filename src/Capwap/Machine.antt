-- ===== src/Capwap/Machine.antt =====
-- The state machine tables of src/mod/capwap/capwap_actions.c and src/mod/cisco/cisco_actions.c. The key of a timer
-- is a number that stands for its name.
use actube.Base.{ℕ, Option, none, some, List, [], ◌∷◌}
use actube.MsgSet.States.{MachineState}
use actube.Capwap.Names.{
  state_join, state_configure, state_dtls_setup, state_run, state_data_check, state_timeout,
}

abbrev wait_join : ℕ
wait_join = 1

abbrev change_state_pending_timer : ℕ
change_state_pending_timer = 2

abbrev data_check_timer : ℕ
data_check_timer = 3

abbrev echo_interval : ℕ
echo_interval = 4

abbrev entry : ℕ → ℕ → Option ℕ → ℕ → ℕ → MachineState
entry prevstate state timer_key timer_default retval = record {
  prevstate = prevstate;
  state = state;
  timer_key = timer_key;
  timer_default = timer_default;
  retval = retval;
  jump_prevstate = 0;
  jump_state = 0;
}

abbrev pub capwap_states : List MachineState
capwap_states =
    entry state_dtls_setup state_join (some wait_join) 60 1
    ∷ entry state_join state_timeout none 0 0
    ∷ entry state_join state_join none 0 1
    ∷ entry state_join state_configure (some change_state_pending_timer) 25 1
    ∷ entry state_configure state_timeout none 0 0
    ∷ entry state_configure state_data_check (some data_check_timer) 30 1
    ∷ entry state_data_check state_timeout none 0 0
    ∷ entry state_data_check state_run (some echo_interval) 30 1
    ∷ entry state_run state_run (some echo_interval) 30 1
    ∷ entry state_run state_timeout none 0 0
    ∷ []

abbrev pub cisco_states : List MachineState
cisco_states =
    record (entry state_configure state_data_check none 0 1) {
      jump_prevstate = state_data_check;
      jump_state = state_run;
    }
    ∷ []
