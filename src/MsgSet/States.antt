-- ===== src/MsgSet/States.antt =====
-- The states of the state machine: `cmp_machinestate` and `cw_msgset_add_states` of src/cw/msgset.c.
use actube.Base.{
  ℕ, ◌≡◌, refl, ap, ◌∙◌, inl, inr, Bool, Option, some, List, [], ◌∷◌, if◌then◌else◌, ◌==◌, ◌&&◌,
  Bool-cases,
}
use actube.MsgSet.Mavl.{Mavl, replace, get-replace}

-- The timer's key, its default and the message are what the record holds besides.
pub record MachineState : Type 0 where
  pub prevstate : ℕ
  pub state : ℕ
  pub timer_key : Option ℕ
  pub timer_default : ℕ
  pub retval : ℕ
  pub jump_prevstate : ℕ
  pub jump_state : ℕ

abbrev pub same_state : MachineState → MachineState → Bool
same_state s1 s2 = s1.state == s2.state && s1.prevstate == s2.prevstate

-- The last entry of the array that is about the transition `x`, else `old`.
abbrev pub last_state : MachineState → Option MachineState → List MachineState → Option MachineState
last_state x old [] = old
last_state x old (s ∷ ss) =
    let rest = last_state x (if same_state s x then some s else old) ss in
    if s.state == 0 then old else rest

module _ (M : Mavl MachineState same_state) where
  open M use {Tree, get}

  -- The array ends with an entry whose state is 0.
  unfoldable pub add_states : Tree → List MachineState → Tree
  add_states t [] = t
  add_states t (s ∷ ss) =
      let rest = add_states (replace M t s) ss in if s.state == 0 then t else rest

  -- A transition is found as the last entry of the array that is about it gives it, and as it was
  -- before if none is.
  pub get-add_states :
      (ss : List MachineState) (t : Tree) (x : MachineState)
      → get (add_states t ss) x ≡ last_state x (get t x) ss
  unfolding add_states
  get-add_states [] t x = refl
  get-add_states (s ∷ ss) t x = elim (Bool-cases (s.state == 0)) [
    | inl end ↦ rw end refl
    | inr more ↦
        rw more
          (get-add_states ss (replace M t s) x ∙ ap (λ o. last_state x o ss) (get-replace M t s x))
  ]
