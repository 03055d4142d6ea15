-- ===== src/Machine/Session/Tables.antt =====
-- Sessions over the tables of the CAPWAP module alone, and with those of the Cisco module.
use actube.Base.{
  ℕ, Mem, ℤ, ◌≡◌, ◌≢◌, refl, sym, ◌∙◌, subst, inl, inr, arith, Bool, true, false, Option, none,
  some, List, [], ◌∷◌, ◌++◌, ◌==◌, ◌&&◌, not, and-left, and-right,
}
use mathlib.Core.Bool.{false≢true}
use actube.MsgSet.Mavl.{Mavl}
use actube.MsgSet.States.{MachineState, same_state, add_states, last_state}
use actube.Conn.Process.{find_state}
use actube.Capwap.Names.{
  state_dtls_setup, state_join, state_configure, state_data_check, state_run, state_timeout,
}
use actube.Capwap.Messages.{messages}
use actube.Capwap.Cisco.{messages70, merged}
use actube.Capwap.Machine.{capwap_states, cisco_states}
use actube.Machine.{Place, Run, search, run_state_machine}
use actube.Machine.Session.{Session, joined, kept, accepted}
use actube.Machine.Session.Closed.{
  table_run, loaded, loaded_lem, run-table_run, checks-member, IsClosed, Session-member,
}

abbrev pub place : ℕ → ℕ → Place
place prevstate state = record { prevstate = prevstate; state = state }

abbrev capwap_places : List Place
capwap_places =
    place state_dtls_setup state_join
    ∷ place state_join state_join
    ∷ place state_join state_configure
    ∷ place state_configure state_data_check
    ∷ place state_join state_timeout
    ∷ place state_configure state_timeout
    ∷ place state_data_check state_timeout
    ∷ []

abbrev cisco_places : List Place
cisco_places =
    place state_data_check state_run
    ∷ place state_run state_run
    ∷ place state_run state_timeout
    ∷ capwap_places

abbrev is_some : {A : Type 0} → Option A → Bool
is_some none = false
is_some (some a) = true

-- The table has an entry, and two turns are enough.
abbrev handled : List MachineState → Place → Bool
handled table p = is_some (last_state (search p) none table) && is_some (table_run 2 table p)

is_some-value : {A : Type 0} (o : Option A) → is_some o ≡ true → (a : A) × (o ≡ some a)
is_some-value none h = absurd (false≢true h)
is_some-value (some a) h = (a, refl)

-- What `handled` says of the loaded states.
pub record Goes (M : Mavl MachineState same_state) (states : M.Tree) (p : Place) : Type 0 where
  pub entry : MachineState
  pub has_entry : M.get states (search p) ≡ some entry
  pub left : Run
  pub ends : run_state_machine M states 2 p ≡ some left

handled-Goes :
    (M : Mavl MachineState same_state) (table : List MachineState) (p : Place)
    → handled table p ≡ true
    → Goes M (loaded M table) p
handled-Goes M table p h =
    let (s, e) = is_some-value (last_state (search p) none table) (and-left _ _ h) in
    let (r, f) = is_some-value (table_run 2 table p) (and-right _ _ h) in
    record {
      entry = s;
      has_entry = loaded_lem M table (search p) ∙ e;
      left = r;
      ends = run-table_run M table 2 p ∙ f;
    }

capwap_places-IsClosed :
    {S : Type 0} (post : Option (S → Mem → ℤ → S))
    → IsClosed capwap_states (messages post) capwap_places
unfolding find_state
capwap_places-IsClosed post = record { starts = refl; each = refl }

cisco_places-IsClosed :
    {S : Type 0} (post : Option (S → Mem → ℤ → S))
    → IsClosed (capwap_states ++ cisco_states) (merged (messages post) messages70) cisco_places
unfolding find_state
cisco_places-IsClosed post = record { starts = refl; each = refl }

ne_of_not : (n k : ℕ) → not (n == k) ≡ true → n ≢ k
ne_of_not n k h = ground arith

one_ne_zero : ◌≢◌ {A = ℕ} 1 0
one_ne_zero h = absurd (omega arith)

module _ {S : Type 0} (M : Mavl MachineState same_state) (post : Option (S → Mem → ℤ → S)) where
  -- Over the CAPWAP module's tables alone: wherever a session gets, the state machine has an entry and
  -- returns after two turns at most, but no session ever gets to the state `run`.
  pub capwap-Session :
      (p : Place)
      → Session M (loaded M capwap_states) (messages post) p
      → Goes M (loaded M capwap_states) p × (p.state ≢ state_run)
  capwap-Session p s =
      let m =
        Session-member M capwap_states (messages post) capwap_places (capwap_places-IsClosed post)
          s in
      (
        handled-Goes M capwap_states p
            (checks-member (handled capwap_states) capwap_places p refl m),
        ne_of_not p.state state_run
            (checks-member (λ q. not (q.state == state_run)) capwap_places p refl m),
      )

  both_loaded :
      add_states M (loaded M capwap_states) cisco_states ≡ loaded M (capwap_states ++ cisco_states)
  unfolding add_states
  both_loaded = refl

  cisco_members :
      (p : Place)
      → Session M (loaded M (capwap_states ++ cisco_states)) (merged (messages post) messages70) p
      → Goes M (loaded M (capwap_states ++ cisco_states)) p
  cisco_members p s = handled-Goes M (capwap_states ++ cisco_states) p (
      checks-member (handled (capwap_states ++ cisco_states)) cisco_places p refl (
        Session-member M (capwap_states ++ cisco_states) (merged (messages post) messages70)
          cisco_places (cisco_places-IsClosed post) s))

  abbrev both : List MachineState
  both = capwap_states ++ cisco_states

  -- Joined, configured, and the request for the change of the state that ends the configuration.
  cisco_run :
      Session M
        (loaded M both)
        (merged (messages post) messages70)
        (place state_data_check state_run)
  unfolding find_state
  cisco_run =
      let started : Run = record {
        place = place state_dtls_setup state_join;
        timer = some (1, 60);
        retval = 1;
      } in
      let configured : Run = record {
        place = place state_join state_configure;
        timer = some (2, 25);
        retval = 1;
      } in
      let running : Run = record {
        place = place state_data_check state_run;
        timer = some (4, 30);
        retval = 1;
      } in
      let s : Session M (loaded M both) (merged (messages post) messages70)
          (place state_join state_configure) =
        accepted 2 started _ 4 joined (run-table_run M both 2 _) one_ne_zero
          (inr (inr (inr (inr (inr (inr (inl refl))))))) refl in
      let t : Session M (loaded M both) (merged (messages post) messages70)
          (place state_configure state_data_check) =
        accepted 2 configured _ 9 s (run-table_run M both 2 _) one_ne_zero
          (inr (inr (inr (inr (inr (inr (inr (inr (inr (inr (inl refl))))))))))) refl in
      kept 2 running t (run-table_run M both 2 _) one_ne_zero

  -- With the Cisco module's messages and states registered behind those of the CAPWAP module: wherever
  -- a session gets, the state machine has an entry and returns after two turns at most, and there is a
  -- session that gets to the state `run`.
  pub cisco-Session :
      (p : Place)
      → Session M
          (add_states M (loaded M capwap_states) cisco_states)
          (merged (messages post) messages70)
          p
      → Goes M (add_states M (loaded M capwap_states) cisco_states) p
        × Session M
            (add_states M (loaded M capwap_states) cisco_states)
            (merged (messages post) messages70)
            (place state_data_check state_run)
  cisco-Session =
      subst
        (λ t.
          (p : Place)
          → Session M t (merged (messages post) messages70) p
          → Goes M t p
            × Session M t (merged (messages post) messages70) (place state_data_check state_run))
        (sym both_loaded) (λ p s. (cisco_members p s, cisco_run))
