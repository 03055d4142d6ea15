-- ===== src/Capwap/Cisco.antt =====
-- The message definitions of src/mod/cisco/cisco_actions.c, less their elements and callbacks, and what they
-- make of the definitions that were registered before.
use actube.Base.{ℕ, Option, none, some, List, [], ◌∷◌, if◌then◌else◌, ◌==◌}
use actube.MsgSet.{State, MsgDef}
use actube.MsgSet.Add.{kept}
use actube.Capwap.Names.{
  msg_change_state_event_request, msg_change_state_event_response, msg_configuration_status_request,
  msg_configuration_status_response, msg_configuration_update_request, msg_discovery_request,
  msg_discovery_response, msg_echo_response, msg_join_request, msg_join_response,
  msg_primary_discovery_request, msg_primary_discovery_response, msg_wtp_event_request,
  msg_wtp_event_response, state_configure, state_join, state_run,
}
use actube.Capwap.Messages.{allowed, role_ac, role_wtp}

abbrev cisco_configuration_status_request_states : List State
cisco_configuration_status_request_states =
    allowed state_join state_configure ∷ allowed state_run state_run ∷ []

abbrev cisco_message : {S : Type 0} → ℕ → ℕ → Option (List State) → MsgDef S
cisco_message type receiver states = record {
  type = type;
  receiver = receiver;
  states = states;
  elements = [];
  preprocess = none;
  postprocess = none;
}

abbrev pub messages70 : {S : Type 0} → List (MsgDef S)
messages70 =
    cisco_message msg_discovery_request role_ac none
    ∷ cisco_message msg_discovery_response role_wtp none
    ∷ cisco_message msg_primary_discovery_request role_ac none
    ∷ cisco_message msg_primary_discovery_response role_wtp none
    ∷ cisco_message msg_join_request role_ac none
    ∷ cisco_message msg_join_response role_wtp none
    ∷ cisco_message msg_configuration_status_request role_ac
        (some cisco_configuration_status_request_states)
    ∷ cisco_message msg_configuration_status_response role_wtp none
    ∷ cisco_message msg_configuration_update_request role_wtp none
    ∷ cisco_message msg_wtp_event_request role_ac none
    ∷ cisco_message msg_wtp_event_response role_wtp none
    ∷ cisco_message msg_change_state_event_request role_ac none
    ∷ cisco_message msg_change_state_event_response role_wtp none
    ∷ cisco_message msg_echo_response role_wtp none
    ∷ []

-- A definition overwrites what `cw_msgset_add` finds of its type, but for the states and the callbacks
-- that it leaves out.
abbrev merge_one : {S : Type 0} → List (MsgDef S) → MsgDef S → List (MsgDef S)
merge_one [] msgdef = msgdef ∷ []
merge_one (msg ∷ msgs) msgdef =
    let rest = msg ∷ merge_one msgs msgdef in
    if msg.type == msgdef.type
    then record msg {
      receiver = msgdef.receiver;
      states = kept msgdef.states msg.states;
      preprocess = kept msgdef.preprocess msg.preprocess;
      postprocess = kept msgdef.postprocess msg.postprocess;
    }
      ∷ msgs
    else rest

abbrev pub merged : {S : Type 0} → List (MsgDef S) → List (MsgDef S) → List (MsgDef S)
merged msgs [] = msgs
merged msgs (msgdef ∷ msgdefs) = merged (merge_one msgs msgdef) msgdefs
