-- ===== src/Capwap/Messages.antt =====
-- The message definitions of src/mod/capwap/capwap_actions.c: the states and the elements of each.
use actube.Base.{ℕ, Mem, ℤ, Bool, true, false, Option, none, some, List, [], ◌∷◌}
use actube.MsgSet.{ElemDef, State, MsgDef}
use actube.MsgSet.Update.{cw_ignore}
use actube.Capwap.Names.{
  elem_ac_descriptor, elem_ac_name, elem_ac_name_with_priority, elem_capwap_control_ipv4_address,
  elem_capwap_control_ipv6_address, elem_capwap_local_ipv4_address, elem_capwap_local_ipv6_address,
  elem_capwap_timers, elem_decryption_error_report_period, elem_discovery_type, elem_ecn_support,
  elem_idle_timeout, elem_image_identifier, elem_location_data, elem_maximum_message_length,
  elem_mtu_discovery_padding, elem_radio_administrative_state, elem_radio_operational_state,
  elem_result_code, elem_session_id, elem_statistics_timer, elem_vendor_specific_payload,
  elem_wtp_board_data, elem_wtp_descriptor, elem_wtp_fallback, elem_wtp_frame_tunnel_mode,
  elem_wtp_mac_type, elem_wtp_name, elem_wtp_reboot_statistics, msg_change_state_event_request,
  msg_change_state_event_response, msg_configuration_status_request,
  msg_configuration_status_response, msg_configuration_update_request,
  msg_configuration_update_response, msg_discovery_request, msg_discovery_response,
  msg_echo_request, msg_echo_response, msg_join_request, msg_join_response,
  msg_primary_discovery_request, msg_primary_discovery_response, msg_wtp_event_request,
  msg_wtp_event_response, state_configure, state_data_check, state_discovery, state_join, state_run,
}

-- A row of an element table: no protocol and no vendor.
abbrev pub elem : ℕ → Bool → ℕ → ElemDef
elem id mand op = record { proto = 0; vendor = 0; id = id; mand = mand; op = op }

abbrev pub allowed : ℕ → ℕ → State
allowed state next = record { state = state; next = next }

abbrev pub discovery_request_elements : List ElemDef
discovery_request_elements =
    elem elem_discovery_type true 0
    ∷ elem elem_wtp_board_data true 0
    ∷ elem elem_wtp_descriptor true 0
    ∷ elem elem_wtp_frame_tunnel_mode true 0
    ∷ elem elem_wtp_mac_type true 0
    ∷ elem elem_mtu_discovery_padding false 0
    ∷ elem elem_vendor_specific_payload false cw_ignore
    ∷ []

abbrev pub discovery_response_elements : List ElemDef
discovery_response_elements =
    elem elem_ac_descriptor true 0
    ∷ elem elem_ac_name true 0
    ∷ elem elem_capwap_control_ipv4_address true 0
    ∷ elem elem_capwap_control_ipv6_address true 0
    ∷ elem elem_vendor_specific_payload false cw_ignore
    ∷ []

abbrev pub join_request_elements : List ElemDef
join_request_elements =
    elem elem_location_data true 0
    ∷ elem elem_wtp_board_data true 0
    ∷ elem elem_wtp_descriptor true 0
    ∷ elem elem_wtp_name true 0
    ∷ elem elem_session_id true 0
    ∷ elem elem_wtp_frame_tunnel_mode true 0
    ∷ elem elem_wtp_mac_type true 0
    ∷ elem elem_ecn_support true 0
    ∷ elem elem_capwap_local_ipv4_address true 0
    ∷ elem elem_capwap_local_ipv6_address true 0
    ∷ elem elem_maximum_message_length false 0
    ∷ elem elem_vendor_specific_payload false cw_ignore
    ∷ []

abbrev pub join_response_elements : List ElemDef
join_response_elements =
    elem elem_result_code true 0
    ∷ elem elem_ac_descriptor true 0
    ∷ elem elem_ac_name true 0
    ∷ elem elem_ecn_support true 0
    ∷ elem elem_capwap_control_ipv4_address true 0
    ∷ elem elem_capwap_control_ipv6_address true 0
    ∷ elem elem_capwap_local_ipv4_address true 0
    ∷ elem elem_capwap_local_ipv6_address true 0
    ∷ elem elem_maximum_message_length false 0
    ∷ elem elem_vendor_specific_payload false cw_ignore
    ∷ []

abbrev pub configuration_status_request_elements : List ElemDef
configuration_status_request_elements =
    elem elem_ac_name true 0
    ∷ elem elem_radio_administrative_state true 0
    ∷ elem elem_statistics_timer true 0
    ∷ elem elem_wtp_reboot_statistics true 0
    ∷ elem elem_ac_name_with_priority false 0
    ∷ elem elem_vendor_specific_payload false cw_ignore
    ∷ []

abbrev pub configuration_status_response_elements : List ElemDef
configuration_status_response_elements =
    elem elem_capwap_timers true 0
    ∷ elem elem_decryption_error_report_period true 0
    ∷ elem elem_idle_timeout true 0
    ∷ elem elem_wtp_fallback true 0
    ∷ elem elem_vendor_specific_payload false cw_ignore
    ∷ []

abbrev pub configuration_update_request_elements : List ElemDef
configuration_update_request_elements =
    elem elem_radio_administrative_state false 0
    ∷ elem elem_statistics_timer false 0
    ∷ elem elem_image_identifier false 0
    ∷ elem elem_vendor_specific_payload false cw_ignore
    ∷ []

abbrev pub configuration_update_response_elements : List ElemDef
configuration_update_response_elements = elem elem_result_code true 0 ∷ []

abbrev pub change_state_event_request_elements : List ElemDef
change_state_event_request_elements =
    elem elem_radio_operational_state true 0
    ∷ elem elem_result_code true 0
    ∷ elem elem_vendor_specific_payload false cw_ignore
    ∷ []

abbrev pub change_state_event_response_elements : List ElemDef
change_state_event_response_elements = elem elem_result_code true 0 ∷ []

abbrev pub wtp_event_request_elements : List ElemDef
wtp_event_request_elements = elem elem_vendor_specific_payload false cw_ignore ∷ []

abbrev pub wtp_event_response_elements : List ElemDef
wtp_event_response_elements = elem elem_result_code true 0 ∷ []

abbrev pub echo_request_elements : List ElemDef
echo_request_elements = elem elem_vendor_specific_payload false cw_ignore ∷ []

abbrev pub echo_response_elements : List ElemDef
echo_response_elements = elem elem_vendor_specific_payload false cw_ignore ∷ []

abbrev pub discovery_request_states : List State
discovery_request_states = allowed state_discovery state_discovery ∷ []

abbrev pub discovery_response_states : List State
discovery_response_states = allowed state_discovery state_discovery ∷ []

abbrev pub join_request_states : List State
join_request_states = allowed state_join state_join ∷ []

abbrev pub join_response_states : List State
join_response_states = allowed state_join state_join ∷ []

abbrev pub configuration_status_request_states : List State
configuration_status_request_states = allowed state_join state_configure ∷ []

abbrev pub configuration_status_response_states : List State
configuration_status_response_states = allowed state_join state_join ∷ []

abbrev pub configuration_update_request_states : List State
configuration_update_request_states = allowed state_run state_run ∷ []

abbrev pub configuration_update_response_states : List State
configuration_update_response_states = allowed state_run state_run ∷ []

abbrev pub change_state_event_request_states : List State
change_state_event_request_states =
    allowed state_configure state_data_check ∷ allowed state_run state_run ∷ []

abbrev pub change_state_event_response_states : List State
change_state_event_response_states =
    allowed state_join state_join ∷ allowed state_run state_run ∷ []

abbrev pub wtp_event_request_states : List State
wtp_event_request_states = allowed state_run state_run ∷ []

abbrev pub wtp_event_response_states : List State
wtp_event_response_states = allowed state_join 0 ∷ []

abbrev pub echo_request_states : List State
echo_request_states = allowed state_run state_run ∷ []

abbrev pub echo_response_states : List State
echo_response_states = allowed state_run 0 ∷ []

-- A row of the message table.
abbrev message : {S : Type 0} → ℕ → ℕ → List State → List ElemDef → MsgDef S
message type receiver states elements = record {
  type = type;
  receiver = receiver;
  states = some states;
  elements = elements;
  preprocess = none;
  postprocess = none;
}

abbrev pub role_ac : ℕ
role_ac = 1

abbrev pub role_wtp : ℕ
role_wtp = 2

-- The callback that a Join Request has is an argument.
abbrev pub messages : {S : Type 0} → Option (S → Mem → ℤ → S) → List (MsgDef S)
messages postprocess_join_request =
    message msg_discovery_request role_ac discovery_request_states discovery_request_elements
    ∷ message msg_discovery_response role_wtp discovery_response_states discovery_response_elements
    ∷ message msg_primary_discovery_request role_ac discovery_request_states
        discovery_request_elements
    ∷ message msg_primary_discovery_response role_wtp discovery_response_states
        discovery_response_elements
    ∷ record (message msg_join_request role_ac join_request_states join_request_elements) {
      postprocess = postprocess_join_request;
    }
    ∷ message msg_join_response role_wtp join_response_states join_response_elements
    ∷ message msg_configuration_status_request role_ac configuration_status_request_states
        configuration_status_request_elements
    ∷ message msg_configuration_status_response role_wtp configuration_status_response_states
        configuration_status_response_elements
    ∷ message msg_configuration_update_request role_wtp configuration_update_request_states
        configuration_update_request_elements
    ∷ message msg_configuration_update_response role_ac configuration_update_response_states
        configuration_update_response_elements
    ∷ message msg_change_state_event_request role_ac change_state_event_request_states
        change_state_event_request_elements
    ∷ message msg_change_state_event_response role_wtp change_state_event_response_states
        change_state_event_response_elements
    ∷ message msg_wtp_event_request role_ac wtp_event_request_states wtp_event_request_elements
    ∷ message msg_wtp_event_response role_wtp wtp_event_response_states wtp_event_response_elements
    ∷ message msg_echo_request role_ac echo_request_states echo_request_elements
    ∷ message msg_echo_response role_wtp echo_response_states echo_response_elements
    ∷ []
