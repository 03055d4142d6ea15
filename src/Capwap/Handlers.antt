-- ===== src/Capwap/Handlers.antt =====
-- The element handlers of src/mod/capwap/capwap_actions.c: the id of each and the lengths it takes. What the
-- callbacks do is not looked at here.
use actube.Base.{ℕ, List, [], ◌∷◌}
use actube.Capwap.Names.{
  elem_discovery_type, elem_wtp_mac_type, elem_wtp_board_data, elem_wtp_descriptor,
  elem_wtp_frame_tunnel_mode, elem_vendor_specific_payload, elem_mtu_discovery_padding,
  elem_ac_descriptor, elem_ac_name, elem_capwap_control_ipv4_address,
  elem_capwap_control_ipv6_address, elem_location_data, elem_wtp_name, elem_session_id,
  elem_result_code, elem_ecn_support, elem_maximum_message_length, elem_capwap_local_ipv4_address,
  elem_capwap_local_ipv6_address, elem_statistics_timer, elem_wtp_reboot_statistics,
  elem_radio_administrative_state, elem_capwap_timers, elem_decryption_error_report_period,
  elem_idle_timeout, elem_wtp_fallback, elem_radio_operational_state, elem_ac_name_with_priority,
  elem_image_identifier,
}

pub record Handler : Type 0 where
  pub id : ℕ
  pub vendor : ℕ
  pub proto : ℕ
  pub min_len : ℕ
  pub max_len : ℕ

abbrev handler : ℕ → ℕ → ℕ → Handler
handler id min_len max_len = record {
  id = id;
  vendor = 0;
  proto = 0;
  min_len = min_len;
  max_len = max_len;
}

abbrev pub handlers : List Handler
handlers =
    handler elem_discovery_type 1 1
    ∷ handler elem_wtp_mac_type 1 1
    ∷ handler elem_wtp_board_data 14 1024
    ∷ handler elem_wtp_descriptor 33 1024
    ∷ handler elem_wtp_frame_tunnel_mode 1 1
    ∷ handler elem_vendor_specific_payload 0 0
    ∷ handler elem_mtu_discovery_padding 0 0
    ∷ handler elem_ac_descriptor 0 0
    ∷ handler elem_ac_name 1 512
    ∷ handler elem_capwap_control_ipv4_address 6 6
    ∷ handler elem_capwap_control_ipv6_address 18 18
    ∷ handler elem_location_data 1 1024
    ∷ handler elem_wtp_name 1 512
    ∷ handler elem_session_id 16 16
    ∷ handler elem_result_code 4 4
    ∷ handler elem_ecn_support 1 1
    ∷ handler elem_maximum_message_length 2 2
    ∷ handler elem_capwap_local_ipv4_address 4 4
    ∷ handler elem_capwap_local_ipv6_address 16 16
    ∷ handler elem_statistics_timer 2 2
    ∷ handler elem_wtp_reboot_statistics 15 15
    ∷ handler elem_radio_administrative_state 2 2
    ∷ handler elem_capwap_timers 2 2
    ∷ handler elem_decryption_error_report_period 3 3
    ∷ handler elem_idle_timeout 4 4
    ∷ handler elem_wtp_fallback 1 1
    ∷ handler elem_radio_operational_state 3 3
    ∷ handler elem_ac_name_with_priority 1 513
    ∷ handler elem_image_identifier 5 1028
    ∷ []
