-- ===== src/Capwap/Names.antt =====
-- The states, message types and element ids of src/cw/capwap.h that the tables of the CAPWAP module use.
use actube.Base.{ℕ}

abbrev pub state_none : ℕ
state_none = 0

abbrev pub state_discovery : ℕ
state_discovery = 1

abbrev pub state_join : ℕ
state_join = 2

abbrev pub state_join_complete : ℕ
state_join_complete = 3

abbrev pub state_configure : ℕ
state_configure = 4

abbrev pub state_dtls_setup : ℕ
state_dtls_setup = 5

abbrev pub state_image_data : ℕ
state_image_data = 6

abbrev pub state_update : ℕ
state_update = 7

abbrev pub state_run : ℕ
state_run = 8

abbrev pub state_data_check : ℕ
state_data_check = 9

abbrev pub state_timeout : ℕ
state_timeout = 10

abbrev pub msg_discovery_request : ℕ
msg_discovery_request = 1

abbrev pub msg_discovery_response : ℕ
msg_discovery_response = 2

abbrev pub msg_join_request : ℕ
msg_join_request = 3

abbrev pub msg_join_response : ℕ
msg_join_response = 4

abbrev pub msg_configuration_status_request : ℕ
msg_configuration_status_request = 5

abbrev pub msg_configuration_status_response : ℕ
msg_configuration_status_response = 6

abbrev pub msg_configuration_update_request : ℕ
msg_configuration_update_request = 7

abbrev pub msg_configuration_update_response : ℕ
msg_configuration_update_response = 8

abbrev pub msg_wtp_event_request : ℕ
msg_wtp_event_request = 9

abbrev pub msg_wtp_event_response : ℕ
msg_wtp_event_response = 10

abbrev pub msg_change_state_event_request : ℕ
msg_change_state_event_request = 11

abbrev pub msg_change_state_event_response : ℕ
msg_change_state_event_response = 12

abbrev pub msg_echo_request : ℕ
msg_echo_request = 13

abbrev pub msg_echo_response : ℕ
msg_echo_response = 14

abbrev pub msg_primary_discovery_request : ℕ
msg_primary_discovery_request = 19

abbrev pub msg_primary_discovery_response : ℕ
msg_primary_discovery_response = 20

abbrev pub elem_discovery_type : ℕ
elem_discovery_type = 20

abbrev pub elem_wtp_mac_type : ℕ
elem_wtp_mac_type = 44

abbrev pub elem_wtp_board_data : ℕ
elem_wtp_board_data = 38

abbrev pub elem_wtp_descriptor : ℕ
elem_wtp_descriptor = 39

abbrev pub elem_wtp_frame_tunnel_mode : ℕ
elem_wtp_frame_tunnel_mode = 41

abbrev pub elem_vendor_specific_payload : ℕ
elem_vendor_specific_payload = 37

abbrev pub elem_mtu_discovery_padding : ℕ
elem_mtu_discovery_padding = 52

abbrev pub elem_ac_descriptor : ℕ
elem_ac_descriptor = 1

abbrev pub elem_ac_name : ℕ
elem_ac_name = 4

abbrev pub elem_capwap_control_ipv4_address : ℕ
elem_capwap_control_ipv4_address = 10

abbrev pub elem_capwap_control_ipv6_address : ℕ
elem_capwap_control_ipv6_address = 11

abbrev pub elem_location_data : ℕ
elem_location_data = 28

abbrev pub elem_wtp_name : ℕ
elem_wtp_name = 45

abbrev pub elem_session_id : ℕ
elem_session_id = 35

abbrev pub elem_result_code : ℕ
elem_result_code = 33

abbrev pub elem_ecn_support : ℕ
elem_ecn_support = 53

abbrev pub elem_maximum_message_length : ℕ
elem_maximum_message_length = 29

abbrev pub elem_capwap_local_ipv4_address : ℕ
elem_capwap_local_ipv4_address = 30

abbrev pub elem_capwap_local_ipv6_address : ℕ
elem_capwap_local_ipv6_address = 50

abbrev pub elem_statistics_timer : ℕ
elem_statistics_timer = 36

abbrev pub elem_wtp_reboot_statistics : ℕ
elem_wtp_reboot_statistics = 48

abbrev pub elem_radio_administrative_state : ℕ
elem_radio_administrative_state = 31

abbrev pub elem_capwap_timers : ℕ
elem_capwap_timers = 12

abbrev pub elem_decryption_error_report_period : ℕ
elem_decryption_error_report_period = 16

abbrev pub elem_idle_timeout : ℕ
elem_idle_timeout = 23

abbrev pub elem_wtp_fallback : ℕ
elem_wtp_fallback = 40

abbrev pub elem_radio_operational_state : ℕ
elem_radio_operational_state = 32

abbrev pub elem_ac_name_with_priority : ℕ
elem_ac_name_with_priority = 5

abbrev pub elem_image_identifier : ℕ
elem_image_identifier = 25
