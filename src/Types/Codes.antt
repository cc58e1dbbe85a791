-- ===== src/Types/Codes.antt =====
-- libel/libel.h: return values, error codes, server statuses and the macro constants;
-- libel/config.h: the sizes and defaults of a build that sets nothing.
use embedded_client.Common.{ℕ, ◌*◌, ◌^◌, ℤ, negsuc}

pub data Status : Type 0 where
  success error : Status

pub data Errno : Type 0 where
  error_none error_never_open error_already_open error_bad_parameters error_bad_request_ctx : Errno
  error_bad_session_ctx error_decode_error error_encode_error error_resource_unavailable : Errno
  error_no_beacons error_location_unknown error_server_error error_no_plugin error_internal : Errno
  error_service_denied auth_retry auth_retry_8h auth_retry_16h auth_retry_1d : Errno
  auth_needs_time error_auth error_bad_time : Errno

-- `Sky_loc_status_t`; `status_other` is any number that the enumeration does not name.
pub data LocStatus : Type 0 where
  status_success status_unspecified_error status_bad_partner_id_error : LocStatus
  status_decode_error status_api_server_error status_auth_error : LocStatus
  status_unable_to_locate status_other : LocStatus

-- `Sky_tbr_state_t`
pub data TbrState : Type 0 where
  tbr_disabled tbr_unregistered tbr_registered : TbrState

abbrev pub timestamp_2019_03_01 : ℕ
timestamp_2019_03_01 = 1551398400

abbrev pub time_unavailable : ℕ
time_unavailable = 0

abbrev pub cache_empty : ℕ
cache_empty = 0

abbrev pub seconds_in_hour : ℕ
seconds_in_hour = 60 * 60

abbrev pub sky_magic : ℕ
sky_magic = 0xD1967806

abbrev pub beacon_magic : ℕ
beacon_magic = 0xf0f0

-- `uint16_t`
abbrev pub unknown_id1 : ℕ
unknown_id1 = 0xFFFF

abbrev pub unknown_id2 : ℕ
unknown_id2 = 0xFFFF

-- -1, in `int32_t`, `int64_t`, `int16_t`, `int32_t` and `int32_t`
abbrev pub unknown_id3 : ℤ
unknown_id3 = negsuc 0

abbrev pub unknown_id4 : ℤ
unknown_id4 = negsuc 0

abbrev pub unknown_id5 : ℤ
unknown_id5 = negsuc 0

abbrev pub unknown_id6 : ℤ
unknown_id6 = negsuc 0

abbrev pub unknown_ta : ℤ
unknown_ta = negsuc 0

abbrev pub total_beacons_max : ℕ
total_beacons_max = 28

abbrev pub max_device_id : ℕ
max_device_id = 16

abbrev pub max_sku_len : ℕ
max_sku_len = 32

-- AES_SIZE, and AES_KEYLEN of the AES-128 library
abbrev pub aes_size : ℕ
aes_size = 16

abbrev pub sky_max_ul_app_data : ℕ
sky_max_ul_app_data = 100

abbrev pub sky_max_dl_app_data : ℕ
sky_max_dl_app_data = 100

abbrev pub cache_size : ℕ
cache_size = 1

-- `SKY_LOG_LEVEL_ERROR`
abbrev pub log_level_error : ℕ
log_level_error = 2

abbrev pub max_ap_beacons_max : ℕ
max_ap_beacons_max = 20

abbrev pub max_vap_per_ap_max : ℕ
max_vap_per_ap_max = 4

abbrev pub max_vap_per_rq_max : ℕ
max_vap_per_rq_max = 12

abbrev pub cache_match_threshold_used : ℕ
cache_match_threshold_used = 50

abbrev pub cache_match_threshold_all : ℕ
cache_match_threshold_all = 50

abbrev pub cache_age_threshold_max : ℕ
cache_age_threshold_max = 24

abbrev pub cache_beacon_threshold_max : ℕ
cache_beacon_threshold_max = 5

abbrev pub cache_rssi_threshold : ℕ
cache_rssi_threshold = 90

-- The modulus of a `uint32_t`.
abbrev pub u32 : ℕ
u32 = 2 ^ 32
