-- ===== src/Names.antt =====
-- libel/libel.c: the texts for error codes, for statuses of a server, for types of beacons and for
-- sources of a location. An error code that the enumeration does not name is not modelled.
pub mod Distinct
use embedded_client.Common.{if◌then◌else◌, some, none, Option}
use embedded_client.Types.{
  auth_retry_1d, error_none, beacon_ap, status_success, status_unable_to_locate,
  error_bad_session_ctx, error, beacon_cdma, status_decode_error, auth_retry,
  status_api_server_error, error_resource_unavailable, error_bad_time, error_bad_parameters,
  error_bad_request_ctx, auth_retry_16h, error_internal, auth_needs_time, error_decode_error,
  error_auth, error_location_unknown, beacon_nr, beacon_lte, beacon_nbiot, error_already_open,
  error_no_beacons, error_no_plugin, status_other, beacon_gsm, status_bad_partner_id_error,
  beacon_max, error_service_denied, beacon_ble, auth_retry_8h, status_unspecified_error,
  beacon_umts, error_encode_error, error_never_open, error_server_error, status_auth_error, Errno,
  LocStatus, BeaconType, Beacon, is_cell_nmr,
}
use Prim.Native.String.{String}

unfoldable pub sky_perror : Errno → String
sky_perror error_none = "No error"
sky_perror error_never_open = "Must open first"
sky_perror error_already_open = "Must close before opening with new parameters"
sky_perror error_bad_parameters = "Validation of parameters failed"
sky_perror error_bad_request_ctx = "The request ctx buffer is corrupt"
sky_perror error_bad_session_ctx = "The session buffer is corrupt"
sky_perror error_encode_error = "The request could not be encoded"
sky_perror error_decode_error = "The response could not be decoded"
sky_perror error_resource_unavailable = "Can't allocate non-volatile storage"
sky_perror error_no_beacons = "At least one beacon must be added"
sky_perror error_location_unknown = "Server failed to determine location"
sky_perror error_server_error = "Server responded with an error"
sky_perror error_no_plugin = "At least one plugin must be registered"
sky_perror error_internal = "An unexpected error occured"
sky_perror error_service_denied = "Service blocked due to repeated errors"
sky_perror auth_retry = "Operation unauthorized, retry now"
sky_perror auth_retry_8h = "Operation unauthorized, retry in 8 hours"
sky_perror auth_retry_16h = "Operation unauthorized, retry in 16 hours"
sky_perror auth_retry_1d = "Operation unauthorized, retry in 24 hours"
sky_perror auth_needs_time = "Operation needs good time of day"
sky_perror error_auth = "Operation failed due to authentication error"
sky_perror error_bad_time = "Operation failed due to timestamp out of range"

unfoldable pub sky_pserver_status : LocStatus → String
sky_pserver_status status_success = "Server success"
sky_pserver_status status_unspecified_error = "Server reports unspecified error"
sky_pserver_status status_bad_partner_id_error = "Server reports bad partner id error"
sky_pserver_status status_decode_error = "Server reports error decoding request body"
sky_pserver_status status_api_server_error = "Server error determining location"
sky_pserver_status status_auth_error = "Server error authentication error"
sky_pserver_status status_unable_to_locate = "Server reports unable to determine location"
sky_pserver_status status_other = "Unknown server status"

-- The text for a cell that is a neighbor's report without an id.
abbrev pub nmr_name : BeaconType → String
nmr_name beacon_lte = "LTE-NMR"
nmr_name beacon_nbiot = "NB-IoT-NMR"
nmr_name beacon_umts = "UMTS-NMR"
nmr_name beacon_nr = "NR-NMR"
nmr_name beacon_gsm = "GSM-NMR"
nmr_name _ = "???-NMR"

abbrev pub type_name : BeaconType → String
type_name beacon_ap = "Wi-Fi"
type_name beacon_ble = "BLE"
type_name beacon_cdma = "CDMA"
type_name beacon_gsm = "GSM"
type_name beacon_lte = "LTE"
type_name beacon_nbiot = "NB-IoT"
type_name beacon_umts = "UMTS"
type_name beacon_nr = "NR"
type_name beacon_max = "???"

unfoldable pub sky_pbeacon : Beacon → String
sky_pbeacon b = if is_cell_nmr b then nmr_name b.type else type_name b.type

-- `Sky_loc_source_t`
pub data LocSource : Type 0 where
  source_unknown source_hybrid source_cell source_wifi source_gnss source_rfpm source_max :
      LocSource

abbrev pub source_name : LocSource → String
source_name source_cell = "Cell"
source_name source_gnss = "GNSS"
source_name source_hybrid = "Hybrid"
source_name source_wifi = "Wi-Fi"
source_name source_rfpm = "RFPM"
source_name _ = "???"

-- Of a location that is given, the text for its source; `none` is NULL.
unfoldable pub sky_psource : Option LocSource → Option String
sky_psource none = none
sky_psource (some source) = some (source_name source)
