-- ===== src/Lib.antt =====
-- The location library of this repository, an embedded client in C, collects scans of Wi-Fi access
-- points and cells into a request, keeps past scans with their locations in a cache, and exchanges
-- requests and replies with a server. This is a model of its core, and the theorems on it.
--
-- Parts and files:
--   Types          libel/libel.h, libel/beacons.h, libel/config.h: codes, beacons, the session and
--                  the request context, with the field names of the structs.
--   Validate, Crc  libel/utilities.c, libel/crc32.c: validate_beacon, validate_request_ctx,
--                  validate_session_ctx and the checksum in their headers.
--   Mac            mac_similar of plugins/ap_plugin_basic.c.
--   Float          IEEE single precision, in which the AP plugin computes priorities.
--   Beacons        libel/beacons.c: remove_beacon, insert_beacon, add_beacon and the lookups in the
--                  cache (Beacons/Remove, Insert, Add, Cache).
--   Plugins        plugins/ap_plugin_basic.c, plugins/cell_plugin_basic.c: equal, compare and
--                  remove_worst (Plugins/Compare, ApWorst, Chain), and libel/plugin.c, which asks
--                  the registered plugins in turn.
--                  Plugins/CellMatch and ApMatch are the searches of the cache by the plugins,
--                  and Beacons/Search is sky_search_cache, which asks them.
--                  Plugins/Register is the linked list of their tables.
--   Vaps           libel/utilities.c: select_vap, get_num_vaps and get_vap_data, the virtual groups.
--   Fields         libel/utilities.c: the counts and fields that the encoder reads.
--   Encode         libel/protocol/proto.c: the functions that write APs, virtual groups and cells, as
--                  calls of nanopb.
--   Gnss           libel/libel.c, libel/beacons.c, libel/utilities.c, libel/protocol/proto.c:
--                  sky_add_gnss, cached_gnss_worse, the fields of a fix and encode_gnss_fields.
--   Dispatch       libel/protocol/proto.c: Rq_callback, which chooses among the encoders.
--   Request        libel/protocol/proto.c, libel/libel.c: serialize_request with its sizes,
--                  sky_sizeof_request_buf and sky_encode_request, and the fields of
--                  the body (Request/Kinds).
--   Config         sky_get_option, sky_set_option, config_defaults and apply_config_overrides of
--                  libel/libel.c, libel/utilities.c and libel/protocol/proto.c.
--   Session        libel/libel.c, libel/protocol/proto.c: sky_open (Session/Open),
--                  sky_new_request, sky_decode_response with
--                  the registration and its backoff, sky_close;
--                  apply_used_info_to_ap, which marks the APs that the server has used.
--   Api            libel/libel.c: the calls that add a beacon, and sequences of them.
--   Names          libel/libel.c: the texts for codes, statuses, types of beacons and sources.
--   Hex            sample_client/config.c: hex2bin and bin2hex.
--   Tests          sample data, and the theorems at it.
--
-- An application opens the session, new or restored, and then a request (Session), adds beacons
-- (Api); each addition validates the context and the beacon (Validate), marks it by the cache,
-- inserts it in order and, over the limits of the configuration (Config), has the plugins take
-- one beacon out (Beacons, Plugins). A search of the cache may answer it (Beacons/Search); else
-- it is encoded (Request, Encode, Vaps). The reply updates the configuration, the registration
-- and the cache (Session).
--
-- How state is modelled: an operation takes the request context and returns it with the error code
-- and the status. The context holds its session, which nothing else reaches meanwhile. The array of
-- beacons is two lists, the used slots and the others; a write past its end is a fault of its own.
-- Numbers are natural numbers, signed where the C type is, and arithmetic that may wrap is written
-- with its modulus. An index below 0 that is read but whose value is not used is read as 0.
-- A pointer that the caller may leave out is an option, and a read through NULL an outcome of its own.
-- All loops are recursions on a list or on a bounded counter, but for two. The outer loop of select_vap
-- has fuel of max_vap_per_rq + 1 rounds: each round but the last keeps one child more. The walk along
-- the tables of the plugins has fuel that is enough if the list has at most as many tables.
--
-- The sizes are those of libel/config.h when a build sets nothing: 28 beacons of which 20 are APs,
-- one slot more in a request, with Wi-Fi, cells, GNSS, logging and sanity checks.
--
-- Not modelled: encryption, downlink data, the location in a cacheline and logging. nanopb and AES
-- are not part of the repository: the writes and sizes of nanopb and the decoding of a reply are
-- parameters of the definitions that use them, and so are the arithmetic of double precision with the
-- mathematical functions of the C library (the record Doubles of Gnss), and what the machine makes of a NaN that is converted to an integer. The
-- search of the cache takes the comparison of two fixes as a parameter; Gnss has the function for it.
-- The handling of a reply takes the marking of used APs as one; Session/Used has the function for it.
pub mod Api
pub mod Beacons
pub mod Common
pub mod Config
pub mod Crc
pub mod Dispatch
pub mod Encode
pub mod Errors
pub mod Fields
pub mod Float
pub mod Gnss
pub mod Hex
pub mod Mac
pub mod Names
pub mod Plugins
pub mod Request
pub mod Session
pub mod Tests
pub mod Types
pub mod Validate
pub mod Vaps
