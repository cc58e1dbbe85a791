-- ===== src/Names/Distinct.antt =====
-- libel/libel.c: which texts tell codes apart.
use embedded_client.Types.{
  auth_retry_1d, error_never_open, error_none, auth_retry_8h, error_location_unknown,
  error_no_plugin, error_service_denied, error_server_error, auth_retry_16h, error_auth,
  error_bad_parameters, error_resource_unavailable, error_bad_request_ctx, error_internal,
  auth_needs_time, error_bad_session_ctx, auth_retry, error_no_beacons, error_encode_error,
  error_already_open, error_bad_time, error_decode_error, Errno, status_api_server_error,
  beacon_cdma, status_auth_error, status_unspecified_error, status_decode_error, beacon_ble,
  beacon_nbiot, beacon_nr, beacon_gsm, status_unable_to_locate, beacon_max, beacon_lte,
  status_success, beacon_ap, status_bad_partner_id_error, status_other, beacon_umts, LocStatus,
  Beacon, BeaconType, is_cell_nmr, is_cell,
}
use embedded_client.Common.{
  [], none, some, refl, ◌∷◌, if◌then◌else◌, ◌∙◌, List, Option, ◌≡◌, true, false, sym, Bool, ap,
  arith, ◌≢◌,
}
use embedded_client.Names.{
  sky_perror, sky_pserver_status, sky_pbeacon, nmr_name, type_name, sky_psource, LocSource,
  source_name, source_max, source_hybrid, source_rfpm, source_cell, source_gnss, source_wifi,
  source_unknown,
}
use mathlib.Core.Option.{some-injective}
use Prim.Native.String.{String}
use text.Mathlib.Text.{◌==◌ as str_eq}

module _ {ℓ} {A : Type ℓ} (name : A → String) where
  -- The first of the codes that has the text.
  named : List A → String → Option A
  named [] t = none
  named (a ∷ codes) t = let rest = named codes t in if str_eq (name a) t then some a else rest

abbrev every_errno : List Errno
every_errno =
    error_none ∷ error_never_open ∷ error_already_open ∷ error_bad_parameters
    ∷ error_bad_request_ctx ∷ error_bad_session_ctx ∷ error_encode_error ∷ error_decode_error
    ∷ error_resource_unavailable ∷ error_no_beacons ∷ error_location_unknown ∷ error_server_error
    ∷ error_no_plugin ∷ error_internal ∷ error_service_denied ∷ auth_retry ∷ auth_retry_8h
    ∷ auth_retry_16h ∷ auth_retry_1d ∷ auth_needs_time ∷ error_auth ∷ error_bad_time ∷ []

errno_of-sky_perror : (e : Errno) → named sky_perror every_errno (sky_perror e) ≡ some e
unfolding sky_perror named
errno_of-sky_perror error_none = refl
errno_of-sky_perror error_never_open = refl
errno_of-sky_perror error_already_open = refl
errno_of-sky_perror error_bad_parameters = refl
errno_of-sky_perror error_bad_request_ctx = refl
errno_of-sky_perror error_bad_session_ctx = refl
errno_of-sky_perror error_encode_error = refl
errno_of-sky_perror error_decode_error = refl
errno_of-sky_perror error_resource_unavailable = refl
errno_of-sky_perror error_no_beacons = refl
errno_of-sky_perror error_location_unknown = refl
errno_of-sky_perror error_server_error = refl
errno_of-sky_perror error_no_plugin = refl
errno_of-sky_perror error_internal = refl
errno_of-sky_perror error_service_denied = refl
errno_of-sky_perror auth_retry = refl
errno_of-sky_perror auth_retry_8h = refl
errno_of-sky_perror auth_retry_16h = refl
errno_of-sky_perror auth_retry_1d = refl
errno_of-sky_perror auth_needs_time = refl
errno_of-sky_perror error_auth = refl
errno_of-sky_perror error_bad_time = refl

-- Names from which a reader gets back what they name are apart.
read_back {ℓ} :
    {A : Type ℓ} (name : A → String) (codes : List A) (a b : A)
    → named name codes (name a) ≡ some a
    → named name codes (name b) ≡ some b
    → name a ≡ name b
    → a ≡ b
read_back name codes a b ea eb e = some-injective a b (sym ea ∙ ap (named name codes) e ∙ eb)

-- No two error codes have the same text.
pub sky_perror-injective : (a b : Errno) → sky_perror a ≡ sky_perror b → a ≡ b
sky_perror-injective a b e =
    read_back sky_perror every_errno a b (errno_of-sky_perror a) (errno_of-sky_perror b) e

abbrev every_status : List LocStatus
every_status =
    status_success ∷ status_unspecified_error ∷ status_bad_partner_id_error ∷ status_decode_error
    ∷ status_api_server_error ∷ status_auth_error ∷ status_unable_to_locate ∷ status_other ∷ []

status_of-sky_pserver_status :
    (x : LocStatus) → named sky_pserver_status every_status (sky_pserver_status x) ≡ some x
unfolding sky_pserver_status named
status_of-sky_pserver_status status_success = refl
status_of-sky_pserver_status status_unspecified_error = refl
status_of-sky_pserver_status status_bad_partner_id_error = refl
status_of-sky_pserver_status status_decode_error = refl
status_of-sky_pserver_status status_api_server_error = refl
status_of-sky_pserver_status status_auth_error = refl
status_of-sky_pserver_status status_unable_to_locate = refl
status_of-sky_pserver_status status_other = refl

-- No two statuses of a server have the same text.
pub sky_pserver_status-injective :
    (a b : LocStatus) → sky_pserver_status a ≡ sky_pserver_status b → a ≡ b
sky_pserver_status-injective a b e =
    read_back sky_pserver_status every_status a b (status_of-sky_pserver_status a)
      (status_of-sky_pserver_status b) e

-- Whether a beacon is a neighbor's report without an id, and its type.
abbrev pub Kind : Type 0
Kind = Bool × BeaconType

abbrev kind_name : Kind → String
kind_name (nmr, t) = if nmr then nmr_name t else type_name t

abbrev every_kind : List Kind
every_kind =
    (false, beacon_ap)
    ∷ (false, beacon_ble)
    ∷ (false, beacon_nr)
    ∷ (false, beacon_lte)
    ∷ (false, beacon_umts)
    ∷ (false, beacon_nbiot)
    ∷ (false, beacon_cdma)
    ∷ (false, beacon_gsm)
    ∷ (false, beacon_max)
    ∷ (true, beacon_nr)
    ∷ (true, beacon_lte)
    ∷ (true, beacon_umts)
    ∷ (true, beacon_nbiot)
    ∷ (true, beacon_cdma)
    ∷ (true, beacon_gsm)
    ∷ []

kind_of-kind_name :
    (nmr : Bool) (t : BeaconType)
    → (nmr ≡ true → is_cell t ≡ true)
    → named kind_name every_kind (kind_name (nmr, t)) ≡ some (nmr, t)
unfolding named
kind_of-kind_name false beacon_ap h = refl
kind_of-kind_name false beacon_ble h = refl
kind_of-kind_name false beacon_nr h = refl
kind_of-kind_name false beacon_lte h = refl
kind_of-kind_name false beacon_umts h = refl
kind_of-kind_name false beacon_nbiot h = refl
kind_of-kind_name false beacon_cdma h = refl
kind_of-kind_name false beacon_gsm h = refl
kind_of-kind_name false beacon_max h = refl
kind_of-kind_name true beacon_ap h = absurd (ground (arith, h refl))
kind_of-kind_name true beacon_ble h = absurd (ground (arith, h refl))
kind_of-kind_name true beacon_nr h = refl
kind_of-kind_name true beacon_lte h = refl
kind_of-kind_name true beacon_umts h = refl
kind_of-kind_name true beacon_nbiot h = refl
kind_of-kind_name true beacon_cdma h = refl
kind_of-kind_name true beacon_gsm h = refl
kind_of-kind_name true beacon_max h = absurd (ground (arith, h refl))

kind_of-sky_pbeacon :
    (b : Beacon)
    → named kind_name every_kind (kind_name (is_cell_nmr b, b.type)) ≡ some (is_cell_nmr b, b.type)
kind_of-sky_pbeacon b = kind_of-kind_name (is_cell_nmr b) b.type (λ e. ground (arith, e))

-- Two beacons with the same text have the same type, and both or neither are reports without an id.
pub sky_pbeacon-injective :
    (a b : Beacon)
    → sky_pbeacon a ≡ sky_pbeacon b
    → (is_cell_nmr a ≡ is_cell_nmr b) × (a.type ≡ b.type)
unfolding sky_pbeacon
sky_pbeacon-injective a b e =
    let same =
      read_back kind_name every_kind (is_cell_nmr a, a.type) (is_cell_nmr b, b.type)
        (kind_of-sky_pbeacon a) (kind_of-sky_pbeacon b) e in
    (ap (λ (k : Kind). k.0) same, ap (λ (k : Kind). k.1) same)

abbrev known_sources : List LocSource
known_sources = source_hybrid ∷ source_cell ∷ source_wifi ∷ source_gnss ∷ source_rfpm ∷ []

source_of-source_name :
    (x : LocSource)
    → source_name x ≢ "???"
    → named source_name known_sources (source_name x) ≡ some x
unfolding named
source_of-source_name source_hybrid known = refl
source_of-source_name source_cell known = refl
source_of-source_name source_wifi known = refl
source_of-source_name source_gnss known = refl
source_of-source_name source_rfpm known = refl
source_of-source_name source_unknown known = absurd (known refl)
source_of-source_name source_max known = absurd (known refl)

-- Two locations whose sources have the same text, other than that of an unknown one, have the same
-- source.
pub sky_psource-injective :
    (a b : LocSource) → sky_psource (some a) ≡ sky_psource (some b) → source_name a ≢ "???" → a ≡ b
unfolding sky_psource
sky_psource-injective a b e known =
    let same = some-injective (source_name a) (source_name b) e in
    read_back source_name known_sources a b (source_of-source_name a known)
      (source_of-source_name b (λ u. known (same ∙ u))) same
