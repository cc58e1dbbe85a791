-- ===== src/Dispatch.antt =====
-- libel/protocol/proto.c: `Rq_callback`, which nanopb calls for each field of a request that has an
-- encoder of its own, and the bytes of the virtual groups for `encode_vap_data`. The logging of an
-- unknown tag is left out.
pub mod Wire
pub mod Sends
use embedded_client.Gnss.{get_num_gnss, encode_gnss_fields}
use embedded_client.Session.Start.{is_tbr_enabled}
use embedded_client.Fields.{get_num_aps, get_num_cells}
use embedded_client.Vaps.{get_vap_data, get_num_vaps}
use embedded_client.Encode.{
  Nanopb, encode_submessage, encode_ap_fields, encode_vap_data, encode_cell_fields,
}
use embedded_client.Types.{Rctx, Beacon}
use embedded_client.Common.{
  [], none, true, some, ◌∷◌, ◌==◌, ◌||◌, if◌then◌else◌, ℕ, Option, ℤ, List, Bool, take, not,
}

abbrev pub rq_aps_tag : ℕ
rq_aps_tag = 3

abbrev pub rq_gnss_tag : ℕ
rq_gnss_tag = 9

abbrev pub rq_cells_tag : ℕ
rq_cells_tag = 10

abbrev pub rq_vaps_tag : ℕ
rq_vaps_tag = 11

abbrev pub tbr_token_unknown : ℕ
tbr_token_unknown = 0

-- The bytes at the pointer that `get_vap_data` gives, from `data + 1` on and `*data` many. A group
-- below the count is there, so that NULL, which has no bytes, does not occur.
abbrev pub group_bytes : Option Beacon → List ℕ
group_bytes none = []
group_bytes (some b) = take b.ap.vap_length (b.ap.vap_parent ∷ b.ap.vg_patches)

abbrev pub vap_bytes : Rctx → ℕ → List ℕ
vap_bytes r idx = group_bytes (get_vap_data r idx)

-- Registration is not enabled, or there is a token.
unfoldable pub sends_beacons : Rctx → Bool
sends_beacons r = not (is_tbr_enabled r.session) || not (r.session.token_id == tbr_token_unknown)

module _ (of_nan : ℤ) (pb : Nanopb) where
  -- The `switch` on the tag.
  unfoldable pub encode_field : Rctx → ℕ → pb.Stream → pb.Stream × Bool
  encode_field r t s =
      if t == rq_aps_tag
      then (if get_num_aps r == 0
          then (s, true)
          else encode_submessage pb s t (encode_ap_fields pb r))
      else if t == rq_vaps_tag
      then encode_vap_data pb r s rq_vaps_tag (get_num_vaps r) vap_bytes
      else if t == rq_cells_tag
      then (if get_num_cells r == 0 then (s, true) else encode_cell_fields pb r s)
      else if t == rq_gnss_tag
      then (if get_num_gnss r == 0
          then (s, true)
          else encode_submessage pb s t (encode_gnss_fields of_nan pb r))
      else (s, true)

  -- The request is what the field points to; `none` is NULL.
  unfoldable pub rq_callback : Option Rctx → ℕ → pb.Stream → pb.Stream × Bool
  rq_callback none t s = (s, true)
  rq_callback (some r) t s = if sends_beacons r then encode_field r t s else (s, true)
