-- ===== src/Validate/Beacons.antt =====
-- libel/utilities.c: the checks of the request context and of the session.
use embedded_client.Common.{
  ℕ, zero, suc, ◌+◌, Bool, true, false, not, ◌&&◌, ◌||◌, List, [], ◌∷◌, ltb, ◌==◌, if◌then◌else◌,
  length, take, ◌++◌,
}
use embedded_client.Types.{
  Beacon, Rctx, Header, num_beacons, num_aps, total_beacons_max, max_ap_beacons_max, sky_magic,
  type_code, beacon_magic, beacon_max, CacheLine, Session,
}
use embedded_client.Crc.{sky_crc32, header_bytes}
use embedded_client.Validate.{validate_beacon}

-- `magic` and `crc32` of a header are as the library writes them.
unfoldable pub header_valid : Header → Bool
header_valid h = (h.magic == sky_magic) && (h.crc32 == sky_crc32 (header_bytes h))

-- The loop over the first `n` slots, the used ones before the unused.
unfoldable pub validate_slots : ℕ → List Beacon → List Beacon → Bool × List Beacon
validate_slots zero live spare = (true, live)
validate_slots (suc n) (b ∷ live) spare =
    let (good, b') = validate_beacon b in
    let (rest, live') = validate_slots n live spare in
    if good then (rest, b' ∷ live') else (false, b' ∷ live)
validate_slots (suc n) [] [] = (true, [])
validate_slots (suc n) [] (s ∷ spare) =
    let rest = validate_slots n [] spare in
    if not (s.magic == beacon_magic) || ltb (type_code beacon_max) (type_code s.type)
    then (false, [])
    else rest

unfoldable pub validate_request_ctx : Rctx → Bool × Rctx
validate_request_ctx r =
    if ltb (total_beacons_max + 1) (num_beacons r)
    then (false, r)
    else if ltb (max_ap_beacons_max + 1) (num_aps r)
    then (false, r)
    else if header_valid r.header
    then (let (good, live) = validate_slots total_beacons_max r.beacon r.spare in
        (good, record r { beacon = live }))
    else (false, r)

all_slots : List Beacon → Bool
all_slots [] = true
all_slots (b ∷ bs) =
    let rest = all_slots bs in
    if not (b.magic == beacon_magic) || ltb (type_code beacon_max) (type_code b.type)
    then false
    else rest

validate_cachelines : List CacheLine → Bool
unfolding all_slots
validate_cachelines [] = true
validate_cachelines (cl ∷ cls) =
    let rest = validate_cachelines cls in
    if ltb total_beacons_max (length cl.beacon)
    then false
    else if all_slots (take total_beacons_max (cl.beacon ++ cl.spare))
    then rest
    else false

-- `size` is the size of a session context.
unfoldable pub validate_session_ctx : ℕ → Session → Bool
unfolding validate_cachelines
validate_session_ctx size s =
    if not (s.header.magic == sky_magic)
    then false
    else if not (s.header.crc32 == sky_crc32 (header_bytes s.header))
    then false
    else if not (s.header.size == size)
    then false
    else validate_cachelines s.cacheline
