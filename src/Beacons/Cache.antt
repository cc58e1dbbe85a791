-- ===== src/Beacons/Cache.antt =====
-- libel/beacons.c: the cache of a session as the addition of a beacon and the choice of a cacheline
-- read it.
use embedded_client.Plugins.Chain.{sky_plugin_equal, num_cells}
use embedded_client.Types.{
  Plugin, CacheLine, Rctx, Beacon, cache_empty, is_ap_type, time_unavailable, empty_slot,
  is_cell_nmr,
}
use embedded_client.Common.{
  ℕ, List, ◌∷◌, length, Bool, false, if◌then◌else◌, ◌+◌, ◌==◌, ◌&&◌, ◌-◌, some, ◌%◌, get_or, true,
  ◌||◌, ltb, [],
}

-- The search of a cacheline that is in use, and the beacon with the `used` mark it picks up. NULL is
-- passed for the code.
unfoldable pub search_cacheline : List Plugin → Beacon → List Beacon → Bool × Beacon
search_cacheline plugins b [] = (false, b)
search_cacheline plugins b (x ∷ xs) =
    let rest = search_cacheline plugins b xs in
    elim ((sky_plugin_equal plugins b x).0) [
      | some true ↦ (
        true,
        if is_ap_type x && x.ap.used then record b { ap = record (b.ap) { used = true } } else b,
      )
      | _ ↦ rest
    ]

unfoldable pub beacon_in_cacheline : List Plugin → Beacon → CacheLine → Bool × Beacon
beacon_in_cacheline plugins b cl =
    if cl.time == cache_empty then (false, b) else search_cacheline plugins b cl.beacon

-- The scan of the cachelines ends at the first that marks an AP as used.
unfoldable pub beacon_in_cache : List Plugin → Beacon → List CacheLine → Bool × Beacon
beacon_in_cache plugins b [] = (false, b)
beacon_in_cache plugins b (cl ∷ cls) =
    let (found, b') = beacon_in_cacheline plugins b cl in
    let (later, b'') = beacon_in_cache plugins b' cls in
    if found && is_ap_type b' && b'.ap.used then (true, b') else (found || later, b'')

-- The scan from index `i` on, for a cache of any size, with the oldest index and time so far; a
-- cacheline that is empty, or a clock that is not set, ends it.
unfoldable pub find_oldest_from : List CacheLine → ℕ → ℕ → ℕ → ℕ
find_oldest_from [] i oldestc oldest = oldestc
find_oldest_from (cl ∷ cls) i oldestc oldest =
    let older = find_oldest_from cls (i + 1) i cl.time in
    let rest = find_oldest_from cls (i + 1) oldestc oldest in
    if (oldest == time_unavailable) || (cl.time == cache_empty)
    then i
    else if ltb cl.time oldest
    then older
    else rest

unfoldable pub find_oldest : Rctx → ℕ
find_oldest r = find_oldest_from r.session.cacheline 0 0 r.header.time

-- `NUM_CELLS` of a cacheline
abbrev cells_of : CacheLine → ℕ
cells_of cl = (length cl.beacon + 65536 - cl.num_ap) % 65536

unfoldable pub serving_cell_changed : Rctx → CacheLine → Bool
serving_cell_changed r cl =
    if num_cells r == 0
    then false
    else if cells_of cl == 0
    then false
    else (let w = get_or r.beacon r.num_ap empty_slot in
        let c = get_or cl.beacon cl.num_ap empty_slot in
        if is_cell_nmr w || is_cell_nmr c
        then false
        else elim ((sky_plugin_equal r.session.plugins w c).0) [ some true ↦ false | _ ↦ true ])
