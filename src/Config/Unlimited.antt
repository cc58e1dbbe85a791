-- ===== src/Config/Unlimited.antt =====
-- libel/libel.c, libel/beacons.c: configurations with more APs than beacons.
use embedded_client.Beacons.Add.{filter_beacons}
use embedded_client.Types.{success, Config, Rctx, Errno, max_ap_beacons_max}
use embedded_client.Beacons.Insert.{done}
use embedded_client.Common.{ℕ, ◌<◌, ◌≤◌, ◌≡◌, arith}

-- A configuration with room for more APs than for beacons.
abbrev pub Inverted : Config → Type 0
Inverted c = (c.total_beacons < c.max_ap_beacons) × (c.max_ap_beacons ≤ max_ap_beacons_max)

-- With `max_ap_beacons` above `total_beacons` the limit on the cells wraps around: as long as the
-- APs are within theirs, what an insertion leaves is never filtered, whatever the number of cells.
pub filter_beacons-Inverted :
    (n : ℕ) (r : Rctx) (code : Errno)
    → Inverted r.session.config
    → r.num_ap ≤ r.session.config.max_ap_beacons
    → filter_beacons n (done (r, code, success)) ≡ done (r, code, success)
unfolding filter_beacons
filter_beacons-Inverted n r code h le = ground arith
