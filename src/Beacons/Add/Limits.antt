-- ===== src/Beacons/Add/Limits.antt =====
-- libel/beacons.c: the limits on APs and cells, and their filter.
use embedded_client.Plugins.ApWorst.{ap_remove_worst}
use embedded_client.Plugins.ApWorst.Bounds.{Trims, ap_remove_worst-Trims}
use embedded_client.Beacons.Insert.Order.{basic_plugins}
use embedded_client.Plugins.Chain.{
  cell_limit, num_cells, cell_remove_worst, sky_plugin_remove_worst,
}
use embedded_client.Beacons.Remove.{ApsFirst, ApsFirst-le-length, Removed, remove_beacon-Removed}
use embedded_client.Types.{
  Config, Rctx, Beacon, total_beacons_max, num_beacons, is_cell_type, empty_slot, success, Errno,
  Status, error_none, error, error_no_plugin,
}
use embedded_client.Common.{
  ℕ, List, ◌≤◌, ◌<◌, ◌+◌, length, ◌≡◌, ◌-◌, get_or, arith, true, ◌∷◌, suc, zero, [], ◌⊎◌,
}

-- The configured numbers make sense: room for the APs, and an array that holds all beacons.
abbrev pub Sane : Config → Type 0
Sane c = (c.max_ap_beacons ≤ c.total_beacons) × (c.total_beacons ≤ total_beacons_max)

-- No more APs than `max_ap_beacons`, and no more cells than the rest of `total_beacons`.
abbrev pub Fits : Rctx → Type 0
Fits r =
    (r.num_ap ≤ r.session.config.max_ap_beacons)
    × (num_beacons r + r.session.config.max_ap_beacons ≤ r.num_ap + r.session.config.total_beacons)

pub cell_after_aps :
    (n : ℕ) (bs : List Beacon) (i : ℕ)
    → ApsFirst n bs
    → n ≤ i
    → i < length bs
    → is_cell_type (get_or bs i empty_slot) ≡ true
cell_after_aps n [] i h le lt = absurd (omega arith)
cell_after_aps zero (b ∷ bs) zero h le lt = h.0
cell_after_aps (suc n) (b ∷ bs) zero h le lt = absurd (omega arith)
cell_after_aps zero (b ∷ bs) (suc i) h le lt =
    cell_after_aps zero bs i h.1 (omega arith) (omega arith)
cell_after_aps (suc n) (b ∷ bs) (suc i) h le lt =
    cell_after_aps n bs i h.1 (omega arith) (omega arith)

module _ (r : Rctx) (h : ApsFirst r.num_ap r.beacon) where
  pub num_cells_lem : num_beacons r ≤ 65535 → num_cells r ≡ num_beacons r - r.num_ap
  num_cells_lem small = omega (arith, ApsFirst-le-length r.num_ap r.beacon h)

  pub cell_limit_lem :
      Sane r.session.config
      → cell_limit r.session.config
        ≡ r.session.config.total_beacons - r.session.config.max_ap_beacons
  cell_limit_lem s = omega arith

  -- One cell too many: the last beacon is a cell, and goes.
  cell_remove_worst-Removed :
      Sane r.session.config
      → num_beacons r ≤ 65535
      → r.num_ap + r.session.config.total_beacons < num_beacons r + r.session.config.max_ap_beacons
      → ((cell_remove_worst r).1 ≡ success)
        × Removed r (cell_remove_worst r).0
        × ((cell_remove_worst r).0.num_ap ≡ r.num_ap)
  unfolding cell_remove_worst
  cell_remove_worst-Removed s small over =
      let most = ApsFirst-le-length r.num_ap r.beacon h in
      let last = num_beacons r - 1 in
      ground (
        arith,
        num_cells_lem small,
        cell_limit_lem s,
        cell_after_aps r.num_ap r.beacon last h (omega arith) (omega arith),
        remove_beacon-Removed r last h (omega arith),
      )

-- At most one beacon above the limits.
abbrev pub OneOver : Rctx → Type 0
OneOver r =
    (num_beacons r ≤ total_beacons_max + 1)
    × (((r.num_ap ≡ r.session.config.max_ap_beacons + 1)
          × (num_beacons r + r.session.config.max_ap_beacons
              ≤ r.num_ap + r.session.config.total_beacons))
        ⊎ ((r.num_ap ≤ r.session.config.max_ap_beacons)
            × (num_beacons r + r.session.config.max_ap_beacons
                ≡ r.num_ap + r.session.config.total_beacons + 1)))

-- One beacon is taken out, and the rest fits.
abbrev pub Filtered : Rctx → Rctx × Errno × Status → Type 0
Filtered r (q, code, status) = (status ≡ success) × Removed r q × Fits q

abbrev ask_cell_plugin : Rctx × Status → Rctx × Errno × Status
ask_cell_plugin (q, success) = (q, error_none, success)
ask_cell_plugin (q, error) =
    let (q', ret) = cell_remove_worst q in
    elim ret [ success ↦ (q', error_none, success) | error ↦ (q', error_no_plugin, error) ]

ask_cell_plugin-Filtered :
    (r : Rctx)
    → Sane r.session.config
    → OneOver r
    → (x : Rctx × Status) → Trims r x
    → Filtered r (ask_cell_plugin x)
ask_cell_plugin-Filtered r s over (q, success) h = ground arith
ask_cell_plugin-Filtered r s over (q, error) h =
    let same = h.1.same_session in
    let sane : Sane q.session.config = rw same s in
    let over' : q.num_ap + q.session.config.total_beacons
        < num_beacons q + q.session.config.max_ap_beacons =
      rw same (omega arith) in
    let (done_, removed, aps) = cell_remove_worst-Removed q h.1.ordered sane (omega arith) over' in
    ground arith

-- For a context in order, with one AP or one cell above sane limits, the registered plugins succeed:
-- they take exactly one beacon out, and what is left is in order and within the limits.
pub sky_plugin_remove_worst-Filtered :
    (r : Rctx)
    → ApsFirst r.num_ap r.beacon
    → Sane r.session.config
    → OneOver r
    → Filtered r (sky_plugin_remove_worst basic_plugins r)
unfolding sky_plugin_remove_worst
sky_plugin_remove_worst-Filtered r h s over =
    ask_cell_plugin-Filtered r s over (ap_remove_worst r) (ap_remove_worst-Trims r h)
