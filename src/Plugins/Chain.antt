-- ===== src/Plugins/Chain.antt =====
-- plugins/cell_plugin_basic.c: `remove_worst`; libel/plugin.c: the operations that ask the
-- registered plugins in turn. A table is a record of entries, `none` for one that is NULL.
use embedded_client.Common.{
  ℕ, ◌+◌, ◌-◌, ◌%◌, ℤ, Bool, List, [], ◌∷◌, Option, none, some, leb, if◌then◌else◌, get_or,
}
use embedded_client.Types.{
  Beacon, Rctx, Config, Plugin, ap_plugin_basic, cell_plugin_basic, Status, success, error, Errno,
  error_none, error_no_plugin, num_beacons, num_aps, is_cell_type, empty_slot, u32,
}
use embedded_client.Beacons.Remove.{remove_beacon}
use embedded_client.Plugins.Compare.{ap_equal, ap_compare, cell_equal, cell_compare}
use embedded_client.Plugins.ApWorst.{ap_remove_worst}

-- `NUM_CELLS`, a `uint16_t`
abbrev pub num_cells : Rctx → ℕ
num_cells r = (num_beacons r + 65536 - num_aps r) % 65536

-- `total_beacons - max_ap_beacons`, a `uint32_t`
abbrev pub cell_limit : Config → ℕ
cell_limit c = (c.total_beacons + u32 - c.max_ap_beacons) % u32

unfoldable pub cell_remove_worst : Rctx → Rctx × Status
cell_remove_worst r =
    if leb (num_cells r) (cell_limit r.session.config)
    then (r, error)
    else if is_cell_type (get_or r.beacon (num_beacons r - 1) empty_slot)
    then remove_beacon r (num_beacons r - 1)
    else (r, error)

pub record PluginTable : Type 0 where
  pub equal : Option (Beacon → Beacon → Option Bool)
  pub compare : Option (Beacon → Beacon → Option (ℤ × Beacon × Beacon))
  pub remove_worst : Option (Rctx → Rctx × Status)

-- `ap_plugin_basic_table` and `cell_plugin_basic_table`
abbrev pub table_of : Plugin → PluginTable
table_of ap_plugin_basic = record {
  equal = some ap_equal;
  compare = some ap_compare;
  remove_worst = some ap_remove_worst;
}
table_of cell_plugin_basic = record {
  equal = some cell_equal;
  compare = some cell_compare;
  remove_worst = some cell_remove_worst;
}

-- The answer of an entry that may be missing.
abbrev ask {ℓ} : {A : Type ℓ} → Option (Beacon → Beacon → Option A) → Beacon → Beacon → Option A
ask none a b = none
ask (some f) a b = f a b

-- `none` is SKY_ERROR, with the code SKY_ERROR_NO_PLUGIN.
unfoldable pub sky_plugin_equal : List Plugin → Beacon → Beacon → Option Bool × Errno
sky_plugin_equal [] a b = (none, error_no_plugin)
sky_plugin_equal (p ∷ plugins) a b =
    let rest = sky_plugin_equal plugins a b in
    elim (ask ((table_of p).equal) a b) [ none ↦ rest | some e ↦ (some e, error_none) ]

-- Called with NULL for the code.
unfoldable pub sky_plugin_compare : List Plugin → Beacon → Beacon → Option (ℤ × Beacon × Beacon)
sky_plugin_compare [] a b = none
sky_plugin_compare (p ∷ plugins) a b =
    let rest = sky_plugin_compare plugins a b in
    elim (ask ((table_of p).compare) a b) [ none ↦ rest | some d ↦ some d ]

abbrev pub act : Option (Rctx → Rctx × Status) → Rctx → Rctx × Status
act none r = (r, error)
act (some f) r = f r

-- A plugin that fails leaves what it has changed.
unfoldable pub sky_plugin_remove_worst : List Plugin → Rctx → Rctx × Errno × Status
sky_plugin_remove_worst [] r = (r, error_no_plugin, error)
sky_plugin_remove_worst (p ∷ plugins) r =
    let (r', ret) = act ((table_of p).remove_worst) r in
    let rest = sky_plugin_remove_worst plugins r' in
    elim ret [ success ↦ (r', error_none, success) | error ↦ rest ]
