-- ===== src/Plugins/Register.antt =====
-- libel/plugin.c: `sky_plugin_add`; plugins/register.c: `sky_register_plugins`. The tables are nodes
-- of a linked list at addresses, with 0 for NULL; their operations, which no code changes, are left
-- out. A walk has fuel for the number of steps.
pub mod Links
pub mod Basic
use embedded_client.Types.{error, success, Status, sky_magic}
use embedded_client.Common.{ℕ, suc, zero, ◌==◌, ◌||◌, if◌then◌else◌, not}

pub record Table : Type 0 where
  pub magic : ℕ
  pub next : ℕ

abbrev pub Tables : Type 0
Tables = ℕ → Table

-- `p->next = q`
abbrev pub set_next : Tables → ℕ → ℕ → Tables
set_next h p q = λ a. if a == p then record (h p) { next = q } else h a

-- Where the search of the end of the list stops.
pub data Walk : Type 0 where
  out_of_fuel fell_off corrupt registered : Walk
  at_end : ℕ → Walk

unfoldable pub walk : ℕ → Tables → ℕ → ℕ → Walk
walk zero h p table = out_of_fuel
walk (suc fuel) h p table =
    let rest = walk fuel h (h p).next table in
    if p == 0
    then fell_off
    else if not ((h p).magic == sky_magic)
    then corrupt
    else if p == table
    then registered
    else if (h p).next == 0
    then at_end p
    else rest

abbrev pub appended : Tables → ℕ → ℕ → Walk → Tables × ℕ × Status
appended h root table registered = (h, root, success)
appended h root table (at_end p) = (set_next (set_next h p table) table 0, root, success)
appended h root table _ = (h, root, error)

-- `root` is the value of `*root`, given back with the tables.
unfoldable pub sky_plugin_add : ℕ → Tables → ℕ → ℕ → Tables × ℕ × Status
sky_plugin_add fuel h root table =
    if (table == 0) || not ((h table).magic == sky_magic)
    then (h, root, error)
    else if root == 0
    then (set_next h table 0, table, success)
    else appended h root table (walk fuel h root table)

unfoldable pub sky_register_plugins : ℕ → Tables → ℕ → ℕ → ℕ → Tables × ℕ × Status
sky_register_plugins fuel h root ap_table cell_table =
    let (h1, root1, ret) = sky_plugin_add fuel h root ap_table in
    let second = sky_plugin_add fuel h1 root1 cell_table in
    elim ret [ success ↦ second | error ↦ (h1, root1, error) ]
