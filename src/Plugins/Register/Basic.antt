-- ===== src/Plugins/Register/Basic.antt =====
-- plugins/register.c: the two basic plugins, registered in an empty list.
use embedded_client.Beacons.Insert.Order.{basic_plugins}
use embedded_client.Types.{
  ap_plugin_basic, cell_plugin_basic, Plugin, sky_magic, success, Status, error,
}
use embedded_client.Common.{
  zero, [], suc, ◌∷◌, ◌==◌, ◌≢◌, if◌then◌else◌, ℕ, List, ◌≡◌, refl, arith, ◌∙◌, ap, subst, sym,
}
use embedded_client.Plugins.Register.{Tables, sky_register_plugins, sky_plugin_add, set_next, Table}
use embedded_client.Plugins.Register.Links.{
  Linked, sky_plugin_add-AddedTo, add-empty, set_next-here, AddedTo, add_once,
}

-- The plugins that the list at `p` names, whatever it is.
unfoldable pub plugins_from : ℕ → Tables → ℕ → ℕ → ℕ → List Plugin
plugins_from zero h p ap_table cell_table = []
plugins_from (suc fuel) h p ap_table cell_table =
    let rest = plugins_from fuel h (h p).next ap_table cell_table in
    if p == 0
    then []
    else if p == ap_table
    then ap_plugin_basic ∷ rest
    else if p == cell_table
    then cell_plugin_basic ∷ rest
    else []

-- The two tables are there, apart from each other and unharmed.
pub record Intact (h : Tables) (ap_table cell_table : ℕ) : Type 0 where
  pub ap_given : ap_table ≢ 0
  pub cell_given : cell_table ≢ 0
  pub apart : ap_table ≢ cell_table
  pub ap_magic : (h ap_table).magic ≡ sky_magic
  pub cell_magic : (h cell_table).magic ≡ sky_magic

set_next-magic : (h : Tables) (p q a : ℕ) → (set_next h p q a).magic ≡ (h a).magic
set_next-magic h p q a = ground arith

read-end :
    (fuel : ℕ) (h : Tables) (p ap_table cell_table : ℕ)
    → p ≡ 0
    → plugins_from fuel h p ap_table cell_table ≡ []
unfolding plugins_from
read-end zero h p ap_table cell_table e = refl
read-end (suc fuel) h p ap_table cell_table e = ground (arith, e)

plugins_from-Linked :
    (fuel : ℕ) (h : Tables) (p ap_table cell_table : ℕ)
    → ap_table ≢ cell_table
    → Linked h p (ap_table ∷ (cell_table ∷ []))
    → plugins_from (suc (suc fuel)) h p ap_table cell_table ≡ basic_plugins
unfolding plugins_from
plugins_from-Linked fuel h p ap_table cell_table apart linked =
    let end = read-end fuel h (h cell_table).next ap_table cell_table linked.4.4 in
    let first : p ≡ ap_table = linked.0 in
    let second : (h ap_table).next ≡ cell_table = linked.4.0 in
    let some_ap : ap_table ≢ 0 = linked.1 in
    let some_cell : cell_table ≢ 0 = linked.4.1 in rw (first, second, end) (ground arith)

-- Both tables are registered, the AP plugin in front.
abbrev pub Registered : ℕ → ℕ → ℕ → Tables × ℕ × Status → Type 0
Registered fuel ap_table cell_table (h, root, ret) =
    (ret ≡ success)
    × (plugins_from fuel h root ap_table cell_table ≡ basic_plugins)
    × Linked h root (ap_table ∷ (cell_table ∷ []))

added-Registered :
    (fuel ap_table cell_table : ℕ) (added : Tables × ℕ × Status)
    → ap_table ≢ cell_table
    → AddedTo (ap_table ∷ []) cell_table added
    → Registered (suc (suc fuel)) ap_table cell_table added
added-Registered fuel ap_table cell_table (h, root, ret) apart (ok, linked) =
    let both : add_once (ap_table ∷ []) cell_table ≡ ap_table ∷ (cell_table ∷ []) =
      ground (arith, apart) in
    let linked' = subst (Linked h root) both linked in
    (ok, plugins_from-Linked fuel h root ap_table cell_table apart linked', linked')

register-empty :
    (fuel : ℕ) (h : Tables) (ap_table cell_table : ℕ)
    → Intact h ap_table cell_table
    → sky_register_plugins fuel h 0 ap_table cell_table
      ≡ sky_plugin_add fuel (set_next h ap_table 0) ap_table cell_table
unfolding sky_register_plugins
register-empty fuel h ap_table cell_table t =
    let next = λ (x : Tables × ℕ × Status).
      let second = sky_plugin_add fuel x.0 x.1 cell_table in
      elim x.2 as (λ _. Tables × ℕ × Status) [ success ↦ second | error ↦ (x.0, x.1, error) ] in
    ap next (add-empty fuel h 0 ap_table refl t.ap_given t.ap_magic)

-- In an empty list the two intact tables are registered, the AP plugin in front of the cell plugin,
-- whatever their `next` pointers were.
pub sky_register_plugins-Registered :
    (fuel : ℕ) (h : Tables) (ap_table cell_table : ℕ)
    → Intact h ap_table cell_table
    → Registered
        (suc (suc fuel))
        ap_table
        cell_table
        (sky_register_plugins (suc (suc fuel)) h 0 ap_table cell_table)
sky_register_plugins-Registered fuel h ap_table cell_table t =
    let n = suc (suc fuel) in
    let here = set_next-here h ap_table 0 in
    let linked : Linked (set_next h ap_table 0) ap_table (ap_table ∷ []) = (
      refl,
      t.ap_given,
      set_next-magic h ap_table 0 ap_table ∙ t.ap_magic,
      tt,
      ap (λ (c : Table). c.next) here,
    ) in
    subst (Registered n ap_table cell_table) (sym (register-empty n h ap_table cell_table t)) (
      added-Registered fuel ap_table cell_table _ t.apart (
        sky_plugin_add-AddedTo n (set_next h ap_table 0) ap_table (ap_table ∷ []) cell_table linked
          t.cell_given (set_next-magic h ap_table 0 cell_table ∙ t.cell_magic) (omega arith)))
