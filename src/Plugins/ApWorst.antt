-- ===== src/Plugins/ApWorst.antt =====
-- plugins/ap_plugin_basic.c: the priorities of the APs, and which of them `remove_worst` takes out.
pub mod Bounds
use embedded_client.Common.{
  ℕ, zero, suc, ◌+◌, ◌-◌, ◌/◌, ℤ, pos, neg, sub_ℕ, ◌-ℤ◌, Bool, true, false, not, ◌&&◌, ◌||◌, List,
  [], ◌∷◌, Option, none, some, ltb, leb, ltb_ℤ, eqb_ℤ, ◌==◌, if◌then◌else◌, get_or, set, to_i32,
}
use embedded_client.Types.{
  Beacon, Rctx, Status, success, error, is_ap_type, num_aps, num_beacons, empty_slot,
  effective_rssi,
}
use embedded_client.Float.{Float, fin, of_int, add, sub, mul, div, abs, le, eq}
use embedded_client.Mac.{mac_similar}
use embedded_client.Plugins.Compare.{compare_mac}
use embedded_client.Beacons.Remove.{compare_connected_used, remove_beacon}

-- `AP_BELOW_RSSI_THRESHOLD`; the negation of the least `int` overflows in the source.
unfoldable pub ap_below_rssi_threshold : Rctx → List Beacon → ℕ → Bool
unfolding ◌-ℤ◌
ap_below_rssi_threshold r bs idx =
    ltb_ℤ (effective_rssi (get_or bs idx empty_slot).rssi)
      (pos 0 -ℤ to_i32 r.session.config.cache_neg_rssi_threshold)

-- `get_priority` of the AP at index `idx` among `n` APs.
unfoldable pub get_priority : ℕ → List Beacon → ℕ → Float
unfolding ◌-ℤ◌
get_priority n bs idx =
    let b = get_or bs idx empty_slot in
    let priority : Float =
      if b.connected then add (fin (pos 0)) (of_int (pos 0x200)) else fin (pos 0) in
    let highest = effective_rssi (get_or bs 0 empty_slot).rssi in
    let lowest = effective_rssi (get_or bs (n - 1) empty_slot).rssi in
    let band_width = div (of_int (highest -ℤ lowest)) (of_int (sub_ℕ n 1)) in
    let ideal = sub (of_int highest) (mul band_width (of_int (pos idx))) in
    let deviation = abs (sub (of_int (effective_rssi b.rssi)) ideal) in
    add priority (sub (of_int (pos 128)) deviation)

-- The variables of the loop in `set_priorities`.
pub record Search : Type 0 where
  pub aps : List Beacon
  pub idx_of_worst : ℕ
  pub priority_of_worst : Float

-- The test in the loop's body, with the priorities up to index `j` written to `bs`.
unfoldable pub is_worse : Rctx → Bool → ℕ → Float → List Beacon → Search → Bool
is_worse r weak_only j p bs s =
    ((weak_only && ap_below_rssi_threshold r bs j) || le p s.priority_of_worst)
    && (not (eq p s.priority_of_worst)
        || ltb_ℤ (compare_mac (get_or bs j empty_slot) (get_or bs s.idx_of_worst empty_slot))
            (pos 0))

-- The loop's body at index `j`.
unfoldable pub consider : Rctx → Bool → ℕ → Search → Search
consider r weak_only j s =
    let p = get_priority r.num_ap s.aps j in
    let bs = set s.aps j (record (get_or s.aps j empty_slot) { priority = p }) in
    if is_worse r weak_only j p bs s
    then record { aps = bs; idx_of_worst = j; priority_of_worst = p }
    else record s { aps = bs }

-- `j += up_down * jump`; an index below 0 ends the loop.
unfoldable pub advance : Bool → ℕ → ℕ → Option ℕ
advance true j jump = some (j + jump)
advance false j jump = if ltb j jump then none else some (j - jump)

-- From both ends of the list to its middle: `jump` falls by one each round.
unfoldable pub search_loop : Rctx → Bool → ℕ → Bool → ℕ → Search → Search
search_loop r weak_only zero up j s = s
search_loop r weak_only (suc jump) up j s = elim (ltb j r.num_ap) [
  | false ↦ s
  | true ↦ elim (advance up j jump) [
    | none ↦ consider r weak_only j s
    | some j' ↦ search_loop r weak_only jump (not up) j' (consider r weak_only j s)
  ]
]

unfoldable pub set_priorities : Rctx → Rctx × ℕ
set_priorities r =
    let weak_only = ap_below_rssi_threshold r r.beacon (r.num_ap - 1) in
    let found = search_loop r weak_only r.num_ap true 0 (record {
      aps = r.beacon;
      idx_of_worst = r.num_ap / 2;
      priority_of_worst = of_int (pos 0xffff);
    }) in
    (record r { beacon = found.aps }, found.idx_of_worst)

-- Of two similar APs, the index of the one to remove.
unfoldable pub candidate : List Beacon → ℕ → ℕ → ℤ → ℕ
candidate bs i j mac_diff =
    let preferred = compare_connected_used (get_or bs i empty_slot) (get_or bs j empty_slot) in
    if ltb_ℤ (pos 0) preferred || (eqb_ℤ preferred (pos 0) && ltb_ℤ mac_diff (pos 0)) then j else i

-- Whether the candidate `a` takes the place of the worst candidate so far.
unfoldable pub replaces : List Beacon → ℕ → Option ℕ → Bool
replaces bs a none = true
replaces bs a (some worst) =
    let va = get_or bs a empty_slot in
    let vw = get_or bs worst empty_slot in
    let preferred = compare_connected_used va vw in
    ltb_ℤ (pos 0) preferred || (eqb_ℤ preferred (pos 0) && ltb_ℤ (compare_mac va vw) (pos 0))

-- The body of the two loops of `remove_virtual_ap`.
unfoldable pub visit_pair : List Beacon → ℕ → ℕ → Option ℕ → Option ℕ
visit_pair bs j i worst =
    let bi = get_or bs i empty_slot in
    let mac_diff = mac_similar bi.ap.mac (get_or bs j empty_slot).ap.mac in
    let a = candidate bs i j mac_diff in
    if bi.connected || eqb_ℤ mac_diff (pos 0)
    then worst
    else if replaces bs a worst
    then some a
    else worst

-- `for (i = j - 1; i >= 0; i--)`: the third argument is i + 1.
unfoldable pub inner_loop : List Beacon → ℕ → ℕ → Option ℕ → Option ℕ
inner_loop bs j zero worst = worst
inner_loop bs j (suc i) worst = inner_loop bs j i (visit_pair bs j i worst)

-- `for (j = NUM_APS(rctx) - 1; j > 0; j--)`
unfoldable pub outer_loop : List Beacon → ℕ → Option ℕ → Option ℕ
outer_loop bs zero worst = worst
outer_loop bs (suc j) worst = outer_loop bs j (
    if (get_or bs (suc j) empty_slot).connected then worst else inner_loop bs (suc j) (suc j) worst)

unfoldable pub worst_vap : Rctx → Option ℕ
worst_vap r = outer_loop r.beacon (r.num_ap - 1) none

abbrev pub is_success : Status → Bool
is_success success = true
is_success error = false

abbrev pub removed_at : Rctx → Option ℕ → Rctx × Bool
removed_at r none = (r, false)
removed_at r (some i) = ((remove_beacon r i).0, is_success (remove_beacon r i).1)

unfoldable pub remove_virtual_ap : Rctx → Rctx × Bool
remove_virtual_ap r =
    if leb r.num_ap r.session.config.max_ap_beacons
    then (r, false)
    else if not (is_ap_type (get_or r.beacon 0 empty_slot))
    then (r, false)
    else removed_at r (worst_vap r)

-- The loop of `remove_oldest_ap`; the ages are `uint32_t`, and `none` is the index -1.
pub record Ages : Type 0 where
  pub oldest_idx : Option ℕ
  pub oldest_age : ℕ
  pub youngest_age : ℕ

unfoldable pub visit_age : List Beacon → ℕ → Ages → Ages
visit_age bs i s =
    let age = (get_or bs i empty_slot).age in
    let young = if ltb age s.youngest_age then age else s.youngest_age in
    if ltb s.oldest_age age
    then record { oldest_idx = some i; oldest_age = age; youngest_age = young }
    else record s { youngest_age = young }

-- `n` rounds from index `i`.
unfoldable pub age_loop : List Beacon → ℕ → ℕ → Ages → Ages
age_loop bs zero i s = s
age_loop bs (suc n) i s = age_loop bs n (i + 1) (visit_age bs i s)

-- `remove_oldest_ap` does not look at the status of the removal.
abbrev pub oldest_removed : Rctx → Option ℕ → Rctx × Bool
oldest_removed r none = (r, false)
oldest_removed r (some i) = ((remove_beacon r i).0, true)

unfoldable pub remove_oldest_ap : Rctx → Rctx × Bool
remove_oldest_ap r =
    let found =
      age_loop r.beacon r.num_ap 0
        (record { oldest_idx = none; oldest_age = 0; youngest_age = 0xFFFFFFFF }) in
    if found.youngest_age == found.oldest_age then (r, false) else oldest_removed r found.oldest_idx

-- The filters in turn, and last the removal of the AP of lowest priority.
unfoldable pub remove_ap : Rctx → ℕ → Rctx × Status
remove_ap r idx_of_worst =
    let (r2, virtual) = remove_virtual_ap r in
    let (r3, oldest) = remove_oldest_ap r2 in
    if virtual
    then (r2, success)
    else if oldest
    then (r3, success)
    else remove_beacon r3 idx_of_worst

unfoldable pub ap_remove_worst : Rctx → Rctx × Status
ap_remove_worst r =
    let (r1, idx_of_worst) = set_priorities r in
    if leb r1.num_ap r1.session.config.max_ap_beacons
    then (r1, error)
    else remove_ap r1 idx_of_worst
