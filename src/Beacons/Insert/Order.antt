-- ===== src/Beacons/Insert/Order.antt =====
-- libel/beacons.c: the order and the count of the beacons under an insertion.
use embedded_client.Common.{
  ℕ, zero, suc, ◌+◌, ◌-◌, ◌<◌, ◌≤◌, ◌≡◌, refl, ◌⊎◌, pos, true, false, List, [], ◌∷◌, some, ltb_ℤ,
  if◌then◌else◌, length, get_or, insert_idx, length-insert_idx, arith, ap, ◌∙◌,
}
use embedded_client.Types.{
  Beacon, BeaconType, Rctx, Plugin, ap_plugin_basic, cell_plugin_basic, Status, success, Errno,
  num_beacons, is_ap_type, is_cell_type, is_ap, is_cell, type_code, total_beacons_max, Session,
  empty_slot,
}
use embedded_client.Plugins.Compare.{ap_compare, cell_compare, ap_equal, cell_equal}
use embedded_client.Plugins.Chain.{sky_plugin_compare, sky_plugin_equal}
use embedded_client.Beacons.Remove.{
  ApsFirst, ApsFirst-get_or, Removed, remove_beacon, remove_beacon-Removed,
}
use embedded_client.Beacons.Insert.{
  Run, done, out_of_bounds, is_beacon_first, find_position, place, Duplicate, no_duplicate,
  replace_at, reject, find_duplicate, after_search, insert_beacon,
}

-- What `sky_register_plugins` registers, in its order.
abbrev pub basic_plugins : List Plugin
basic_plugins = ap_plugin_basic ∷ cell_plugin_basic ∷ []

ap_code : (t : BeaconType) → is_ap t ≡ true → type_code t ≡ 1
ap_code t h = ground arith

cell_code : (t : BeaconType) → is_cell t ≡ true → 3 ≤ type_code t
cell_code t h = ground arith

class_split : (t : BeaconType) → is_cell t ≡ true → is_ap t ≡ false
class_split t h = ground arith

ap_split : (t : BeaconType) → is_ap t ≡ true → is_cell t ≡ false
ap_split t h = ground arith

module _ (a b : Beacon) where
  first_type : (is_beacon_first basic_plugins a b).1.type ≡ a.type
  unfolding is_beacon_first sky_plugin_compare ap_compare cell_compare
  first_type = ground arith

  second_type : (is_beacon_first basic_plugins a b).2.type ≡ b.type
  unfolding is_beacon_first sky_plugin_compare ap_compare cell_compare
  second_type = ground arith

  ap_first :
      is_ap_type a ≡ true
      → is_cell_type b ≡ true
      → ltb_ℤ (pos 0) (is_beacon_first basic_plugins a b).0 ≡ true
  unfolding is_beacon_first sky_plugin_compare ap_compare cell_compare
  ap_first ha hb =
      ground (arith, ap_code a.type, cell_code b.type, class_split b.type, ap_split a.type)

  cell_last :
      is_cell_type a ≡ true
      → is_ap_type b ≡ true
      → ltb_ℤ (pos 0) (is_beacon_first basic_plugins a b).0 ≡ false
  unfolding is_beacon_first sky_plugin_compare ap_compare cell_compare
  cell_last ha hb =
      ground (arith, ap_code b.type, cell_code a.type, class_split a.type, ap_split b.type)

find_position-ApsFirst_ap :
    (n : ℕ) (b : Beacon) (bs : List Beacon)
    → is_ap_type b ≡ true
    → ApsFirst n bs
    → let p = find_position basic_plugins b bs in
      ApsFirst (suc n) (insert_idx p.2 p.0 p.1) × (p.1.type ≡ b.type)
unfolding find_position
find_position-ApsFirst_ap n b [] hb h = ((hb, h), refl)
find_position-ApsFirst_ap zero b (x ∷ bs) hb h =
    ground (arith, first_type b x, second_type b x, ap_first b x hb h.0)
find_position-ApsFirst_ap (suc n) b (x ∷ bs) hb h = ground (
  arith,
  first_type b x,
  second_type b x,
  find_position-ApsFirst_ap n (is_beacon_first basic_plugins b x).1 bs,
)

find_position-ApsFirst_cell :
    (n : ℕ) (b : Beacon) (bs : List Beacon)
    → is_cell_type b ≡ true
    → ApsFirst n bs
    → let p = find_position basic_plugins b bs in
      ApsFirst n (insert_idx p.2 p.0 p.1) × (p.1.type ≡ b.type)
unfolding find_position
find_position-ApsFirst_cell zero b [] hb h = ((hb, refl), refl)
find_position-ApsFirst_cell (suc n) b [] hb h = absurd (omega arith)
find_position-ApsFirst_cell zero b (x ∷ bs) hb h = ground (
  arith,
  first_type b x,
  second_type b x,
  find_position-ApsFirst_cell zero (is_beacon_first basic_plugins b x).1 bs,
)
find_position-ApsFirst_cell (suc n) b (x ∷ bs) hb h = ground (
  arith,
  first_type b x,
  second_type b x,
  cell_last b x hb h.0,
  find_position-ApsFirst_cell n (is_beacon_first basic_plugins b x).1 bs,
)

length-find_position :
    (plugins : List Plugin) (b : Beacon) (bs : List Beacon)
    → length (find_position plugins b bs).2 ≡ length bs
unfolding find_position
length-find_position plugins b [] = refl
length-find_position plugins b (x ∷ bs) =
    ground (arith, length-find_position plugins (is_beacon_first plugins b x).1 bs)

-- A request context that the library works on: the two basic plugins are registered, the APs stand
-- before the cells and are counted by `num_ap`, and the used and unused slots make up the array.
pub record IsValid (r : Rctx) : Type 0 where
  pub registered : r.session.plugins ≡ basic_plugins
  pub ordered : ApsFirst r.num_ap r.beacon
  pub slots : num_beacons r + length r.spare ≡ total_beacons_max + 1

-- The outcome `x` of an insertion of `b` into `r`: nothing is written out of bounds, and either a
-- beacon went in, or one took the place of another, or the context stands.
abbrev pub Inserts : Rctx → Beacon → Run (Rctx × Errno × Status) → Type 0
Inserts r b out_of_bounds = ⊥
Inserts r b (done (q, code, status)) =
    IsValid q
    × (status ≡ success)
    × (q.session ≡ r.session)
    × (q.header ≡ r.header)
    × (((num_beacons q ≡ num_beacons r) × (q.num_ap ≡ r.num_ap))
        ⊎ ((num_beacons q ≡ num_beacons r + 1)
            × (q.num_ap ≡ (if is_ap_type b then r.num_ap + 1 else r.num_ap))))

abbrev Places : Rctx → Beacon → Run (Rctx × Errno × Status) → Type 0
Places r b out_of_bounds = ⊥
Places r b (done (q, code, status)) =
    IsValid q
    × (status ≡ success)
    × (q.session ≡ r.session)
    × (q.header ≡ r.header)
    × (num_beacons q ≡ num_beacons r + 1)
    × (q.num_ap ≡ (if is_ap_type b then r.num_ap + 1 else r.num_ap))

place-Places :
    (r : Rctx) (code : Errno) (b : Beacon)
    → IsValid r
    → num_beacons r ≤ total_beacons_max
    → (is_ap_type b ≡ true) ⊎ (is_cell_type b ≡ true)
    → Places r b (place r code b)
unfolding place
place-Places r code b v room t =
    let p = find_position basic_plugins b r.beacon in
    rw v.registered (
      ground (
        arith,
        class_split b.type,
        find_position-ApsFirst_ap r.num_ap b r.beacon,
        find_position-ApsFirst_cell r.num_ap b r.beacon,
        length-find_position basic_plugins b r.beacon,
        length-insert_idx p.2 p.0 p.1,
      ))

same_class :
    (a b : Beacon)
    → (sky_plugin_equal basic_plugins a b).0 ≡ some true
    → is_ap_type a ≡ is_ap_type b
unfolding sky_plugin_equal ap_equal cell_equal
same_class a b h = ground arith

-- A duplicate to replace stands in the list, and is an AP just when the new beacon is one.
abbrev FoundIn : Beacon → ℕ → List Beacon → Duplicate × Errno → Type 0
FoundIn b j bs (replace_at k, code) =
    (j ≤ k) × (k < j + length bs) × (is_ap_type (get_or bs (k - j) empty_slot) ≡ is_ap_type b)
FoundIn b j bs _ = Unit {0}

FoundIn-next :
    (b x : Beacon) (bs : List Beacon) (j : ℕ) (d : Duplicate × Errno)
    → FoundIn b (j + 1) bs d
    → FoundIn b j (x ∷ bs) d
FoundIn-next b x bs j (replace_at k, code) h =
    let e : k - j ≡ suc (k - (j + 1)) = omega arith in (omega arith, omega arith, rw e (h.2))
FoundIn-next b x bs j (no_duplicate, code) h = tt
FoundIn-next b x bs j (reject, code) h = tt

find_duplicate-FoundIn :
    (b : Beacon) (bs : List Beacon) (j : ℕ) (code : Errno)
    → FoundIn b j bs (find_duplicate basic_plugins b bs j code)
unfolding find_duplicate
find_duplicate-FoundIn b [] j code = tt
find_duplicate-FoundIn b (x ∷ bs) j code =
    let code' = (sky_plugin_equal basic_plugins b x).1 in
    let zero_diff : j - j ≡ 0 = omega arith in
    ground (
      arith,
      same_class b x,
      zero_diff,
      FoundIn-next b x bs j (find_duplicate basic_plugins b bs (j + 1) code')
          (find_duplicate-FoundIn b bs (j + 1) code'),
    )

module _ (r : Rctx) (b : Beacon) (v : IsValid r) (room : num_beacons r ≤ total_beacons_max) where
  Removed-IsValid : (q : Rctx) → Removed r q → IsValid q
  Removed-IsValid q h = record {
    registered = ap (λ (s : Session). s.plugins) h.same_session ∙ v.registered;
    ordered = h.ordered;
    slots = omega arith;
  }

  after_search-Inserts :
      (d : Duplicate × Errno)
      → (is_ap_type b ≡ true) ⊎ (is_cell_type b ≡ true)
      → FoundIn b 0 r.beacon d
      → Inserts r b (after_search r b d)
  after_search-Inserts (no_duplicate, code) t h = ground (arith, place-Places r code b v room t)
  after_search-Inserts (replace_at k, code) t h =
      let (done_, gone, aps) = remove_beacon-Removed r k v.ordered (omega arith) in
      let class = ApsFirst-get_or r.num_ap r.beacon k v.ordered (omega arith) in
      let q = (remove_beacon r k).0 in
      ground (arith, place-Places q code b (Removed-IsValid q gone) (omega arith) t)
  after_search-Inserts (reject, code) t h = ground arith

  -- With an unused slot to spare, inserting an AP or a cell never writes past the array; the APs
  -- stay in front of the cells and counted by `num_ap`, and at most one beacon is added, which
  -- `num_ap` counts if it is an AP.
  pub insert_beacon-Inserts :
      (code : Errno)
      → (is_ap_type b ≡ true) ⊎ (is_cell_type b ≡ true)
      → Inserts r b (insert_beacon r code b)
  unfolding insert_beacon
  insert_beacon-Inserts code t = ground (
    arith,
    after_search-Inserts (find_duplicate r.session.plugins b r.beacon 0 code) t
        (rw v.registered (find_duplicate-FoundIn b r.beacon 0 code)),
  )
