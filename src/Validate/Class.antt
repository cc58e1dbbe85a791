-- ===== src/Validate/Class.antt =====
-- libel/utilities.c: the types of beacons, and the order of a request context, under the checks.
use embedded_client.Plugins.ApWorst.Bounds.{Reordered}
use embedded_client.Beacons.Remove.{ApsFirst}
use embedded_client.Validate.Beacons.{validate_slots, validate_request_ctx}
use embedded_client.Types.{
  Beacon, Rctx, BeaconType, is_ap_type, is_ap, is_cell, is_cell_type, total_beacons_max,
}
use embedded_client.Validate.{validate_beacon, validate_type, check_cell, check_ap}
use embedded_client.Common.{ℕ, suc, [], true, refl, zero, ◌∷◌, ◌≡◌, List, arith, ◌⊎◌, length}

validate_type-type : (t : BeaconType) (b : Beacon) → (validate_type t b).1.type ≡ b.type
unfolding validate_type check_cell check_ap
validate_type-type t b = ground arith

validate_beacon-type : (b : Beacon) → (validate_beacon b).1.type ≡ b.type
unfolding validate_beacon
validate_beacon-type b = ground (arith, validate_type-type b.type b)

validate_type-class :
    (t : BeaconType) (b : Beacon)
    → (validate_type t b).0 ≡ true
    → (is_ap t ≡ true) ⊎ (is_cell t ≡ true)
unfolding validate_type
validate_type-class t b h = ground arith

validate_beacon-accepted :
    (b : Beacon) → (validate_beacon b).0 ≡ true → (is_ap_type b ≡ true) ⊎ (is_cell_type b ≡ true)
unfolding validate_beacon
validate_beacon-accepted b h = ground (arith, validate_type-class b.type b)

-- An accepted beacon is an AP or a cell.
pub validate_beacon-class :
    (b : Beacon)
    → (validate_beacon b).0 ≡ true
    → (is_ap_type (validate_beacon b).1 ≡ true) ⊎ (is_cell_type (validate_beacon b).1 ≡ true)
validate_beacon-class b h = rw (validate_beacon-type b) (validate_beacon-accepted b h)

validate_slots-ApsFirst :
    (m n : ℕ) (live spare : List Beacon)
    → ApsFirst n live
    → ApsFirst n (validate_slots m live spare).1
      × (length (validate_slots m live spare).1 ≡ length live)
unfolding validate_slots
validate_slots-ApsFirst zero n live spare h = (h, refl)
validate_slots-ApsFirst (suc m) n [] [] h = (h, refl)
validate_slots-ApsFirst (suc m) n [] (s ∷ spare) h =
    ground (arith, validate_slots-ApsFirst m n [] spare)
validate_slots-ApsFirst (suc m) zero (b ∷ live) spare h =
    ground (arith, validate_beacon-type b, validate_slots-ApsFirst m zero live spare)
validate_slots-ApsFirst (suc m) (suc n) (b ∷ live) spare h =
    ground (arith, validate_beacon-type b, validate_slots-ApsFirst m n live spare)

-- The check of the request context keeps it, but for the values that it puts in normal form.
pub validate_request_ctx-Reordered :
    (r : Rctx)
    → ApsFirst r.num_ap r.beacon
    → Reordered r (validate_request_ctx r).1 × ((validate_request_ctx r).1.spare ≡ r.spare)
unfolding validate_request_ctx
validate_request_ctx-Reordered r h =
    ground (arith, validate_slots-ApsFirst total_beacons_max r.num_ap r.beacon r.spare h)
