-- ===== src/Beacons/Add/Valid.antt =====
-- libel/beacons.c: the request context under `add_beacon`.
use embedded_client.Validate.Class.{validate_request_ctx-Reordered, validate_beacon-class}
use embedded_client.Beacons.Add.{
  filter_beacons, sky_plugin_remove_worst, add_checked, insert_beacon, add_beacon, ℤ,
  set_error_status, add_aged, beacon_age,
}
use embedded_client.Beacons.Add.Limits.{
  Fits, Sane, num_cells_lem, cell_limit_lem, sky_plugin_remove_worst-Filtered,
}
use embedded_client.Beacons.Cache.{search_cacheline, beacon_in_cacheline, beacon_in_cache}
use embedded_client.Plugins.ApWorst.Bounds.{Reordered}
use embedded_client.Beacons.Insert.Order.{IsValid, Inserts, basic_plugins, insert_beacon-Inserts}
use embedded_client.Beacons.Remove.{Removed, ApsFirst-le-length}
use embedded_client.Validate.Beacons.{validate_request_ctx}
use embedded_client.Validate.{validate_beacon}
use embedded_client.Beacons.Insert.{out_of_bounds, done, Run}
use embedded_client.Types.{
  success, error, Beacon, Rctx, Plugin, is_ap_type, Errno, total_beacons_max, CacheLine, Status,
  is_cell_type, num_beacons, Session, error_bad_parameters, error_never_open, error_bad_request_ctx,
}
use embedded_client.Common.{ℕ, [], true, ◌∷◌, List, ◌≡◌, arith, ◌⊎◌, ap, ◌∙◌, refl, ◌≤◌, inr, inl}

module _ (plugins : List Plugin) where
  search_cacheline-type :
      (b : Beacon) (xs : List Beacon) → (search_cacheline plugins b xs).1.type ≡ b.type
  unfolding search_cacheline
  search_cacheline-type b [] = refl
  search_cacheline-type b (x ∷ xs) = ground (arith, search_cacheline-type b xs)

  beacon_in_cacheline-type :
      (b : Beacon) (cl : CacheLine) → (beacon_in_cacheline plugins b cl).1.type ≡ b.type
  unfolding beacon_in_cacheline
  beacon_in_cacheline-type b cl = ground (arith, search_cacheline-type b cl.beacon)

  beacon_in_cache-type :
      (b : Beacon) (cls : List CacheLine) → (beacon_in_cache plugins b cls).1.type ≡ b.type
  unfolding beacon_in_cache
  beacon_in_cache-type b [] = refl
  beacon_in_cache-type b (cl ∷ cls) = ground (
    arith,
    beacon_in_cacheline-type b cl,
    beacon_in_cache-type (beacon_in_cacheline plugins b cl).1 cls,
  )

-- What the addition of a beacon to `r` may leave: a valid context within its limits, of the same
-- session, to which a failed call has added nothing.
abbrev pub Adds : Rctx → Run (Rctx × Errno × Status) → Type 0
Adds r out_of_bounds = ⊥
Adds r (done (q, code, status)) =
    IsValid q
    × Fits q
    × (q.session ≡ r.session)
    × (q.header ≡ r.header)
    × ((status ≡ success) ⊎ (num_beacons q ≡ num_beacons r))

Removed-IsValid : (r q : Rctx) → IsValid r → Removed r q → IsValid q
Removed-IsValid r q v h = record {
  registered = ap (λ (s : Session). s.plugins) h.same_session ∙ v.registered;
  ordered = h.ordered;
  slots = omega arith;
}

module _ (r : Rctx) (v : IsValid r) (f : Fits r) (s : Sane r.session.config) where
  filter_beacons-Adds :
      (b : Beacon) (x : Run (Rctx × Errno × Status))
      → Inserts r b x
      → Adds r (filter_beacons (num_beacons r) x)
  unfolding filter_beacons
  filter_beacons-Adds b (done (q, code, success)) h =
      let same = h.2 in
      let sane : Sane q.session.config = rw same s in
      ground (
        arith,
        h.0.registered,
        num_cells_lem q h.0.ordered (ground arith),
        cell_limit_lem q h.0.ordered sane,
        ApsFirst-le-length q.num_ap q.beacon h.0.ordered,
        sky_plugin_remove_worst-Filtered q h.0.ordered sane,
        Removed-IsValid q (sky_plugin_remove_worst basic_plugins q).0,
      )
  filter_beacons-Adds b (done (q, code, error)) h = ground arith
  filter_beacons-Adds b out_of_bounds h = absurd h

  -- The beacon reaches the insertion with its type.
  add_checked-Adds :
      (code : Errno) (b : Beacon)
      → (is_ap_type b ≡ true) ⊎ (is_cell_type b ≡ true)
      → Adds r (add_checked r code b)
  unfolding add_checked
  add_checked-Adds code b t =
      let plugins = r.session.plugins in
      let b1 = (beacon_in_cache plugins b r.session.cacheline).1 in
      let same : b1.type ≡ b.type = beacon_in_cache-type plugins b r.session.cacheline in
      let room : num_beacons r ≤ total_beacons_max =
        omega (arith, ApsFirst-le-length r.num_ap r.beacon v.ordered) in
      ground (
        arith,
        filter_beacons-Adds b1 (insert_beacon r code b1)
            (insert_beacon-Inserts r b1 v room code (rw same t)),
        filter_beacons-Adds b (insert_beacon r code b) (insert_beacon-Inserts r b v room code t),
      )

  stands : (c : Errno) → Adds r (done (set_error_status r c))
  stands c = (v, f, refl, refl, inr refl)

  add_aged-Adds :
      (code : Errno) (b : Beacon) (age : ℕ ⊎ Errno)
      → (is_ap_type b ≡ true) ⊎ (is_cell_type b ≡ true)
      → Adds r (add_aged r code b age)
  unfolding add_aged
  add_aged-Adds code b (inl age) t = add_checked-Adds code (record b { age = age }) t
  add_aged-Adds code b (inr refused) t = stands refused

module _ (r q : Rctx) (same : Reordered r q) where
  Reordered-IsValid : IsValid r → IsValid q
  Reordered-IsValid v = record {
    registered = ap (λ (s : Session). s.plugins) same.same_session ∙ v.registered;
    ordered = same.ordered;
    slots = omega arith;
  }

  Reordered-Fits : Fits r → Fits q
  Reordered-Fits f = rw same.same_session (omega arith)

  Reordered-Sane : Sane r.session.config → Sane q.session.config
  Reordered-Sane s = rw same.same_session s

  Adds-Reordered : (x : Run (Rctx × Errno × Status)) → Adds q x → Adds r x
  Adds-Reordered (done (p, code, status)) h =
      (h.0, h.1, h.2 ∙ same.same_session, h.3 ∙ same.same_header, ground arith)
  Adds-Reordered out_of_bounds h = h

-- Whatever beacon and time it is given, `add_beacon` on a valid context within its limits, under a
-- configuration that makes sense, writes nothing out of bounds and leaves a valid context within its
-- limits, with the session and the header as they were; a call that fails adds no beacon.
pub add_beacon-Adds :
    (r : Rctx) (code : Errno) (b : Beacon) (timestamp : ℤ)
    → IsValid r
    → Fits r
    → Sane r.session.config
    → Adds r (add_beacon r code b timestamp)
unfolding add_beacon
add_beacon-Adds r code b timestamp v f s =
    let same = (validate_request_ctx-Reordered r v.ordered).0 in
    let q = (validate_request_ctx r).1 in
    let v' = Reordered-IsValid r q same v in
    let f' = Reordered-Fits r q same f in
    let s' = Reordered-Sane r q same s in
    let age = beacon_age q.header.time timestamp in
    Adds-Reordered r q same _ (
      ground (
        arith,
        stands q v' f' s' error_bad_request_ctx,
        stands q v' f' s' error_never_open,
        stands q v' f' s' error_bad_parameters,
        validate_beacon-class b,
        add_aged-Adds q v' f' s' code (validate_beacon b).1 age,
      ))
