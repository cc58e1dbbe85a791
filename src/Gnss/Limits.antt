-- ===== src/Gnss/Limits.antt =====
-- libel/libel.c: what `sky_add_gnss` lets into a request.
use embedded_client.Errors.{set_error_status}
use embedded_client.Validate.Beacons.{validate_request_ctx}
use embedded_client.Float.{lt, Float, of_int, nan, fin}
use embedded_client.Types.{
  Gnss, u32, Rctx, time_unavailable, timestamp_2019_03_01, success, error_bad_request_ctx,
  error_bad_parameters, error_bad_time, error, error_none, Errno, Status, has_gnss,
}
use embedded_client.Common.{
  some, inr, negsuc, pos, refl, inl, false, ◌==◌, ◌⊎◌, ◌≤◌, ◌<◌, ℤ, ℕ, ◌-ℤ◌, neg, ◌≡◌, Bool-cases,
  arith, ◌+◌, none, true, ◌||◌, if◌then◌else◌, not, Option, if_lem, ap, subst, sym,
}
use embedded_client.Gnss.{Fix, sky_add_gnss, gnss_age, out_of_range, is_nan, stored, add_aged_fix}

-- A float within two integers, or unknown.
abbrev pub FloatWithin : ℤ → ℤ → Float → Type 0
FloatWithin low high x = (lt x (of_int low) ≡ false) × (lt (of_int high) x ≡ false)

-- The ranges of a fix.
abbrev pub GnssInRange : Gnss → Type 0
GnssInRange g =
    (g.hpe ≤ 100000)
    × (g.nsat ≤ 100)
    × FloatWithin (neg 1200) (pos 8900) g.alt
    × FloatWithin (pos 0) (pos 343) g.speed

abbrev pub Aged : ℕ → ℤ → ℕ → Type 0
Aged now timestamp age =
    ((now ≡ time_unavailable) × (age ≡ 0))
    ⊎ ((timestamp ≡ pos time_unavailable) × (age ≡ 0))
    ⊎ ((then' : ℕ) × (timestamp ≡ pos then') × (timestamp_2019_03_01 < then') × (then' + age ≡ now))

gnss_age-Aged :
    (now : ℕ) (timestamp : ℤ) (age : ℕ)
    → now < u32
    → gnss_age now timestamp ≡ some age
    → Aged now timestamp age
unfolding gnss_age ◌-ℤ◌
gnss_age-Aged now (pos t) age small e = elim (Bool-cases (now == 0)) [
  | inl z ↦ inl (ground (arith, z), ground (arith, z, e))
  | inr nz ↦ elim (Bool-cases (t == 0)) [
    | inl z ↦ inr (inl (ground (arith, z), ground (arith, z, nz, e)))
    | inr nz' ↦ inr (inr (t, refl, ground (arith, nz, nz', e), ground (arith, nz, nz', e, small)))
  ]
]
gnss_age-Aged now (negsuc t) age small e = ground (arith, e)

nan-lt : (x y : Float) → is_nan x ≡ true → (lt x y ≡ false) × (lt y x ≡ false)
unfolding lt
nan-lt nan nan e = (refl, refl)
nan-lt nan (fin b) e = (refl, refl)
nan-lt (fin a) y e = cc

in_range-GnssInRange : (f : Fix) (age : ℕ) → out_of_range f ≡ false → GnssInRange (stored f age)
unfolding out_of_range
in_range-GnssInRange f age e = elim (Bool-cases (is_nan f.altitude)) [
  | inl unknown ↦
      let low = nan-lt f.altitude (of_int (neg 1200)) unknown in
      let high = nan-lt f.altitude (of_int (pos 8900)) unknown in
      ground (arith, e, unknown, low.0, high.1)
  | inr known ↦ ground (arith, e, known)
]

validate-gnss : (r : Rctx) → (validate_request_ctx r).1.gnss ≡ r.gnss
unfolding validate_request_ctx
validate-gnss r = ground arith

-- Apart from the fix, the request is the same but for what its check rewrites.
abbrev pub AddsFix : Rctx → Fix → Rctx × Errno × Status → Type 0
AddsFix r f (q, error_bad_time, ret) =
    (q ≡ r) × (ret ≡ error) × (gnss_age r.header.time f.timestamp ≡ none)
AddsFix r f (q, error_none, ret) =
    (ret ≡ success)
    × Aged r.header.time f.timestamp q.gnss.age
    × (((q.gnss ≡ stored f q.gnss.age) × GnssInRange q.gnss × (has_gnss q.gnss ≡ true))
        ⊎ (((is_nan f.lat ≡ true) ⊎ (is_nan f.lon ≡ true))
            × (q ≡ record r { gnss = record (r.gnss) { age = q.gnss.age } })))
AddsFix r f (q, error_bad_parameters, ret) =
    (ret ≡ error)
    × (out_of_range f ≡ true)
    × Aged r.header.time f.timestamp q.gnss.age
    × (q ≡ record r { gnss = record (r.gnss) { age = q.gnss.age } })
AddsFix r f (q, error_bad_request_ctx, ret) =
    (ret ≡ error)
    × ((validate_request_ctx (record r { gnss = record (r.gnss) { age = q.gnss.age } })).0 ≡ false)
AddsFix r f _ = ⊥

present : (x : Float) → is_nan x ≡ false → (elim x [ nan ↦ false | fin _ ↦ true ]) ≡ true
present nan e = cc
present (fin a) e = refl

known-has_gnss : (f : Fix) (age : ℕ) → is_nan f.lat ≡ false → has_gnss (stored f age) ≡ true
known-has_gnss f age e = present f.lat e

nan-either : (a b : Float) → (is_nan a || is_nan b) ≡ true → (is_nan a ≡ true) ⊎ (is_nan b ≡ true)
nan-either nan b e = inl refl
nan-either (fin a) b e = inr e

module _ (r : Rctx) (f : Fix) (age : ℕ) (aged : Aged r.header.time f.timestamp age) where
  abbrev r1 : Rctx
  r1 = record r { gnss = record (r.gnss) { age = age } }

  checked-AddsFix :
      (is_nan f.lat || is_nan f.lon) ≡ false
      → out_of_range f ≡ false
      → AddsFix r f (
          if not (validate_request_ctx r1).0
          then set_error_status (validate_request_ctx r1).1 error_bad_request_ctx
          else set_error_status
              (record ((validate_request_ctx r1).1) {
                gnss = stored f (validate_request_ctx r1).1.gnss.age;
              })
              error_none)
  checked-AddsFix known good =
      let q = (validate_request_ctx r1).1 in
      let same : q.gnss.age ≡ age = ap (λ (g : Gnss). g.age) (validate-gnss r1) in
      if_lem (AddsFix r f) (not (validate_request_ctx r1).0) _ _
        (λ e. (
          refl,
          subst
              (λ n.
                (validate_request_ctx (record r { gnss = record (r.gnss) { age = n } })).0 ≡ false)
              (sym same) (ground (arith, e)),
        ))
        (λ e. (
          refl,
          subst (Aged r.header.time f.timestamp) (sym same) aged,
          inl (
            refl,
            in_range-GnssInRange f q.gnss.age good,
            known-has_gnss f q.gnss.age (ground (arith, known)),
          ),
        ))

  aged-AddsFix : AddsFix r f (add_aged_fix r f age)
  aged-AddsFix =
      if_lem (AddsFix r f) (is_nan f.lat || is_nan f.lon) _ _
        (λ e. (refl, aged, inr (nan-either f.lat f.lon e, refl)))
        (λ known.
          if_lem (AddsFix r f) (out_of_range f) (set_error_status r1 error_bad_parameters) _
            (λ bad. (refl, bad, aged, refl)) (λ good. checked-AddsFix known good))

option-AddsFix :
    (r : Rctx) (f : Fix) (known : Option ℕ)
    → gnss_age r.header.time f.timestamp ≡ known
    → r.header.time < u32
    → AddsFix r f
        (elim known [ none ↦ set_error_status r error_bad_time | some age ↦ add_aged_fix r f age ])
option-AddsFix r f none e small = (refl, refl, e)
option-AddsFix r f (some age) e small =
    aged-AddsFix r f age (gnss_age-Aged r.header.time f.timestamp age small e)

-- An addition of a fix either stores it, within its ranges, or leaves the earlier fix as it was, but
-- for an age that is written before the other values are looked at: where the latitude or the
-- longitude is unknown, which is a success, and where a value is out of range. Times that are refused
-- leave the request alone. The age is the time that has passed since the fix, or 0 where one of the two
-- times is unknown.
pub sky_add_gnss-AddsFix :
    (r : Rctx) (f : Fix) → r.header.time < u32 → AddsFix r f (sky_add_gnss r f)
unfolding sky_add_gnss
sky_add_gnss-AddsFix r f small = option-AddsFix r f (gnss_age r.header.time f.timestamp) refl small
