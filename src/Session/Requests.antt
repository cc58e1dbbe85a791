-- ===== src/Session/Requests.antt =====
-- libel/libel.c: when a request may be opened, and what it starts from.
use embedded_client.Beacons.Insert.{done, out_of_bounds, Run}
use embedded_client.Crc.{header_bytes}
use embedded_client.Beacons.Add.Limits.{Sane, Fits}
use embedded_client.Beacons.Insert.Order.{basic_plugins, IsValid}
use embedded_client.Validate.Beacons.{validate_request_ctx, validate_slots, header_valid}
use embedded_client.Session.Start.{
  refresh, sky_new_request, fresh_request, good_time, auth_state_of, request_header, requesting,
}
use embedded_client.Session.Backoff.{backoff_violation}
use embedded_client.Types.{
  error_service_denied, error_bad_parameters, error_never_open, Config, Session, CacheLine, Rctx,
  cache_empty, Errno, seconds_in_hour, num_beacons, sky_max_ul_app_data,
}
use embedded_client.Common.{
  ℕ, refl, false, [], true, inr, inl, ◌∷◌, ◌==◌, List, ◌≡◌, ◌≤◌, arith, map, ◌⊎◌, length, ◌+◌, ◌<◌,
  ◌*◌, ◌-ℤ◌,
}

-- A cacheline that a request may use: cleared, or within the limits and the age of the configuration
-- at a known time.
abbrev pub Fresh : Config → ℕ → CacheLine → Type 0
Fresh c now cl =
    (cl.time ≡ cache_empty)
    ⊎ ((cl.num_ap ≤ c.max_ap_beacons)
        × (length cl.beacon ≤ c.total_beacons)
        × (0 < now)
        × (now ≤ cl.time + c.cache_age_threshold * seconds_in_hour))

abbrev pub AllFresh : Config → ℕ → List CacheLine → Type 0
AllFresh c now [] = Unit {0}
AllFresh c now (cl ∷ cls) = Fresh c now cl × AllFresh c now cls

refresh-Fresh : (c : Config) (now : ℕ) (cl : CacheLine) → Fresh c now (refresh c now cl)
unfolding refresh ◌-ℤ◌
refresh-Fresh c now cl = ground arith

map-AllFresh :
    (c : Config) (now : ℕ) (cls : List CacheLine) → AllFresh c now (map (refresh c now) cls)
map-AllFresh c now [] = tt
map-AllFresh c now (cl ∷ cls) = (refresh-Fresh c now cl, map-AllFresh c now cls)

==-refl : (n : ℕ) → (n == n) ≡ true
==-refl n = ground arith

pub request_header-valid : (size now : ℕ) → header_valid (request_header size now) ≡ true
unfolding header_valid header_bytes
request_header-valid size now = ==-refl _

-- A new request passes the library's own check.
fresh_request-valid :
    (size now : ℕ) (s : Session)
    → validate_request_ctx (fresh_request size now s) ≡ (true, fresh_request size now s)
unfolding validate_request_ctx validate_slots fresh_request
fresh_request-valid size now s = rw (request_header-valid size now) refl

-- What a request starts from, if it is let in.
abbrev pub Starts : Session → List ℕ → ℕ → Run (Rctx ⊎ Errno) → Type 0
Starts s ul_app_data now out_of_bounds =
    (s.open_flag ≡ true)
    × (backoff_violation s (good_time now) ≡ false)
    × (sky_max_ul_app_data < length ul_app_data)
Starts s ul_app_data now (done (inr code)) =
    (code ≡ error_bad_parameters)
    ⊎ ((code ≡ error_never_open) × (s.open_flag ≡ false))
    ⊎ ((code ≡ error_service_denied) × (backoff_violation s (good_time now) ≡ true))
Starts s ul_app_data now (done (inl r)) =
    IsValid r
    × Fits r
    × (num_beacons r ≡ 0)
    × (validate_request_ctx r ≡ (true, r))
    × AllFresh s.config (good_time now) r.session.cacheline
    × (r.auth_state ≡ auth_state_of r.session)
    × (r.session.ul_app_data ≡ ul_app_data)
    × (s.open_flag ≡ true)
    × (backoff_violation s (good_time now) ≡ false)
    × (length ul_app_data ≤ sky_max_ul_app_data)

module _ (size now : ℕ) (s : Session) (ul_app_data : List ℕ) (p : s.plugins ≡ basic_plugins)
    (sane : Sane s.config) where
  abbrev started : Rctx
  started = fresh_request size now (requesting s ul_app_data now)

  started-IsValid : IsValid started
  unfolding fresh_request
  started-IsValid = record { registered = p; ordered = refl; slots = refl }

  started-Starts :
      s.open_flag ≡ true
      → backoff_violation s (good_time now) ≡ false
      → length ul_app_data ≤ sky_max_ul_app_data
      → Starts s ul_app_data now (done (inl started))
  unfolding fresh_request
  started-Starts o v short =
      let fits : Fits started = ground arith in
      (
        started-IsValid,
        fits,
        refl,
        fresh_request-valid size now _,
        map-AllFresh s.config (good_time now) s.cacheline,
        refl,
        refl,
        o,
        v,
        short,
      )

-- A session with the basic plugins and a sane configuration lets a request in only if it is open and
-- no pause is due. The request is then empty, valid and within its limits, passes its own check, has
-- no cacheline in use that is over the limits or too old, and carries the uplink data of the caller.
-- Uplink data of more than 100 bytes is written past its array.
pub sky_new_request-Starts :
    (size rbufsize : ℕ) (s : Session) (ul_app_data : List ℕ) (now : ℕ)
    → s.plugins ≡ basic_plugins
    → Sane s.config
    → Starts s ul_app_data now (sky_new_request size rbufsize s ul_app_data now)
unfolding sky_new_request
sky_new_request-Starts size rbufsize s ul_app_data now p sane =
    ground (arith, started-Starts size now s ul_app_data p sane)
