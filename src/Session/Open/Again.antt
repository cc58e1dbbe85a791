-- ===== src/Session/Open/Again.antt =====
-- libel/libel.c: `sky_open` of a session that `sky_open` has opened, with and without `sky_close`.
use embedded_client.Plugins.Register.Basic.{Intact}
use embedded_client.Validate.Beacons.{validate_session_ctx}
use embedded_client.Plugins.Register.{Tables}
use embedded_client.Config.Overrides.{config_defaults, or_default}
use embedded_client.Session.Open.Checks.{Restorable, valid-magic}
use embedded_client.Session.Open.Auth.{KeySized, SameAuth, Arrays, Sized}
use embedded_client.Types.{
  error_already_open, error_bad_parameters, error_none, Session, Config, total_beacons_max,
  max_ap_beacons_max, cache_match_threshold_used, cache_match_threshold_all,
  cache_age_threshold_max, cache_beacon_threshold_max, cache_rssi_threshold, max_vap_per_ap_max,
  max_vap_per_rq_max,
}
use embedded_client.Common.{
  true, none, inl, inr, ◌≢◌, ℕ, ◌≡◌, false, some, suc, refl, ◌∙◌, Option, arith, ap, sym, subst,
}
use embedded_client.Session.Open.{
  OpenArgs, Opening, sky_open, returned, crashed, refused, zero_config, check_saved,
}
use embedded_client.Session.Open.Opens.{Outcome, sky_open-Outcome, OpenedAt, validate-same}
use embedded_client.Session.Backoff.{sky_close}

-- The caller gives all that an opening needs.
abbrev pub Complete : OpenArgs → Type 0
Complete a = (a.gettime ≢ none) × (a.device_id ≢ none) × (a.aes_key ≢ none) × KeySized a.aes_key

-- The same session comes back, open, with its configuration, cache and authentication.
abbrev pub Resumed : Session → Opening → Type 0
Resumed s (returned s' code) =
    (code ≡ error_none)
    × (s'.open_flag ≡ true)
    × (s'.header ≡ s.header)
    × (s'.config ≡ s.config)
    × (s'.cacheline ≡ s.cacheline)
    × (s'.token_id ≡ s.token_id)
    × (s'.backoff ≡ s.backoff)
Resumed s _ = ⊥

OpenedAt-Resumed :
    (size : ℕ) (a : OpenArgs) (time : Option ℕ) (s s' : Session)
    → Restorable size a s
    → config_defaults s.config ≡ s.config
    → OpenedAt size a time s s'
    → Resumed s (returned s' error_none)
OpenedAt-Resumed size a none s s' r filled out = absurd out
OpenedAt-Resumed size a (some now) s s' r filled (holds, valid, inr (never, c)) = absurd (never r)
OpenedAt-Resumed size a (some now) s s' r filled (holds, valid, inl (_, c)) =
    (refl, holds.0, c.0, c.1 ∙ filled, c.2, c.3, c.4)

Outcome-Resumed :
    (size : ℕ) (a : OpenArgs) (s : Session) (o : Opening)
    → Complete a
    → Restorable size a s
    → config_defaults s.config ≡ s.config
    → Outcome size a s o
    → Resumed s o
Outcome-Resumed size a s crashed c r filled out = absurd (c.2 out.3)
Outcome-Resumed size a s (returned s' error_none) c r filled out =
    OpenedAt-Resumed size a a.gettime s s' r filled out
Outcome-Resumed size a s (returned s' error_already_open) c r filled out = cc (out.2, r.1)
Outcome-Resumed size a s (returned s' error_bad_parameters) c r filled (o, inl e) = absurd (c.0 e)
Outcome-Resumed size a s (returned s' error_bad_parameters) c r filled (o, inr (inl e)) =
    absurd (c.1 e)
Outcome-Resumed size a s (returned s' error_bad_parameters) c r filled (o, inr (inr e)) =
    absurd (c.2 e)
Outcome-Resumed size a s _ c r filled out = absurd out

or_default_again : (v d : ℕ) → or_default (or_default v d) d ≡ or_default v d
unfolding or_default
or_default_again v d = ground arith

config_defaults_again : (c : Config) → config_defaults (config_defaults c) ≡ config_defaults c
unfolding config_defaults
config_defaults_again c =
    rw
      (
        or_default_again c.total_beacons total_beacons_max,
        or_default_again c.max_ap_beacons max_ap_beacons_max,
        or_default_again c.cache_match_used_threshold cache_match_threshold_used,
        or_default_again c.cache_match_all_threshold cache_match_threshold_all,
        or_default_again c.cache_age_threshold cache_age_threshold_max,
        or_default_again c.cache_beacon_threshold cache_beacon_threshold_max,
        or_default_again c.cache_neg_rssi_threshold cache_rssi_threshold,
        or_default_again c.max_vap_per_ap max_vap_per_ap_max,
        or_default_again c.max_vap_per_rq max_vap_per_rq_max,
      )
      refl

-- What the opened session says of the customer and of itself.
abbrev Ready : ℕ → OpenArgs → Session → Type 0
Ready size a s =
    SameAuth a s
    × (validate_session_ctx size s ≡ true)
    × (s.open_flag ≡ true)
    × (config_defaults s.config ≡ s.config)
    × Arrays s

filled-of : (c c' : Config) → c ≡ config_defaults c' → config_defaults c ≡ c
filled-of c c' e = ap config_defaults e ∙ (config_defaults_again c' ∙ sym e)

Opened-Ready :
    (size : ℕ) (a : OpenArgs) (time : Option ℕ) (s s' : Session)
    → OpenedAt size a time s s'
    → Ready size a s'
Opened-Ready size a none s s' out = absurd out
Opened-Ready size a (some now) s s' (holds, valid, inl (_, c)) =
    ((holds.4, sym holds.2, holds.3), valid, holds.0, filled-of _ s.config c.1, holds.7)
Opened-Ready size a (some now) s s' (holds, valid, inr (_, c)) =
    ((holds.4, sym holds.2, holds.3), valid, holds.0, filled-of _ zero_config c.1, holds.7)

sky_close-open :
    (s : Session) → s.open_flag ≡ true → (sky_close s).0 ≡ record s { open_flag = false }
unfolding sky_close
sky_close-open s e = ground (arith, e)

-- What comes back does not depend on the flag.
Resumed-closed :
    (s : Session) (o : Opening) → Resumed (record s { open_flag = false }) o → Resumed s o
Resumed-closed s (returned s' code) r = r
Resumed-closed s crashed r = absurd r
Resumed-closed s (refused code) r = absurd r

module _ (size fuel ap_table cell_table : ℕ) (a : OpenArgs) (h : Tables)
    (t : Intact h ap_table cell_table) (s s' : Session) (sized : Sized a s)
    (done : (sky_open size (suc (suc fuel)) ap_table cell_table a h (some s)).1
      ≡ returned s' error_none) where
  ready : Ready size a s'
  ready =
      Opened-Ready size a a.gettime s s' (
        subst (Outcome size a s) done
          (sky_open-Outcome size fuel ap_table cell_table a h t s sized))

  -- A session that is opened is left alone by a further opening, with whatever arguments, which is
  -- refused.
  pub sky_open-twice :
      (a' : OpenArgs) (h' : Tables)
      → sky_open size (suc (suc fuel)) ap_table cell_table a' h' (some s')
        ≡ (h', returned s' error_already_open)
  unfolding sky_open check_saved
  sky_open-twice a' h' =
      let magic = valid-magic size s' ready.1 in rw (ready.1, ready.2) (ground (arith, magic))

  -- An opened session that is closed, and opened again at whatever time with the same arguments and no
  -- null pointer among them, comes back as it was: open, with its header, configuration, cache, token
  -- and pause.
  pub sky_open-sky_close :
      (h' : Tables) (later : ℕ)
      → Intact h' ap_table cell_table
      → Complete a
      → Resumed s'
          (sky_open size
            (suc (suc fuel))
            ap_table
            cell_table
            (record a { gettime = some later })
            h'
            (some (sky_close s').0)).1
  sky_open-sky_close h' later t' c =
      let again : OpenArgs = record a { gettime = some later } in
      let closed : Session = record s' { open_flag = false } in
      let valid = validate-same size s' closed refl refl ∙ ready.1 in
      let sized' : Sized again closed = (ready.4.0, ready.4.1, c.3) in
      let given : Complete again = ((λ (e : some later ≡ none). cc), c.1, c.2, c.3) in
      let resumed =
        Outcome-Resumed size again closed _ given (valid, refl, inr ready.0) ready.3
          (sky_open-Outcome size fuel ap_table cell_table again h' t' closed sized') in
      subst
        (λ (x : Session).
          Resumed s' (sky_open size (suc (suc fuel)) ap_table cell_table again h' (some x)).1)
        (sym (sky_close-open s' ready.2)) (Resumed-closed s' _ resumed)
