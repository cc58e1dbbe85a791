-- ===== src/Session/Open/First.antt =====
-- libel/libel.c: the first request of a session that `sky_open` starts anew.
use embedded_client.Beacons.Insert.{done}
use embedded_client.Session.Requests.{Starts, sky_new_request-Starts}
use embedded_client.Session.Open.Checks.{valid-magic}
use embedded_client.Session.Open.Auth.{Sized}
use embedded_client.Plugins.Register.Basic.{Intact}
use embedded_client.Beacons.Add.Limits.{Sane}
use embedded_client.Session.Open.Opens.{OpenedAt, Outcome, sky_open-Outcome}
use embedded_client.Beacons.Insert.Order.{basic_plugins}
use embedded_client.Session.Backoff.{backoff_violation}
use embedded_client.Session.Open.Again.{Complete}
use embedded_client.Plugins.Register.{Tables}
use embedded_client.Session.Start.{sky_new_request, fresh_request, requesting}
use embedded_client.Config.Overrides.{config_defaults, or_default}
use embedded_client.Types.{
  error_already_open, error_bad_parameters, error_none, Session, Rctx, sky_max_ul_app_data,
}
use embedded_client.Common.{
  some, suc, true, inl, none, inr, refl, ℕ, ◌≡◌, Option, arith, subst, sym, ◌≤◌, List, length,
}
use embedded_client.Session.Open.{OpenArgs, Opening, sky_open, returned, crashed, zero_config}

abbrev FreshlyOpened : Session → Type 0
FreshlyOpened s =
    (s.open_flag ≡ true)
    × (s.plugins ≡ basic_plugins)
    × (s.config ≡ config_defaults zero_config)
    × (s.backoff ≡ error_none)

OpenedAt-FreshlyOpened :
    (size : ℕ) (a : OpenArgs) (time : Option ℕ) (s s' : Session)
    → s.header.magic ≡ 0
    → OpenedAt size a time s s'
    → FreshlyOpened s'
OpenedAt-FreshlyOpened size a none s s' z out = absurd out
OpenedAt-FreshlyOpened size a (some now) s s' z (holds, valid, inl (r, c)) =
    ground (arith, z, valid-magic size s r.0)
OpenedAt-FreshlyOpened size a (some now) s s' z (holds, valid, inr (_, c)) =
    (holds.0, holds.1, c.1, c.4)

zero_Sane : Sane (config_defaults zero_config)
unfolding config_defaults or_default
zero_Sane = omega arith

Outcome-FreshlyOpened :
    (size : ℕ) (a : OpenArgs) (s : Session) (o : Opening)
    → Complete a
    → s.header.magic ≡ 0
    → Outcome size a s o
    → (s' : Session) × (o ≡ returned s' error_none) × FreshlyOpened s'
Outcome-FreshlyOpened size a s crashed c z out = absurd (c.2 out.3)
Outcome-FreshlyOpened size a s (returned s' error_none) c z out =
    (s', refl, OpenedAt-FreshlyOpened size a a.gettime s s' z out)
Outcome-FreshlyOpened size a s (returned s' error_already_open) c z out =
    ground (arith, z, valid-magic size s out.1)
Outcome-FreshlyOpened size a s (returned s' error_bad_parameters) c z (o, inl e) = absurd (c.0 e)
Outcome-FreshlyOpened size a s (returned s' error_bad_parameters) c z (o, inr (inl e)) =
    absurd (c.1 e)
Outcome-FreshlyOpened size a s (returned s' error_bad_parameters) c z (o, inr (inr e)) =
    absurd (c.2 e)
Outcome-FreshlyOpened size a s _ c z out = absurd out

-- An open session that waits for nothing lets a request in.
admitted :
    (n : ℕ) (s : Session) (ul_app_data : List ℕ) (now : ℕ)
    → s.open_flag ≡ true
    → s.backoff ≡ error_none
    → length ul_app_data ≤ sky_max_ul_app_data
    → (r : Rctx) × (sky_new_request n n s ul_app_data now ≡ done (inl r))
unfolding sky_new_request backoff_violation
admitted n s ul_app_data now o b short =
    let r = fresh_request n now (requesting s ul_app_data now) in (r, ground (arith, o, b, short))

-- A cleared buffer is opened, with no null pointer among the arguments and both plugin tables intact;
-- then a request of the right size, with at most 100 bytes of uplink data, is let in at whatever
-- time, and is empty, valid and within limits.
pub sky_open-sky_new_request :
    (size fuel ap_table cell_table : ℕ) (a : OpenArgs) (h : Tables) (s : Session)
    (ul_app_data : List ℕ) (n now : ℕ)
    → Intact h ap_table cell_table
    → Complete a
    → Sized a s
    → s.header.magic ≡ 0
    → length ul_app_data ≤ sky_max_ul_app_data
    → (s' : Session) × ((sky_open size (suc (suc fuel)) ap_table cell_table a h (some s)).1
        ≡ returned s' error_none)
      × (r : Rctx) × (sky_new_request n n s' ul_app_data now ≡ done (inl r))
      × Starts s' ul_app_data now (done (inl r))
sky_open-sky_new_request size fuel ap_table cell_table a h s ul_app_data n now t c sized z short =
    let (s', e, (o, p, config, b)) =
      Outcome-FreshlyOpened size a s _ c z
        (sky_open-Outcome size fuel ap_table cell_table a h t s sized) in
    let (r, e') = admitted n s' ul_app_data now o b short in
    let sane : Sane s'.config = subst Sane (sym config) zero_Sane in
    (
      s',
      e,
      r,
      e',
      subst (Starts s' ul_app_data now) e' (sky_new_request-Starts n n s' ul_app_data now p sane),
    )
