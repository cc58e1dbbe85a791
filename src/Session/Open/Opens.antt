-- ===== src/Session/Open/Opens.antt =====
-- libel/libel.c: what `sky_open` makes of a session.
use embedded_client.Plugins.Register.Basic.{Intact}
use embedded_client.Session.Open.Auth.{Arrays, Sized}
use embedded_client.Session.Open.Checks.{Restorable, Checked, check_saved-Checked}
use embedded_client.Session.Open.Finish.{Holds, Carried, Finished, finished-Finished}
use embedded_client.Plugins.Register.{Tables}
use embedded_client.Crc.{header_bytes}
use embedded_client.Config.Overrides.{config_defaults}
use embedded_client.Validate.Beacons.{validate_session_ctx}
use embedded_client.Types.{error_bad_parameters, error_none, error_already_open, Session}
use embedded_client.Common.{
  false, some, suc, true, refl, inr, none, inl, ◌==◌, ◌≢◌, ◌⊎◌, ◌∙◌, if◌then◌else◌, ℕ, ◌≡◌, Option,
  arith, ap, subst, sym,
}
use embedded_client.Session.Open.{
  crashed, unreadable, already_open, usable, returned, new_session, OpenArgs, Opening, prepared,
  resumed, Saved, sky_open, opening, check_saved,
}

-- The saved session with its configuration completed, and a new one.
abbrev pub restored : Session → Session
restored s = record s { config = config_defaults s.config }

abbrev pub started : ℕ → ℕ → Session
started size now = restored (new_session size now)

-- Opened for the caller at the time `now`: from the saved session if it can be restored, else anew.
abbrev pub Opened : ℕ → OpenArgs → ℕ → Session → Session → Type 0
Opened size a now s s' =
    Holds a s'
    × (validate_session_ctx size s' ≡ true)
    × ((Restorable size a s × Carried a (restored s) s')
        ⊎ ((Restorable size a s → ⊥) × Carried a (started size now) s'))

abbrev pub OpenedAt : ℕ → OpenArgs → Option ℕ → Session → Session → Type 0
OpenedAt size a none s s' = ⊥
OpenedAt size a (some now) s s' = Opened size a now s s'

-- How an opening may end.
abbrev pub Outcome : ℕ → OpenArgs → Session → Opening → Type 0
Outcome size a s crashed =
    (validate_session_ctx size s ≡ true)
    × (s.open_flag ≡ false)
    × (a.partner_id ≢ 0)
    × (a.aes_key ≡ none)
Outcome size a s (returned s' error_already_open) =
    (s' ≡ s) × (validate_session_ctx size s ≡ true) × (s.open_flag ≡ true)
Outcome size a s (returned s' error_bad_parameters) =
    ((s'.open_flag ≡ false) ⊎ (s'.header.magic ≡ 0))
    × ((a.gettime ≡ none) ⊎ (a.device_id ≡ none) ⊎ (a.aes_key ≡ none))
Outcome size a s (returned s' error_none) = OpenedAt size a a.gettime s s'
Outcome size a s _ = ⊥

pub validate-same :
    (size : ℕ) (s s' : Session)
    → s'.header ≡ s.header
    → s'.cacheline ≡ s.cacheline
    → validate_session_ctx size s' ≡ validate_session_ctx size s
unfolding validate_session_ctx
validate-same size s s' e e' = rw (e, e') refl

started-valid : (size now : ℕ) → validate_session_ctx size (started size now) ≡ true
unfolding validate_session_ctx header_bytes
started-valid size now = ground arith

-- The session `p` that the call goes on with.
abbrev Chosen : ℕ → OpenArgs → ℕ → Session → Session → Type 0
Chosen size a now s p =
    ((p ≡ restored s) × Restorable size a s) ⊎ ((p ≡ started size now) × (Restorable size a s → ⊥))

Chosen-closed :
    (size : ℕ) (a : OpenArgs) (now : ℕ) (s p : Session)
    → Chosen size a now s p
    → (p.open_flag ≡ false) × (validate_session_ctx size p ≡ true)
Chosen-closed size a now s p (inl (e, r)) = (
  ap (λ (x : Session). x.open_flag) e ∙ r.1,
  ap (validate_session_ctx size) e ∙ (validate-same size s (restored s) refl refl ∙ r.0),
)
Chosen-closed size a now s p (inr (e, r)) =
    (ap (λ (x : Session). x.open_flag) e, ap (validate_session_ctx size) e ∙ started-valid size now)

Chosen-Opened :
    (size : ℕ) (a : OpenArgs) (now : ℕ) (s p s' : Session)
    → Chosen size a now s p
    → Holds a s'
    → Carried a p s'
    → Opened size a now s s'
Chosen-Opened size a now s p s' c holds carried =
    let valid = validate-same size p s' carried.0 carried.2 ∙ (Chosen-closed size a now s p c).1 in
    let origin : (Restorable size a s × Carried a (restored s) s')
        ⊎ ((Restorable size a s → ⊥) × Carried a (started size now) s') =
      elim c [
        | inl (e, r) ↦ inl (r, subst (λ x. Carried a x s') e carried)
        | inr (e, r) ↦ inr (r, subst (λ x. Carried a x s') e carried)
      ] in
    (holds, valid, origin)

Chosen-Arrays :
    (size : ℕ) (a : OpenArgs) (now : ℕ) (s p : Session)
    → Arrays s
    → Chosen size a now s p
    → Arrays p
Chosen-Arrays size a now s p sized (inl (e, r)) = subst Arrays (sym e) sized
Chosen-Arrays size a now s p sized (inr (e, r)) = subst Arrays (sym e) (omega arith)

Finished-Outcome :
    (size : ℕ) (a : OpenArgs) (now : ℕ) (s p : Session) (o : Opening)
    → a.gettime ≡ some now
    → Chosen size a now s p
    → Finished a p o
    → Outcome size a s o
Finished-Outcome size a now s p (returned s' error_none) g c f =
    subst (λ time. OpenedAt size a time s s') (sym g) (Chosen-Opened size a now s p s' c f.0 f.1)
Finished-Outcome size a now s p (returned s' error_bad_parameters) g c f =
    (inl (ap (λ (x : Session). x.open_flag) f.0 ∙ (Chosen-closed size a now s p c).0), inr f.1)
Finished-Outcome size a now s p _ g c f = absurd f

Checked-Chosen :
    (size : ℕ) (a : OpenArgs) (now : ℕ) (s s' : Session)
    → Checked size a s (usable s')
    → Chosen size a now s (prepared size now s')
Checked-Chosen size a now s s' (inl (e, r, m)) =
    let kept : (if s'.header.magic == 0 then new_session size now else s') ≡ s' =
      ground (arith, ap (λ (x : Session). x.header.magic) e, m) in
    inl (ap restored (kept ∙ e), r)
Checked-Chosen size a now s s' (inr (z, r)) =
    let cleared : (if s'.header.magic == 0 then new_session size now else s')
        ≡ new_session size now =
      ground (arith, z) in
    inr (ap restored cleared, r)

module _ (size fuel ap_table cell_table : ℕ) (a : OpenArgs) (h : Tables)
    (t : Intact h ap_table cell_table) (s : Session) (sized : Sized a s) where
  resumed-Outcome :
      (s' : Session) (time : Option ℕ)
      → a.gettime ≡ time
      → Checked size a s (usable s')
      → (s'.open_flag ≡ false) ⊎ (s'.header.magic ≡ 0)
      → Outcome size a s (resumed size (suc (suc fuel)) ap_table cell_table a h s' time).1
  resumed-Outcome s' none g c closed = (closed, inl g)
  resumed-Outcome s' (some now) g c closed =
      Finished-Outcome size a now s (prepared size now s') _ g (Checked-Chosen size a now s s' c) (
        finished-Finished size fuel ap_table cell_table a h t sized.2 (prepared size now s')
          (Chosen-Arrays size a now s _ (sized.0, sized.1) (Checked-Chosen size a now s s' c)))

  opening-Outcome :
      (saved : Saved)
      → Checked size a s saved
      → Outcome size a s (opening size (suc (suc fuel)) ap_table cell_table a h s saved).1
  opening-Outcome unreadable c = c
  opening-Outcome already_open c = (refl, c.0, c.1)
  opening-Outcome (usable s') (inl (e, r, m)) =
      resumed-Outcome s' a.gettime refl (inl (e, r, m))
        (inl (ap (λ (x : Session). x.open_flag) e ∙ r.1))
  opening-Outcome (usable s') (inr (z, r)) = resumed-Outcome s' a.gettime refl (inr (z, r)) (inr z)

  pub sky_open-Outcome :
      Outcome size a s (sky_open size (suc (suc fuel)) ap_table cell_table a h (some s)).1
  unfolding sky_open
  sky_open-Outcome = opening-Outcome (check_saved size a s) (check_saved-Checked size a s sized)
