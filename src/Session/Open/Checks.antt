-- ===== src/Session/Open/Checks.antt =====
-- libel/libel.c: how `sky_open` checks the session that it is handed.
-- The saved session was closed, is unharmed, and belongs to the customer, or no customer is named.
use embedded_client.Session.Open.Auth.{Sized, SameAuth, Compared, auth_changed-Compared}
use embedded_client.Types.{Session, sky_magic}
use embedded_client.Validate.Beacons.{validate_session_ctx, header_valid}
use embedded_client.Session.Open.{
  already_open, unreadable, usable, check_saved, OpenArgs, Saved, after_auth,
  sky_sizeof_session_ctx,
}
use embedded_client.Common.{
  inl, inr, true, refl, some, none, false, ◌==◌, ◌≢◌, ◌⊎◌, ℕ, ◌≡◌, Option, Bool, if_lem, arith, not,
}

abbrev pub Restorable : ℕ → OpenArgs → Session → Type 0
Restorable size a s =
    (validate_session_ctx size s ≡ true)
    × (s.open_flag ≡ false)
    × ((a.partner_id ≡ 0) ⊎ SameAuth a s)

-- What the check of the saved session comes to.
abbrev pub Checked : ℕ → OpenArgs → Session → Saved → Type 0
Checked size a s unreadable =
    (validate_session_ctx size s ≡ true)
    × (s.open_flag ≡ false)
    × (a.partner_id ≢ 0)
    × (a.aes_key ≡ none)
Checked size a s already_open = (validate_session_ctx size s ≡ true) × (s.open_flag ≡ true)
Checked size a s (usable s') =
    ((s' ≡ s) × Restorable size a s × (s.header.magic ≡ sky_magic))
    ⊎ ((s'.header.magic ≡ 0) × (Restorable size a s → ⊥))

pub valid-magic :
    (size : ℕ) (s : Session) → validate_session_ctx size s ≡ true → s.header.magic ≡ sky_magic
unfolding validate_session_ctx
valid-magic size s h = ground (arith, h)

after_auth-Checked :
    (size : ℕ) (a : OpenArgs) (s : Session) (verdict : Option Bool)
    → validate_session_ctx size s ≡ true
    → s.open_flag ≡ false
    → a.partner_id ≢ 0
    → Compared a s verdict
    → Checked size a s (after_auth s verdict)
after_auth-Checked size a s none valid closed named c = (valid, closed, named, c)
after_auth-Checked size a s (some true) valid closed named c =
    inr (refl, λ r. elim r.2 [ inl e ↦ named e | inr same ↦ c same ])
after_auth-Checked size a s (some false) valid closed named c =
    inl (refl, (valid, closed, inr c), valid-magic size s valid)

pub check_saved-Checked :
    (size : ℕ) (a : OpenArgs) (s : Session) → Sized a s → Checked size a s (check_saved size a s)
unfolding check_saved
check_saved-Checked size a s sized =
    if_lem (Checked size a s) (s.header.magic == 0) (usable s) _
      (λ e. inr (ground (arith, e), λ r. ground (arith, e, valid-magic size s r.0)))
      (λ e0.
        if_lem (Checked size a s) (not (validate_session_ctx size s)) (usable _) _
          (λ e. inr (refl, λ r. cc (r.0, e)))
          (λ e1.
            if_lem (Checked size a s) s.open_flag already_open _ (λ e. (ground (arith, e1), e))
              (λ e2.
                if_lem (Checked size a s) (a.partner_id == 0) (usable s) _
                  (λ e.
                    let valid : validate_session_ctx size s ≡ true = ground (arith, e1) in
                    let unnamed : a.partner_id ≡ 0 = ground (arith, e) in
                    inl (refl, (valid, e2, inl unnamed), valid-magic size s valid))
                  (λ e3.
                    after_auth-Checked size a s _ (ground (arith, e1)) e2 (ground (arith, e3))
                      (auth_changed-Compared a s sized)))))

-- The size of a valid session is told.
sky_sizeof_session_ctx-valid :
    (size : ℕ) (s : Session)
    → validate_session_ctx size s ≡ true
    → sky_sizeof_session_ctx size (some s) ≡ size
unfolding sky_sizeof_session_ctx validate_session_ctx header_valid
sky_sizeof_session_ctx-valid size s h = ground (arith, h)
