-- ===== src/Session/Pauses.antt =====
-- libel/libel.c, libel/protocol/proto.c: the pauses that a session owes over a run of replies.
use embedded_client.Beacons.Insert.{done}
use embedded_client.Session.Backoff.{backoff_violation, pause_hours, backoff_units_per_hr}
use embedded_client.Session.Start.{sky_new_request, good_time}
use embedded_client.Session.Reply.{
  next_backoff, handle_reply, deserialize_response, conclude, ServerReply, token_of,
}
use embedded_client.Session.Escalation.{receive_config-backoff}
use embedded_client.Types.{
  error, tbr_unregistered, auth_retry_16h, error_service_denied, auth_retry, error_none,
  auth_retry_8h, auth_retry_1d, Errno, Rctx, Session,
}
use embedded_client.Common.{
  ℕ, some, true, inr, ◌≡◌, arith, ◌-ℤ◌, ◌≤◌, ◌<◌, ◌+◌, ◌*◌, List, [], zero, refl, suc, ◌∷◌, ◌∙◌,
  length, ap,
}

-- The pauses that failed registrations earn, in order; the last one stays.
abbrev pub ladder : ℕ → Errno
ladder zero = error_none
ladder (suc zero) = auth_retry
ladder (suc (suc zero)) = auth_retry_8h
ladder (suc (suc (suc zero))) = auth_retry_16h
ladder (suc (suc (suc (suc n)))) = auth_retry_1d

next_backoff-ladder : (n : ℕ) → next_backoff (ladder n) ≡ ladder (suc n)
unfolding next_backoff
next_backoff-ladder zero = refl
next_backoff-ladder (suc zero) = refl
next_backoff-ladder (suc (suc zero)) = refl
next_backoff-ladder (suc (suc (suc zero))) = refl
next_backoff-ladder (suc (suc (suc (suc n)))) = refl

pub failed_registration :
    (mark : Rctx → Rctx) (r : Rctx) (reply : ServerReply) (later : ℕ)
    → r.auth_state ≡ tbr_unregistered
    → token_of reply ≡ 0
    → let x = handle_reply mark r (some reply) later in
      let code = next_backoff r.session.backoff in
      (x.1 ≡ code)
      × (x.2 ≡ error)
      × (x.0.session.backoff ≡ code)
      × (x.0.auth_state ≡ tbr_unregistered)
unfolding handle_reply deserialize_response conclude next_backoff
failed_registration mark r reply later u t = ground (arith, receive_config-backoff r.session reply)

-- The context after replies in turn, each with the time at which it is saved, and their codes.
abbrev pub handle_all : (Rctx → Rctx) → Rctx → List (ServerReply × ℕ) → Rctx × List Errno
handle_all mark r [] = (r, [])
handle_all mark r ((reply, later) ∷ replies) =
    let x = handle_reply mark r (some reply) later in
    let (q, codes) = handle_all mark x.0 replies in (q, x.1 ∷ codes)

abbrev pub Tokenless : List (ServerReply × ℕ) → Type 0
Tokenless [] = Unit {0}
Tokenless ((reply, later) ∷ replies) = (token_of reply ≡ 0) × Tokenless replies

-- `n` codes of the ladder after the one at `k`.
abbrev pub rungs : ℕ → ℕ → List Errno
rungs k zero = []
rungs k (suc n) = ladder (suc k) ∷ rungs (suc k) n

-- However many registrations fail in a row, on a session that waits at some place of the ladder now, 8
-- hours, 16 hours, a day: the code of each is the next of the ladder, a day for all that come later,
-- and the session stays unregistered, with the last of these codes as its pause.
pub handle_all-rungs :
    (mark : Rctx → Rctx) (k : ℕ) (r : Rctx) (replies : List (ServerReply × ℕ))
    → r.auth_state ≡ tbr_unregistered
    → r.session.backoff ≡ ladder k
    → Tokenless replies
    → let (q, codes) = handle_all mark r replies in
      (codes ≡ rungs k (length replies))
      × (q.auth_state ≡ tbr_unregistered)
      × (q.session.backoff ≡ ladder (k + length replies))
handle_all-rungs mark k r [] u b none_given = (refl, u, b ∙ ap ladder (omega arith))
handle_all-rungs mark k r ((reply, later) ∷ replies) u b (t, ts) =
    let x = handle_reply mark r (some reply) later in
    let (code, _, backoff, state) = failed_registration mark r reply later u t in
    let next = ap next_backoff b ∙ next_backoff-ladder k in
    let rest = handle_all-rungs mark (suc k) x.0 replies state (backoff ∙ next) ts in
    let tail = (handle_all mark x.0 replies).1 in
    (
      ap (λ (c : Errno). c ∷ tail) (code ∙ next)
          ∙ ap (λ (cs : List Errno). ladder (suc k) ∷ cs) rest.0,
      rest.1,
      rest.2 ∙ ap ladder (omega arith),
    )

-- While the pause of an open session is due and not over, by a clock that has not gone back, every
-- request is refused as service denied.
pub paused_request :
    (size : ℕ) (s : Session) (ul_app_data : List ℕ) (now : ℕ)
    → s.open_flag ≡ true
    → s.header.time ≤ good_time now
    → good_time now < s.header.time + pause_hours s.backoff * backoff_units_per_hr
    → sky_new_request size size s ul_app_data now ≡ done (inr error_service_denied)
unfolding sky_new_request backoff_violation ◌-ℤ◌
paused_request size s ul_app_data now o le lt = ground arith
