-- ===== src/Session/Escalation.antt =====
-- libel/libel.c, libel/protocol/proto.c: how replies move the registration and the backoff.
use embedded_client.Errors.{set_error_status}
use embedded_client.Validate.Beacons.{validate_request_ctx, validate_session_ctx}
use embedded_client.Session.Reply.{
  to_cache, receive_config, conclude, deserialize_response, next_backoff, ServerReply, set_session,
  sky_decode_response, stamp, handle_reply, clear_hits, sky_plugin_add_to_cache, token_of,
}
use embedded_client.Types.{
  tbr_disabled, tbr_unregistered, tbr_registered, status_auth_error, error_none, TbrState, Rctx,
  LocStatus, Errno, Session, ap_plugin_basic, cell_plugin_basic, Plugin, error_server_error,
  status_decode_error, auth_retry, status_unable_to_locate, error_location_unknown, auth_retry_1d,
  auth_retry_8h, error_auth, status_bad_partner_id_error, auth_retry_16h, error_decode_error,
  status_success, error_bad_request_ctx, error_bad_session_ctx, error_bad_parameters, Status,
}
use embedded_client.Common.{
  ℕ, ◌≡◌, ◌≢◌, arith, ◌⊎◌, inr, inl, List, Option, none, refl, some, [], ◌∷◌, true, false, ◌==◌,
  ◌&&◌, Bool, not, length, if◌then◌else◌, subst,
}

-- The state of the registration and the backoff of a session.
abbrev pub Auth : Type 0
Auth = TbrState × Errno

abbrev pub auth_of : Rctx → Auth
auth_of r = (r.auth_state, r.session.backoff)

-- The pause after a failed registration: none at first, then 8 hours, 16 hours, and a day from then on.
abbrev pub Escalates : Errno → Errno → Type 0
Escalates b c =
    ((b ≡ error_none) × (c ≡ auth_retry))
    ⊎ ((b ≡ auth_retry) × (c ≡ auth_retry_8h))
    ⊎ ((b ≡ auth_retry_8h) × (c ≡ auth_retry_16h))
    ⊎ ((b ≢ error_none) × (b ≢ auth_retry) × (b ≢ auth_retry_8h) × (c ≡ auth_retry_1d))

-- The code for a status that is neither a success nor an authentication error.
abbrev pub code_for : LocStatus → Errno
code_for status_bad_partner_id_error = error_auth
code_for status_decode_error = error_auth
code_for status_unable_to_locate = error_location_unknown
code_for _ = error_server_error

-- What a reply, `none` if it does not decode, does to `x`, with the code for the application.
pub data AuthMove (reply : Option ServerReply) (x y : Auth) (code : Errno) : Type 0 where
  garbled : reply ≡ none → y ≡ x → code ≡ error_decode_error → AuthMove reply x y code
  registers :
      (p : ServerReply)
      → reply ≡ some p
      → x.0 ≡ tbr_unregistered
      → token_of p ≢ 0
      → y ≡ (tbr_registered, error_none)
      → code ≡ auth_retry
      → AuthMove reply x y code
  fails :
      (p : ServerReply)
      → reply ≡ some p
      → x.0 ≡ tbr_unregistered
      → token_of p ≡ 0
      → y.0 ≡ tbr_unregistered
      → Escalates x.1 y.1
      → code ≡ y.1
      → AuthMove reply x y code
  revokes :
      (p : ServerReply)
      → reply ≡ some p
      → x.0 ≡ tbr_registered
      → p.status ≡ status_auth_error
      → y.0 ≡ tbr_unregistered
      → Escalates x.1 y.1
      → code ≡ y.1
      → AuthMove reply x y code
  denies :
      (p : ServerReply)
      → reply ≡ some p
      → x.0 ≡ tbr_disabled
      → p.status ≡ status_auth_error
      → y ≡ x
      → code ≡ error_auth
      → AuthMove reply x y code
  locates :
      (p : ServerReply)
      → reply ≡ some p
      → x.0 ≢ tbr_unregistered
      → p.status ≡ status_success
      → y ≡ (x.0, error_none)
      → code ≡ error_none
      → AuthMove reply x y code
  answers :
      (p : ServerReply)
      → reply ≡ some p
      → x.0 ≢ tbr_unregistered
      → p.status ≢ status_success
      → p.status ≢ status_auth_error
      → y ≡ x
      → code ≡ code_for p.status
      → AuthMove reply x y code

-- `apply_used_info_to_ap` marks beacons, and leaves the session and the registration alone.
abbrev pub MarksBeacons : (Rctx → Rctx) → Type 0
MarksBeacons f = (r : Rctx) → ((f r).session ≡ r.session) × ((f r).auth_state ≡ r.auth_state)

to_cache-auth :
    (r : Rctx) (time : ℕ)
    → ((to_cache r time).0.auth_state ≡ r.auth_state)
      × ((to_cache r time).0.session.backoff ≡ r.session.backoff)
unfolding to_cache
to_cache-auth r time = ground arith

-- The saving of a location leaves the registration and the backoff alone, whatever the plugins.
sky_plugin_add_to_cache-auth :
    (plugins : List Plugin) (r : Rctx) (time : ℕ)
    → let saved = (sky_plugin_add_to_cache plugins r time).0 in
      (saved.auth_state ≡ r.auth_state) × (saved.session.backoff ≡ r.session.backoff)
unfolding sky_plugin_add_to_cache
sky_plugin_add_to_cache-auth [] r time = (refl, refl)
sky_plugin_add_to_cache-auth (cell_plugin_basic ∷ plugins) r time =
    sky_plugin_add_to_cache-auth plugins r time
sky_plugin_add_to_cache-auth (ap_plugin_basic ∷ plugins) r time =
    ground
      (arith, to_cache-auth r time, sky_plugin_add_to_cache-auth plugins (to_cache r time).0 time)

pub receive_config-backoff :
    (s : Session) (reply : ServerReply) → (receive_config s reply).backoff ≡ s.backoff
unfolding receive_config
receive_config-backoff s reply = ground arith

-- What the handling of the body does to the registration, and the status that it reports.
abbrev Registers : ServerReply → Auth → Auth → LocStatus → Type 0
Registers p x y status =
    (y.1 ≡ x.1)
    × (((x.0 ≡ tbr_unregistered)
          × (token_of p ≢ 0)
          × (y.0 ≡ tbr_registered)
          × (status ≡ status_auth_error))
        ⊎ ((x.0 ≡ tbr_unregistered)
            × (token_of p ≡ 0)
            × (y.0 ≡ tbr_unregistered)
            × (status ≡ status_auth_error))
        ⊎ ((x.0 ≡ tbr_registered)
            × (p.status ≡ status_auth_error)
            × (y.0 ≡ tbr_unregistered)
            × (status ≡ status_auth_error))
        ⊎ ((x.0 ≡ tbr_disabled)
            × (p.status ≡ status_auth_error)
            × (y.0 ≡ x.0)
            × (status ≡ status_bad_partner_id_error))
        ⊎ ((x.0 ≢ tbr_unregistered)
            × (p.status ≢ status_auth_error)
            × (y.0 ≡ x.0)
            × (status ≡ p.status)))

module _ (mark : Rctx → Rctx) (marks : MarksBeacons mark) where
  deserialize_response-Registers :
      (r : Rctx) (reply : ServerReply)
      → let d = deserialize_response mark r reply in Registers reply (auth_of r) (auth_of d.0) d.1
  unfolding deserialize_response
  deserialize_response-Registers r reply =
      let q = set_session r (receive_config r.session reply) in
      ground (arith, receive_config-backoff r.session reply, marks q)

next_backoff-Escalates : (b : Errno) → Escalates b (next_backoff b)
unfolding next_backoff
next_backoff-Escalates b = ground arith

-- What the `switch` on the status does.
abbrev Concludes : LocStatus → Auth → Auth → Errno → Type 0
Concludes status x y code =
    ((status ≡ status_success) × (y ≡ (x.0, error_none)) × (code ≡ error_none))
    ⊎ ((status ≡ status_auth_error)
        × (x.0 ≡ tbr_registered)
        × (y ≡ (x.0, error_none))
        × (code ≡ auth_retry))
    ⊎ ((status ≡ status_auth_error)
        × (x.0 ≡ tbr_unregistered)
        × (y.0 ≡ x.0)
        × Escalates x.1 y.1
        × (code ≡ y.1))
    ⊎ ((status ≡ status_auth_error) × (x.0 ≡ tbr_disabled) × (y ≡ x) × (code ≡ error_auth))
    ⊎ ((status ≢ status_success)
        × (status ≢ status_auth_error)
        × (y ≡ x)
        × (code ≡ code_for status))

conclude-Concludes :
    (status : LocStatus) (r : Rctx) (later : ℕ)
    → let c = conclude status r later in Concludes status (auth_of r) (auth_of c.0) c.1
unfolding conclude
conclude-Concludes status r later =
    let r' = set_session r (record (r.session) { backoff = error_none }) in
    ground (
      arith,
      sky_plugin_add_to_cache-auth r'.session.plugins r' later,
      next_backoff-Escalates r.session.backoff,
    )

-- The moves as a sum.
abbrev Moves : ServerReply → Auth → Auth → Errno → Type 0
Moves p x y code =
    ((x.0 ≡ tbr_unregistered)
      × (token_of p ≢ 0)
      × (y ≡ (tbr_registered, error_none))
      × (code ≡ auth_retry))
    ⊎ ((x.0 ≡ tbr_unregistered)
        × (token_of p ≡ 0)
        × (y.0 ≡ tbr_unregistered)
        × Escalates x.1 y.1
        × (code ≡ y.1))
    ⊎ ((x.0 ≡ tbr_registered)
        × (p.status ≡ status_auth_error)
        × (y.0 ≡ tbr_unregistered)
        × Escalates x.1 y.1
        × (code ≡ y.1))
    ⊎ ((x.0 ≡ tbr_disabled) × (p.status ≡ status_auth_error) × (y ≡ x) × (code ≡ error_auth))
    ⊎ ((x.0 ≢ tbr_unregistered)
        × (p.status ≡ status_success)
        × (y ≡ (x.0, error_none))
        × (code ≡ error_none))
    ⊎ ((x.0 ≢ tbr_unregistered)
        × (p.status ≢ status_success)
        × (p.status ≢ status_auth_error)
        × (y ≡ x)
        × (code ≡ code_for p.status))

chain-Moves :
    (p : ServerReply) (status : LocStatus) (x d y : Auth) (code : Errno)
    → Registers p x d status
    → Concludes status d y code
    → Moves p x y code
chain-Moves p status x d y code h c = ground arith

auth_move :
    (p : ServerReply) (x y : Auth) (code : Errno) → Moves p x y code → AuthMove (some p) x y code
auth_move p x y code (inl (u, t, e, c)) = registers p refl u t e c
auth_move p x y code (inr (inl (u, t, e, b, c))) = fails p refl u t e b c
auth_move p x y code (inr (inr (inl (u, a, e, b, c)))) = revokes p refl u a e b c
auth_move p x y code (inr (inr (inr (inl (u, a, e, c))))) = denies p refl u a e c
auth_move p x y code (inr (inr (inr (inr (inl (u, a, e, c)))))) = locates p refl u a e c
auth_move p x y code (inr (inr (inr (inr (inr (u, a, b, e, c)))))) = answers p refl u a b e c

validate_request_ctx-auth : (r : Rctx) → auth_of (validate_request_ctx r).1 ≡ auth_of r
unfolding validate_request_ctx
validate_request_ctx-auth r = ground arith

-- The call looks at the reply.
abbrev pub accepted : ℕ → Rctx → List ℕ → Bool
accepted size r response =
    (validate_request_ctx r).0
    && not (length response == 0)
    && validate_session_ctx size (validate_request_ctx r).1.session

-- A call that is refused changes neither the registration nor the backoff.
abbrev pub Answered : Bool → Option ServerReply → Auth → Rctx × Errno × Status → Type 0
Answered false reply x (q, code, ret) =
    (auth_of q ≡ x)
    × ((code ≡ error_bad_request_ctx)
        ⊎ (code ≡ error_bad_parameters)
        ⊎ (code ≡ error_bad_session_ctx))
Answered true reply x (q, code, ret) = AuthMove reply x (auth_of q) code

guarded :
    (good empty valid : Bool) (reply : Option ServerReply) (r1 : Rctx) (h : Rctx × Errno × Status)
    → AuthMove reply (auth_of r1) (auth_of h.0) h.1
    → Answered (good && not empty && valid) reply (auth_of r1) (
        if not good
        then set_error_status r1 error_bad_request_ctx
        else if empty
        then set_error_status r1 error_bad_parameters
        else if not valid
        then set_error_status r1 error_bad_session_ctx
        else h)
guarded false empty valid reply r1 h moved = (refl, inl refl)
guarded true true valid reply r1 h moved = (refl, inr (inl refl))
guarded true false false reply r1 h moved = (refl, inr (inr refl))
guarded true false true reply r1 h moved = moved

module _ (mark : Rctx → Rctx) (marks : MarksBeacons mark) where
  handle_reply-AuthMove :
      (r : Rctx) (reply : Option ServerReply) (later : ℕ)
      → let x = handle_reply mark r reply later in AuthMove reply (auth_of r) (auth_of x.0) x.1
  unfolding handle_reply
  handle_reply-AuthMove r none later = garbled refl refl refl
  handle_reply-AuthMove r (some reply) later =
      let d = deserialize_response mark r reply in
      let cleared = clear_hits (d.0) in
      let registers : Registers reply (auth_of r) (auth_of cleared) d.1 =
        ground (arith, deserialize_response-Registers mark marks r reply) in
      auth_move reply _ _ _ (
        chain-Moves reply d.1 (auth_of r) (auth_of cleared) _ _ registers
          (conclude-Concludes d.1 cleared later))

  -- A call that is refused leaves the registration and the backoff as they were. Any other makes the
  -- one move of `AuthMove` that the reply calls for, with the code of that move, provided that the
  -- marking of used beacons leaves both alone. A reply that does not decode changes nothing. A session
  -- that is to be registered is registered, without a pause, by a reply with a token, and any other
  -- reply brings the next of the pauses none, now, 8 hours, 16 hours, a day. An authentication error
  -- takes the registration away from one that has it, with the next pause too, and is only reported by
  -- one that needs none. For these two, a location clears the pause, and any other status is only
  -- reported.
  pub sky_decode_response-AuthMove :
      (decode : List ℕ → Option ServerReply) (size : ℕ) (r : Rctx) (response : List ℕ)
      (now later : ℕ)
      → Answered
          (accepted size r response)
          (decode response)
          (auth_of r)
          (sky_decode_response mark decode size r response now later)
  unfolding sky_decode_response stamp
  sky_decode_response-AuthMove decode size r response now later =
      let r1 = (validate_request_ctx r).1 in
      let reply = decode response in
      let stamped = set_session r1 (stamp r1.session now) in
      subst
        (λ (x : Auth).
          Answered (accepted size r response) reply x
            (sky_decode_response mark decode size r response now later))
        (validate_request_ctx-auth r)
        (guarded (validate_request_ctx r).0 (length response == 0)
          (validate_session_ctx size r1.session) reply r1 (handle_reply mark stamped reply later)
          (handle_reply-AuthMove stamped reply later))
