-- ===== src/Request/Kinds.antt =====
-- libel/protocol/proto.c: what the body of a request tells the server of the registration.
use embedded_client.Config.Options.{to_u32}
use embedded_client.Session.Open.{strnlen_}
use embedded_client.Types.{
  tbr_registered, tbr_unregistered, tbr_disabled, TbrState, Session, u32, max_sku_len, Rctx,
}
use embedded_client.Common.{
  inl, pos, true, [], false, inr, ◌∷◌, ◌==◌, ◌≢◌, ◌<◌, if◌then◌else◌, ℕ, ltb, ◌≡◌, List, length,
  take, eqb_ℤ, not, arith, get_or, Bool-cases, to_i32,
}
use embedded_client.Request.{
  Rq, fill_rq, get_ctx_sku, get_ctx_cc, get_ctx_id_length, get_ctx_device_id, get_ctx_ul_app_data,
}
use embedded_client.Session.Start.{auth_state_of, is_tbr_enabled}

-- How a server tells the kinds of requests apart.
abbrev pub kind_of : Rq → TbrState
kind_of q =
    if ltb 0 (length q.tbr_sku)
    then tbr_unregistered
    else if eqb_ℤ q.token_id (pos 0)
    then tbr_disabled
    else tbr_registered

-- What the kinds of requests carry.
abbrev pub Carries : TbrState → Session → Rq → Type 0
Carries tbr_unregistered s q =
    (q.token_id ≡ pos 0)
    × (q.tbr_sku ≡ take (strnlen_ s.sku max_sku_len) s.sku)
    × (q.ul_app_data ≡ [])
Carries tbr_registered s q =
    (to_u32 q.token_id ≡ s.token_id) × (q.tbr_sku ≡ []) × (q.ul_app_data ≡ s.ul_app_data)
Carries tbr_disabled s q = (q.token_id ≡ pos 0) × (q.tbr_sku ≡ []) × (q.ul_app_data ≡ s.ul_app_data)

to_u32-to_i32 : (n : ℕ) → n < u32 → to_u32 (to_i32 n) ≡ n
unfolding to_i32
to_u32-to_i32 n lt = ground arith

to_i32-ne-zero : (n : ℕ) → n < u32 → n ≢ 0 → eqb_ℤ (to_i32 n) (pos 0) ≡ false
unfolding to_i32
to_i32-ne-zero n lt some_token = ground arith

taken_some :
    (sku : List ℕ)
    → not (get_or sku 0 0 == 0) ≡ true
    → ltb 0 (length (take (strnlen_ sku max_sku_len) sku)) ≡ true
unfolding strnlen_
taken_some [] e = cc
taken_some (c ∷ cs) e = ground (arith, e)

-- From the body the server can tell the state of the registration. A request to register carries the
-- SKU, neither token nor uplink data; one of a registered device carries its token, as a signed number,
-- and its uplink data, and no SKU; one of a device that does not register carries uplink data alone.
-- Each has the bytes of the device id.
pub fill_rq-Carries :
    (r : Rctx)
    → r.session.token_id < u32
    → (kind_of (fill_rq r) ≡ auth_state_of r.session)
      × Carries (auth_state_of r.session) r.session (fill_rq r)
      × ((fill_rq r).device_id ≡ take r.session.id_len r.session.device_id)
unfolding fill_rq auth_state_of is_tbr_enabled get_ctx_sku get_ctx_cc get_ctx_id_length
    get_ctx_device_id get_ctx_ul_app_data
fill_rq-Carries r lt = elim (Bool-cases (get_or r.session.sku 0 0 == 0)) [
  | inl off ↦ ground (arith, off)
  | inr on ↦ elim (Bool-cases (r.session.token_id == 0)) [
    | inl unknown ↦ ground (arith, on, unknown, taken_some r.session.sku (ground (arith, on)))
    | inr known ↦ ground (
      arith,
      on,
      known,
      to_i32-ne-zero r.session.token_id lt (ground (arith, known)),
      to_u32-to_i32 r.session.token_id lt,
    )
  ]
]
