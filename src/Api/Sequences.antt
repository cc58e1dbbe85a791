-- ===== src/Api/Sequences.antt =====
-- libel/libel.c: sequences of calls that add beacons to a request.
use embedded_client.Beacons.Add.Valid.{Adds, add_beacon-Adds}
use embedded_client.Beacons.Add.Limits.{Fits, Sane}
use embedded_client.Api.{
  sky_add_ap_beacon, sky_add_cell_lte_beacon, sky_add_cell_lte_neighbor_beacon,
  sky_add_cell_gsm_beacon, sky_add_cell_gsm_neighbor_beacon, sky_add_cell_umts_beacon,
  sky_add_cell_umts_neighbor_beacon, sky_add_cell_cdma_beacon, sky_add_cell_nb_iot_beacon,
  sky_add_cell_nb_iot_neighbor_beacon, sky_add_cell_nr_beacon, sky_add_cell_nr_neighbor_beacon,
}
use embedded_client.Beacons.Insert.Order.{IsValid}
use embedded_client.Types.{Rctx, Errno, Status}
use embedded_client.Beacons.Insert.{out_of_bounds, done, Run}
use embedded_client.Common.{ℕ, [], ◌∷◌, List, ℤ, Bool, ◌≡◌, ◌∙◌, refl}

-- One call of the interface.
pub data Call : Type 0 where
  add_ap : List ℕ → ℤ → ℤ → ℤ → Bool → Call
  add_lte : ℤ → ℤ → ℕ → ℕ → ℤ → ℤ → ℤ → ℤ → ℤ → Bool → Call
  add_lte_neighbor : ℤ → ℤ → ℤ → ℤ → Call
  add_gsm : ℤ → ℤ → ℕ → ℕ → ℤ → ℤ → ℤ → ℤ → ℤ → Bool → Call
  add_gsm_neighbor : ℤ → ℤ → ℤ → ℤ → Call
  add_umts : ℤ → ℤ → ℕ → ℕ → ℤ → ℤ → ℤ → ℤ → Bool → Call
  add_umts_neighbor : ℤ → ℤ → ℤ → ℤ → Call
  add_cdma : ℕ → ℤ → ℤ → ℤ → ℤ → Bool → Call
  add_nb_iot : ℕ → ℕ → ℤ → ℤ → ℤ → ℤ → ℤ → ℤ → Bool → Call
  add_nb_iot_neighbor : ℤ → ℤ → ℤ → ℤ → Call
  add_nr : ℕ → ℕ → ℤ → ℤ → ℤ → ℤ → ℤ → ℤ → ℤ → Bool → Call
  add_nr_neighbor : ℤ → ℤ → ℤ → ℤ → Call

unfoldable pub call : Rctx → Errno → Call → Run (Rctx × Errno × Status)
call r e (add_ap m t s f c) = sky_add_ap_beacon r e m t s f c
call r e (add_lte x i m n p f a t s c) = sky_add_cell_lte_beacon r e x i m n p f a t s c
call r e (add_lte_neighbor p f t s) = sky_add_cell_lte_neighbor_beacon r e p f t s
call r e (add_gsm x i m n p f a t s c) = sky_add_cell_gsm_beacon r e x i m n p f a t s c
call r e (add_gsm_neighbor p f t s) = sky_add_cell_gsm_neighbor_beacon r e p f t s
call r e (add_umts x i m n p f t s c) = sky_add_cell_umts_beacon r e x i m n p f t s c
call r e (add_umts_neighbor p f t s) = sky_add_cell_umts_neighbor_beacon r e p f t s
call r e (add_cdma x y z t s c) = sky_add_cell_cdma_beacon r e x y z t s c
call r e (add_nb_iot m n i x p f t s c) = sky_add_cell_nb_iot_beacon r e m n i x p f t s c
call r e (add_nb_iot_neighbor p f t s) = sky_add_cell_nb_iot_neighbor_beacon r e p f t s
call r e (add_nr m n i x p f a t s c) = sky_add_cell_nr_beacon r e m n i x p f a t s c
call r e (add_nr_neighbor p f t s) = sky_add_cell_nr_neighbor_beacon r e p f t s

abbrev and_then :
    Run (Rctx × Errno × Status) → (Rctx → Errno → Run (Rctx × Errno)) → Run (Rctx × Errno)
and_then (done (q, e, status)) k = k q e
and_then out_of_bounds k = out_of_bounds

-- The calls in turn, each on what the last one left.
unfoldable pub calls : List Call → Rctx → Errno → Run (Rctx × Errno)
calls [] r e = done (r, e)
calls (c ∷ cs) r e = and_then (call r e c) (calls cs)

module _ (r : Rctx) (e : Errno) (v : IsValid r) (f : Fits r) (s : Sane r.session.config) where
  call-Adds : (c : Call) → Adds r (call r e c)
  unfolding call sky_add_ap_beacon sky_add_cell_lte_beacon sky_add_cell_lte_neighbor_beacon
      sky_add_cell_gsm_beacon sky_add_cell_gsm_neighbor_beacon sky_add_cell_umts_beacon
      sky_add_cell_umts_neighbor_beacon sky_add_cell_cdma_beacon sky_add_cell_nb_iot_beacon
      sky_add_cell_nb_iot_neighbor_beacon sky_add_cell_nr_beacon sky_add_cell_nr_neighbor_beacon
  call-Adds (add_ap m t x g c) = add_beacon-Adds r e _ t v f s
  call-Adds (add_lte x i m n p g a t y c) = add_beacon-Adds r e _ t v f s
  call-Adds (add_lte_neighbor p g t y) = add_beacon-Adds r e _ t v f s
  call-Adds (add_gsm x i m n p g a t y c) = add_beacon-Adds r e _ t v f s
  call-Adds (add_gsm_neighbor p g t y) = add_beacon-Adds r e _ t v f s
  call-Adds (add_umts x i m n p g t y c) = add_beacon-Adds r e _ t v f s
  call-Adds (add_umts_neighbor p g t y) = add_beacon-Adds r e _ t v f s
  call-Adds (add_cdma x y z t w c) = add_beacon-Adds r e _ t v f s
  call-Adds (add_nb_iot m n i x p g t y c) = add_beacon-Adds r e _ t v f s
  call-Adds (add_nb_iot_neighbor p g t y) = add_beacon-Adds r e _ t v f s
  call-Adds (add_nr m n i x p g a t y c) = add_beacon-Adds r e _ t v f s
  call-Adds (add_nr_neighbor p g t y) = add_beacon-Adds r e _ t v f s

-- A request that stays in order.
abbrev pub Stays : Rctx → Run (Rctx × Errno) → Type 0
Stays r out_of_bounds = ⊥
Stays r (done (q, e)) = IsValid q × Fits q × (q.session ≡ r.session) × (q.header ≡ r.header)

Stays-through :
    (r q : Rctx) (x : Run (Rctx × Errno))
    → q.session ≡ r.session
    → q.header ≡ r.header
    → Stays q x
    → Stays r x
Stays-through r q (done (p, e)) s h (v, f, s', h') = (v, f, s' ∙ s, h' ∙ h)
Stays-through r q out_of_bounds s h x = x

and_then-Stays :
    (r : Rctx) (x : Run (Rctx × Errno × Status)) (k : Rctx → Errno → Run (Rctx × Errno))
    → Sane r.session.config
    → Adds r x
    → ((q : Rctx) (e : Errno) → IsValid q → Fits q → Sane q.session.config → Stays q (k q e))
    → Stays r (and_then x k)
and_then-Stays r (done (q, e, status)) k s h each =
    Stays-through r q _ (h.2) (h.3) (each q e (h.0) (h.1) (rw (h.2) s))
and_then-Stays r out_of_bounds k s h each = h

-- Under a sane configuration: however many beacons are added, of whatever kind and with whatever
-- values, a valid request within its limits stays so, nothing is written past the end of its array,
-- and the session and the header stay as they are.
pub calls-Stays :
    (cs : List Call) (r : Rctx) (e : Errno)
    → IsValid r
    → Fits r
    → Sane r.session.config
    → Stays r (calls cs r e)
unfolding calls
calls-Stays [] r e v f s = (v, f, refl, refl)
calls-Stays (c ∷ cs) r e v f s =
    and_then-Stays r (call r e c) (calls cs) s (call-Adds r e v f s c) (calls-Stays cs)
