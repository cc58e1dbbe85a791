-- ===== src/Dispatch/Sends.antt =====
-- libel/protocol/proto.c: what `Rq_callback` writes for each field of a request.
use embedded_client.Gnss.Trip.{
  gnss_writes, SentNumbers, gnss_writes-SentNumbers, fix_numbers, encode_gnss_fields-run,
}
use embedded_client.Vaps.{get_num_vaps}
use embedded_client.Encode.ApTrip.{ReceivedAps, ap_writes-ReceivedAps}
use embedded_client.Beacons.Insert.Order.{IsValid}
use embedded_client.Session.Start.{is_tbr_enabled}
use embedded_client.Encode.Writes.{Write, run}
use embedded_client.Fields.{get_num_cells, get_num_aps}
use embedded_client.Encode.Lengths.{
  CountsBytes, framed, framed-run, ap_writes, encode_ap_fields-run,
}
use embedded_client.Types.{Rctx, has_gnss}
use embedded_client.Encode.{
  Nanopb, encode_submessage, encode_cell_fields, encode_ap_fields, encode_vap_data,
}
use embedded_client.Gnss.{get_num_gnss, encode_gnss_fields}
use embedded_client.Common.{
  inl, refl, [], inr, false, true, some, ◌==◌, ◌≢◌, ◌⊎◌, if◌then◌else◌, ◌≡◌, ℤ, List, subst, ℕ,
  Bool-cases, sym, Bool, arith, if_lem,
}
use embedded_client.Dispatch.{
  rq_callback, encode_field, sends_beacons, vap_bytes, rq_aps_tag, rq_gnss_tag, rq_vaps_tag,
  tbr_token_unknown, rq_cells_tag,
}
use embedded_client.Dispatch.Wire.{
  texts, Framed, CellsSent, Written, encode_vap_data-run, encode_cells-Written,
}

no_fix-of : (r : Rctx) → (get_num_gnss r == 0) ≡ true → has_gnss r.gnss ≡ false
unfolding get_num_gnss
no_fix-of r e = elim (Bool-cases (has_gnss r.gnss)) [
  | inl known ↦ ground (arith, e, known)
  | inr unknown ↦ unknown
]

some_fix-of : (r : Rctx) → (get_num_gnss r == 0) ≡ false → has_gnss r.gnss ≡ true
unfolding get_num_gnss
some_fix-of r e = elim (Bool-cases (has_gnss r.gnss)) [
  | inl known ↦ known
  | inr unknown ↦ ground (arith, e, unknown)
]

sending :
    (r : Rctx)
    → sends_beacons r ≡ true
    → (is_tbr_enabled r.session ≡ false) ⊎ (r.session.token_id ≢ tbr_token_unknown)
unfolding sends_beacons
sending r e = elim (Bool-cases (is_tbr_enabled r.session)) [
  | inl on ↦ inr (λ unknown. ground (arith, e, on, unknown))
  | inr off ↦ inl off
]

silent :
    (r : Rctx)
    → sends_beacons r ≡ false
    → (is_tbr_enabled r.session ≡ true)
      × (r.session.token_id ≡ tbr_token_unknown)
      × ◌≡◌ {A = List Write} [] []
unfolding sends_beacons
silent r e = (ground (arith, e), ground (arith, e), refl)

module _ (pb : Nanopb) (counts : CountsBytes pb) where
  no_cells : (r : Rctx) → get_num_cells r ≡ 0 → CellsSent pb counts r (get_num_cells r) 0 []
  no_cells r e = subst (λ n. CellsSent pb counts r n 0 []) (sym e) refl

  -- What the field of each tag is.
  abbrev pub FieldOf : ℤ → Rctx → ℕ → List Write → Type 0
  FieldOf of_nan r t ws =
      ((t ≡ rq_aps_tag)
        × (((get_num_aps r ≡ 0) × (ws ≡ [])) ⊎ Framed pb counts t (ReceivedAps pb counts r) ws))
      ⊎ ((t ≡ rq_vaps_tag)
          × (ws ≡ framed pb counts rq_vaps_tag (texts r vap_bytes (get_num_vaps r) 0)))
      ⊎ ((t ≡ rq_cells_tag) × CellsSent pb counts r (get_num_cells r) 0 ws)
      ⊎ ((t ≡ rq_gnss_tag)
          × (((has_gnss r.gnss ≡ false) × (ws ≡ []))
              ⊎ Framed pb counts t (SentNumbers pb counts (fix_numbers of_nan r.gnss)) ws))
      ⊎ ((t ≢ rq_aps_tag) × (t ≢ rq_vaps_tag) × (t ≢ rq_cells_tag) × (t ≢ rq_gnss_tag) × (ws ≡ []))

  -- Some writes of the kind are written.
  abbrev pub Writes : (List Write → Type 0) → pb.Stream → pb.Stream × Bool → Type 0
  Writes Kind s x = (ws : List Write) × Kind ws × Written pb counts ws s x

  nothing : (Kind : List Write → Type 0) (s : pb.Stream) → Kind [] → Writes Kind s (s, true)
  nothing Kind s k = ([], k, inl refl)

  framed-Writes :
      (t : ℕ) (func : pb.Stream → pb.Stream × Bool) (ws : List Write) (s : pb.Stream)
      → ((s' : pb.Stream) → func s' ≡ run pb ws s')
      → Written pb counts (framed pb counts t ws) s (encode_submessage pb s t func)
  unfolding encode_submessage
  framed-Writes t func ws s e = inl (framed-run pb counts t func ws s e)

  module _ (of_nan : ℤ) (r : Rctx) (t : ℕ) (s : pb.Stream) (v : IsValid r) where
    abbrev Goal : pb.Stream × Bool → Type 0
    Goal x = Writes (FieldOf of_nan r t) s x

    aps-Writes :
        t ≡ rq_aps_tag
        → Goal (
            if get_num_aps r == 0
            then (s, true)
            else encode_submessage pb s t (encode_ap_fields pb r))
    aps-Writes e =
        if_lem Goal (get_num_aps r == 0) (s, true) _
          (λ zero_aps.
            nothing (FieldOf of_nan r t) s (inl (e, inl (ground (arith, zero_aps), refl))))
          (λ some_aps.
            let ws = ap_writes pb counts r in
            (
              framed pb counts t ws,
              inl (e, inr (ws, refl, ap_writes-ReceivedAps pb counts r)),
              framed-Writes t (encode_ap_fields pb r) ws s (encode_ap_fields-run pb counts r),
            ))

    gnss-Writes :
        t ≡ rq_gnss_tag
        → Goal (
            if get_num_gnss r == 0
            then (s, true)
            else encode_submessage pb s t (encode_gnss_fields of_nan pb r))
    gnss-Writes e =
        if_lem Goal (get_num_gnss r == 0) (s, true) _
          (λ none_there.
            nothing (FieldOf of_nan r t) s
              (inr (inr (inr (inl (e, inl (no_fix-of r none_there, refl)))))))
          (λ one.
            let ws = gnss_writes pb counts r of_nan in
            (
              framed pb counts t ws,
              inr (
                  inr (
                    inr (
                      inl (
                        e,
                        inr (
                          ws,
                          refl,
                          gnss_writes-SentNumbers pb counts r of_nan (some_fix-of r one),
                        ),
                      )))),
              framed-Writes t (encode_gnss_fields of_nan pb r) ws s
                  (encode_gnss_fields-run pb counts r of_nan),
            ))

    vaps-Writes :
        t ≡ rq_vaps_tag → Goal (encode_vap_data pb r s rq_vaps_tag (get_num_vaps r) vap_bytes)
    vaps-Writes e =
        let ws = framed pb counts rq_vaps_tag (texts r vap_bytes (get_num_vaps r) 0) in
        (
          ws,
          inr (inl (e, refl)),
          inl (encode_vap_data-run pb counts r rq_vaps_tag (get_num_vaps r) vap_bytes s),
        )

    cells-Writes :
        t ≡ rq_cells_tag
        → Goal (if get_num_cells r == 0 then (s, true) else encode_cell_fields pb r s)
    unfolding encode_cell_fields
    cells-Writes e =
        let (ws, sent, written) =
          encode_cells-Written pb counts r (get_num_cells r) 0 s v (omega arith) in
        if_lem Goal (get_num_cells r == 0) (s, true) _
          (λ none_there.
            nothing (FieldOf of_nan r t) s
              (inr (inr (inl (e, no_cells r (ground (arith, none_there)))))))
          (λ some_cells. (ws, inr (inr (inl (e, sent))), written))

    field-Writes : Goal (encode_field of_nan pb r t s)
    unfolding encode_field
    field-Writes =
        if_lem Goal (t == rq_aps_tag) _ _ (λ e. aps-Writes (ground (arith, e)))
          (λ e1.
            if_lem Goal (t == rq_vaps_tag) _ _ (λ e. vaps-Writes (ground (arith, e)))
              (λ e2.
                if_lem Goal (t == rq_cells_tag) _ _ (λ e. cells-Writes (ground (arith, e)))
                  (λ e3.
                    if_lem Goal (t == rq_gnss_tag) _ _ (λ e. gnss-Writes (ground (arith, e)))
                      (λ e4. nothing (FieldOf of_nan r t) s (
                        inr (
                          inr (
                            inr (
                              inr (
                                ground (arith, e1),
                                ground (arith, e2),
                                ground (arith, e3),
                                ground (arith, e4),
                                refl,
                              )))))))))

  -- What a request sends for the field of tag `t`.
  abbrev pub Sends : ℤ → Rctx → ℕ → List Write → Type 0
  Sends of_nan r t ws =
      ((is_tbr_enabled r.session ≡ true) × (r.session.token_id ≡ tbr_token_unknown) × (ws ≡ []))
      ⊎ (((is_tbr_enabled r.session ≡ false) ⊎ (r.session.token_id ≢ tbr_token_unknown))
          × FieldOf of_nan r t ws)

  -- With nanopb as documented, the callback of a valid request writes for each tag what the field
  -- holds, or the stream fails at one of its writes. A request that is to register, with registration
  -- enabled and no token, sends nothing of what was scanned. Any other sends the APs as a message that
  -- is preceded by its length and in which all their macs, frequencies, strengths and ages are found
  -- again, the bytes of each virtual group, each cell as a message of its own in which all its
  -- identifiers are found again, and the nine numbers of a fix; a class that is missing sends nothing,
  -- and neither does any other tag.
  pub rq_callback-Sends :
      (of_nan : ℤ) (r : Rctx) (t : ℕ) (s : pb.Stream)
      → IsValid r
      → (ws : List Write) × Sends of_nan r t ws
        × Written pb counts ws s (rq_callback of_nan pb (some r) t s)
  unfolding rq_callback sends_beacons
  rq_callback-Sends of_nan r t s v =
      let (ws, field, written) = field-Writes of_nan r t s v in
      if_lem (Writes (Sends of_nan r t) s) _ _ (s, true)
        (λ e. (ws, inr (sending r e, field), written))
        (λ e. nothing (Sends of_nan r t) s (inl (silent r e)))
