-- ===== src/Dispatch/Wire.antt =====
-- libel/protocol/proto.c: what is written for the cells and for the virtual groups.
use embedded_client.Fields.Counts.{get_cell-get_num_cells}
use embedded_client.Beacons.Insert.Order.{IsValid}
use embedded_client.Encode.CellTrip.{Received, cell_writes-Received}
use embedded_client.Fields.{get_cell, get_num_cells}
use embedded_client.Encode.Lengths.{
  CountsBytes, framed, framed-run, bytes, sizing-bytes, and_also-true,
}
use embedded_client.Encode.{
  Nanopb, encode_strings, encode_vap_data, encode_cell, and_also, wt_string, encode_cell_field,
  encode_cells,
}
use embedded_client.Types.{Rctx, Beacon}
use embedded_client.Encode.Writes.{
  text, Write, run, cell_writes, varint, encode_cell_field-run, run-append,
}
use embedded_client.Common.{
  suc, some, refl, false, zero, true, [], ◌∷◌, ◌⊎◌, ◌++◌, ℕ, List, ◌≡◌, ◌+◌, Bool, ap, pos, inr,
  inl, ◌∙◌, Bool-cases, sym, ◌≤◌, arith, subst,
}
use mathlib.Core.Path.{fun_ext}

-- The groups from index `i` on, `n` of them.
abbrev pub texts : Rctx → (Rctx → ℕ → List ℕ) → ℕ → ℕ → List Write
texts r getter zero i = []
texts r getter (suc n) i = text (getter r i) ∷ texts r getter n (i + 1)

module _ (pb : Nanopb) (counts : CountsBytes pb) where
  encode_strings-run :
      (r : Rctx) (getter : Rctx → ℕ → List ℕ) (n i : ℕ) (s : pb.Stream)
      → encode_strings pb r getter n i s ≡ run pb (texts r getter n i) s
  unfolding encode_strings
  encode_strings-run r getter zero i s = refl
  encode_strings-run r getter (suc n) i s =
      ap (and_also (pb.encode_string s (getter r i)))
        (fun_ext (encode_strings-run r getter n (i + 1)))

  pub encode_vap_data-run :
      (r : Rctx) (t n : ℕ) (getter : Rctx → ℕ → List ℕ) (s : pb.Stream)
      → encode_vap_data pb r s t n getter ≡ run pb (framed pb counts t (texts r getter n 0)) s
  unfolding encode_vap_data
  encode_vap_data-run r t n getter s =
      framed-run pb counts t (encode_strings pb r getter n 0) (texts r getter n 0) s
        (encode_strings-run r getter n 0)

  -- A tag, the length of the rest, and the rest.
  abbrev pub Framed : ℕ → (List Write → Type 0) → List Write → Type 0
  Framed t Inner ws = (inner : List Write) × (ws ≡ framed pb counts t inner) × Inner inner

  -- The cells from index `i` on, `n` of them, each framed.
  abbrev pub CellsSent : Rctx → ℕ → ℕ → List Write → Type 0
  CellsSent r zero i ws = ws ≡ []
  CellsSent r (suc n) i ws =
      (c : Beacon) × (inner : List Write) × (rest : List Write) × (get_cell r i ≡ some c)
      × Received c inner
      × (ws ≡ framed pb counts 10 inner ++ rest)
      × CellsSent r n (i + 1) rest

  -- The stream has the writes, or one of them has failed.
  abbrev pub Written : List Write → pb.Stream → pb.Stream × Bool → Type 0
  Written ws s x = (x ≡ run pb ws s) ⊎ ((run pb ws s).1 ≡ false)

  encode_cell-Written :
      (c : Beacon) (s : pb.Stream)
      → Written (framed pb counts 10 (cell_writes c)) s (encode_cell pb c s, true)
  unfolding encode_cell
  encode_cell-Written c s =
      let ws = cell_writes c in
      let n = bytes pb counts ws in
      let all = framed pb counts 10 ws in
      let size =
        (sizing-bytes pb counts (encode_cell_field pb c) ws (encode_cell_field-run pb c)).1 in
      let s1 = (pb.encode_tag s wt_string 10).0 in
      let s2 = (pb.encode_varint s1 (pos n)).0 in
      let from = λ (k : ℕ). (encode_cell_field pb c (pb.encode_varint s1 (pos k)).0).0 in
      elim (Bool-cases (run pb all s).1) [
        | inr failed ↦ inr failed
        | inl ok ↦
            let after_tag =
              and_also-true pb counts (pb.encode_tag s wt_string 10) (run pb (varint (pos n) ∷ ws))
                ok in
            let ok1 : (run pb (varint (pos n) ∷ ws) s1).1 ≡ true =
              sym (ap (λ (x : pb.Stream × Bool). x.1) after_tag.1) ∙ ok in
            let after_size =
              and_also-true pb counts (pb.encode_varint s1 (pos n)) (run pb ws) ok1 in
            let all_at : run pb all s ≡ run pb ws s2 = after_tag.1 ∙ after_size.1 in
            let ok2 : (run pb ws s2).1 ≡ true =
              sym (ap (λ (x : pb.Stream × Bool). x.1) all_at) ∙ ok in
            let here : from (pb.bytes_written (encode_cell_field pb c pb.sizing).0)
                ≡ (run pb ws s2).0 =
              ap from size ∙ ap (λ (x : pb.Stream × Bool). x.0) (encode_cell_field-run pb c s2) in
            inl (
              ap (λ (z : pb.Stream). (z, true)) here
              ∙ (ap (λ (b : Bool). ((run pb ws s2).0, b)) (sym ok2) ∙ sym all_at))
      ]

  and_also-failed :
      (x : pb.Stream × Bool) (f : pb.Stream → pb.Stream × Bool)
      → x.1 ≡ false
      → (and_also x f).1 ≡ false
  and_also-failed (s, true) f e = absurd (cc)
  and_also-failed (s, false) f e = refl

  Written-append :
      (ws rest : List Write) (s s' : pb.Stream) (x : pb.Stream × Bool)
      → Written ws s (s', true)
      → Written rest s' x
      → Written (ws ++ rest) s x
  Written-append ws rest s s' x (inr failed) after = inr (
      ap (λ (y : pb.Stream × Bool). y.1) (run-append pb ws rest s)
      ∙ and_also-failed (run pb ws s) (run pb rest) failed)
  Written-append ws rest s s' x (inl e) after =
      let split : run pb (ws ++ rest) s ≡ run pb rest s' =
        run-append pb ws rest s ∙ ap (λ (y : pb.Stream × Bool). and_also y (run pb rest)) (sym e) in
      elim after [
        | inl e' ↦ inl (e' ∙ sym split)
        | inr failed ↦ inr (ap (λ (y : pb.Stream × Bool). y.1) split ∙ failed)
      ]

  next_cell :
      (r : Rctx) (n i : ℕ) (s : pb.Stream) (c : Beacon)
      → get_cell r i ≡ some c
      → encode_cells pb r (suc n) i s ≡ encode_cells pb r n (i + 1) (encode_cell pb c s)
  unfolding encode_cells
  next_cell r n i s c e = ground (arith, e)

  pub encode_cells-Written :
      (r : Rctx) (n i : ℕ) (s : pb.Stream)
      → IsValid r
      → i + n ≤ get_num_cells r
      → (ws : List Write) × CellsSent r n i ws × Written ws s (encode_cells pb r n i s, true)
  unfolding encode_cells
  encode_cells-Written r zero i s v within = ([], refl, inl refl)
  encode_cells-Written r (suc n) i s v within =
      let (c, e, is) = get_cell-get_num_cells r i v (omega arith) in
      let (rest, sent, written) =
        encode_cells-Written r n (i + 1) (encode_cell pb c s) v (omega arith) in
      let cell = framed pb counts 10 (cell_writes c) in
      (
        cell ++ rest,
        (c, cell_writes c, rest, e, cell_writes-Received c, refl, sent),
        subst (λ (z : pb.Stream). Written (cell ++ rest) s (z, true)) (sym (next_cell r n i s c e))
            (Written-append cell rest s (encode_cell pb c s) _ (encode_cell-Written c s) written),
      )
