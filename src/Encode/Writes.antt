-- ===== src/Encode/Writes.antt =====
-- libel/protocol/proto.c: the callbacks as lists of writes.
use mathlib.Core.Path.{fun_ext}
use embedded_client.Fields.Cells.{
  get_cell_id1, get_cell_id2, get_cell_id3, get_cell_id4, get_cell_id5, get_cell_id6,
  get_cell_connected_flag, get_cell_rssi, get_cell_age, get_cell_ta,
}
use embedded_client.Types.{
  Rctx, Beacon, unknown_id1, unknown_id2, unknown_id3, unknown_id4, unknown_id5, unknown_id6,
  unknown_ta,
}
use embedded_client.Encode.{
  wt_varint, WireType, Nanopb, DataGetter, map_cell_type, encode_ints, encode_first_connected,
  encode_cell_field_element, and_also, wrapped, flag, flip_sign, encode_cell_field,
}
use embedded_client.Common.{
  suc, false, [], zero, pos, true, refl, ◌∷◌, ◌++◌, ◌∙◌, ◌+ℤ◌, if◌then◌else◌, List, ℕ, ℤ, Bool, ◌≡◌,
  Option, eqb_ℤ, ◌+◌, ap, sym, none, some,
}

pub data Write : Type 0 where
  tag : WireType → ℕ → Write
  varint : ℤ → Write
  text : List ℕ → Write

-- The values that a repeated field lists: `n` from index `i` on.
abbrev pub values : Rctx → DataGetter → Option (ℤ → ℤ) → ℕ → ℕ → List ℤ
values r getter wrapper zero i = []
values r getter wrapper (suc n) i = wrapped wrapper (getter r i) ∷ values r getter wrapper n (i + 1)

abbrev pub varints : List ℤ → List Write
varints [] = []
varints (z ∷ zs) = varint z ∷ varints zs

-- The index of the first connected AP, plus 1.
abbrev pub connected_writes : Rctx → (Rctx → ℕ → Bool) → ℕ → ℕ → ℕ → List Write
connected_writes r callback t zero i = []
connected_writes r callback t (suc n) i =
    if callback r i
    then tag wt_varint t ∷ varint (pos (i + 1)) ∷ []
    else connected_writes r callback t n (i + 1)

abbrev pub plain_writes : ℕ → ℤ → List Write
plain_writes t val = tag wt_varint t ∷ varint val ∷ []

abbrev pub option_writes : ℕ → Option ℤ → List Write
option_writes t none = []
option_writes t (some val) = plain_writes t val

-- An unknown value is left out.
abbrev pub plus_1 : ℤ → ℤ → Option ℤ
plus_1 val unknown = if eqb_ℤ val unknown then none else some (val +ℤ pos 1)

abbrev pub element_writes : ℕ → ℤ → ℤ → List Write
element_writes t val unknown = option_writes t (plus_1 val unknown)

-- Fields in turn; `none` is one that is left out.
abbrev pub writes_of : List (ℕ × Option ℤ) → List Write
writes_of [] = []
writes_of ((t, o) ∷ fields) = option_writes t o ++ writes_of fields

abbrev pub cell_fields : Beacon → List (ℕ × Option ℤ)
cell_fields c =
    (1, some (map_cell_type c))
    ∷ (2, plus_1 (get_cell_id1 c) (pos unknown_id1))
    ∷ (3, plus_1 (get_cell_id2 c) (pos unknown_id2))
    ∷ (4, plus_1 (get_cell_id3 c) unknown_id3)
    ∷ (5, plus_1 (get_cell_id4 c) unknown_id4)
    ∷ (6, plus_1 (get_cell_id5 c) unknown_id5)
    ∷ (7, plus_1 (get_cell_id6 c) unknown_id6)
    ∷ (8, some (flag (get_cell_connected_flag c)))
    ∷ (9, some (flip_sign (get_cell_rssi c)))
    ∷ (10, some (get_cell_age c))
    ∷ (11, plus_1 (get_cell_ta c) unknown_ta)
    ∷ []

abbrev pub cell_writes : Beacon → List Write
cell_writes c = writes_of (cell_fields c)

module _ (pb : Nanopb) where
  abbrev pub write : Write → pb.Stream → pb.Stream × Bool
  write (tag wire t) s = pb.encode_tag s wire t
  write (varint z) s = pb.encode_varint s z
  write (text bytes) s = pb.encode_string s bytes

  -- The writes in turn, up to the first that fails.
  abbrev pub run : List Write → pb.Stream → pb.Stream × Bool
  run [] s = (s, true)
  run (w ∷ ws) s = and_also (write w s) (run ws)

  and_also-run :
      (x : pb.Stream × Bool) (ws vs : List Write)
      → and_also (and_also x (run ws)) (run vs) ≡ and_also x (λ s. and_also (run ws s) (run vs))
  and_also-run (s, true) ws vs = refl
  and_also-run (s, false) ws vs = refl

  pub run-append :
      (ws vs : List Write) (s : pb.Stream) → run (ws ++ vs) s ≡ and_also (run ws s) (run vs)
  run-append [] vs s = refl
  run-append (w ∷ ws) vs s =
      ap (and_also (write w s)) (fun_ext (run-append ws vs)) ∙ sym (and_also-run (write w s) ws vs)

  pub encode_ints-run :
      (r : Rctx) (getter : DataGetter) (wrapper : Option (ℤ → ℤ)) (n i : ℕ) (s : pb.Stream)
      → encode_ints pb r getter wrapper n i s ≡ run (varints (values r getter wrapper n i)) s
  unfolding encode_ints
  encode_ints-run r getter wrapper zero i s = refl
  encode_ints-run r getter wrapper (suc n) i s =
      ap (and_also (pb.encode_varint s (wrapped wrapper (getter r i))))
        (fun_ext (encode_ints-run r getter wrapper n (i + 1)))

  pub if_both :
      (b : Bool) (s : pb.Stream) (ws vs : List Write) (x y : pb.Stream × Bool)
      → x ≡ run ws s
      → y ≡ run vs s
      → (if b then x else y) ≡ run (if b then ws else vs) s
  if_both true s ws vs x y ex ey = ex
  if_both false s ws vs x y ex ey = ey

  and_also-done : (x : pb.Stream × Bool) → and_also x (run []) ≡ x
  and_also-done (s, true) = refl
  and_also-done (s, false) = refl

  pub pair-run :
      (t : ℕ) (z : ℤ) (s : pb.Stream)
      → run (plain_writes t z) s
        ≡ and_also (pb.encode_tag s wt_varint t) (λ s'. pb.encode_varint s' z)
  pair-run t z s =
      ap (and_also (pb.encode_tag s wt_varint t))
        (fun_ext (λ (s' : pb.Stream). and_also-done (pb.encode_varint s' z)))

  pub encode_first_connected-run :
      (r : Rctx) (callback : Rctx → ℕ → Bool) (t n i : ℕ) (s : pb.Stream)
      → encode_first_connected pb r callback t n i s ≡ run (connected_writes r callback t n i) s
  unfolding encode_first_connected
  encode_first_connected-run r callback t zero i s = refl
  encode_first_connected-run r callback t (suc n) i s =
      if_both (callback r i) s (tag wt_varint t ∷ varint (pos (i + 1)) ∷ [])
        (connected_writes r callback t n (i + 1)) _ _ (sym (pair-run t (pos (i + 1)) s))
        (encode_first_connected-run r callback t n (i + 1) s)

  if_option :
      (b : Bool) (t : ℕ) (z : ℤ) (s : pb.Stream)
      → (if b
          then (s, true)
          else and_also (pb.encode_tag s wt_varint t) (λ s'. pb.encode_varint s' z))
        ≡ run (option_writes t (if b then none else some z)) s
  if_option true t z s = refl
  if_option false t z s = sym (pair-run t z s)

  encode_element-run :
      (t : ℕ) (val unknown : ℤ) (s : pb.Stream)
      → encode_cell_field_element pb s t val unknown ≡ run (element_writes t val unknown) s
  unfolding encode_cell_field_element
  encode_element-run t val unknown s = if_option (eqb_ℤ val unknown) t (val +ℤ pos 1) s

  -- Two parts, one after the other.
  pub chain :
      (f g : pb.Stream → pb.Stream × Bool) (ws vs : List Write) (s : pb.Stream)
      → ((s' : pb.Stream) → f s' ≡ run ws s')
      → ((s' : pb.Stream) → g s' ≡ run vs s')
      → and_also (f s) g ≡ run (ws ++ vs) s
  chain f g ws vs s ef eg =
      ap (λ (h : pb.Stream → pb.Stream × Bool). and_also (f s) h) (fun_ext eg)
      ∙ ap (λ (x : pb.Stream × Bool). and_also x (run vs)) (ef s)
      ∙ sym (run-append ws vs s)

  plain-run :
      (t : ℕ) (val : ℤ) (s : pb.Stream)
      → and_also (pb.encode_tag s wt_varint t) (λ s'. pb.encode_varint s' val)
        ≡ run (plain_writes t val) s
  plain-run t val s = sym (pair-run t val s)

  pub last-run : (ws : List Write) (s : pb.Stream) → run ws s ≡ run (ws ++ []) s
  last-run ws s = sym (run-append ws [] s ∙ and_also-done (run ws s))

  -- A cell is written as its list of writes.
  pub encode_cell_field-run :
      (c : Beacon) (s : pb.Stream) → encode_cell_field pb c s ≡ run (cell_writes c) s
  unfolding encode_cell_field
  encode_cell_field-run c s =
      let from_11 = element_writes 11 (get_cell_ta c) unknown_ta ++ [] in
      let from_10 = plain_writes 10 (get_cell_age c) ++ from_11 in
      let from_9 = plain_writes 9 (flip_sign (get_cell_rssi c)) ++ from_10 in
      chain _ _ (plain_writes 1 (map_cell_type c)) _ s (plain-run 1 (map_cell_type c)) (λ s1.
        chain _ _ (element_writes 2 (get_cell_id1 c) (pos unknown_id1)) _ s1
          (encode_element-run 2 (get_cell_id1 c) (pos unknown_id1))
          (λ s2.
            chain _ _ (element_writes 3 (get_cell_id2 c) (pos unknown_id2)) _ s2
              (encode_element-run 3 (get_cell_id2 c) (pos unknown_id2))
              (λ s3.
                chain _ _ (element_writes 4 (get_cell_id3 c) unknown_id3) _ s3
                  (encode_element-run 4 (get_cell_id3 c) unknown_id3)
                  (λ s4.
                    chain _ _ (element_writes 5 (get_cell_id4 c) unknown_id4) _ s4
                      (encode_element-run 5 (get_cell_id4 c) unknown_id4)
                      (λ s5.
                        chain _ _ (element_writes 6 (get_cell_id5 c) unknown_id5) _ s5
                          (encode_element-run 6 (get_cell_id5 c) unknown_id5)
                          (λ s6.
                            chain _ _ (element_writes 7 (get_cell_id6 c) unknown_id6) _ s6
                              (encode_element-run 7 (get_cell_id6 c) unknown_id6)
                              (λ s7.
                                chain _ _ (plain_writes 8 (flag (get_cell_connected_flag c))) from_9
                                  s7 (plain-run 8 (flag (get_cell_connected_flag c)))
                                  (λ s8.
                                    chain _ _ (plain_writes 9 (flip_sign (get_cell_rssi c))) from_10
                                      s8 (plain-run 9 (flip_sign (get_cell_rssi c)))
                                      (λ s9.
                                        chain _ _ (plain_writes 10 (get_cell_age c)) from_11 s9
                                          (plain-run 10 (get_cell_age c))
                                          (λ s10.
                                            encode_element-run 11 (get_cell_ta c) unknown_ta s10
                                            ∙ last-run
                                                (element_writes 11 (get_cell_ta c) unknown_ta)
                                                s10))))))))))
