-- ===== src/Encode/Lengths.antt =====
-- libel/protocol/proto.c: the lengths that precede repeated fields and messages.
use embedded_client.Fields.{get_num_aps}
use embedded_client.Types.{Rctx}
use mathlib.Core.Path.{fun_ext}
use embedded_client.Encode.Writes.{
  Write, run, write, varint, tag, if_both, connected_writes, chain, varints, plain_writes,
  encode_first_connected-run, values, pair-run, encode_ints-run, run-append,
}
use embedded_client.Encode.{
  Nanopb, and_also, wt_string, delimited, encode_repeated_int_field,
  encode_optimized_repeated_field, encode_ap_fields, DataGetter, encode_connected_ap_field,
  all_same, ap_is_connected, encode_ints, mac_to_int, ap_freq_of, ap_rssi_of, flip_sign, ap_age_of,
  encode_submessage,
}
use embedded_client.Common.{
  false, refl, true, [], ◌∷◌, ◌∙◌, List, Bool, ℕ, ◌≡◌, ◌+◌, add_zero, sym, ap, arith, pos, some,
  none, ◌&&◌, ◌-◌, ◌++◌, ◌+ℤ◌, if◌then◌else◌, Option, ltb, ℤ,
}

-- What nanopb documents of the streams: a call that succeeds adds the bytes of what it writes, and a
-- sizing stream starts at 0 bytes and takes every write.
pub record CountsBytes (pb : Nanopb) : Type 1 where
  pub width : Write → ℕ
  pub adds :
      (w : Write) (s : pb.Stream)
      → (write pb w s).1 ≡ true
      → pb.bytes_written (write pb w s).0 ≡ pb.bytes_written s + width w
  pub IsSizing : pb.Stream → Type 0
  pub sizing_starts : pb.bytes_written pb.sizing ≡ 0
  pub sizing_is : IsSizing pb.sizing
  pub sizing_takes : (w : Write) (s : pb.Stream) → IsSizing s → (write pb w s).1 ≡ true
  pub sizing_stays : (w : Write) (s : pb.Stream) → IsSizing s → IsSizing (write pb w s).0

module _ (pb : Nanopb) (counts : CountsBytes pb) where
  abbrev pub bytes : List Write → ℕ
  bytes [] = 0
  bytes (w ∷ ws) = counts.width w + bytes ws

  pub and_also-true :
      (x : pb.Stream × Bool) (f : pb.Stream → pb.Stream × Bool)
      → (and_also x f).1 ≡ true
      → (x.1 ≡ true) × (and_also x f ≡ f x.0)
  and_also-true (s, true) f e = (refl, refl)
  and_also-true (s, false) f e = absurd (cc)

  pub run-bytes :
      (ws : List Write) (s : pb.Stream)
      → (run pb ws s).1 ≡ true
      → pb.bytes_written (run pb ws s).0 ≡ pb.bytes_written s + bytes ws
  run-bytes [] s ok = add_zero (pb.bytes_written s)
  run-bytes (w ∷ ws) s ok =
      let (first, e) = and_also-true (write pb w s) (run pb ws) ok in
      let rest = run-bytes ws (write pb w s).0 (sym (ap (λ (x : pb.Stream × Bool). x.1) e) ∙ ok) in
      ap (λ (x : pb.Stream × Bool). pb.bytes_written x.0) e
      ∙ rest
      ∙ omega (arith, counts.adds w s first)

  and_also-next :
      (x : pb.Stream × Bool) (f : pb.Stream → pb.Stream × Bool)
      → x.1 ≡ true
      → (f x.0).1 ≡ true
      → (and_also x f).1 ≡ true
  and_also-next (s, true) f e ok = ok
  and_also-next (s, false) f e ok = absurd (cc)

  run-sizing : (ws : List Write) (s : pb.Stream) → counts.IsSizing s → (run pb ws s).1 ≡ true
  run-sizing [] s is = refl
  run-sizing (w ∷ ws) s is =
      and_also-next (write pb w s) (run pb ws) (counts.sizing_takes w s is)
        (run-sizing ws (write pb w s).0 (counts.sizing_stays w s is))

  -- A tag, the number of bytes of the writes, and the writes.
  abbrev pub framed : ℕ → List Write → List Write
  framed t ws = tag wt_string t ∷ varint (pos (bytes ws)) ∷ ws

  pub sizing-bytes :
      (func : pb.Stream → pb.Stream × Bool) (ws : List Write)
      → ((s' : pb.Stream) → func s' ≡ run pb ws s')
      → ((func pb.sizing).1 ≡ true) × (pb.bytes_written (func pb.sizing).0 ≡ bytes ws)
  sizing-bytes func ws e =
      let takes = run-sizing ws pb.sizing counts.sizing_is in
      (
        ap (λ (x : pb.Stream × Bool). x.1) (e pb.sizing) ∙ takes,
        ap (λ (x : pb.Stream × Bool). pb.bytes_written x.0) (e pb.sizing)
            ∙ run-bytes ws pb.sizing takes
            ∙ omega (arith, counts.sizing_starts),
      )

  delimited-run :
      (func : pb.Stream → pb.Stream × Bool) (ws : List Write) (s : pb.Stream)
      → ((s' : pb.Stream) → func s' ≡ run pb ws s')
      → delimited pb func s ≡ run pb (varint (pos (bytes ws)) ∷ ws) s
  unfolding delimited
  delimited-run func ws s e =
      let (ok, size) = sizing-bytes func ws e in
      rw (ok, size) (ap (and_also (pb.encode_varint s (pos (bytes ws)))) (fun_ext e))

  abbrev pub repeated_writes : Rctx → ℕ → ℕ → DataGetter → Option (ℤ → ℤ) → List Write
  repeated_writes r t n getter wrapper = framed t (varints (values r getter wrapper n 0))

  pub framed-run :
      (t : ℕ) (func : pb.Stream → pb.Stream × Bool) (ws : List Write) (s : pb.Stream)
      → ((s' : pb.Stream) → func s' ≡ run pb ws s')
      → and_also (pb.encode_tag s wt_string t) (delimited pb func) ≡ run pb (framed t ws) s
  framed-run t func ws s e =
      ap (and_also (pb.encode_tag s wt_string t))
        (fun_ext (λ (s' : pb.Stream). delimited-run func ws s' e))

  pub repeated-run :
      (r : Rctx) (s : pb.Stream) (t n : ℕ) (getter : DataGetter) (wrapper : Option (ℤ → ℤ))
      → encode_repeated_int_field pb r s t n getter wrapper
        ≡ run pb (repeated_writes r t n getter wrapper) s
  unfolding encode_repeated_int_field
  repeated-run r s t n getter wrapper =
      framed-run t (encode_ints pb r getter wrapper n 0) (varints (values r getter wrapper n 0)) s
        (encode_ints-run pb r getter wrapper n 0)

  -- One value for all, where they are the same.
  abbrev pub optimized_writes : Rctx → ℕ → ℕ → ℕ → DataGetter → List Write
  optimized_writes r n tag1 tag2 getter =
      if ltb 1 n && all_same r getter (getter r 0) (n - 1) 1
      then plain_writes tag1 (getter r 0 +ℤ pos 1)
      else repeated_writes r tag2 n getter none

  optimized-run :
      (r : Rctx) (n tag1 tag2 : ℕ) (getter : DataGetter) (s : pb.Stream)
      → encode_optimized_repeated_field pb r s n tag1 tag2 getter
        ≡ run pb (optimized_writes r n tag1 tag2 getter) s
  unfolding encode_optimized_repeated_field
  optimized-run r n tag1 tag2 getter s =
      if_both pb (ltb 1 n && all_same r getter (getter r 0) (n - 1) 1) s
        (plain_writes tag1 (getter r 0 +ℤ pos 1)) (repeated_writes r tag2 n getter none) _ _
        (sym (pair-run pb tag1 (getter r 0 +ℤ pos 1) s)) (repeated-run r s tag2 n getter none)

  abbrev pub ap_writes : Rctx → List Write
  ap_writes r =
      let n = get_num_aps r in
      connected_writes r ap_is_connected 1 n 0
      ++ (repeated_writes r 4 n mac_to_int none
          ++ (optimized_writes r n 2 5 ap_freq_of
              ++ (repeated_writes r 6 n ap_rssi_of (some flip_sign)
                  ++ optimized_writes r n 3 7 ap_age_of)))

  pub encode_ap_fields-run :
      (r : Rctx) (s : pb.Stream) → encode_ap_fields pb r s ≡ run pb (ap_writes r) s
  unfolding encode_ap_fields encode_connected_ap_field
  encode_ap_fields-run r s =
      let n = get_num_aps r in
      chain pb _ _ (connected_writes r ap_is_connected 1 n 0) _ s
        (λ s'. encode_first_connected-run pb r ap_is_connected 1 n 0 s')
        (λ s1.
          chain pb _ _ (repeated_writes r 4 n mac_to_int none) _ s1
            (λ s'. repeated-run r s' 4 n mac_to_int none)
            (λ s2.
              chain pb _ _ (optimized_writes r n 2 5 ap_freq_of) _ s2
                (λ s'. optimized-run r n 2 5 ap_freq_of s')
                (λ s3.
                  chain pb _ _ (repeated_writes r 6 n ap_rssi_of (some flip_sign)) _ s3
                    (λ s'. repeated-run r s' 6 n ap_rssi_of (some flip_sign))
                    (λ s4. optimized-run r n 3 7 ap_age_of s4))))

  -- From `s` to `x`: a tag and a length `n` are written, and then `func` writes `n` bytes.
  abbrev pub Announced : ℕ → (pb.Stream → pb.Stream × Bool) → pb.Stream → pb.Stream × Bool → Type 0
  Announced t func s x =
      (n : ℕ) × (s2 : pb.Stream) × (run pb (tag wt_string t ∷ varint (pos n) ∷ []) s ≡ (s2, true))
      × (func s2 ≡ x)
      × (pb.bytes_written x.0 ≡ pb.bytes_written s2 + n)

  framed-Announced :
      (t : ℕ) (func : pb.Stream → pb.Stream × Bool) (ws : List Write) (s : pb.Stream)
      (x : pb.Stream × Bool)
      → ((s' : pb.Stream) → func s' ≡ run pb ws s')
      → x ≡ run pb (framed t ws) s
      → x.1 ≡ true
      → Announced t func s x
  framed-Announced t func ws s x e ex ok =
      let head = tag wt_string t ∷ varint (pos (bytes ws)) ∷ [] in
      let split : x ≡ and_also (run pb head s) (run pb ws) = ex ∙ run-append pb head ws s in
      let ok' : (and_also (run pb head s) (run pb ws)).1 ≡ true =
        sym (ap (λ (y : pb.Stream × Bool). y.1) split) ∙ ok in
      let (first, rest) = and_also-true (run pb head s) (run pb ws) ok' in
      let s2 = (run pb head s).0 in
      let all : func s2 ≡ x = e s2 ∙ sym rest ∙ sym split in
      let ok2 : (run pb ws s2).1 ≡ true = ap (λ (y : pb.Stream × Bool). y.1) (sym rest) ∙ ok' in
      (
        bytes ws,
        s2,
        ap (λ (b : Bool). (s2, b)) first,
        all,
        ap (λ (y : pb.Stream × Bool). pb.bytes_written y.0) (sym all ∙ e s2) ∙ run-bytes ws s2 ok2,
      )

-- With nanopb as documented: the message of the APs, when it is written, is a tag and a length, and
-- then the fields of the APs, which take exactly that many bytes.
pub encode_submessage-Announced :
    (pb : Nanopb) (counts : CountsBytes pb) (r : Rctx) (s : pb.Stream)
    → (encode_submessage pb s 3 (encode_ap_fields pb r)).1 ≡ true
    → Announced pb counts 3
        (encode_ap_fields pb r)
        s
        (encode_submessage pb s 3 (encode_ap_fields pb r))
unfolding encode_submessage
encode_submessage-Announced pb counts r s ok =
    framed-Announced pb counts 3 (encode_ap_fields pb r) (ap_writes pb counts r) s
      (encode_submessage pb s 3 (encode_ap_fields pb r)) (encode_ap_fields-run pb counts r)
      (framed-run pb counts 3 (encode_ap_fields pb r) (ap_writes pb counts r) s
        (encode_ap_fields-run pb counts r))
      ok
