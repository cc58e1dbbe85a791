-- ===== src/Encode/ApTrip.antt =====
-- libel/protocol/proto.c: what a reader of the fields of the APs gets back.
use embedded_client.Encode.CellTrip.{add-sub}
use embedded_client.Encode.Lengths.{
  CountsBytes, framed, optimized_writes, ap_writes, encode_ap_fields-run, repeated_writes, bytes,
}
use embedded_client.Fields.{get_num_aps}
use embedded_client.Types.{Rctx}
use embedded_client.Encode.Writes.{
  varint, tag, Write, varints, values, plain_writes, run, connected_writes, text,
}
use embedded_client.Common.{
  suc, none, pos, zero, refl, true, [], ◌∷◌, ◌==◌, ◌-ℤ◌, if◌then◌else◌, List, ℕ, ℤ, replicate, ◌≡◌,
  ap, some, inr, inl, ◌&&◌, ◌-◌, ◌++◌, ◌∙◌, ◌+ℤ◌, Bool-cases, ltb, eqb_ℤ, eqb_ℤ_iff, arith, if_lem,
  ◌+◌, Option,
}
use embedded_client.Encode.{
  wt_string, wt_varint, all_same, DataGetter, Nanopb, mac_to_int, ap_freq_of, encode_ap_fields,
  ap_rssi_of, flip_sign, ap_age_of, ap_is_connected,
}

-- The values of a repeated field.
abbrev pub listed : List Write → List ℤ
listed [] = []
listed (varint z ∷ ws) = z ∷ listed ws
listed (tag wire t ∷ ws) = listed ws
listed (text bytes ∷ ws) = listed ws

-- A field of the tag `t`, if it is one whose length is the number of bytes that follow.
abbrev pub repeated_of : (pb : Nanopb) → CountsBytes pb → ℕ → List Write → Option (List ℤ)
repeated_of pb counts t (tag wt_string u ∷ varint (pos size) ∷ ws) =
    if u == t && size == bytes pb counts ws then some (listed ws) else none
repeated_of pb counts t _ = none

-- The values of `n` beacons, of which a common one is sent with 1 added.
abbrev pub shared_of : (pb : Nanopb) → CountsBytes pb → ℕ → ℕ → ℕ → List Write → Option (List ℤ)
shared_of pb counts n tag1 tag2 (tag wt_varint u ∷ varint z ∷ []) =
    if u == tag1 then some (replicate n (z -ℤ pos 1)) else none
shared_of pb counts n tag1 tag2 ws = repeated_of pb counts tag2 ws

listed-varints : (zs : List ℤ) → listed (varints zs) ≡ zs
listed-varints [] = refl
listed-varints (z ∷ zs) = ap (λ (ys : List ℤ). z ∷ ys) (listed-varints zs)

all_same-values :
    (r : Rctx) (getter : DataGetter) (value : ℤ) (n i : ℕ)
    → all_same r getter value n i ≡ true
    → values r getter none n i ≡ replicate n value
unfolding all_same
all_same-values r getter value zero i same = refl
all_same-values r getter value (suc n) i same = elim (Bool-cases (eqb_ℤ (getter r i) value)) [
  | inl e ↦
      let here = (eqb_ℤ_iff (getter r i) value).0 e in
      let rest : all_same r getter value n (i + 1) ≡ true = ground (arith, e, same) in
      ap (λ (z : ℤ). z ∷ values r getter none n (i + 1)) here
      ∙ ap (λ (zs : List ℤ). value ∷ zs) (all_same-values r getter value n (i + 1) rest)
  | inr e ↦ absurd (ground (arith, e, same))
]

pub repeated_of-framed :
    (pb : Nanopb) (counts : CountsBytes pb) (t : ℕ) (zs : List ℤ)
    → repeated_of pb counts t (framed pb counts t (varints zs)) ≡ some zs
repeated_of-framed pb counts t zs = ground (arith, listed-varints zs)

shared_of-common :
    (pb : Nanopb) (counts : CountsBytes pb) (r : Rctx) (getter : DataGetter) (n tag1 tag2 : ℕ)
    → ltb 1 n && all_same r getter (getter r 0) (n - 1) 1 ≡ true
    → shared_of pb counts n tag1 tag2 (plain_writes tag1 (getter r 0 +ℤ pos 1))
      ≡ some (values r getter none n 0)
shared_of-common pb counts r getter zero tag1 tag2 same = absurd (ground (arith, same))
shared_of-common pb counts r getter (suc n) tag1 tag2 same =
    let rest : all_same r getter (getter r 0) n 1 ≡ true = ground (arith, same) in
    ground (arith, add-sub (getter r 0), all_same-values r getter (getter r 0) n 1 rest)

shared_of-optimized :
    (pb : Nanopb) (counts : CountsBytes pb) (r : Rctx) (getter : DataGetter) (n tag1 tag2 : ℕ)
    → shared_of pb counts n tag1 tag2 (optimized_writes pb counts r n tag1 tag2 getter)
      ≡ some (values r getter none n 0)
shared_of-optimized pb counts r getter n tag1 tag2 =
    let zs = values r getter none n 0 in
    if_lem (λ (ws : List Write). shared_of pb counts n tag1 tag2 ws ≡ some zs)
      (ltb 1 n && all_same r getter (getter r 0) (n - 1) 1)
      (plain_writes tag1 (getter r 0 +ℤ pos 1)) (framed pb counts tag2 (varints zs))
      (shared_of-common pb counts r getter n tag1 tag2) (λ _. repeated_of-framed pb counts tag2 zs)

-- The fields of the APs: the macs, the frequencies, the negated signal strengths and the ages of all
-- APs, after the index of a connected one.
abbrev pub ReceivedAps : (pb : Nanopb) → CountsBytes pb → Rctx → List Write → Type 0
ReceivedAps pb counts r ws =
    let n = get_num_aps r in
    (connected : List Write) × (macs : List Write) × (freqs : List Write) × (rssis : List Write)
    × (ages : List Write) × (ws ≡ connected ++ (macs ++ (freqs ++ (rssis ++ ages))))
    × (repeated_of pb counts 4 macs ≡ some (values r mac_to_int none n 0))
    × (shared_of pb counts n 2 5 freqs ≡ some (values r ap_freq_of none n 0))
    × (repeated_of pb counts 6 rssis ≡ some (values r ap_rssi_of (some flip_sign) n 0))
    × (shared_of pb counts n 3 7 ages ≡ some (values r ap_age_of none n 0))

pub ap_writes-ReceivedAps :
    (pb : Nanopb) (counts : CountsBytes pb) (r : Rctx)
    → ReceivedAps pb counts r (ap_writes pb counts r)
ap_writes-ReceivedAps pb counts r =
    let n = get_num_aps r in
    (
      connected_writes r ap_is_connected 1 n 0,
      repeated_writes pb counts r 4 n mac_to_int none,
      optimized_writes pb counts r n 2 5 ap_freq_of,
      repeated_writes pb counts r 6 n ap_rssi_of (some flip_sign),
      optimized_writes pb counts r n 3 7 ap_age_of,
      refl,
      repeated_of-framed pb counts 4 (values r mac_to_int none n 0),
      shared_of-optimized pb counts r ap_freq_of n 2 5,
      repeated_of-framed pb counts 6 (values r ap_rssi_of (some flip_sign) n 0),
      shared_of-optimized pb counts r ap_age_of n 3 7,
    )

-- With nanopb as documented, what is written for the APs is a list of writes in which a reader who
-- knows the number of APs finds all their macs, frequencies, negated signal strengths and ages again:
-- each list of them after a length that is the number of its bytes, or as one value, where all share
-- it.
pub encode_ap_fields-ReceivedAps :
    (pb : Nanopb) (counts : CountsBytes pb) (r : Rctx) (s : pb.Stream)
    → (ws : List Write) × (encode_ap_fields pb r s ≡ run pb ws s) × ReceivedAps pb counts r ws
encode_ap_fields-ReceivedAps pb counts r s =
    (ap_writes pb counts r, encode_ap_fields-run pb counts r s, ap_writes-ReceivedAps pb counts r)
