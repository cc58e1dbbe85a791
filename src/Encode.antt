-- ===== src/Encode.antt =====
-- libel/protocol/proto.c: the callbacks that write the beacons of a request. nanopb, which writes
-- tags, integers and strings to a stream, is a parameter.
pub mod Writes
pub mod Lengths
pub mod CellTrip
pub mod ApTrip
pub mod Macs
use embedded_client.Fields.Cells.{
  get_cell_id1, get_cell_id2, get_cell_id3, get_cell_id4, get_cell_id5, get_cell_id6,
  get_cell_connected_flag, get_cell_rssi, get_cell_age, get_cell_ta,
}
use embedded_client.Fields.{
  get_ap_freq, get_ap_rssi, get_ap_age, get_ap_mac, get_ap_is_connected, get_num_aps, get_cell,
  get_num_cells,
}
use embedded_client.Types.{
  beacon_nr, beacon_cdma, beacon_umts, beacon_lte, beacon_gsm, beacon_nbiot, Rctx, BeaconType,
  Beacon, is_cell_type, unknown_id1, unknown_id2, unknown_id3, unknown_id4, unknown_id5,
  unknown_id6, unknown_ta,
}
use embedded_client.Common.{
  ℕ, false, true, none, [], suc, zero, some, pos, ◌∷◌, ◌&&◌, ◌*◌, ◌-◌, ◌-ℤ◌, ◌+ℤ◌, if◌then◌else◌,
  Bool, Option, List, ℤ, ◌+◌, take, ltb, eqb_ℤ,
}

-- `PB_WT_VARINT` and `PB_WT_STRING`
pub data WireType : Type 0 where
  wt_varint wt_string : WireType

-- What the encoder uses of nanopb: each call gives the stream after it, and whether it succeeded. The
-- argument of `pb_encode_varint` is the value before its conversion to `uint64_t`.
pub record Nanopb : Type 1 where
  pub Stream : Type 0
  pub sizing : Stream
  pub bytes_written : Stream → ℕ
  pub encode_tag : Stream → WireType → ℕ → Stream × Bool
  pub encode_varint : Stream → ℤ → Stream × Bool
  pub encode_string : Stream → List ℕ → Stream × Bool

-- `&&` of two calls
abbrev pub and_also : {S : Type 0} → S × Bool → (S → S × Bool) → S × Bool
and_also (s, true) next = next s
and_also (s, false) next = (s, false)

abbrev pub DataGetter : Type 0
DataGetter = Rctx → ℕ → ℤ

-- A getter reads a beacon below the count, so that a read past the array, which has no value, does
-- not occur.
abbrev pub value_of : Option ℤ → ℤ
value_of none = pos 0
value_of (some z) = z

abbrev ℕ_value : Option ℕ → ℤ
ℕ_value none = pos 0
ℕ_value (some n) = pos n

abbrev pub ap_freq_of : DataGetter
ap_freq_of r idx = ℕ_value (get_ap_freq r idx)

abbrev pub ap_rssi_of : DataGetter
ap_rssi_of r idx = value_of (get_ap_rssi r idx)

abbrev pub ap_age_of : DataGetter
ap_age_of r idx = ℕ_value (get_ap_age r idx)

-- `ret_val * 256 + mac[i]` over the bytes.
unfoldable pub int_of_bytes : List ℕ → ℕ → ℕ
int_of_bytes [] ret_val = ret_val
int_of_bytes (m ∷ mac) ret_val = int_of_bytes mac (ret_val * 256 + m)

unfoldable pub mac_to_int : DataGetter
mac_to_int r idx = elim (get_ap_mac r idx) [
  | some (some mac) ↦ pos (int_of_bytes (take 6 mac) 0)
  | _ ↦ pos 0
]

unfoldable pub flip_sign : ℤ → ℤ
unfolding ◌-ℤ◌
flip_sign value = pos 0 -ℤ value

abbrev pub wrapped : Option (ℤ → ℤ) → ℤ → ℤ
wrapped none z = z
wrapped (some wrapper) z = wrapper z

abbrev cell_type_code : BeaconType → ℕ
cell_type_code beacon_nr = 8
cell_type_code beacon_lte = 5
cell_type_code beacon_umts = 7
cell_type_code beacon_nbiot = 6
cell_type_code beacon_cdma = 3
cell_type_code beacon_gsm = 4
cell_type_code _ = 0

unfoldable pub map_cell_type : Beacon → ℤ
map_cell_type c = if is_cell_type c then pos (cell_type_code c.type) else pos 0

abbrev pub flag : Bool → ℤ
flag true = pos 1
flag false = pos 0

abbrev bool_of : Option Bool → Bool
bool_of none = false
bool_of (some b) = b

abbrev pub ap_is_connected : Rctx → ℕ → Bool
ap_is_connected r idx = bool_of (get_ap_is_connected r idx)

-- `n` rounds from index `i` on: every value is `value`.
unfoldable pub all_same : Rctx → DataGetter → ℤ → ℕ → ℕ → Bool
all_same r getter value zero i = true
all_same r getter value (suc n) i =
    let rest = all_same r getter value n (i + 1) in if eqb_ℤ (getter r i) value then rest else false

module _ (pb : Nanopb) where
  -- The loop over the elements: `n` rounds from index `i` on.
  unfoldable pub encode_ints :
      Rctx → DataGetter → Option (ℤ → ℤ) → ℕ → ℕ → pb.Stream → pb.Stream × Bool
  encode_ints r getter wrapper zero i s = (s, true)
  encode_ints r getter wrapper (suc n) i s =
      and_also (pb.encode_varint s (wrapped wrapper (getter r i)))
        (λ s'. encode_ints r getter wrapper n (i + 1) s')

  -- The length that a function writes, and then what it writes.
  unfoldable pub delimited : (pb.Stream → pb.Stream × Bool) → pb.Stream → pb.Stream × Bool
  delimited func s =
      let (substream, ok) = func pb.sizing in
      if ok
      then and_also (pb.encode_varint s (pos (pb.bytes_written substream))) func
      else (s, false)

  unfoldable pub encode_repeated_int_field :
      Rctx → pb.Stream → ℕ → ℕ → DataGetter → Option (ℤ → ℤ) → pb.Stream × Bool
  encode_repeated_int_field r s tag num_elems getter wrapper =
      and_also (pb.encode_tag s wt_string tag)
        (delimited (encode_ints r getter wrapper num_elems 0))

  -- The loop over the beacons: `n` rounds from index `i` on.
  unfoldable pub encode_first_connected :
      Rctx → (Rctx → ℕ → Bool) → ℕ → ℕ → ℕ → pb.Stream → pb.Stream × Bool
  encode_first_connected r callback tag zero i s = (s, true)
  encode_first_connected r callback tag (suc n) i s =
      let rest = encode_first_connected r callback tag n (i + 1) s in
      if callback r i
      then and_also (pb.encode_tag s wt_varint tag) (λ s'. pb.encode_varint s' (pos (i + 1)))
      else rest

  unfoldable pub encode_connected_ap_field :
      Rctx → pb.Stream → ℕ → ℕ → (Rctx → ℕ → Bool) → pb.Stream × Bool
  encode_connected_ap_field r s num_beacons tag callback =
      encode_first_connected r callback tag num_beacons 0 s

  unfoldable pub encode_optimized_repeated_field :
      Rctx → pb.Stream → ℕ → ℕ → ℕ → DataGetter → pb.Stream × Bool
  encode_optimized_repeated_field r s num_beacons tag1 tag2 getter =
      let value = getter r 0 in
      if ltb 1 num_beacons && all_same r getter value (num_beacons - 1) 1
      then and_also (pb.encode_tag s wt_varint tag1) (λ s'. pb.encode_varint s' (value +ℤ pos 1))
      else encode_repeated_int_field r s tag2 num_beacons getter none

  unfoldable pub encode_ap_fields : Rctx → pb.Stream → pb.Stream × Bool
  encode_ap_fields r s =
      let n = get_num_aps r in
      and_also (encode_connected_ap_field r s n 1 ap_is_connected) (λ s1.
        and_also (encode_repeated_int_field r s1 4 n mac_to_int none) (λ s2.
          and_also (encode_optimized_repeated_field r s2 n 2 5 ap_freq_of) (λ s3.
            and_also (encode_repeated_int_field r s3 6 n ap_rssi_of (some flip_sign))
              (λ s4. encode_optimized_repeated_field r s4 n 3 7 ap_age_of))))

  unfoldable pub encode_cell_field_element : pb.Stream → ℕ → ℤ → ℤ → pb.Stream × Bool
  encode_cell_field_element s tag val unknown =
      if eqb_ℤ val unknown
      then (s, true)
      else and_also (pb.encode_tag s wt_varint tag) (λ s'. pb.encode_varint s' (val +ℤ pos 1))

  -- A field that is always there.
  abbrev pub encode_plain : pb.Stream → ℕ → ℤ → pb.Stream × Bool
  encode_plain s tag val = and_also (pb.encode_tag s wt_varint tag) (λ s'. pb.encode_varint s' val)

  unfoldable pub encode_cell_field : Beacon → pb.Stream → pb.Stream × Bool
  encode_cell_field c s = and_also (encode_plain s 1 (map_cell_type c)) (λ s1.
      and_also (encode_cell_field_element s1 2 (get_cell_id1 c) (pos unknown_id1)) (λ s2.
        and_also (encode_cell_field_element s2 3 (get_cell_id2 c) (pos unknown_id2)) (λ s3.
          and_also (encode_cell_field_element s3 4 (get_cell_id3 c) unknown_id3) (λ s4.
            and_also (encode_cell_field_element s4 5 (get_cell_id4 c) unknown_id4) (λ s5.
              and_also (encode_cell_field_element s5 6 (get_cell_id5 c) unknown_id5) (λ s6.
                and_also (encode_cell_field_element s6 7 (get_cell_id6 c) unknown_id6) (λ s7.
                  and_also (encode_plain s7 8 (flag (get_cell_connected_flag c))) (λ s8.
                    and_also (encode_plain s8 9 (flip_sign (get_cell_rssi c))) (λ s9.
                      and_also (encode_plain s9 10 (get_cell_age c)) (λ s10.
                        encode_cell_field_element s10 11 (get_cell_ta c) unknown_ta))))))))))

  -- The results of the calls are not looked at.
  unfoldable pub encode_cell : Beacon → pb.Stream → pb.Stream
  encode_cell c s =
      let substream = (encode_cell_field c pb.sizing).0 in
      let s1 = (pb.encode_tag s wt_string 10).0 in
      let s2 = (pb.encode_varint s1 (pos (pb.bytes_written substream))).0 in
      (encode_cell_field c s2).0

  -- `n` rounds from index `i` on.
  unfoldable pub encode_cells : Rctx → ℕ → ℕ → pb.Stream → pb.Stream
  encode_cells r zero i s = s
  encode_cells r (suc n) i s = elim (get_cell r i) [
    | none ↦ s
    | some c ↦ encode_cells r n (i + 1) (encode_cell c s)
  ]

  unfoldable pub encode_cell_fields : Rctx → pb.Stream → pb.Stream × Bool
  encode_cell_fields r s = (encode_cells r (get_num_cells r) 0 s, true)

  -- The loop over the groups: `n` rounds from index `i` on.
  unfoldable pub encode_strings : Rctx → (Rctx → ℕ → List ℕ) → ℕ → ℕ → pb.Stream → pb.Stream × Bool
  encode_strings r getter zero i s = (s, true)
  encode_strings r getter (suc n) i s =
      and_also (pb.encode_string s (getter r i)) (λ s'. encode_strings r getter n (i + 1) s')

  -- `getter` gives the bytes that follow the length at the pointer, as many as that says.
  unfoldable pub encode_vap_data : Rctx → pb.Stream → ℕ → ℕ → (Rctx → ℕ → List ℕ) → pb.Stream × Bool
  encode_vap_data r s tag num_elems getter =
      and_also (pb.encode_tag s wt_string tag) (delimited (encode_strings r getter num_elems 0))

  unfoldable pub encode_submessage :
      pb.Stream → ℕ → (pb.Stream → pb.Stream × Bool) → pb.Stream × Bool
  encode_submessage s tag func = and_also (pb.encode_tag s wt_string tag) (delimited func)
