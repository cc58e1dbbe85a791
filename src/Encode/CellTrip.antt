-- ===== src/Encode/CellTrip.antt =====
-- libel/protocol/proto.c: what a reader of the fields of a cell gets back.
use embedded_client.Fields.Cells.{
  get_cell_id1, get_cell_id2, get_cell_id3, get_cell_id4, get_cell_id5, get_cell_id6, get_cell_ta,
  get_cell_connected_flag, get_cell_rssi, get_cell_age,
}
use embedded_client.Encode.{Nanopb, map_cell_type, encode_cell_field, flag, flip_sign}
use embedded_client.Types.{
  Beacon, unknown_id1, unknown_id2, unknown_id3, unknown_id4, unknown_id5, unknown_id6, unknown_ta,
}
use embedded_client.Encode.Writes.{
  tag, varint, plus_1, option_writes, Write, writes_of, cell_fields, cell_writes, run,
  encode_cell_field-run, text,
}
use embedded_client.Common.{
  some, false, none, [], refl, pos, ◌∷◌, ◌==◌, ◌++◌, ◌-ℤ◌, if◌then◌else◌, ℕ, ℤ, ◌+ℤ◌, Option, List,
  ◌≡◌, arith, true, negsuc, ◌∙◌, Bool, eqb_ℤ, sym, eqb_ℤ_iff, ap,
}

-- The value of the field `t`.
abbrev pub lookup : ℕ → List Write → Option ℤ
lookup t [] = none
lookup t (varint z ∷ ws) = lookup t ws
lookup t (text bytes ∷ ws) = lookup t ws
lookup t (tag wire u ∷ []) = none
lookup t (tag wire u ∷ tag wire' u' ∷ ws) = none
lookup t (tag wire u ∷ text bytes ∷ ws) = none
lookup t (tag wire u ∷ varint z ∷ ws) = if u == t then some z else lookup t ws

-- A field that is left out is unknown, and one that is there is sent with 1 added.
abbrev pub received : ℤ → Option ℤ → ℤ
received unknown none = unknown
received unknown (some z) = z -ℤ pos 1

pub add-sub : (z : ℤ) → (z +ℤ pos 1) -ℤ pos 1 ≡ z
unfolding ◌-ℤ◌ ◌+ℤ◌
add-sub (pos n) = ground arith
add-sub (negsuc n) = ground arith

received-if :
    (b : Bool) (val unknown : ℤ)
    → (b ≡ true → val ≡ unknown)
    → received unknown (if b then none else some (val +ℤ pos 1)) ≡ val
received-if true val unknown e = sym (e refl)
received-if false val unknown e = add-sub val

pub received-plus_1 : (val unknown : ℤ) → received unknown (plus_1 val unknown) ≡ val
received-plus_1 val unknown =
    received-if (eqb_ℤ val unknown) val unknown ((eqb_ℤ_iff val unknown).0)

abbrev or_else : Option ℤ → Option ℤ → Option ℤ
or_else none other = other
or_else (some z) other = some z

or_else-none : (o : Option ℤ) → or_else o none ≡ o
or_else-none none = refl
or_else-none (some z) = refl

-- The field `t` of a list of fields.
abbrev assoc : ℕ → List (ℕ × Option ℤ) → Option ℤ
assoc t [] = none
assoc t ((u, o) ∷ fields) = or_else (if u == t then o else none) (assoc t fields)

lookup-option :
    (t u : ℕ) (o : Option ℤ) (ws : List Write)
    → lookup t (option_writes u o ++ ws) ≡ or_else (if u == t then o else none) (lookup t ws)
lookup-option t u none ws = ground arith
lookup-option t u (some z) ws = ground arith

lookup-writes_of :
    (t : ℕ) (fields : List (ℕ × Option ℤ)) → lookup t (writes_of fields) ≡ assoc t fields
lookup-writes_of t [] = refl
lookup-writes_of t ((u, o) ∷ fields) =
    lookup-option t u o (writes_of fields)
    ∙ ap (or_else (if u == t then o else none)) (lookup-writes_of t fields)

-- What a reader finds in the writes: every field of the cell, with the unknown ones.
abbrev pub Received : Beacon → List Write → Type 0
Received c ws =
    (lookup 1 ws ≡ some (map_cell_type c))
    × (received (pos unknown_id1) (lookup 2 ws) ≡ get_cell_id1 c)
    × (received (pos unknown_id2) (lookup 3 ws) ≡ get_cell_id2 c)
    × (received unknown_id3 (lookup 4 ws) ≡ get_cell_id3 c)
    × (received unknown_id4 (lookup 5 ws) ≡ get_cell_id4 c)
    × (received unknown_id5 (lookup 6 ws) ≡ get_cell_id5 c)
    × (received unknown_id6 (lookup 7 ws) ≡ get_cell_id6 c)
    × (lookup 8 ws ≡ some (flag (get_cell_connected_flag c)))
    × (lookup 9 ws ≡ some (flip_sign (get_cell_rssi c)))
    × (lookup 10 ws ≡ some (get_cell_age c))
    × (received unknown_ta (lookup 11 ws) ≡ get_cell_ta c)

element-received :
    (t : ℕ) (c : Beacon) (val unknown : ℤ)
    → assoc t (cell_fields c) ≡ or_else (plus_1 val unknown) none
    → received unknown (lookup t (cell_writes c)) ≡ val
element-received t c val unknown e =
    ap (received unknown)
      (lookup-writes_of t (cell_fields c) ∙ e ∙ or_else-none (plus_1 val unknown))
    ∙ received-plus_1 val unknown

pub cell_writes-Received : (c : Beacon) → Received c (cell_writes c)
cell_writes-Received c = (
  refl,
  element-received 2 c (get_cell_id1 c) (pos unknown_id1) refl,
  element-received 3 c (get_cell_id2 c) (pos unknown_id2) refl,
  element-received 4 c (get_cell_id3 c) unknown_id3 refl,
  element-received 5 c (get_cell_id4 c) unknown_id4 refl,
  element-received 6 c (get_cell_id5 c) unknown_id5 refl,
  element-received 7 c (get_cell_id6 c) unknown_id6 refl,
  lookup-writes_of 8 (cell_fields c),
  lookup-writes_of 9 (cell_fields c),
  lookup-writes_of 10 (cell_fields c),
  element-received 11 c (get_cell_ta c) unknown_ta refl,
)

-- What is written for a cell is a list of writes in which a reader, for whom a missing field is
-- unknown and any other comes with 1 added, finds every field of the cell again.
pub encode_cell_field-Received :
    (pb : Nanopb) (c : Beacon) (s : pb.Stream)
    → (ws : List Write) × (encode_cell_field pb c s ≡ run pb ws s) × Received c ws
encode_cell_field-Received pb c s =
    (cell_writes c, encode_cell_field-run pb c s, cell_writes-Received c)
