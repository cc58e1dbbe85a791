-- ===== src/Hex/Bounds.antt =====
-- sample_client/config.c: the buffer of `hex2bin`.
use embedded_client.Hex.{
  ignored, terminator, digit, put_digit, Letter, hex_loop, hex2bin, letter_of,
}
use embedded_client.Common.{
  inl, true, inr, false, [], refl, ◌∷◌, ◌⊎◌, ◌≤◌, ◌<◌, ◌∙◌, if◌then◌else◌, List, ℕ, Bool, ◌≡◌,
  length, length-set, arith, subst, ◌+◌, leb, sym, not, if_lem,
}
use embedded_client.Beacons.Insert.{done, out_of_bounds, Run}

-- The buffer keeps its length, and no more bytes are counted than it has.
abbrev pub Within : List ℕ → Run (List ℕ × ℕ) → Type 0
Within result out_of_bounds = ⊥
Within result (done (result', n)) = (n ≤ length result) × (length result' ≡ length result)

length-put_digit :
    (result : List ℕ) (j : ℕ) (odd : Bool) (d : ℕ)
    → length (put_digit result j odd d) ≡ length result
unfolding put_digit
length-put_digit result j true d = length-set result j _
length-put_digit result j false d = length-set result j _

Within-trans :
    (result result' : List ℕ) (x : Run (List ℕ × ℕ))
    → length result' ≡ length result
    → Within result' x
    → Within result x
Within-trans result result' out_of_bounds e w = w
Within-trans result result' (done (r, n)) e w = (omega (arith, w.0), w.1 ∙ e)

letter-cases : (l : Letter) → ((d : ℕ) × (l ≡ digit d)) ⊎ (l ≡ terminator) ⊎ (l ≡ ignored)
letter-cases (digit d) = inl (d, refl)
letter-cases terminator = inr (inl refl)
letter-cases ignored = inr (inr refl)

hex_loop-stop :
    (c : ℕ) (cs result : List ℕ) (j : ℕ) (odd : Bool)
    → letter_of c ≡ terminator
    → hex_loop (c ∷ cs) result j odd ≡ done (result, j)
unfolding hex_loop
hex_loop-stop c cs result j odd e = ground (arith, e)

hex_loop-skip :
    (c : ℕ) (cs result : List ℕ) (j : ℕ) (odd : Bool)
    → letter_of c ≡ ignored
    → hex_loop (c ∷ cs) result j odd ≡ hex_loop cs result j odd
unfolding hex_loop
hex_loop-skip c cs result j odd e = ground (arith, e)

hex_loop-put :
    (c d : ℕ) (cs result : List ℕ) (j : ℕ) (odd : Bool)
    → letter_of c ≡ digit d
    → j < length result
    → let j' = if odd then j + 1 else j in
      hex_loop (c ∷ cs) result j odd ≡ (
        if leb (length result) j'
        then done (put_digit result j odd d, j')
        else hex_loop cs (put_digit result j odd d) j' (not odd))
unfolding hex_loop
hex_loop-put c d cs result j odd e lt = ground (arith, e, lt)

hex_loop-Within :
    (cs result : List ℕ) (j : ℕ) (odd : Bool)
    → j < length result
    → Within result (hex_loop cs result j odd)
unfolding hex_loop
hex_loop-Within [] result j odd lt = (omega arith, refl)
hex_loop-Within (c ∷ cs) result j odd lt = elim (letter-cases (letter_of c)) [
  | inr (inl e) ↦
      subst (Within result) (sym (hex_loop-stop c cs result j odd e)) (omega arith, refl)
  | inr (inr e) ↦
      subst (Within result) (sym (hex_loop-skip c cs result j odd e))
        (hex_loop-Within cs result j odd lt)
  | inl (d, e) ↦
      let result' = put_digit result j odd d in
      let j' = if odd then j + 1 else j in
      let l = length-put_digit result j odd d in
      let next : j' ≤ length result = ground arith in
      subst (Within result) (sym (hex_loop-put c d cs result j odd e lt)) (
        if_lem (Within result) (leb (length result) j') (done (result', j'))
          (hex_loop cs result' j' (not odd)) (λ full. (next, l))
          (λ room.
            Within-trans result result' (hex_loop cs result' j' (not odd)) l
              (hex_loop-Within cs result' j' (not odd) (ground (arith, room, l)))))
]

-- Into a buffer of at least one byte, `hex2bin` reads any text without a write past its end, and
-- counts at most as many bytes as it has.
pub hex2bin-Within :
    (text result : List ℕ) → 0 < length result → Within result (hex2bin text result)
unfolding hex2bin
hex2bin-Within text result lt = hex_loop-Within text result 0 false lt
