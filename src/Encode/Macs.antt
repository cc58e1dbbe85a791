-- ===== src/Encode/Macs.antt =====
-- libel/protocol/proto.c: the number that stands for a mac address.
use embedded_client.Mac.Similar.{AreBytes}
use embedded_client.Fields.{get_ap_mac}
use embedded_client.Types.{Rctx}
use embedded_client.Encode.{int_of_bytes, mac_to_int}
use embedded_client.Common.{
  pos, zero, refl, [], suc, some, ◌∷◌, ◌*◌, ◌∙◌, ℕ, List, length, ◌≡◌, take, ap, arith, sym, ◌+◌,
}

int_of_bytes_injective :
    (m m' : List ℕ) (acc acc' : ℕ)
    → length m ≡ length m'
    → AreBytes m
    → AreBytes m'
    → int_of_bytes m acc ≡ int_of_bytes m' acc'
    → (m ≡ m') × (acc ≡ acc')
unfolding int_of_bytes
int_of_bytes_injective [] [] acc acc' l s s' e = (refl, e)
int_of_bytes_injective [] (b ∷ m') acc acc' l s s' e = absurd (omega arith)
int_of_bytes_injective (a ∷ m) [] acc acc' l s s' e = absurd (omega arith)
int_of_bytes_injective (a ∷ m) (b ∷ m') acc acc' l s s' e =
    let (rest, now) =
      int_of_bytes_injective m m' (acc * 256 + a) (acc' * 256 + b) (omega arith) s.1 s'.1 e in
    let first : a ≡ b = omega (arith, now, s.0, s'.0) in (cc, omega (arith, now, s.0, s'.0))

take_all : (n : ℕ) (m : List ℕ) → length m ≡ n → take n m ≡ m
take_all zero [] l = refl
take_all zero (a ∷ m) l = absurd (omega arith)
take_all (suc n) [] l = absurd (omega arith)
take_all (suc n) (a ∷ m) l = ap (λ (xs : List ℕ). a ∷ xs) (take_all n m (omega arith))

mac_to_int_lem :
    (r : Rctx) (i : ℕ) (m : List ℕ)
    → get_ap_mac r i ≡ some (some m)
    → length m ≡ 6
    → mac_to_int r i ≡ pos (int_of_bytes m 0)
unfolding mac_to_int
mac_to_int_lem r i m e l = ground (arith, e, take_all 6 m l)

-- Two APs of a request whose macs are six bytes each are sent with the same number only if they have
-- the same mac.
pub mac_to_int_injective :
    (r : Rctx) (i j : ℕ) (m m' : List ℕ)
    → get_ap_mac r i ≡ some (some m)
    → get_ap_mac r j ≡ some (some m')
    → (length m ≡ 6) × (length m' ≡ 6)
    → AreBytes m × AreBytes m'
    → mac_to_int r i ≡ mac_to_int r j
    → m ≡ m'
mac_to_int_injective r i j m m' e e' sized are same =
    let number : pos (int_of_bytes m 0) ≡ pos (int_of_bytes m' 0) =
      sym (mac_to_int_lem r i m e sized.0) ∙ same ∙ mac_to_int_lem r j m' e' sized.1 in
    let number' : int_of_bytes m 0 ≡ int_of_bytes m' 0 = cc in
    (int_of_bytes_injective m m' 0 0 (omega (arith, sized)) are.0 are.1 number').0
