-- ===== src/Session/Open/Auth.antt =====
-- libel/libel.c: when `sky_open` takes a saved session for one of the same customer.
use embedded_client.Mac.{memcmp}
use embedded_client.Types.{Session, max_sku_len, aes_size}
use embedded_client.Common.{
  some, none, pos, suc, refl, [], zero, false, ◌∷◌, ◌↔◌, ◌≤◌, Option, ℕ, List, take, length, ◌≡◌,
  arith, ◌+◌, ap, true, ◌∙◌, ℤ, sym, Bool, not, eqb_ℤ, if_lem, ◌==◌,
}
use embedded_client.Session.Open.{
  OpenArgs, text_of, strnlen_, bytes_differ, auth_changed, key_differs,
}

-- The bytes at a pointer begin as the array does; a null pointer has none.
abbrev pub KeyIs : Option (List ℕ) → List ℕ → Type 0
KeyIs none saved = ⊥
KeyIs (some key) saved = take aes_size key ≡ take aes_size saved

-- The characters of the SKU begin the array.
abbrev pub SkuIs : List ℕ → List ℕ → Type 0
SkuIs sku saved = let n = strnlen_ sku max_sku_len in take n sku ≡ take n saved

-- The SKU given begins the saved one, and the partner and the key are the same.
abbrev pub SameAuth : OpenArgs → Session → Type 0
SameAuth a s =
    SkuIs (text_of a.sku) s.sku × (a.partner_id ≡ s.partner_id) × KeyIs a.aes_key s.aes_key

-- The arrays have the sizes that they are declared with.
abbrev pub KeySized : Option (List ℕ) → Type 0
KeySized none = Unit {0}
KeySized (some key) = length key ≡ aes_size

abbrev pub Arrays : Session → Type 0
Arrays s = (length s.sku ≡ max_sku_len + 1) × (length s.aes_key ≡ aes_size)

abbrev pub Sized : OpenArgs → Session → Type 0
Sized a s = (length s.sku ≡ max_sku_len + 1) × (length s.aes_key ≡ aes_size) × KeySized a.aes_key

pub length-take : (n : ℕ) (xs : List ℕ) → n ≤ length xs → length (take n xs) ≡ n
length-take zero xs h = refl
length-take (suc n) [] h = absurd (omega arith)
length-take (suc n) (x ∷ xs) h = ap suc (length-take n xs (omega arith))

pub strnlen_-le :
    (cs : List ℕ) (maxlen : ℕ) → (strnlen_ cs maxlen ≤ length cs) × (strnlen_ cs maxlen ≤ maxlen)
unfolding strnlen_
strnlen_-le [] maxlen = omega arith
strnlen_-le (c ∷ cs) zero = omega arith
strnlen_-le (c ∷ cs) (suc maxlen) = ground (arith, strnlen_-le cs maxlen)

memcmp_self : (as' : List ℕ) → memcmp as' as' ≡ pos 0
unfolding memcmp
memcmp_self [] = refl
memcmp_self (a ∷ as') = ground (arith, memcmp_self as')

memcmp-eq : (as' bs : List ℕ) → length as' ≡ length bs → memcmp as' bs ≡ pos 0 → as' ≡ bs
unfolding memcmp
memcmp-eq [] [] e h = refl
memcmp-eq [] (b ∷ bs) e h = absurd (omega (arith, e))
memcmp-eq (a ∷ as') [] e h = absurd (omega (arith, e))
memcmp-eq (a ∷ as') (b ∷ bs) e h = ground (arith, memcmp-eq as' bs, e, h)

not-eqb : (z : ℤ) → not (eqb_ℤ z (pos 0)) ≡ false → z ≡ pos 0
not-eqb z h = ground arith

-- Arrays of `n` bytes at least.
bytes_differ_iff :
    (a b : List ℕ) (n : ℕ)
    → n ≤ length a
    → n ≤ length b
    → (bytes_differ a b n ≡ false) ↔ (take n a ≡ take n b)
bytes_differ_iff a b n la lb =
    let same_length : length (take n a) ≡ length (take n b) =
      length-take n a la ∙ sym (length-take n b lb) in
    (
      λ e. memcmp-eq (take n a) (take n b) same_length (not-eqb _ e),
      λ e. rw (e, memcmp_self (take n b)) refl,
    )

-- What the comparison of the customers says.
abbrev pub Compared : OpenArgs → Session → Option Bool → Type 0
Compared a s none = a.aes_key ≡ none
Compared a s (some true) = SameAuth a s → ⊥
Compared a s (some false) = SameAuth a s

sku_differs_iff :
    (a : OpenArgs) (s : Session)
    → length s.sku ≡ max_sku_len + 1
    → let n = strnlen_ (text_of a.sku) max_sku_len in
      (bytes_differ (text_of a.sku) s.sku n ≡ false) ↔ (take n (text_of a.sku) ≡ take n s.sku)
sku_differs_iff a s sized =
    let le = strnlen_-le (text_of a.sku) max_sku_len in
    bytes_differ_iff (text_of a.sku) s.sku (strnlen_ (text_of a.sku) max_sku_len) (omega arith)
      (omega arith)

-- What the comparison of the keys says.
abbrev KeyCompared : Option (List ℕ) → List ℕ → Option Bool → Type 0
KeyCompared key saved none = key ≡ none
KeyCompared key saved (some true) = KeyIs key saved → ⊥
KeyCompared key saved (some false) = KeyIs key saved

compared-bit :
    (key saved : List ℕ) (b : Bool)
    → (b ≡ false) ↔ (take aes_size key ≡ take aes_size saved)
    → KeyCompared (some key) saved (some b)
compared-bit key saved true both = λ same. cc (both.1 same)
compared-bit key saved false both = both.0 refl

key_differs-KeyCompared :
    (key : Option (List ℕ)) (saved : List ℕ)
    → length saved ≡ aes_size
    → KeySized key
    → KeyCompared key saved (key_differs key saved)
unfolding key_differs
key_differs-KeyCompared none saved sized given = refl
key_differs-KeyCompared (some key) saved sized given =
    compared-bit key saved _ (bytes_differ_iff key saved aes_size (omega arith) (omega arith))

-- The rest of the customer is the same.
key-Compared :
    (a : OpenArgs) (s : Session) (verdict : Option Bool)
    → let n = strnlen_ (text_of a.sku) max_sku_len in
      take n (text_of a.sku) ≡ take n s.sku
      → a.partner_id ≡ s.partner_id
      → KeyCompared a.aes_key s.aes_key verdict
      → Compared a s verdict
key-Compared a s none sku partner key = key
key-Compared a s (some true) sku partner key = λ same. key same.2
key-Compared a s (some false) sku partner key = (sku, partner, key)

pub auth_changed-Compared :
    (a : OpenArgs) (s : Session) → Sized a s → Compared a s (auth_changed a s)
unfolding auth_changed
auth_changed-Compared a s sized =
    let sku = sku_differs_iff a s sized.0 in
    if_lem (Compared a s) _ _ _ (λ differs. λ same. cc (sku.1 same.0, differs))
      (λ e.
        if_lem (Compared a s) (not (a.partner_id == s.partner_id)) (some true) _
          (λ differs. λ same. ground (arith, differs, same.1))
          (λ e'.
            key-Compared a s _ (sku.0 e) (ground (arith, e'))
              (key_differs-KeyCompared a.aes_key s.aes_key sized.1 sized.2)))
