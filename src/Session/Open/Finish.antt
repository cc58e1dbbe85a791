-- ===== src/Session/Open/Finish.antt =====
-- libel/libel.c: the second half of `sky_open`.
-- The open session has what the caller gave.
use embedded_client.Plugins.Register.Basic.{Intact, Registered, sky_register_plugins-Registered}
use embedded_client.Beacons.Insert.Order.{basic_plugins}
use embedded_client.Session.Open.Auth.{SkuIs, Arrays, KeyIs, KeySized, strnlen_-le, length-take}
use embedded_client.Plugins.Register.{Tables, sky_register_plugins}
use embedded_client.Session.Open.{
  returned, OpenArgs, validate_device_id, Opening, is_some, sku_array, text_of, strnlen_, finished,
  concluded, identified,
}
use embedded_client.Common.{
  some, false, refl, [], none, zero, inl, inr, suc, true, ◌∷◌, ◌==◌, ◌||◌, ◌⊎◌, ◌≤◌, ◌-◌, ◌++◌, ◌∙◌,
  if◌then◌else◌, ℕ, List, Option, ◌≡◌, take, length, ap, arith, subst, not, ◌+◌, sym, Bool-cases,
  if_lem, replicate, ltb, length-replicate, ◌≢◌, ◌<◌, ◌%◌, drop,
}
use embedded_client.Types.{
  error_none, success, error_bad_parameters, error, Session, max_device_id, max_sku_len, Status,
  aes_size,
}

-- The length that is given, or the greatest.
abbrev pub LengthIs : ℕ → ℕ → Type 0
LengthIs given kept =
    ((kept ≡ given) × (given ≤ max_device_id)) ⊎ ((kept ≡ max_device_id) × (max_device_id < given))

-- The array begins with the bytes that are given, up to `n`.
abbrev pub DeviceIs : List ℕ → ℕ → List ℕ → Type 0
DeviceIs given n kept = take (length (take n given)) kept ≡ take n given

-- The country code comes with a SKU; without one both stay as they were.
abbrev pub CodeIs : OpenArgs → Session → Session → Type 0
CodeIs a s s' =
    ((strnlen_ (text_of a.sku) max_sku_len ≢ 0) × (s'.cc ≡ a.cc % 65536))
    ⊎ ((strnlen_ (text_of a.sku) max_sku_len ≡ 0) × (s'.cc ≡ s.cc) × (s'.sku ≡ s.sku))

abbrev pub Holds : OpenArgs → Session → Type 0
Holds a s =
    (s.open_flag ≡ true)
    × (s.plugins ≡ basic_plugins)
    × (s.partner_id ≡ a.partner_id)
    × KeyIs a.aes_key s.aes_key
    × SkuIs (text_of a.sku) s.sku
    × LengthIs a.id_len s.id_len
    × (s.min_level ≡ a.min_level)
    × Arrays s
    × DeviceIs (text_of a.device_id) s.id_len s.device_id

-- What the call leaves alone, or takes over with a SKU.
abbrev pub Carried : OpenArgs → Session → Session → Type 0
Carried a s s' =
    (s'.header ≡ s.header)
    × (s'.config ≡ s.config)
    × (s'.cacheline ≡ s.cacheline)
    × (s'.token_id ≡ s.token_id)
    × (s'.backoff ≡ s.backoff)
    × (s'.cache_hits ≡ s.cache_hits)
    × CodeIs a s s'

abbrev pub Finished : OpenArgs → Session → Opening → Type 0
Finished a s (returned s' error_bad_parameters) =
    (s' ≡ s) × ((a.device_id ≡ none) ⊎ (a.aes_key ≡ none))
Finished a s (returned s' error_none) = Holds a s' × Carried a s s'
Finished a s _ = ⊥

take_again : (n : ℕ) (xs : List ℕ) → take n (take n xs) ≡ take n xs
take_again zero xs = refl
take_again (suc n) [] = refl
take_again (suc n) (x ∷ xs) = ap (λ (r : List ℕ). x ∷ r) (take_again n xs)

take-append : (n : ℕ) (xs ys : List ℕ) → n ≤ length xs → take n (take n xs ++ ys) ≡ take n xs
take-append zero xs ys h = refl
take-append (suc n) [] ys h = absurd (omega arith)
take-append (suc n) (x ∷ xs) ys h = ap (λ (r : List ℕ). x ∷ r) (take-append n xs ys (omega arith))

length-append : (xs ys : List ℕ) → length (xs ++ ys) ≡ length xs + length ys
length-append [] ys = omega arith
length-append (x ∷ xs) ys = omega (arith, length-append xs ys)

sku_array-SkuIs :
    (sku : List ℕ) → SkuIs sku (sku_array sku) × (length (sku_array sku) ≡ max_sku_len + 1)
sku_array-SkuIs sku =
    let n = strnlen_ sku max_sku_len in
    let le = strnlen_-le sku max_sku_len in
    let rest : List ℕ = replicate (max_sku_len + 1 - n) 0 in
    (
      sym (take-append n sku rest le.0),
      length-append (take n sku) rest
          ∙ omega (
            arith,
            length-take n sku le.0,
            length-replicate {A = ℕ} (max_sku_len + 1 - n) 0,
            le.1,
          ),
    )

take-zero : (n : ℕ) (xs ys : List ℕ) → n ≡ 0 → take n xs ≡ take n ys
take-zero n xs ys e = subst (λ m. take m xs ≡ take m ys) (sym e) refl

kept_sku :
    (sku saved : List ℕ)
    → length saved ≡ max_sku_len + 1
    → let kept = if not (strnlen_ sku max_sku_len == 0) then sku_array sku else saved in
      SkuIs sku kept × (length kept ≡ max_sku_len + 1)
kept_sku sku saved e =
    if_lem (λ (k : List ℕ). SkuIs sku k × (length k ≡ max_sku_len + 1))
      (not (strnlen_ sku max_sku_len == 0)) (sku_array sku) saved (λ given. sku_array-SkuIs sku)
      (λ absent. (take-zero (strnlen_ sku max_sku_len) sku saved (ground (arith, absent)), e))

take-length : (xs ys : List ℕ) → take (length xs) (xs ++ ys) ≡ xs
take-length [] ys = refl
take-length (x ∷ xs) ys = ap (λ (r : List ℕ). x ∷ r) (take-length xs ys)

identified-CodeIs :
    (a : OpenArgs) (id_len : ℕ) (device_id key : List ℕ) (s : Session)
    → CodeIs a s (identified a id_len device_id key s)
identified-CodeIs a id_len device_id key s = ground arith

module _ (size fuel ap_table cell_table : ℕ) (a : OpenArgs) (s : Session) (sized : Arrays s) where
  concluded-Finished :
      (key : List ℕ) (id_len : ℕ) (done : Tables × ℕ × Status)
      → Registered fuel ap_table cell_table done
      → a.aes_key ≡ some key
      → length key ≡ aes_size
      → LengthIs a.id_len id_len
      → Finished a s
          (concluded size fuel ap_table cell_table
            (identified a id_len (text_of a.device_id) key s)
            done).1
  concluded-Finished key id_len (h, root, error) r e key_sized le = cc (r.0)
  concluded-Finished key id_len (h, root, success) r e key_sized le =
      let known : KeyIs a.aes_key (take aes_size key) =
        subst (λ k. KeyIs k (take aes_size key)) (sym e) (sym (take_again aes_size key)) in
      let sku = kept_sku (text_of a.sku) s.sku sized.0 in
      let key_length : length (take aes_size key) ≡ aes_size =
        length-take aes_size key (omega arith) in
      (
        (
          refl,
          r.1,
          refl,
          known,
          sku.0,
          le,
          refl,
          (sku.1, key_length),
          take-length (take id_len (text_of a.device_id)) (drop id_len s.device_id),
        ),
        (
          refl,
          refl,
          refl,
          refl,
          refl,
          refl,
          identified-CodeIs a id_len (text_of a.device_id) key s,
        ),
      )

given-some : (o : Option (List ℕ)) → is_some o ≡ true → o ≡ some (text_of o)
given-some none h = cc
given-some (some x) h = refl

some_or_none : (o : Option (List ℕ)) → is_some o ≡ false → o ≡ none
some_or_none none h = refl
some_or_none (some x) h = cc

device-none :
    (o : Option (List ℕ)) (n : ℕ) → n ≤ max_device_id → validate_device_id o n ≡ false → o ≡ none
unfolding validate_device_id
device-none none n le h = refl
device-none (some x) n le h = ground (arith, h)

missing :
    (a : OpenArgs) (n : ℕ)
    → n ≤ max_device_id
    → (not (validate_device_id a.device_id n) || not (is_some a.aes_key)) ≡ true
    → (a.device_id ≡ none) ⊎ (a.aes_key ≡ none)
missing a n le h = elim (Bool-cases (is_some a.aes_key)) [
  | inl e ↦ inl (device-none a.device_id n le (ground (arith, h, e)))
  | inr e ↦ inr (some_or_none a.aes_key e)
]

module _ (size fuel ap_table cell_table : ℕ) (a : OpenArgs) (h : Tables)
    (t : Intact h ap_table cell_table) (given : KeySized a.aes_key) where
  pub finished-Finished :
      (s : Session)
      → Arrays s
      → Finished a s (finished size (suc (suc fuel)) ap_table cell_table a h s).1
  finished-Finished s sized =
      let id_len = if ltb max_device_id a.id_len then max_device_id else a.id_len in
      let le : id_len ≤ max_device_id = ground arith in
      let within : LengthIs a.id_len id_len = ground arith in
      let key = text_of a.aes_key in
      let device_id = text_of a.device_id in
      let refused = not (validate_device_id a.device_id id_len) || not (is_some a.aes_key) in
      let after =
        concluded size (suc (suc fuel)) ap_table cell_table (identified a id_len device_id key s)
          (sky_register_plugins (suc (suc fuel)) h 0 ap_table cell_table) in
      let Goal = λ (o : Tables × Opening). Finished a s o.1 in
      if_lem Goal refused (h, returned s error_bad_parameters) after
        (λ e. (refl, missing a id_len le e))
        (λ e.
          let some_key = given-some a.aes_key (ground (arith, e)) in
          concluded-Finished size (suc (suc fuel)) ap_table cell_table a s sized key id_len _
            (sky_register_plugins-Registered fuel h ap_table cell_table t) some_key
            (subst KeySized some_key given) within)
