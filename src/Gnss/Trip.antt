-- ===== src/Gnss/Trip.antt =====
-- libel/protocol/proto.c: what a reader of the fields of a fix gets back.
use embedded_client.Encode.ApTrip.{repeated_of, repeated_of-framed}
use embedded_client.Encode.Writes.{Write, run, chain, last-run, values}
use embedded_client.Types.{Rctx, Gnss, has_gnss}
use embedded_client.Encode.Lengths.{CountsBytes, repeated_writes, repeated-run}
use embedded_client.Encode.{Nanopb, DataGetter, encode_repeated_int_field, and_also}
use embedded_client.Common.{
  [], true, none, refl, ◌∷◌, ◌++◌, ℤ, List, ℕ, ◌≡◌, Bool, pos, ◌∙◌, arith, ap, subst, sym, some,
}
use embedded_client.Gnss.{
  encode_gnss_fields, get_gnss_lat_scaled, get_gnss_lon_scaled, get_gnss_hpe, get_gnss_alt_scaled,
  get_gnss_vpe, get_gnss_speed_scaled, get_gnss_bearing, get_gnss_nsat, get_gnss_age, get_num_gnss,
  get_gnss_lat, scaled, get_gnss_lon, get_gnss_alt, get_gnss_speed,
}

-- The getters with their tags.
abbrev pub gnss_getters : ℤ → List (ℕ × DataGetter)
gnss_getters of_nan =
    (1, get_gnss_lat_scaled of_nan)
    ∷ (2, get_gnss_lon_scaled of_nan)
    ∷ (3, get_gnss_hpe)
    ∷ (4, get_gnss_alt_scaled of_nan)
    ∷ (5, get_gnss_vpe)
    ∷ (6, get_gnss_speed_scaled of_nan)
    ∷ (7, get_gnss_bearing of_nan)
    ∷ (8, get_gnss_nsat)
    ∷ (9, get_gnss_age)
    ∷ []

-- The numbers of a fix with their tags, the positions in millionths of a degree.
abbrev pub fix_numbers : ℤ → Gnss → List (ℕ × ℤ)
fix_numbers of_nan g =
    (1, scaled of_nan 1000000 g.lat)
    ∷ (2, scaled of_nan 1000000 g.lon)
    ∷ (3, pos g.hpe)
    ∷ (4, scaled of_nan 10 g.alt)
    ∷ (5, pos g.vpe)
    ∷ (6, scaled of_nan 10 g.speed)
    ∷ (7, scaled of_nan 1 g.bearing)
    ∷ (8, pos g.nsat)
    ∷ (9, pos g.age)
    ∷ []

-- The writes are fields one after the other, each a list of one number.
abbrev pub SentNumbers : (pb : Nanopb) → CountsBytes pb → List (ℕ × ℤ) → List Write → Type 0
SentNumbers pb counts [] ws = ws ≡ []
SentNumbers pb counts ((t, z) ∷ numbers) ws =
    (field : List Write) × (rest : List Write) × (ws ≡ field ++ rest)
    × (repeated_of pb counts t field ≡ some (z ∷ []))
    × SentNumbers pb counts numbers rest

-- The getters give the numbers for the first element.
abbrev Gives : Rctx → List (ℕ × DataGetter) → List (ℕ × ℤ) → Type 0
Gives r [] [] = Unit {0}
Gives r ((t, getter) ∷ fields) ((u, z) ∷ numbers) =
    (t ≡ u) × (getter r 0 ≡ z) × Gives r fields numbers
Gives r _ _ = ⊥

gnss_getters-Gives :
    (of_nan : ℤ) (r : Rctx)
    → has_gnss r.gnss ≡ true
    → Gives r (gnss_getters of_nan) (fix_numbers of_nan r.gnss)
unfolding get_gnss_lat_scaled get_gnss_lon_scaled get_gnss_hpe get_gnss_alt_scaled get_gnss_vpe
    get_gnss_speed_scaled get_gnss_bearing get_gnss_nsat get_gnss_age get_gnss_lat get_gnss_lon
    get_gnss_alt get_gnss_speed
gnss_getters-Gives of_nan r e = ground (arith, e)

num-one : (r : Rctx) → has_gnss r.gnss ≡ true → get_num_gnss r ≡ 1
unfolding get_num_gnss
num-one r e = ground (arith, e)

module _ (pb : Nanopb) (counts : CountsBytes pb) (r : Rctx) where
  pub fields_writes : ℕ → List (ℕ × DataGetter) → List Write
  fields_writes n [] = []
  fields_writes n ((t, getter) ∷ fields) =
      repeated_writes pb counts r t n getter none ++ fields_writes n fields

  -- The fields in turn, the last of them with nothing after it.
  fields_run : ℕ → List (ℕ × DataGetter) → pb.Stream → pb.Stream × Bool
  fields_run n [] s = (s, true)
  fields_run n ((t, getter) ∷ []) s = encode_repeated_int_field pb r s t n getter none
  fields_run n ((t, getter) ∷ (f ∷ fields)) s =
      and_also (encode_repeated_int_field pb r s t n getter none) (fields_run n (f ∷ fields))

  fields_run-run :
      (n : ℕ) (fields : List (ℕ × DataGetter)) (s : pb.Stream)
      → fields_run n fields s ≡ run pb (fields_writes n fields) s
  unfolding fields_run fields_writes
  fields_run-run n [] s = refl
  fields_run-run n ((t, getter) ∷ []) s =
      repeated-run pb counts r s t n getter none
      ∙ last-run pb (repeated_writes pb counts r t n getter none) s
  fields_run-run n ((t, getter) ∷ (f ∷ fields)) s =
      chain pb _ (fields_run n (f ∷ fields)) (repeated_writes pb counts r t n getter none)
        (fields_writes n (f ∷ fields)) s (λ s'. repeated-run pb counts r s' t n getter none)
        (fields_run-run n (f ∷ fields))

  pub encode_gnss_fields-run :
      (of_nan : ℤ) (s : pb.Stream)
      → encode_gnss_fields of_nan pb r s
        ≡ run pb (fields_writes (get_num_gnss r) (gnss_getters of_nan)) s
  unfolding encode_gnss_fields fields_run
  encode_gnss_fields-run of_nan s = fields_run-run (get_num_gnss r) (gnss_getters of_nan) s

  fields_writes-SentNumbers :
      (fields : List (ℕ × DataGetter)) (numbers : List (ℕ × ℤ))
      → Gives r fields numbers
      → SentNumbers pb counts numbers (fields_writes 1 fields)
  unfolding fields_writes
  fields_writes-SentNumbers [] [] g = refl
  fields_writes-SentNumbers [] (x ∷ numbers) g = absurd g
  fields_writes-SentNumbers (x ∷ fields) [] g = absurd g
  fields_writes-SentNumbers ((t, getter) ∷ fields) ((u, z) ∷ numbers) (e, e', g) =
      let field = repeated_writes pb counts r t 1 getter none in
      let sent : repeated_of pb counts t field ≡ some (z ∷ []) =
        repeated_of-framed pb counts t (values r getter none 1 0)
        ∙ ap (λ (v : ℤ). some (v ∷ [])) e' in
      (
        field,
        fields_writes 1 fields,
        refl,
        subst (λ v. repeated_of pb counts v field ≡ some (z ∷ [])) e sent,
        fields_writes-SentNumbers fields numbers g,
      )

  abbrev pub gnss_writes : ℤ → List Write
  gnss_writes of_nan = fields_writes (get_num_gnss r) (gnss_getters of_nan)

  pub gnss_writes-SentNumbers :
      (of_nan : ℤ)
      → has_gnss r.gnss ≡ true
      → SentNumbers pb counts (fix_numbers of_nan r.gnss) (gnss_writes of_nan)
  gnss_writes-SentNumbers of_nan e =
      subst
        (λ n.
          SentNumbers pb counts (fix_numbers of_nan r.gnss) (fields_writes n (gnss_getters of_nan)))
        (sym (num-one r e))
        (fields_writes-SentNumbers (gnss_getters of_nan) (fix_numbers of_nan r.gnss)
          (gnss_getters-Gives of_nan r e))

  -- With nanopb as documented, a fix is written as its nine numbers, each under its tag.
  pub encode_gnss_fields-SentNumbers :
      (of_nan : ℤ) (s : pb.Stream)
      → has_gnss r.gnss ≡ true
      → (ws : List Write) × (encode_gnss_fields of_nan pb r s ≡ run pb ws s)
        × SentNumbers pb counts (fix_numbers of_nan r.gnss) ws
  encode_gnss_fields-SentNumbers of_nan s e =
      (gnss_writes of_nan, encode_gnss_fields-run of_nan s, gnss_writes-SentNumbers of_nan e)
