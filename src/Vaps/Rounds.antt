-- ===== src/Vaps/Rounds.antt =====
-- libel/utilities.c: the rounds of `select_vap`. A round gives every virtual group that has children
-- left one more, in the order of the APs.
use embedded_client.Types.{Beacon, max_vap_per_ap_max}
use embedded_client.Vaps.{pass, Round}
use embedded_client.Common.{
  true, [], inl, false, suc, refl, zero, inr, ◌∷◌, ◌⊎◌, ◌≤◌, ◌<◌, ◌++◌, if◌then◌else◌, ℕ, List, ltb,
  replicate, ◌+◌, ◌≡◌, arith, length, ◌&&◌, ◌≢◌, ap, not, dec_lt, subst, sym, zero_add, ◌∙◌,
}

abbrev pub lesser : ℕ → ℕ → ℕ
lesser a b = if ltb a b then a else b

-- Every group has `t` of its children, or all; the first `k` have up to `t + 1`.
abbrev pub level : ℕ → ℕ → List Beacon → List ℕ
level k t [] = []
level zero t (b ∷ bs) = lesser t b.ap.vg_len ∷ level zero t bs
level (suc k) t (b ∷ bs) = lesser (t + 1) b.ap.vg_len ∷ level k t bs

abbrev pub total : List ℕ → ℕ
total [] = 0
total (n ∷ ns) = n + total ns

abbrev pub children : List Beacon → List ℕ
children [] = []
children (b ∷ bs) = b.ap.vg_len ∷ children bs

-- The children fit into the arrays of their APs.
abbrev pub ChildrenFit : List Beacon → Type 0
ChildrenFit [] = Unit {0}
ChildrenFit (b ∷ bs) = (b.ap.vg_len ≤ max_vap_per_ap_max) × ChildrenFit bs

-- Zeros for APs that are not there.
abbrev pub padded : List ℕ → ℕ → List ℕ
padded ns m = ns ++ replicate m 0

-- A pass over the APs that starts at level `t`: it serves the first `k`, and stops before the end only
-- when the limit is reached.
abbrev pub Passed : ℕ → ℕ → ℕ → List Beacon → Round → List ℕ × Round → Type 0
Passed limit m t bs s (caps, s') =
    (k : ℕ) × (caps ≡ padded (level k t bs) m)
    × (k ≤ length bs)
    × (s'.nvap + total (level zero t bs) ≡ s.nvap + total (level k t bs))
    × (s.nvap ≤ s'.nvap)
    × ((s'.nvap ≡ limit)
        ⊎ ((k ≡ length bs)
            × (s'.nvap < limit)
            × (s'.no_more ≡ false → (s.no_more ≡ false) ⊎ (s.nvap < s'.nvap))
            × (s'.no_more ≡ true → (s.no_more ≡ true) × (level k t bs ≡ children bs))))

-- The variables before and after a group that has had its turn.
abbrev Turn : ℕ → Beacon → Round → Round → Type 0
Turn t b s s1 =
    (s1.nvap + lesser t b.ap.vg_len ≡ s.nvap + lesser (t + 1) b.ap.vg_len)
    × (s.nvap ≤ s1.nvap)
    × (s1.no_more ≡ false → (s.no_more ≡ false) ⊎ (s.nvap < s1.nvap))
    × (s1.no_more ≡ true → (s.no_more ≡ true) × (b.ap.vg_len ≤ t + 1))

extend-Passed :
    (limit m t : ℕ) (b : Beacon) (bs : List Beacon) (s s1 : Round) (caps : List ℕ) (s' : Round)
    → Turn t b s s1
    → Passed limit m t bs s1 (caps, s')
    → Passed limit m t (b ∷ bs) s (lesser (t + 1) b.ap.vg_len ∷ caps, s')
extend-Passed limit m t b bs s s1 caps s' turn (k, e, le, sum, grows, how) = (
  suc k,
  ap (λ (ns : List ℕ). lesser (t + 1) b.ap.vg_len ∷ ns) e,
  omega arith,
  ground (arith, sum, turn.0),
  omega (arith, turn.1),
  elim how [
    | inl full ↦ inl full
    | inr (all, less, going, done') ↦ inr (
      ap suc all,
      less,
      λ n. ground (arith, going n, turn.1, turn.2),
      λ y. ground (arith, done' y, turn.3),
    )
  ],
)

pass-saturated :
    (limit : ℕ) (t : ℕ) (b : Beacon) (bs : List Beacon) (caps : List ℕ) (s : Round)
    → b.ap.vg_len ≤ t
    → pass limit (b ∷ bs) (lesser t b.ap.vg_len ∷ caps) s
      ≡ (lesser (t + 1) b.ap.vg_len ∷ (pass limit bs caps s).0, (pass limit bs caps s).1)
unfolding pass
pass-saturated limit t b bs caps s le = ground arith

pass-last :
    (limit : ℕ) (t : ℕ) (b : Beacon) (bs : List Beacon) (caps : List ℕ) (s : Round)
    → b.ap.vg_len < 256
    → t < b.ap.vg_len
    → s.nvap + 1 ≡ limit
    → pass limit (b ∷ bs) (lesser t b.ap.vg_len ∷ caps) s
      ≡ (lesser (t + 1) b.ap.vg_len ∷ caps, record s { nvap = limit })
unfolding pass
pass-last limit t b bs caps s byte lt last = ground arith

abbrev served : ℕ → Beacon → Round → Round
served t b s = record { nvap = s.nvap + 1; no_more = s.no_more && not (ltb (t + 1) b.ap.vg_len) }

pass-served :
    (limit : ℕ) (t : ℕ) (b : Beacon) (bs : List Beacon) (caps : List ℕ) (s : Round)
    → b.ap.vg_len < 256
    → t < b.ap.vg_len
    → s.nvap + 1 ≢ limit
    → let s1 = served t b s in
      pass limit (b ∷ bs) (lesser t b.ap.vg_len ∷ caps) s
      ≡ (lesser (t + 1) b.ap.vg_len ∷ (pass limit bs caps s1).0, (pass limit bs caps s1).1)
unfolding pass
pass-served limit t b bs caps s byte lt more = ground arith

pub pass-Passed :
    (limit m t : ℕ) (bs : List Beacon) (s : Round)
    → ChildrenFit bs
    → s.nvap < limit
    → Passed limit m t bs s (pass limit bs (padded (level zero t bs) m) s)
unfolding pass
pass-Passed limit m t [] s bytes lt =
    (0, refl, omega arith, refl, omega arith, inr (refl, lt, λ e. inl e, λ e. (e, refl)))
pass-Passed limit m t (b ∷ bs) s (byte, bytes) lt =
    let caps = padded (level zero t bs) m in
    let Goal = Passed limit m t (b ∷ bs) s in
    elim (dec_lt t b.ap.vg_len) [
      | no full ↦
          let turn : Turn t b s s =
            (ground arith, omega arith, λ e. inl e, λ e. (e, omega arith)) in
          subst Goal (sym (pass-saturated limit t b bs caps s (omega arith)))
            (extend-Passed limit m t b bs s s _ _ turn (pass-Passed limit m t bs s bytes lt))
      | yes more ↦ elim (dec_lt (s.nvap + 1) limit) [
        | yes next ↦
            let s1 = served t b s in
            let turn : Turn t b s s1 =
              (ground arith, omega arith, λ e. inr (omega arith), λ e. ground arith) in
            subst Goal (sym (pass-served limit t b bs caps s (omega arith) more (λ e. omega arith)))
              (extend-Passed limit m t b bs s s1 _ _ turn
                (pass-Passed limit m t bs s1 bytes (omega arith)))
        | no end ↦
            subst Goal (sym (pass-last limit t b bs caps s (omega arith) more (omega arith)))
              (1, refl, omega arith, ground arith, omega arith, inl refl)
      ]
    ]

pub level-full : (t : ℕ) (bs : List Beacon) → level (length bs) t bs ≡ level zero (t + 1) bs
level-full t [] = refl
level-full t (b ∷ bs) = ap (λ (ns : List ℕ). lesser (t + 1) b.ap.vg_len ∷ ns) (level-full t bs)

pub level-zero : (bs : List Beacon) → level zero zero bs ≡ replicate (length bs) 0
level-zero [] = refl
level-zero (b ∷ bs) = ground (arith, level-zero bs)

pub replicate-padded : (n m : ℕ) → padded (replicate n 0) m ≡ replicate (n + m) 0
replicate-padded zero m = ap (λ (k : ℕ). replicate k 0) (zero_add m)
replicate-padded (suc n) m =
    let e : suc (n + m) ≡ suc n + m = omega arith in
    ap (λ (ns : List ℕ). 0 ∷ ns) (replicate-padded n m) ∙ ap (λ (k : ℕ). replicate k 0) e

pub none_yet : (bs : List Beacon) → 0 ≡ total (level zero zero bs)
none_yet [] = refl
none_yet (b ∷ bs) = ground (arith, none_yet bs)
