-- ===== src/Vaps/Select.antt =====
-- libel/utilities.c: the outer loop of `select_vap` and its end.
use embedded_client.Vaps.Rounds.{
  ChildrenFit, padded, total, level, children, pass-Passed, level-full,
}
use embedded_client.Types.{Beacon}
use embedded_client.Vaps.{rounds, Round, goes_on, pass}
use embedded_client.Common.{
  inl, suc, false, refl, true, zero, inr, ◌⊎◌, ◌≤◌, ◌<◌, ℕ, List, ◌≡◌, arith, ◌+◌, length,
  Bool-cases, ◌∙◌, sym, subst, ap,
}

rounds-stop :
    (fuel limit : ℕ) (bs : List Beacon) (caps : List ℕ) (s : Round)
    → goes_on limit s ≡ false
    → rounds fuel limit bs caps s ≡ (caps, s)
unfolding rounds
rounds-stop zero limit bs caps s stop = refl
rounds-stop (suc fuel) limit bs caps s stop = ground (arith, stop)

rounds-go :
    (fuel limit : ℕ) (bs : List Beacon) (caps : List ℕ) (s : Round)
    → goes_on limit s ≡ true
    → let p = pass limit bs caps (record s { no_more = true }) in
      rounds (suc fuel) limit bs caps s ≡ rounds fuel limit bs p.0 p.1
unfolding rounds
rounds-go fuel limit bs caps s go = ground (arith, go)

-- Once the loop has ended, more fuel changes nothing.
pub rounds-more :
    (fuel extra limit : ℕ) (bs : List Beacon) (caps : List ℕ) (s : Round)
    → goes_on limit (rounds fuel limit bs caps s).1 ≡ false
    → rounds (fuel + extra) limit bs caps s ≡ rounds fuel limit bs caps s
unfolding rounds
rounds-more zero extra limit bs caps s stop = rounds-stop (0 + extra) limit bs caps s stop
rounds-more (suc fuel) extra limit bs caps s stop = elim (Bool-cases (goes_on limit s)) [
  | inr stopped ↦
      rounds-stop (suc fuel + extra) limit bs caps s stopped
      ∙ sym (rounds-stop (suc fuel) limit bs caps s stopped)
  | inl go ↦
      let p = pass limit bs caps (record s { no_more = true }) in
      let e : suc fuel + extra ≡ suc (fuel + extra) = omega arith in
      let same = rounds-go fuel limit bs caps s go in
      let stop' : goes_on limit (rounds fuel limit bs p.0 p.1).1 ≡ false =
        subst (λ (x : List ℕ × Round). goes_on limit x.1 ≡ false) same stop in
      ap (λ (n : ℕ). rounds n limit bs caps s) e
      ∙ rounds-go (fuel + extra) limit bs caps s go
      ∙ rounds-more fuel extra limit bs p.0 p.1 stop'
      ∙ sym same
]

-- The children that are kept: as far as the limit allows, every group has `t` or all of its children,
-- and the first `k` have up to `t + 1`.
abbrev pub Shared : ℕ → ℕ → List Beacon → List ℕ × Round → Type 0
Shared limit m bs (caps, s) =
    (k : ℕ) × (t : ℕ) × (caps ≡ padded (level k t bs) m)
    × (k ≤ length bs)
    × (s.nvap ≡ total (level k t bs))
    × (s.nvap ≤ limit)
    × ((s.nvap ≡ limit) ⊎ (level k t bs ≡ children bs))
    × (goes_on limit s ≡ false)

pub rounds-Shared :
    (fuel limit m t : ℕ) (bs : List Beacon) (s : Round)
    → ChildrenFit bs
    → s.nvap ≡ total (level zero t bs)
    → s.nvap ≤ limit
    → (s.no_more ≡ true → level zero t bs ≡ children bs)
    → (s.no_more ≡ true) ⊎ (limit < s.nvap + fuel)
    → Shared limit m bs (rounds fuel limit bs (padded (level zero t bs) m) s)
unfolding rounds
rounds-Shared zero limit m t bs s bytes sum le all enough =
    (0, t, refl, omega arith, sum, le, ground arith, ground arith)
rounds-Shared (suc fuel) limit m t bs s bytes sum le all enough =
    elim (Bool-cases (goes_on limit s)) [
      | inr stop ↦
          rw (rounds-stop (suc fuel) limit bs (padded (level zero t bs) m) s stop)
            (0, t, refl, omega arith, sum, le, ground arith, stop)
      | inl go ↦
          let caps = padded (level zero t bs) m in
          let s1 : Round = record s { no_more = true } in
          let p = pass limit bs caps s1 in
          let less : s.nvap < limit = ground (arith, go) in
          let (k, e, within, sum', grows, how) = pass-Passed limit m t bs s1 bytes less in
          let sum_now : p.1.nvap ≡ total (level k t bs) = omega (arith, sum, sum') in
          subst (Shared limit m bs) (sym (rounds-go fuel limit bs caps s go)) (elim how [
            | inl full ↦
                let stop : goes_on limit p.1 ≡ false = ground (arith, full) in
                subst (Shared limit m bs) (sym (rounds-stop fuel limit bs p.0 p.1 stop))
                  (k, t, e, within, sum_now, omega (arith, full), inl full, stop)
            | inr (every, below, going, finished) ↦
                let next : level k t bs ≡ level zero (t + 1) bs =
                  ap (λ (n : ℕ). level n t bs) every ∙ level-full t bs in
                let e' : padded (level zero (t + 1) bs) m ≡ p.0 =
                  sym (e ∙ ap (λ (ns : List ℕ). padded ns m) next) in
                subst (λ (ns : List ℕ). Shared limit m bs (rounds fuel limit bs ns p.1)) e'
                  (rounds-Shared fuel limit m (t + 1) bs p.1 bytes (sum_now ∙ ap total next)
                    (omega arith) (λ y. sym next ∙ (finished y).1)
                    (elim (Bool-cases p.1.no_more) [
                      | inl y ↦ inl y
                      | inr n ↦ ground (arith, going n, go, enough)
                    ]))
          ])
    ]
