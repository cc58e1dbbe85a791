-- ===== src/Plugins/Register/Links.antt =====
-- libel/plugin.c: the list of tables as a sequence.
use embedded_client.Types.{sky_magic, success, Status}
use embedded_client.Plugins.Register.{
  at_end, registered, Tables, walk, Walk, set_next, appended, sky_plugin_add, Table,
}
use embedded_client.Common.{
  suc, [], zero, ◌∷◌, ◌==◌, ◌≢◌, ◌⊎◌, ◌<◌, if◌then◌else◌, ℕ, List, ◌≡◌, length, arith, inl, inr,
  false, refl, ◌∙◌, Bool-cases, subst, sym, ◌++◌, ◌≤◌, ap,
}

-- `x` is not among the addresses.
abbrev pub Fresh : ℕ → List ℕ → Type 0
Fresh x [] = Unit {0}
Fresh x (y ∷ ys) = (x ≢ y) × Fresh x ys

-- From `p` the `next` pointers lead through the distinct, intact tables to NULL.
abbrev pub Linked : Tables → ℕ → List ℕ → Type 0
Linked h p [] = p ≡ 0
Linked h p (x ∷ xs) =
    (p ≡ x) × (x ≢ 0) × ((h x).magic ≡ sky_magic) × Fresh x xs × Linked h (h x).next xs

-- The table at the end, once.
abbrev pub add_once : List ℕ → ℕ → List ℕ
add_once [] table = table ∷ []
add_once (x ∷ xs) table = if x == table then x ∷ xs else x ∷ add_once xs table

last_of : ℕ → List ℕ → ℕ
last_of x [] = x
last_of x (y ∷ ys) = last_of y ys

-- What the walk finds: the table is there, or the end of a list without it.
abbrev Found : Tables → ℕ → ℕ → List ℕ → ℕ → Walk → Type 0
Found h p x xs table w =
    ((w ≡ registered) × (add_once (x ∷ xs) table ≡ x ∷ xs))
    ⊎ ((w ≡ at_end (last_of x xs)) × Fresh table (x ∷ xs))

walk-step :
    (fuel : ℕ) (h : Tables) (p table : ℕ)
    → p ≢ 0
    → (h p).magic ≡ sky_magic
    → walk (suc fuel) h p table ≡ (
        if p == table
        then registered
        else if (h p).next == 0
        then at_end p
        else walk fuel h (h p).next table)
unfolding walk
walk-step fuel h p table some_table intact = ground (arith, some_table, intact)

differs : (x y : ℕ) → (x == y) ≡ false → y ≢ x
differs x y e same = ground (arith, e, same)

-- The walk at a table that leads on to `rest`.
step-Found :
    (h : Tables) (x : ℕ) (xs : List ℕ) (table : ℕ) (rest : Walk)
    → ((x == table) ≡ false → Found h x x xs table rest)
    → Found h x x xs table (if x == table then registered else rest)
step-Found h x xs table rest found = elim (Bool-cases (x == table)) [
  | inl e ↦ inl (ground (arith, e), ground (arith, e))
  | inr e ↦ ground (arith, e, found e)
]

extend-Found :
    (h : Tables) (x y : ℕ) (ys : List ℕ) (table : ℕ) (w : Walk)
    → (x == table) ≡ false
    → Found h y y ys table w
    → Found h x x (y ∷ ys) table w
unfolding last_of
extend-Found h x y ys table w e (inl (here, once)) = inl (here, ground (arith, e, once))
extend-Found h x y ys table w e (inr (end, fresh)) = inr (end, (differs x table e, fresh))

go_on :
    (fuel : ℕ) (h : Tables) (x y table : ℕ)
    → (h x).next ≢ 0
    → (h x).next ≡ y
    → (if (h x).next == 0 then at_end x else walk fuel h (h x).next table) ≡ walk fuel h y table
go_on fuel h x y table more e = ground (arith, more, e)

walk-Found :
    (fuel : ℕ) (h : Tables) (x : ℕ) (xs : List ℕ) (table : ℕ)
    → Linked h x (x ∷ xs)
    → length xs < fuel
    → Found h x x xs table (walk fuel h x table)
unfolding last_of
walk-Found zero h x xs table linked enough = absurd (omega arith)
walk-Found (suc fuel) h x [] table (here, some_table, intact, fresh, rest) enough =
    subst (Found h x x [] table) (sym (walk-step fuel h x table some_table intact))
      (step-Found h x [] table _ (λ e. inr (ground (arith, rest), (differs x table e, tt))))
walk-Found (suc fuel) h x (y ∷ ys) table (here, some_table, intact, fresh, rest) enough =
    let next = (h x).next in
    let more : next ≢ 0 = λ e. rest.1 (sym rest.0 ∙ e) in
    let ih = walk-Found fuel h y ys table (refl, rest.1, rest.2, rest.3, rest.4) (omega arith) in
    subst (Found h x x (y ∷ ys) table) (sym (walk-step fuel h x table some_table intact)) (
      step-Found h x (y ∷ ys) table _ (λ e.
        subst (Found h x x (y ∷ ys) table) (sym (go_on fuel h x y table more rest.0))
          (extend-Found h x y ys table _ e ih)))

add_once-Fresh : (xs : List ℕ) (table : ℕ) → Fresh table xs → add_once xs table ≡ xs ++ (table ∷ [])
add_once-Fresh [] table fresh = refl
add_once-Fresh (x ∷ xs) table fresh = ground (arith, fresh.0, add_once-Fresh xs table fresh.1)

last_of-Fresh : (z x : ℕ) (xs : List ℕ) → Fresh z (x ∷ xs) → z ≢ last_of x xs
unfolding last_of
last_of-Fresh z x [] fresh = fresh.0
last_of-Fresh z x (y ∷ ys) fresh = last_of-Fresh z y ys fresh.1

-- The tables after the last one, at `l`, leads to a new one.
abbrev with_end : Tables → ℕ → ℕ → Tables
with_end h l table = set_next (set_next h l table) table 0

with_end-other : (h : Tables) (l table a : ℕ) → a ≢ l → a ≢ table → with_end h l table a ≡ h a
with_end-other h l table a not_last not_new = ground (arith, not_last, not_new)

with_end-here :
    (h : Tables) (x table : ℕ)
    → x ≢ table
    → (with_end h x table x ≡ record (h x) { next = table })
      × ((with_end h x table table).magic ≡ (h table).magic)
      × ((with_end h x table table).next ≡ 0)
with_end-here h x table other =
    (ground (arith, other), ground (arith, other), ground (arith, other))

Fresh-append : (x table : ℕ) (xs : List ℕ) → Fresh x xs → x ≢ table → Fresh x (xs ++ (table ∷ []))
Fresh-append x table [] fresh other = (other, tt)
Fresh-append x table (y ∷ ys) fresh other = (fresh.0, Fresh-append x table ys fresh.1 other)

with_end-Linked :
    (h : Tables) (x : ℕ) (xs : List ℕ) (table : ℕ)
    → Linked h x (x ∷ xs)
    → Fresh table (x ∷ xs)
    → table ≢ 0
    → (h table).magic ≡ sky_magic
    → Linked (with_end h (last_of x xs) table) x (x ∷ (xs ++ (table ∷ [])))
unfolding last_of
with_end-Linked h x [] table (here, some_table, intact, fresh, rest) new not_null intact' =
    let other : x ≢ table = λ e. new.0 (sym e) in
    let (e, e', e'') = with_end-here h x table other in
    (
      refl,
      some_table,
      ap (λ (c : Table). c.magic) e ∙ intact,
      (other, tt),
      (ap (λ (c : Table). c.next) e, not_null, e' ∙ intact', tt, e''),
    )
with_end-Linked h x (y ∷ ys) table (here, some_table, intact, fresh, rest) new not_null intact' =
    let other : x ≢ table = λ e. new.0 (sym e) in
    let same = with_end-other h (last_of y ys) table x (last_of-Fresh x y ys fresh) other in
    let ih =
      with_end-Linked h y ys table (refl, rest.1, rest.2, rest.3, rest.4) new.1 not_null intact' in
    (
      refl,
      some_table,
      ap (λ (c : Table). c.magic) same ∙ intact,
      (fresh.0, Fresh-append x table ys fresh.1 other),
      (ap (λ (c : Table). c.next) same ∙ rest.0, ih.1, ih.2, ih.3, ih.4),
    )

-- The outcome of an addition: a list of the tables in which the new one stands once, at the end if it
-- was not there.
abbrev pub AddedTo : List ℕ → ℕ → Tables × ℕ × Status → Type 0
AddedTo xs table (h, root, ret) = (ret ≡ success) × Linked h root (add_once xs table)

appended-AddedTo :
    (h : Tables) (root x : ℕ) (xs : List ℕ) (table : ℕ) (w : Walk)
    → Linked h root (x ∷ xs)
    → table ≢ 0
    → (h table).magic ≡ sky_magic
    → Found h x x xs table w
    → AddedTo (x ∷ xs) table (appended h root table w)
unfolding last_of
appended-AddedTo h root x xs table w linked not_null intact found =
    let Goal = λ (v : Walk). AddedTo (x ∷ xs) table (appended h root table v) in
    elim found [
      | inl (e, once) ↦ subst Goal (sym e) (refl, subst (Linked h root) (sym once) linked)
      | inr (e, fresh) ↦
          let from_x : Linked h x (x ∷ xs) = (refl, linked.1, linked.2, linked.3, linked.4) in
          let ends = with_end-Linked h x xs table from_x fresh not_null intact in
          let after : Linked (with_end h (last_of x xs) table) root (x ∷ (xs ++ (table ∷ []))) =
            (linked.0, ends.1, ends.2, ends.3, ends.4) in
          subst Goal (sym e) (
            refl,
            subst (Linked (with_end h (last_of x xs) table) root)
                (sym (add_once-Fresh (x ∷ xs) table fresh)) after,
          )
    ]

pub add-empty :
    (fuel : ℕ) (h : Tables) (root table : ℕ)
    → root ≡ 0
    → table ≢ 0
    → (h table).magic ≡ sky_magic
    → sky_plugin_add fuel h root table ≡ (set_next h table 0, table, success)
unfolding sky_plugin_add
add-empty fuel h root table empty not_null intact = ground (arith, empty, not_null, intact)

add-walk :
    (fuel : ℕ) (h : Tables) (root x table : ℕ)
    → root ≡ x
    → x ≢ 0
    → table ≢ 0
    → (h table).magic ≡ sky_magic
    → sky_plugin_add fuel h root table ≡ appended h root table (walk fuel h x table)
unfolding sky_plugin_add
add-walk fuel h root x table here some_table not_null intact =
    ground (arith, here, some_table, not_null, intact)

pub set_next-here : (h : Tables) (p q : ℕ) → set_next h p q p ≡ record (h p) { next = q }
set_next-here h p q = ground arith

-- To a list of distinct, intact tables, `sky_plugin_add` adds an intact table at the end, unless it is
-- there already; the walk needs no more steps than the list has tables.
pub sky_plugin_add-AddedTo :
    (fuel : ℕ) (h : Tables) (root : ℕ) (xs : List ℕ) (table : ℕ)
    → Linked h root xs
    → table ≢ 0
    → (h table).magic ≡ sky_magic
    → length xs ≤ fuel
    → AddedTo xs table (sky_plugin_add fuel h root table)
sky_plugin_add-AddedTo fuel h root [] table linked not_null intact enough =
    let here = set_next-here h table 0 in
    subst (AddedTo [] table) (sym (add-empty fuel h root table linked not_null intact)) (
      refl,
      (
        refl,
        not_null,
        ap (λ (c : Table). c.magic) here ∙ intact,
        tt,
        ap (λ (c : Table). c.next) here,
      ),
    )
sky_plugin_add-AddedTo fuel h root (x ∷ xs) table linked not_null intact enough =
    let from_x : Linked h x (x ∷ xs) = (refl, linked.1, linked.2, linked.3, linked.4) in
    subst (AddedTo (x ∷ xs) table)
      (sym (add-walk fuel h root x table linked.0 linked.1 not_null intact))
      (appended-AddedTo h root x xs table (walk fuel h x table) linked not_null intact
        (walk-Found fuel h x xs table from_x (omega arith)))
