-- ===== src/Session/Saves.antt =====
-- plugins/ap_plugin_basic.c: the cacheline that `to_cache` writes.
use embedded_client.Beacons.Insert.Order.{basic_plugins}
use mathlib.Core.Option.{some-injective}
use embedded_client.Session.Reply.{
  save_index, to_cache, fill_cacheline, empty_cacheline, set_session, sky_plugin_add_to_cache,
  ServerReply, deserialize_response, conclude, receive_config, handle_reply, clear_hits,
}
use embedded_client.Types.{
  Rctx, CacheLine, success, timestamp_2019_03_01, tbr_unregistered, error_none, status_success,
  Plugin, time_unavailable, cache_empty,
}
use embedded_client.Beacons.Cache.{find_oldest_from, find_oldest}
use embedded_client.Common.{
  ℕ, pos, [], inr, suc, zero, inl, some, refl, negsuc, ◌∷◌, List, ℤ, ◌<◌, ◌≡◌, length, ◌⊎◌, ◌+◌,
  get_elem?, ◌≤◌, set, arith, ap, get_or, ◌≢◌, length-set, ◌==◌, ◌||◌, if◌then◌else◌, if_lem, ltb,
  subst, dec_lt,
}

get_elem?-set :
    (cls : List CacheLine) (i : ℕ) (cl : CacheLine)
    → i < length cls
    → get_elem? (set cls i cl) i ≡ some cl
get_elem?-set [] i cl lt = absurd (omega arith)
get_elem?-set (c ∷ cls) zero cl lt = refl
get_elem?-set (c ∷ cls) (suc i) cl lt = get_elem?-set cls i cl (omega arith)

get_elem?-set_other :
    (cls : List CacheLine) (i j : ℕ) (cl : CacheLine)
    → j ≢ i
    → get_elem? (set cls i cl) j ≡ get_elem? cls j
get_elem?-set_other [] i j cl other = refl
get_elem?-set_other (c ∷ cls) zero zero cl other = absurd (other refl)
get_elem?-set_other (c ∷ cls) zero (suc j) cl other = refl
get_elem?-set_other (c ∷ cls) (suc i) zero cl other = refl
get_elem?-set_other (c ∷ cls) (suc i) (suc j) cl other =
    get_elem?-set_other cls i j cl (λ e. other (ap suc e))

find_oldest_from-lt :
    (cls : List CacheLine) (i oldestc oldest n : ℕ)
    → oldestc < n
    → i + length cls ≤ n
    → find_oldest_from cls i oldestc oldest < n
unfolding find_oldest_from
find_oldest_from-lt [] i oldestc oldest n lt le = lt
find_oldest_from-lt (cl ∷ cls) i oldestc oldest n lt le = ground (
  arith,
  find_oldest_from-lt cls (i + 1) i cl.time n,
  find_oldest_from-lt cls (i + 1) oldestc oldest n,
)

-- Below `n`; a negative number asks only for a positive `n`.
abbrev Below : ℕ → ℤ → Type 0
Below n (pos i) = i < n
Below n (negsuc i) = 0 < n

-- The session has a cacheline, and an index that a search has chosen is that of one.
abbrev pub ChosenWithin : Rctx → Type 0
ChosenWithin r = Below (length r.session.cacheline) r.save_to

save_index-lt : (r : Rctx) → ChosenWithin r → save_index r < length r.session.cacheline
unfolding find_oldest
save_index-lt r h =
    ground (
      arith,
      find_oldest_from-lt r.session.cacheline 0 0 r.header.time (length r.session.cacheline),
    )

-- No cacheline has a time before `time`.
abbrev NoneBefore : List CacheLine → ℕ → Type 0
NoneBefore cls time = (j : ℕ) (cl : CacheLine) → get_elem? cls j ≡ some cl → time ≤ cl.time

NoneBefore-cons :
    (cl : CacheLine) (cls : List CacheLine) (time : ℕ)
    → time ≤ cl.time
    → NoneBefore cls time
    → NoneBefore (cl ∷ cls) time
NoneBefore-cons cl cls time le rest zero x e =
    let same : cl ≡ x = some-injective cl x e in subst (λ (y : CacheLine). time ≤ y.time) same le
NoneBefore-cons cl cls time le rest (suc j) x e = rest j x e

-- The cacheline at `m` has a time before `time`, and none has an earlier one. An empty one has time 0.
abbrev EarliestAt : List CacheLine → ℕ → ℕ → Type 0
EarliestAt cls time m =
    (cl : CacheLine) × (get_elem? cls m ≡ some cl) × (cl.time < time) × NoneBefore cls cl.time

-- The place that a scan from index `i` finds, or the one that it starts with.
abbrev Scanned : List CacheLine → ℕ → ℕ → ℕ → ℕ → Type 0
Scanned cls i oldestc oldest k =
    ((k ≡ oldestc) × NoneBefore cls oldest) ⊎ ((m : ℕ) × (k ≡ i + m) × EarliestAt cls oldest m)

Scanned-older :
    (cl : CacheLine) (cls : List CacheLine) (i oldestc oldest k : ℕ)
    → cl.time < oldest
    → Scanned cls (i + 1) i cl.time k
    → Scanned (cl ∷ cls) i oldestc oldest k
Scanned-older cl cls i oldestc oldest k lt (inl (e, none_before)) =
    inr (0, omega arith, (cl, refl, lt, NoneBefore-cons cl cls cl.time (omega arith) none_before))
Scanned-older cl cls i oldestc oldest k lt (inr (m, e, (x, here, before, none_before))) = inr (
  suc m,
  omega arith,
  (x, here, omega arith, NoneBefore-cons cl cls x.time (omega arith) none_before),
)

Scanned-rest :
    (cl : CacheLine) (cls : List CacheLine) (i oldestc oldest k : ℕ)
    → oldest ≤ cl.time
    → Scanned cls (i + 1) oldestc oldest k
    → Scanned (cl ∷ cls) i oldestc oldest k
Scanned-rest cl cls i oldestc oldest k le (inl (e, none_before)) =
    inl (e, NoneBefore-cons cl cls oldest le none_before)
Scanned-rest cl cls i oldestc oldest k le (inr (m, e, (x, here, before, none_before))) =
    inr (
      suc m,
      omega arith,
      (x, here, before, NoneBefore-cons cl cls x.time (omega arith) none_before),
    )

Scanned-empty :
    (cl : CacheLine) (cls : List CacheLine) (i oldestc oldest : ℕ)
    → 0 < oldest
    → cl.time ≡ 0
    → Scanned (cl ∷ cls) i oldestc oldest i
Scanned-empty cl cls i oldestc oldest lt e =
    inr (0, omega arith, (cl, refl, omega arith, λ j x h. omega arith))

find_oldest_from-Scanned :
    (cls : List CacheLine) (i oldestc oldest : ℕ)
    → 0 < oldest
    → Scanned cls i oldestc oldest (find_oldest_from cls i oldestc oldest)
unfolding find_oldest_from
find_oldest_from-Scanned [] i oldestc oldest lt = inl (refl, λ j x h. absurd (cc))
find_oldest_from-Scanned (cl ∷ cls) i oldestc oldest lt =
    let older = find_oldest_from cls (i + 1) i cl.time in
    let rest = find_oldest_from cls (i + 1) oldestc oldest in
    let Goal = Scanned (cl ∷ cls) i oldestc oldest in
    if_lem Goal ((oldest == time_unavailable) || (cl.time == cache_empty)) i
      (if ltb cl.time oldest then older else rest)
      (λ e. Scanned-empty cl cls i oldestc oldest lt (ground (arith, e)))
      (λ e.
        if_lem Goal (ltb cl.time oldest) older rest
          (λ b.
            Scanned-older cl cls i oldestc oldest older (ground (arith, b))
              (find_oldest_from-Scanned cls (i + 1) i cl.time (ground (arith, e))))
          (λ b.
            Scanned-rest cl cls i oldestc oldest rest (ground (arith, b))
              (find_oldest_from-Scanned cls (i + 1) oldestc oldest lt)))

-- The place that a search has chosen or, without one, that of the earliest cacheline, an empty one if
-- there is one: the first place if no cacheline is before the time of the request, and nothing is said
-- of a request without a time.
abbrev pub PlaceFor : ℤ → List CacheLine → ℕ → ℕ → Type 0
PlaceFor (pos k) lines time i = i ≡ k
PlaceFor (negsuc _) lines time i = (time ≡ 0) ⊎ Scanned lines 0 0 time i

save_index-PlaceFor :
    (z : ℤ) (r : Rctx)
    → PlaceFor z r.session.cacheline r.header.time (elim z [ pos i ↦ i | negsuc _ ↦ find_oldest r ])
unfolding find_oldest
save_index-PlaceFor (pos k) r = refl
save_index-PlaceFor (negsuc k) r = elim (dec_lt 0 r.header.time) [
  | yes lt ↦ inr (find_oldest_from-Scanned r.session.cacheline 0 0 r.header.time lt)
  | no none_set ↦ inl (omega arith)
]

-- One cacheline, at the place for the request, holds in `q` what `r` has collected, and every other
-- is as in `r`.
abbrev pub SavedIn : Rctx → ℕ → Rctx → Type 0
SavedIn r time q =
    (i : ℕ) × (cl : CacheLine) × PlaceFor r.save_to r.session.cacheline r.header.time i
    × (get_elem? q.session.cacheline i ≡ some cl)
    × (cl.beacon ≡ r.beacon)
    × (cl.num_ap ≡ r.num_ap)
    × (cl.time ≡ time)
    × (cl.gnss ≡ r.gnss)
    × (length q.session.cacheline ≡ length r.session.cacheline)
    × ((j : ℕ) → j ≢ i → get_elem? q.session.cacheline j ≡ get_elem? r.session.cacheline j)

-- A location that is late enough is saved, if the place chosen for it is there.
to_cache-SavedIn :
    (r : Rctx) (time : ℕ)
    → ChosenWithin r
    → timestamp_2019_03_01 < time
    → ((to_cache r time).1 ≡ success) × SavedIn r time (to_cache r time).0
unfolding to_cache fill_cacheline
to_cache-SavedIn r time h late =
    let lines = r.session.cacheline in
    let i = save_index r in
    let cl = fill_cacheline (get_or lines i empty_cacheline) r time in
    let saved : to_cache r time
        ≡ (set_session r (record (r.session) { cacheline = set lines i cl }), success) =
      ground arith in
    rw saved (
      refl,
      (
        i,
        cl,
        save_index-PlaceFor r.save_to r,
        get_elem?-set lines i cl (save_index-lt r h),
        refl,
        refl,
        refl,
        refl,
        length-set lines i cl,
        λ j other. get_elem?-set_other lines i j cl other,
      ),
    )

-- The basic plugins answer as `to_cache` does: the AP plugin is asked first, and the cell plugin
-- has no such operation.
sky_plugin_add_to_cache-to_cache :
    (plugins : List Plugin) (r : Rctx) (time : ℕ)
    → plugins ≡ basic_plugins
    → (to_cache r time).1 ≡ success
    → sky_plugin_add_to_cache plugins r time ≡ ((to_cache r time).0, error_none, success)
unfolding sky_plugin_add_to_cache
sky_plugin_add_to_cache-to_cache plugins r time p e = rw p (ground (arith, e))

-- The request when the reply to it has been read: with the settings it brings, and the used beacons
-- marked.
abbrev pub answered : (Rctx → Rctx) → Rctx → ServerReply → Rctx
answered mark r reply = mark (set_session r (receive_config r.session reply))

deserialize_response-success :
    (mark : Rctx → Rctx) (r : Rctx) (reply : ServerReply)
    → r.auth_state ≢ tbr_unregistered
    → reply.status ≡ status_success
    → deserialize_response mark r reply ≡ (answered mark r reply, status_success)
unfolding deserialize_response
deserialize_response-success mark r reply u e = ground (arith, u, e)

conclude-SavedIn :
    (r : Rctx) (time : ℕ)
    → r.session.plugins ≡ basic_plugins
    → ChosenWithin r
    → timestamp_2019_03_01 < time
    → let x = conclude status_success r time in
      (x.1 ≡ error_none) × (x.2 ≡ success) × SavedIn r time x.0
unfolding conclude find_oldest
conclude-SavedIn r time p h late =
    let r' = set_session r (record (r.session) { backoff = error_none }) in
    let kept = to_cache-SavedIn r' time h late in
    let saved : sky_plugin_add_to_cache r.session.plugins r' time
        ≡ ((to_cache r' time).0, error_none, success) =
      sky_plugin_add_to_cache-to_cache r.session.plugins r' time p kept.0 in
    rw saved (refl, refl, kept.1)

-- Clearing the counter changes nothing else.
clear_hits-cases :
    (r : Rctx)
    → (clear_hits r ≡ r) ⊎ (clear_hits r ≡ set_session r (record (r.session) { cache_hits = 0 }))
clear_hits-cases r = ground arith

-- If the server has found the location for a request that is registered, or needs no registration,
-- with the basic plugins, whose place in the cache is that of a cacheline or not chosen, and the time
-- of the reply is after the start of March 2019, the reply is handled without an error. Then one
-- cacheline holds the beacons of the request as the reply has marked them, its count of APs, its fix
-- and the time of the reply: the one that a search has chosen or, without a choice, one that is empty
-- or has the earliest time, if one is before the time of the request. Every other is as before.
pub handle_reply-SavedIn :
    (mark : Rctx → Rctx) (r : Rctx) (reply : ServerReply) (later : ℕ)
    → r.auth_state ≢ tbr_unregistered
    → reply.status ≡ status_success
    → (answered mark r reply).session.plugins ≡ basic_plugins
    → ChosenWithin (answered mark r reply)
    → timestamp_2019_03_01 < later
    → let x = handle_reply mark r (some reply) later in
      (x.1 ≡ error_none) × (x.2 ≡ success) × SavedIn (answered mark r reply) later x.0
unfolding handle_reply find_oldest
handle_reply-SavedIn mark r reply later u e p h late =
    let q = answered mark r reply in
    rw (deserialize_response-success mark r reply u e) (elim (clear_hits-cases q) [
      | inl same ↦ rw same (conclude-SavedIn q later p h late)
      | inr cleared ↦
          let q' = set_session q (record (q.session) { cache_hits = 0 }) in
          rw cleared (conclude-SavedIn q' later p h late)
    ])
