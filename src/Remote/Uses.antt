-- ===== src/Remote/Uses.antt =====
-- Sequences of uses of the cache.
use asystem_astate.Base.{
  ◌⊎◌, ℕ, ◌≡◌, inl, inr, refl, sym, ap, ◌∙◌, subst, Bool, true, false, not, ltb, if◌then◌else◌,
  Bool-cases, Option-cases, Option, none, some, some-injective, List, [], ◌∷◌, All, arith,
}
use asystem_astate.Shard.Types.{ShardedKey}
use asystem_astate.Remote.Prefetch.{
  Cached, Cache, find_cached, get_local_prefetch_cached_tensor, Ahead, Prefetching, begin_prefetch,
  read_next, end_prefetch, complete_cache,
}
use asystem_astate.Remote.Fresh.{
  Awaits, write-Awaits, write-IsFresh, not_ready-Awaits, set_ready-IsFresh, Awaits-AreRead, IsFresh,
  AreRead, cleared-IsFresh, find_cached-All,
}

-- What uses the cache between two calls of `Complete`: a call for a tensor, and the steps of a run of
-- `PrefetchCachedTensors`.
pub data Use : Type 0 where
  get : ShardedKey → ℕ → Use
  begins : Use
  reads : Bool → Use
  ends : Use

-- The step of a run that there is.
abbrev running : (Cache → Ahead → Prefetching) → Prefetching → Prefetching
running f s = elim s.ahead [ none ↦ s | some a ↦ f s.cache a ]

unfoldable pub use_cache : ℕ → Use → Prefetching → Prefetching × Option Cached
use_cache seq_id (get key bytes) s =
    let r = get_local_prefetch_cached_tensor key bytes s.cache in (record s { cache = r.0 }, r.1)
use_cache seq_id begins s = (begin_prefetch s, none)
use_cache seq_id (reads ok) s = (running (read_next ok seq_id) s, none)
use_cache seq_id ends s = (running end_prefetch s, none)

unfoldable pub add_returned : Option Cached → List Cached → List Cached
add_returned none rest = rest
add_returned (some entry) rest = entry ∷ rest

-- The tensors that a number of uses return.
unfoldable pub use_all : ℕ → List Use → Prefetching → List Cached
use_all seq_id [] s = []
use_all seq_id (u ∷ us) s =
    let r = use_cache seq_id u s in let rest = use_all seq_id us r.0 in add_returned r.1 rest

-- While a run is on, a call for a tensor does not put a new one into the cache.
abbrev pub IsQuiet : Use → Prefetching → Type 0
IsQuiet (get key bytes) s =
    (s.ahead ≡ none) ⊎ ((get_local_prefetch_cached_tensor key bytes s.cache).0 ≡ s.cache)
IsQuiet u s = Unit

abbrev pub AreQuiet : ℕ → List Use → Prefetching → Type 0
AreQuiet seq_id [] s = Unit
AreQuiet seq_id (u ∷ us) s = IsQuiet u s × AreQuiet seq_id us (use_cache seq_id u s).0

-- If the cache is in use, its tensors are fresh.
abbrev pub IsFreshCache : ℕ → Cache → Type 0
IsFreshCache seq_id c =
    c.enable_local_cache_prefetch ≡ true → All (IsFresh seq_id) c.local_cached_tensors

abbrev Holds : ℕ → Option Cached → Type 0
Holds seq_id r = (entry : Cached) → r ≡ some entry → entry.holds ≡ some seq_id

-- The cache is fresh, and so is a tensor that is returned.
abbrev IsFreshResult : ℕ → Cache × Option Cached → Type 0
IsFreshResult seq_id r = IsFreshCache seq_id r.0 × Holds seq_id r.1

none-IsFreshResult :
    (seq_id : ℕ) (c : Cache) → IsFreshCache seq_id c → IsFreshResult seq_id (c, none)
none-IsFreshResult seq_id c h = (h, λ entry e. absurd (ground (arith, e)))

if-IsFreshResult :
    (seq_id : ℕ) (b : Bool) (x y : Cache × Option Cached)
    → (b ≡ true → IsFreshResult seq_id x)
    → (b ≡ false → IsFreshResult seq_id y)
    → IsFreshResult seq_id (if b then x else y)
if-IsFreshResult seq_id true x y f g = f refl
if-IsFreshResult seq_id false x y f g = g refl

ready-Holds :
    (seq_id : ℕ) (found : Cached)
    → IsFresh seq_id found
    → Holds seq_id (if found.ready then some found else none)
ready-Holds seq_id found fresh entry e = elim (Bool-cases found.ready) [
  | inl r ↦
      subst (λ (x : Cached). x.holds ≡ some seq_id) (some-injective _ _ (found_entry r)) (fresh r)
  | inr n ↦ absurd (ground (arith, rw n at e))
]
  where
    found_entry : found.ready ≡ true → some found ≡ some entry
    found_entry r = sym (ap (λ b. if b then some found else none) r) ∙ e

get-IsFreshCache :
    (seq_id : ℕ) (key : ShardedKey) (bytes : ℕ) (c : Cache)
    → IsFreshCache seq_id c
    → IsFreshResult seq_id (get_local_prefetch_cached_tensor key bytes c)
unfolding get_local_prefetch_cached_tensor
get-IsFreshCache seq_id key bytes c h =
    if-IsFreshResult seq_id (not c.enable_local_cache_prefetch) _ _
      (λ off. none-IsFreshResult seq_id c h)
      (λ on. elim (Option-cases (find_cached key c.local_cached_tensors)) [
        | inr (found, f) ↦ rw f (
          h,
          ready-Holds seq_id found (
              find_cached-All (IsFresh seq_id) key c.local_cached_tensors found
                (h (ground (arith, on))) f),
        )
        | inl f ↦ rw f (
            if-IsFreshResult seq_id
              (ltb c.local_cached_tensors_size c.local_cached_tensors_size_limit) _ _
              (λ small. (
                λ in_use. (λ r. absurd (ground (arith, r)), h in_use),
                λ entry e. absurd (ground (arith, e)),
              ))
              (λ full. none-IsFreshResult seq_id c h))
      ])

-- A run that has not failed will write what is not read yet.
abbrev IsAwaited : ℕ → Cache → Option Ahead → Type 0
IsAwaited seq_id c none = Unit
IsAwaited seq_id c (some (keys, good)) =
    good ≡ true
    → c.enable_local_cache_prefetch ≡ true
    → All (Awaits seq_id keys) c.local_cached_tensors

abbrev IsSafe : ℕ → Prefetching → Type 0
IsSafe seq_id s = IsFreshCache seq_id s.cache × IsAwaited seq_id s.cache s.ahead

begin-IsSafe : (seq_id : ℕ) (s : Prefetching) → IsSafe seq_id s → IsSafe seq_id (begin_prefetch s)
unfolding begin_prefetch
begin-IsSafe seq_id s h = go s.ahead h.1
  where
    go :
        (a : Option Ahead)
        → IsAwaited seq_id s.cache a
        → IsSafe seq_id (begin_prefetch (record s { ahead = a }))
    go none w = (h.0, λ _ on. not_ready-Awaits seq_id s.cache.local_cached_tensors (h.0 on))
    go (some a) w = (h.0, w)

read-IsSafe :
    (ok : Bool) (seq_id : ℕ) (c : Cache) (keys : List ShardedKey) (good : Bool)
    → IsFreshCache seq_id c
    → IsAwaited seq_id c (some (keys, good))
    → IsSafe seq_id (read_next ok seq_id c (keys, good))
unfolding read_next
read-IsSafe ok seq_id c [] good h w = (h, w)
read-IsSafe true seq_id c (key ∷ keys) good h w = (
  λ on. write-IsFresh seq_id key c.local_cached_tensors (h on),
  λ g on. write-Awaits seq_id key keys c.local_cached_tensors (w g on),
)
read-IsSafe false seq_id c (key ∷ keys) good h w = (h, λ g on. absurd (ground (arith, g)))

end-IsSafe :
    (seq_id : ℕ) (c : Cache) (keys : List ShardedKey) (good : Bool)
    → IsFreshCache seq_id c
    → IsAwaited seq_id c (some (keys, good))
    → IsSafe seq_id (end_prefetch c (keys, good))
unfolding end_prefetch
end-IsSafe seq_id c (key ∷ keys) good h w = (h, w)
end-IsSafe seq_id c [] true h w = (
  λ on.
      set_ready-IsFresh seq_id c.local_cached_tensors
        (Awaits-AreRead seq_id c.local_cached_tensors (w refl on)),
  tt,
)
end-IsSafe seq_id c [] false h w = (h, tt)

running-IsSafe :
    (f : Cache → Ahead → Prefetching) (seq_id : ℕ) (s : Prefetching)
    → ((c : Cache) (keys : List ShardedKey) (good : Bool)
        → IsFreshCache seq_id c
        → IsAwaited seq_id c (some (keys, good))
        → IsSafe seq_id (f c (keys, good)))
    → IsSafe seq_id s
    → IsSafe seq_id (running f s)
running-IsSafe f seq_id s safe h = go s.ahead h.1
  where
    go :
        (a : Option Ahead)
        → IsAwaited seq_id s.cache a
        → IsSafe seq_id (running f (record s { ahead = a }))
    go none w = (h.0, w)
    go (some (keys, good)) w = safe s.cache keys good h.0 w

Holds-none : (seq_id : ℕ) → Holds seq_id none
Holds-none seq_id entry e = absurd (ground (arith, e))

get-IsSafe :
    (seq_id : ℕ) (key : ShardedKey) (bytes : ℕ) (s : Prefetching)
    → IsQuiet (get key bytes) s
    → IsSafe seq_id s
    → IsSafe seq_id (record s { cache = (get_local_prefetch_cached_tensor key bytes s.cache).0 })
get-IsSafe seq_id key bytes s q h = (
  (get-IsFreshCache seq_id key bytes s.cache h.0).0,
  elim q [
    | inl none_on ↦
        subst (IsAwaited seq_id (get_local_prefetch_cached_tensor key bytes s.cache).0)
          (sym none_on) tt
    | inr same ↦ subst (λ c. IsAwaited seq_id c s.ahead) (sym same) h.1
  ],
)

use-IsSafe :
    (seq_id : ℕ) (u : Use) (s : Prefetching)
    → IsQuiet u s
    → IsSafe seq_id s
    → IsSafe seq_id (use_cache seq_id u s).0 × Holds seq_id (use_cache seq_id u s).1
unfolding use_cache
use-IsSafe seq_id (get key bytes) s q h =
    (get-IsSafe seq_id key bytes s q h, (get-IsFreshCache seq_id key bytes s.cache h.0).1)
use-IsSafe seq_id begins s q h = (begin-IsSafe seq_id s h, Holds-none seq_id)
use-IsSafe seq_id (reads ok) s q h =
    (running-IsSafe (read_next ok seq_id) seq_id s (read-IsSafe ok seq_id) h, Holds-none seq_id)
use-IsSafe seq_id ends s q h =
    (running-IsSafe end_prefetch seq_id s (end-IsSafe seq_id) h, Holds-none seq_id)

returned-AreRead :
    (seq_id : ℕ) (r : Option Cached) (rest : List Cached)
    → Holds seq_id r
    → AreRead seq_id rest
    → AreRead seq_id (add_returned r rest)
unfolding add_returned
returned-AreRead seq_id none rest h all = all
returned-AreRead seq_id (some entry) rest h all = (h entry refl, all)

use_all-AreRead :
    (seq_id : ℕ) (us : List Use) (s : Prefetching)
    → AreQuiet seq_id us s
    → IsSafe seq_id s
    → AreRead seq_id (use_all seq_id us s)
unfolding use_all
use_all-AreRead seq_id [] s q h = tt
use_all-AreRead seq_id (u ∷ us) s (q, qs) h =
    let (kept, holds) = use-IsSafe seq_id u s q h in
    returned-AreRead seq_id (use_cache seq_id u s).1 (use_all seq_id us (use_cache seq_id u s).0)
      holds (use_all-AreRead seq_id us (use_cache seq_id u s).0 qs kept)

complete-IsFreshCache : (seq_id : ℕ) (c : Cache) → IsFreshCache seq_id (complete_cache c)
unfolding complete_cache
complete-IsFreshCache seq_id c = elim (Bool-cases c.enable_local_cache_prefetch) [
  | inl on ↦ rw on (λ e. cleared-IsFresh seq_id c.local_cached_tensors)
  | inr off ↦ rw off (λ e. absurd (ground (arith, e, off)))
]

-- The cache after `Complete`, with no run of `PrefetchCachedTensors`.
abbrev pub completed : Cache → Prefetching
completed c = record { cache = complete_cache c; ahead = none }

-- After Complete, take any sequence of calls for a cached tensor and of steps of
-- PrefetchCachedTensors (its two sections under the lock and the reading of one tensor between
-- them, whichever readings fail), for one sequence id and with one run at a time, in which no call
-- puts a new tensor into the cache while a run is on. It returns only cached tensors that were last
-- read as a whole under that sequence id.
pub complete-AreRead :
    (seq_id : ℕ) (us : List Use) (c : Cache)
    → AreQuiet seq_id us (completed c)
    → AreRead seq_id (use_all seq_id us (completed c))
complete-AreRead seq_id us c q =
    use_all-AreRead seq_id us (completed c) q (complete-IsFreshCache seq_id c, tt)
