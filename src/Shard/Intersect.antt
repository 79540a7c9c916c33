-- ===== src/Shard/Intersect.antt =====
-- The intersection of two blocks, in `FindCoveringCandidatesUnsafe` and in
-- `CopyTensorWithShardedKeysUnsafe`.
use asystem_astate.Base.{
  ℕ, zero, suc, ◌+◌, ◌-◌, ◌≤◌, ◌<◌, leb, max, min, List, [], ◌∷◌, length, Option, none, some, ◌≡◌,
  refl, inl, inr, ◌↔◌, Bool-cases, leb→le, leb→lt, arith,
}
use asystem_astate.Shard.Types.{Outcome, ok, throws, fault, ◌>>=◌}
use asystem_astate.Shard.Copy.{add_dimension, intersect, differences, add_region, copy_region}
use asystem_astate.Shard.Blocks.{InBlock}

-- Elementwise sum.
abbrev pub sums : List ℕ → List ℕ → List ℕ
sums (x ∷ xs) (y ∷ ys) = (x + y) ∷ sums xs ys
sums _ _ = []

-- What the intersection of two blocks has to be.
abbrev pub Intersects : List ℕ → List ℕ → List ℕ → List ℕ → Option (List ℕ × List ℕ) → Type 0
Intersects os ns ps ms none = (coords : List ℕ) → InBlock coords os ns → InBlock coords ps ms → ⊥
Intersects os ns ps ms (some (start, end)) =
    (sums os (differences start os) ≡ start)
    × (sums ps (differences start ps) ≡ start)
    × ((coords : List ℕ)
        → InBlock coords start (differences end start)
          ↔ (InBlock coords os ns × InBlock coords ps ms))

pub intersect-Intersects :
    (dims : ℕ) (os ns ps ms : List ℕ)
    → length os ≡ dims
    → length ns ≡ dims
    → length ps ≡ dims
    → length ms ≡ dims
    → (r : Option (List ℕ × List ℕ)) × (intersect dims os ns ps ms ≡ ok r)
      × Intersects os ns ps ms r
unfolding intersect differences
intersect-Intersects zero [] [] [] [] a b c d = (some ([], []), refl, (refl, refl, point))
  where
    point : (coords : List ℕ) → InBlock coords [] [] ↔ (InBlock coords [] [] × InBlock coords [] [])
    point coords = (λ h. (h, h), λ h. h.0)
intersect-Intersects zero (o ∷ os) ns ps ms a b c d = absurd (omega (arith, a))
intersect-Intersects zero [] (n ∷ ns) ps ms a b c d = absurd (omega (arith, b))
intersect-Intersects zero [] [] (p ∷ ps) ms a b c d = absurd (omega (arith, c))
intersect-Intersects zero [] [] [] (m ∷ ms) a b c d = absurd (omega (arith, d))
intersect-Intersects (suc dims) [] ns ps ms a b c d = absurd (omega (arith, a))
intersect-Intersects (suc dims) (o ∷ os) [] ps ms a b c d = absurd (omega (arith, b))
intersect-Intersects (suc dims) (o ∷ os) (n ∷ ns) [] ms a b c d = absurd (omega (arith, c))
intersect-Intersects (suc dims) (o ∷ os) (n ∷ ns) (p ∷ ps) [] a b c d = absurd (omega (arith, d))
intersect-Intersects (suc dims) (o ∷ os) (n ∷ ns) (p ∷ ps) (m ∷ ms) a b c d =
    elim (Bool-cases (leb (min (o + n) (p + m)) (max o p))) [
      | inl e ↦ rw e (none, refl, apart (leb→le (min (o + n) (p + m)) (max o p) e))
      | inr e ↦
          let (r, e', f) =
            intersect-Intersects dims os ns ps ms (omega (arith, a)) (omega (arith, b))
              (omega (arith, c)) (omega (arith, d)) in
          rw (e, e')
            (
              add_dimension (max o p) (min (o + n) (p + m)) r,
              refl,
              extend r (leb→lt (min (o + n) (p + m)) (max o p) e) f,
            )
    ]
  where
    apart :
        min (o + n) (p + m) ≤ max o p
        → (coords : List ℕ) → InBlock coords (o ∷ os) (n ∷ ns)
        → InBlock coords (p ∷ ps) (m ∷ ms)
        → ⊥
    apart l [] h k = h
    apart l (c ∷ cs) h k = omega (arith, l, h.0, h.1, k.0, k.1)

    extend :
        (r : Option (List ℕ × List ℕ))
        → max o p < min (o + n) (p + m)
        → Intersects os ns ps ms r
        → Intersects
            (o ∷ os)
            (n ∷ ns)
            (p ∷ ps)
            (m ∷ ms)
            (add_dimension (max o p) (min (o + n) (p + m)) r)
    extend none l f = later
      where
        later :
            (coords : List ℕ)
            → InBlock coords (o ∷ os) (n ∷ ns)
            → InBlock coords (p ∷ ps) (m ∷ ms)
            → ⊥
        later [] h k = h
        later (c ∷ cs) h k = f cs h.2 k.2
    extend (some (start, end)) l f = (
      cc (back (max o p) o (omega arith), f.0),
      cc (back (max o p) p (omega arith), f.1),
      λ coords. (into coords, out coords),
    )
      where
        back : (x y : ℕ) → y ≤ x → y + (x - y) ≡ x
        back x y l = omega (arith, l)

        into :
            (coords : List ℕ)
            → InBlock coords
                (max o p ∷ start)
                (differences (min (o + n) (p + m) ∷ end) (max o p ∷ start))
            → InBlock coords (o ∷ os) (n ∷ ns) × InBlock coords (p ∷ ps) (m ∷ ms)
        into [] h = absurd h
        into (c ∷ cs) h =
            let r = (f.2 cs).0 h.2 in
            (
              (omega (arith, h.0), omega (arith, h.1), r.0),
              (omega (arith, h.0), omega (arith, h.1), r.1),
            )

        out :
            (coords : List ℕ)
            → InBlock coords (o ∷ os) (n ∷ ns) × InBlock coords (p ∷ ps) (m ∷ ms)
            → InBlock coords
                (max o p ∷ start)
                (differences (min (o + n) (p + m) ∷ end) (max o p ∷ start))
        out [] h = absurd h.0
        out (c ∷ cs) h =
            (omega (arith, h.0.0, h.1.0), omega (arith, h.0.1, h.1.1, l), (f.2 cs).1 (h.0.2, h.1.2))

-- The region of an intersection, as three vectors.
abbrev pub region_of :
    List ℕ → List ℕ → Option (List ℕ × List ℕ) → Option (List ℕ × List ℕ × List ℕ)
region_of os ps none = none
region_of os ps (some (start, end)) =
    some (differences start os, differences start ps, differences end start)

abbrev pub map_region :
    List ℕ
    → List ℕ
    → Outcome (Option (List ℕ × List ℕ))
    → Outcome (Option (List ℕ × List ℕ × List ℕ))
map_region os ps (ok r) = ok (region_of os ps r)
map_region os ps (throws e) = throws e
map_region os ps fault = fault

-- The two loops that intersect a candidate with the target agree on every input, also where they
-- stop early or read past a vector.
pub copy_region-eq-intersect :
    (dims : ℕ) (os ns ps ms : List ℕ)
    → copy_region dims os ns ps ms ≡ map_region os ps (intersect dims os ns ps ms)
unfolding copy_region intersect differences
copy_region-eq-intersect zero os ns ps ms = refl
copy_region-eq-intersect (suc dims) [] ns ps ms = refl
copy_region-eq-intersect (suc dims) (o ∷ os) [] ps ms = refl
copy_region-eq-intersect (suc dims) (o ∷ os) (n ∷ ns) [] ms = refl
copy_region-eq-intersect (suc dims) (o ∷ os) (n ∷ ns) (p ∷ ps) [] = refl
copy_region-eq-intersect (suc dims) (o ∷ os) (n ∷ ns) (p ∷ ps) (m ∷ ms) =
    elim (Bool-cases (leb (min (o + n) (p + m)) (max o p))) [
      | inl e ↦ rw e refl
      | inr e ↦
          rw (e, copy_region-eq-intersect dims os ns ps ms) (step (intersect dims os ns ps ms))
    ]
  where
    step :
        (r : Outcome (Option (List ℕ × List ℕ)))
        → (map_region os ps r >>= λ r.
            ok (add_region (max o p - o) (max o p - p) (min (o + n) (p + m) - max o p) r))
          ≡ map_region
              (o ∷ os)
              (p ∷ ps)
              (r >>= λ r. ok (add_dimension (max o p) (min (o + n) (p + m)) r))
    step (ok none) = refl
    step (ok (some r)) = refl
    step (throws e) = refl
    step fault = refl
