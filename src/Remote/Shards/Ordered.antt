-- ===== src/Remote/Shards/Ordered.antt =====
-- The operations of the search name the candidates in their order, each at most once.
use asystem_astate.Base.{
  ℕ, zero, suc, ◌+◌, ◌≤◌, ◌≡◌, refl, sym, ap, ◌∙◌, subst, Bool-cases, leb, min, max, inl, inr,
  Option, none, some, List, [], ◌∷◌, length, All, arith,
}
use asystem_astate.Shard.Types.{Shard, CopyOperation, Outcome, ok, throws, fault, ◌>>=◌}
use asystem_astate.Shard.Copy.{
  add_dimension, intersect, differences, copy_op, add_op, find_from,
  find_covering_candidates_unsafe,
}

-- Every operation names a later candidate than those before it, from `index` on, and its source offset
-- has `dims` elements.
abbrev pub Ordered : ℕ → ℕ → List CopyOperation → Type 0
Ordered dims index [] = Unit
Ordered dims index (op ∷ ops) =
    (index ≤ op.candidate_index)
    × (length op.src_offset ≡ dims)
    × Ordered dims (suc op.candidate_index) ops

Ordered-earlier :
    (dims i j : ℕ) (ops : List CopyOperation) → i ≤ j → Ordered dims j ops → Ordered dims i ops
Ordered-earlier dims i j [] l h = tt
Ordered-earlier dims i j (op ∷ ops) l (k, e, h) = (omega (arith, l, k), e, h)

length-differences :
    (xs ys : List ℕ) (n : ℕ) → length xs ≡ n → length ys ≡ n → length (differences xs ys) ≡ n
unfolding differences
length-differences [] [] n e f = e
length-differences [] (y ∷ ys) n e f = absurd (omega (arith, e, f))
length-differences (x ∷ xs) [] n e f = absurd (omega (arith, e, f))
length-differences (x ∷ xs) (y ∷ ys) zero e f = absurd (omega (arith, e))
length-differences (x ∷ xs) (y ∷ ys) (suc n) e f =
    ap suc (length-differences xs ys n (omega (arith, e)) (omega (arith, f)))

start_of : Outcome (Option (List ℕ × List ℕ)) → List ℕ
start_of (ok (some r)) = r.0
start_of _ = []

-- A region has as many dimensions as the loop goes through.
abbrev HasDims : ℕ → Outcome (Option (List ℕ × List ℕ)) → Type 0
HasDims dims r = (region : List ℕ × List ℕ) → r ≡ ok (some region) → length region.0 ≡ dims

add_dimension-HasDims :
    (dims start end : ℕ) (r : Outcome (Option (List ℕ × List ℕ)))
    → HasDims dims r
    → HasDims (suc dims) (r >>= λ r. ok (add_dimension start end r))
unfolding add_dimension start_of
add_dimension-HasDims dims start end (ok none) h region e = absurd (ground (arith, e))
add_dimension-HasDims dims start end (ok (some r)) h region e =
    ap length (sym (ap start_of e)) ∙ ap suc (h r refl)
add_dimension-HasDims dims start end (throws x) h region e = absurd (ground (arith, e))
add_dimension-HasDims dims start end fault h region e = absurd (ground (arith, e))

intersect-HasDims : (dims : ℕ) (os ns ps ms : List ℕ) → HasDims dims (intersect dims os ns ps ms)
unfolding intersect start_of
intersect-HasDims zero os ns ps ms region e = ap length (sym (ap start_of e))
intersect-HasDims (suc dims) [] ns ps ms region e = absurd (ground (arith, e))
intersect-HasDims (suc dims) (o ∷ os) [] ps ms region e = absurd (ground (arith, e))
intersect-HasDims (suc dims) (o ∷ os) (n ∷ ns) [] ms region e = absurd (ground (arith, e))
intersect-HasDims (suc dims) (o ∷ os) (n ∷ ns) (p ∷ ps) [] region e = absurd (ground (arith, e))
intersect-HasDims (suc dims) (o ∷ os) (n ∷ ns) (p ∷ ps) (m ∷ ms) region e =
    elim (Bool-cases (leb (min (o + n) (p + m)) (max o p))) [
      | inl b ↦ absurd (ground (arith, rw b at e))
      | inr b ↦
          add_dimension-HasDims dims (max o p) (min (o + n) (p + m)) (intersect dims os ns ps ms)
            (intersect-HasDims dims os ns ps ms) region (rw b at e)
    ]

add_op-Ordered :
    (dims index : ℕ) (c t : Shard) (r : Option (List ℕ × List ℕ)) (ops : List CopyOperation)
    → length c.0.global_offset ≡ dims
    → HasDims dims (ok r)
    → Ordered dims (index + 1) ops
    → Ordered dims index (add_op index c.0 t.0 r ops)
unfolding add_op copy_op
add_op-Ordered dims index c t none ops l h k =
    Ordered-earlier dims index (index + 1) ops (omega arith) k
add_op-Ordered dims index c t (some r) ops l h k = (
  omega arith,
  length-differences r.0 c.0.global_offset dims (h r refl) l,
  Ordered-earlier dims (suc index) (index + 1) ops (omega arith) k,
)

-- All offsets have `dims` elements.
abbrev pub AllOffsets : ℕ → List Shard → Type 0
AllOffsets dims = All (λ (c : Shard). length c.0.global_offset ≡ dims)

-- The result of the search, if it is one.
abbrev IfOk : {A : Type 0} → (A → Type 0) → Outcome A → Type 0
IfOk P (ok a) = P a
IfOk P _ = Unit

step-Ordered :
    (dims index : ℕ) (c t : Shard) (r : Outcome (Option (List ℕ × List ℕ)))
    (rest : Outcome (List CopyOperation))
    → length c.0.global_offset ≡ dims
    → HasDims dims r
    → IfOk (Ordered dims (index + 1)) rest
    → IfOk (Ordered dims index) (r >>= λ r. rest >>= λ ops. ok (add_op index c.0 t.0 r ops))
step-Ordered dims index c t (ok r) (ok ops) l h k = add_op-Ordered dims index c t r ops l h k
step-Ordered dims index c t (ok r) (throws e) l h k = tt
step-Ordered dims index c t (ok r) fault l h k = tt
step-Ordered dims index c t (throws e) rest l h k = tt
step-Ordered dims index c t fault rest l h k = tt

find_from-Ordered :
    (index : ℕ) (candidates : List Shard) (t : Shard)
    → AllOffsets (length t.0.global_shape) candidates
    → IfOk (Ordered (length t.0.global_shape) index) (find_from index candidates t.0 t.1)
unfolding find_from
find_from-Ordered index [] t h = tt
find_from-Ordered index (c ∷ candidates) t (l, h) =
    step-Ordered (length t.0.global_shape) index c t
      (intersect (length t.0.global_shape) c.0.global_offset c.1.size t.0.global_offset t.1.size)
      (find_from (index + 1) candidates t.0 t.1) l
      (intersect-HasDims (length t.0.global_shape) c.0.global_offset c.1.size t.0.global_offset
        t.1.size)
      (find_from-Ordered (index + 1) candidates t h)

pub find_covering_candidates_unsafe-Ordered :
    (candidates : List Shard) (t : Shard) (ops : List CopyOperation)
    → AllOffsets (length t.0.global_shape) candidates
    → find_covering_candidates_unsafe candidates t.0 t.1 ≡ ok ops
    → Ordered (length t.0.global_shape) 0 ops
unfolding find_covering_candidates_unsafe
find_covering_candidates_unsafe-Ordered candidates t ops h e =
    subst (IfOk (Ordered (length t.0.global_shape) 0)) e (find_from-Ordered 0 candidates t h)
