-- ===== src/Shard/Validate.antt =====
-- `ValidateCandidateFilterParams`: what it establishes when it returns.
use asystem_astate.Base.{
  ℕ, ◌+◌, ◌≤◌, Bool, true, false, ltb, ◌==◌, if◌then◌else◌, List, [], ◌∷◌, length, ◌≡◌, refl,
  ltb→le, ==→eq, All, arith,
}
use asystem_astate.Shard.Types.{
  ShardedKey, ATensor, Shard, Error, Outcome, ok, throws, fault, ◌>>◌, target_dims, target_exceeds,
  candidate_dims, candidate_dtype, candidate_shape,
}
use asystem_astate.Shard.Cover.{check_candidates_coverage}
use asystem_astate.Shard.Find.{
  check_target_size, check_same_shape, check_candidate, check_candidates,
  validate_candidate_filter_params,
}
use asystem_astate.Shard.Rows.{Shaped}

-- The block at the offset lies in the whole tensor.
abbrev pub FitsIn : List ℕ → List ℕ → List ℕ → Type 0
FitsIn [] [] [] = Unit
FitsIn (o ∷ os) (n ∷ ns) (s ∷ ss) = (o + n ≤ s) × FitsIn os ns ss
FitsIn _ _ _ = ⊥

abbrev pub Fits : Shard → Type 0
Fits c = FitsIn c.0.global_offset c.1.size c.0.global_shape

-- Sequences that return.
pub andthen-ok :
    {B : Type 0} (a : Outcome {0} Unit) (b : Outcome B) (x : B)
    → (a >> b) ≡ ok x
    → (a ≡ ok tt) × (b ≡ ok x)
andthen-ok (ok tt) b x e = (refl, e)
andthen-ok (throws r) b x e = absurd (ground (arith, e))
andthen-ok fault b x e = absurd (ground (arith, e))

pub guard-ok :
    {B : Type 0} (t : Bool) (r : Error) (b : Outcome B) (x : B)
    → (if t then b else throws r) ≡ ok x
    → (t ≡ true) × (b ≡ ok x)
guard-ok true r b x e = (refl, e)
guard-ok false r b x e = absurd (ground (arith, e))

pub refusal-ok :
    {B : Type 0} (t : Bool) (r : Error) (b : Outcome B) (x : B)
    → (if t then throws r else b) ≡ ok x
    → (t ≡ false) × (b ≡ ok x)
refusal-ok false r b x e = (refl, e)
refusal-ok true r b x e = absurd (ground (arith, e))

-- A target that passes the test lies in the whole tensor.
check_target_size-FitsIn :
    (i : ℕ) (ss os ns : List ℕ)
    → length os ≡ length ss
    → length ns ≡ length ss
    → check_target_size i ss os ns ≡ ok tt
    → FitsIn os ns ss
unfolding check_target_size
check_target_size-FitsIn i [] [] [] a b e = tt
check_target_size-FitsIn i [] [] (n ∷ ns) a b e = absurd (omega (arith, b))
check_target_size-FitsIn i [] (o ∷ os) ns a b e = absurd (omega (arith, a))
check_target_size-FitsIn i (s ∷ ss) [] ns a b e = absurd (omega (arith, a))
check_target_size-FitsIn i (s ∷ ss) (o ∷ os) [] a b e = absurd (omega (arith, b))
check_target_size-FitsIn i (s ∷ ss) (o ∷ os) (n ∷ ns) a b e =
    let r =
      refusal-ok (ltb s (o + n)) (target_exceeds i) (check_target_size (i + 1) ss os ns) tt e in
    (
      ltb→le s (o + n) r.0,
      check_target_size-FitsIn (i + 1) ss os ns (omega (arith, a)) (omega (arith, b)) r.1,
    )

check_same_shape-eq :
    (cs ss : List ℕ) → length cs ≡ length ss → check_same_shape cs ss ≡ ok tt → cs ≡ ss
unfolding check_same_shape
check_same_shape-eq [] [] l e = refl
check_same_shape-eq [] (s ∷ ss) l e = absurd (omega (arith, l))
check_same_shape-eq (c ∷ cs) [] l e = absurd (omega (arith, l))
check_same_shape-eq (c ∷ cs) (s ∷ ss) l e =
    let r = guard-ok (c == s) candidate_shape (check_same_shape cs ss) tt e in
    cc (==→eq c s r.0, check_same_shape-eq cs ss (omega (arith, l)) r.1)

check_candidate-eq :
    (c : Shard) (target : ShardedKey) (tensor : ATensor)
    → check_candidate c target tensor ≡ ok tt
    → c.0.global_shape ≡ target.global_shape
unfolding check_candidate
check_candidate-eq c target tensor e =
    let same = check_same_shape c.0.global_shape target.global_shape in
    let r =
      guard-ok (length c.0.global_shape == length target.global_shape) candidate_dims
        (if c.1.dtype == tensor.dtype then same else throws candidate_dtype) tt e in
    let q = guard-ok (c.1.dtype == tensor.dtype) candidate_dtype same tt r.1 in
    check_same_shape-eq c.0.global_shape target.global_shape
      (==→eq (length c.0.global_shape) (length target.global_shape) r.0) q.1

check_candidates-All :
    (candidates : List Shard) (target : ShardedKey) (tensor : ATensor)
    → check_candidates candidates target tensor ≡ ok tt
    → All (λ (c : Shard). c.0.global_shape ≡ target.global_shape) candidates
unfolding check_candidates
check_candidates-All [] target tensor e = tt
check_candidates-All (c ∷ candidates) target tensor e =
    let r =
      andthen-ok (check_candidate c target tensor) (check_candidates candidates target tensor) tt
        e in
    (check_candidate-eq c target tensor r.0, check_candidates-All candidates target tensor r.1)

-- What the validation establishes.
pub validate-Checked :
    (candidates : List Shard) (target : ShardedKey) (tensor : ATensor)
    → Shaped target tensor
    → validate_candidate_filter_params candidates target tensor ≡ ok tt
    → FitsIn target.global_offset tensor.size target.global_shape
      × All (λ (c : Shard). c.0.global_shape ≡ target.global_shape) candidates
      × (check_candidates_coverage candidates target tensor ≡ ok tt)
unfolding validate_candidate_filter_params
validate-Checked [] target tensor h e = absurd (ground (arith, e))
validate-Checked (c ∷ candidates) target tensor h e =
    let cover = check_candidates_coverage (c ∷ candidates) target tensor in
    let checks = check_candidates (c ∷ candidates) target tensor in
    let sizes = check_target_size 0 target.global_shape target.global_offset tensor.size in
    let r =
      guard-ok (length target.global_shape == tensor.dim_num) target_dims
        (sizes >> (checks >> cover)) tt e in
    let q = andthen-ok sizes (checks >> cover) tt r.1 in
    let p = andthen-ok checks cover tt q.1 in
    (
      check_target_size-FitsIn 0 target.global_shape target.global_offset tensor.size h.0 h.1 q.0,
      check_candidates-All (c ∷ candidates) target tensor p.0,
      p.1,
    )
