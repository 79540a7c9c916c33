-- ===== src/Shard/CopyCheck.antt =====
-- `ValidateShardedCopyParams` of src/core/tensor_sharded_ops.h.
use asystem_astate.Base.{
  ℕ, ◌+◌, ltb, ◌==◌, ◌&&◌, true, if◌then◌else◌, List, [], ◌∷◌, length, ◌≡◌, refl, sym, ap, ◌∙◌, ◌≤◌,
  ◌↔◌, eq→==, le→ltb, ltb→le, ==→eq, arith,
}
use asystem_astate.Shard.Types.{
  ShardedKey, ATensor, Shard, Outcome, ok, throws, fault, dims_differ, tensor_dims_differ,
  dtype_differs, shape_differs, source_exceeds, target_exceeds,
}
use asystem_astate.Shard.Rows.{Shaped}
use asystem_astate.Shard.Validate.{FitsIn, Fits, guard-ok, refusal-ok}

-- The loop from dimension `i` on: shape, offset and size of the source and of the target.
unfoldable pub check_copy :
    ℕ → List ℕ → List ℕ → List ℕ → List ℕ → List ℕ → List ℕ → Outcome {0} Unit
check_copy i (s ∷ ss) (o ∷ os) (n ∷ ns) (t ∷ ts) (p ∷ ps) (m ∷ ms) =
    let rest = check_copy (i + 1) ss os ns ts ps ms in
    if s == t
    then (if ltb s (o + n)
        then throws (source_exceeds i)
        else (if ltb t (p + m) then throws (target_exceeds i) else rest))
    else throws shape_differs
check_copy i [] os ns ts ps ms = ok tt
check_copy i (s ∷ ss) _ _ _ _ _ = fault

unfoldable pub validate_sharded_copy_params :
    ShardedKey → ATensor → ShardedKey → ATensor → Outcome {0} Unit
validate_sharded_copy_params src_key src target_key target =
    if length src_key.global_shape == length target_key.global_shape
    then (if (length src_key.global_shape == src.dim_num)
          && (length target_key.global_shape == target.dim_num)
        then (if src.dtype == target.dtype
            then check_copy 0 src_key.global_shape src_key.global_offset src.size
                target_key.global_shape target_key.global_offset target.size
            else throws dtype_differs)
        else throws tensor_dims_differ)
    else throws dims_differ

-- What the validation is for.
abbrev pub Copyable : Shard → Shard → Type 0
Copyable c t =
    (c.0.global_shape ≡ t.0.global_shape)
    × (length c.0.global_shape ≡ c.1.dim_num)
    × (length t.0.global_shape ≡ t.1.dim_num)
    × (c.1.dtype ≡ t.1.dtype)
    × Fits c
    × Fits t

-- One dimension.
check_dimension_iff :
    (i s o n t p m : ℕ) (rest : Outcome {0} Unit)
    → ((if s == t
          then (if ltb s (o + n)
              then throws (source_exceeds i)
              else (if ltb t (p + m) then throws (target_exceeds i) else rest))
          else throws shape_differs)
        ≡ ok tt)
      ↔ ((s ≡ t) × (o + n ≤ s) × (p + m ≤ t) × (rest ≡ ok tt))
check_dimension_iff i s o n t p m rest =
    (forth, λ h. rw (eq→== s t h.0, le→ltb s (o + n) h.1, le→ltb t (p + m) h.2) h.3)
  where
    forth :
        (if s == t
            then (if ltb s (o + n)
                then throws (source_exceeds i)
                else (if ltb t (p + m) then throws (target_exceeds i) else rest))
            else throws shape_differs)
          ≡ ok tt
        → (s ≡ t) × (o + n ≤ s) × (p + m ≤ t) × (rest ≡ ok tt)
    forth h =
        let f = (if ltb t (p + m) then throws (target_exceeds i) else rest) in
        let x =
          guard-ok (s == t) shape_differs (if ltb s (o + n) then throws (source_exceeds i) else f)
            tt h in
        let y = refusal-ok (ltb s (o + n)) (source_exceeds i) f tt x.1 in
        let z = refusal-ok (ltb t (p + m)) (target_exceeds i) rest tt y.1 in
        (==→eq s t x.0, ltb→le s (o + n) y.0, ltb→le t (p + m) z.0, z.1)

check_copy_iff :
    (i : ℕ) (ss os ns ts ps ms : List ℕ)
    → length os ≡ length ss
    → length ns ≡ length ss
    → length ts ≡ length ss
    → length ps ≡ length ss
    → length ms ≡ length ss
    → (check_copy i ss os ns ts ps ms ≡ ok tt) ↔ ((ss ≡ ts) × FitsIn os ns ss × FitsIn ps ms ts)
unfolding check_copy
check_copy_iff i [] [] [] [] [] [] a b c d e = (λ h. (refl, tt, tt), λ h. refl)
check_copy_iff i (s ∷ ss) (o ∷ os) (n ∷ ns) (t ∷ ts) (p ∷ ps) (m ∷ ms) a b c d e =
    let here = check_dimension_iff i s o n t p m (check_copy (i + 1) ss os ns ts ps ms) in
    let later =
      check_copy_iff (i + 1) ss os ns ts ps ms (omega (arith, a)) (omega (arith, b))
        (omega (arith, c)) (omega (arith, d)) (omega (arith, e)) in
    (
      λ h. let x = here.0 h in let r = later.0 x.3 in (cons x.0 r.0, (x.1, r.1), (x.2, r.2)),
      λ h. here.1 (ap head h.0, h.1.0, h.2.0, later.1 (ap tail h.0, h.1.1, h.2.1)),
    )
  where
    cons : s ≡ t → ss ≡ ts → s ∷ ss ≡ t ∷ ts
    cons e f = cc (e, f)

    head : List ℕ → ℕ
    head [] = 0
    head (x ∷ xs) = x

    tail : List ℕ → List ℕ
    tail [] = []
    tail (x ∷ xs) = xs
check_copy_iff i [] (o ∷ os) ns ts ps ms a b c d e = absurd (omega (arith, a))
check_copy_iff i [] [] (n ∷ ns) ts ps ms a b c d e = absurd (omega (arith, b))
check_copy_iff i [] [] [] (t ∷ ts) ps ms a b c d e = absurd (omega (arith, c))
check_copy_iff i [] [] [] [] (p ∷ ps) ms a b c d e = absurd (omega (arith, d))
check_copy_iff i [] [] [] [] [] (m ∷ ms) a b c d e = absurd (omega (arith, e))
check_copy_iff i (s ∷ ss) [] ns ts ps ms a b c d e = absurd (omega (arith, a))
check_copy_iff i (s ∷ ss) (o ∷ os) [] ts ps ms a b c d e = absurd (omega (arith, b))
check_copy_iff i (s ∷ ss) (o ∷ os) (n ∷ ns) [] ps ms a b c d e = absurd (omega (arith, c))
check_copy_iff i (s ∷ ss) (o ∷ os) (n ∷ ns) (t ∷ ts) [] ms a b c d e = absurd (omega (arith, d))
check_copy_iff i (s ∷ ss) (o ∷ os) (n ∷ ns) (t ∷ ts) (p ∷ ps) [] a b c d e =
    absurd (omega (arith, e))

-- If all vectors have one element for each dimension, the validation returns exactly where source and
-- target are shards of one shape and data type that lie in the whole tensor and whose tensors have as
-- many dimensions.
pub validate_sharded_copy_params_iff :
    (c t : Shard)
    → Shaped c.0 c.1
    → Shaped t.0 t.1
    → (validate_sharded_copy_params c.0 c.1 t.0 t.1 ≡ ok tt) ↔ Copyable c t
unfolding validate_sharded_copy_params
validate_sharded_copy_params_iff c t hc ht = (forth, back)
  where
    forth : validate_sharded_copy_params c.0 c.1 t.0 t.1 ≡ ok tt → Copyable c t
    forth h =
        let loop =
          check_copy 0 c.0.global_shape c.0.global_offset c.1.size t.0.global_shape
            t.0.global_offset t.1.size in
        let types = (if c.1.dtype == t.1.dtype then loop else throws dtype_differs) in
        let dims =
          (length c.0.global_shape == c.1.dim_num) && (length t.0.global_shape == t.1.dim_num) in
        let x =
          guard-ok (length c.0.global_shape == length t.0.global_shape) dims_differ
            (if dims then types else throws tensor_dims_differ) tt h in
        let y = guard-ok dims tensor_dims_differ types tt x.1 in
        let z = guard-ok (c.1.dtype == t.1.dtype) dtype_differs loop tt y.1 in
        let same = ==→eq (length c.0.global_shape) (length t.0.global_shape) x.0 in
        let r =
          (check_copy_iff 0 c.0.global_shape c.0.global_offset c.1.size t.0.global_shape
              t.0.global_offset t.1.size hc.0 hc.1 (sym same) (ht.0 ∙ sym same) (ht.1 ∙ sym same)).0
            z.1 in
        let d =
          both (length c.0.global_shape) c.1.dim_num (length t.0.global_shape) t.1.dim_num y.0 in
        (r.0, d.0, d.1, ==→eq c.1.dtype t.1.dtype z.0, r.1, r.2)
      where
        both : (a b c d : ℕ) → ((a == b) && (c == d)) ≡ true → (a ≡ b) × (c ≡ d)
        both a b c d h = (ground arith, ground arith)

    back : Copyable c t → validate_sharded_copy_params c.0 c.1 t.0 t.1 ≡ ok tt
    back h =
        let same = ap length h.0 in
        rw
          (
            eq→== (length c.0.global_shape) (length t.0.global_shape) same,
            eq→== (length c.0.global_shape) c.1.dim_num h.1,
            eq→== (length t.0.global_shape) t.1.dim_num h.2,
            eq→== c.1.dtype t.1.dtype h.3,
          )
          ((check_copy_iff 0 c.0.global_shape c.0.global_offset c.1.size t.0.global_shape
              t.0.global_offset t.1.size hc.0 hc.1 (sym same) (ht.0 ∙ sym same) (ht.1 ∙ sym same)).1
            (h.0, h.4, h.5))
