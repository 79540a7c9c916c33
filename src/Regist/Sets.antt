-- ===== src/Regist/Sets.antt =====
-- What an insertion that does not fault does to a valid set, whatever its height fields say.
use asystem_astate.Base.{
  ◌+◌, ◌≡◌, refl, sym, ◌∙◌, Bool, true, false, not, subst, if◌then◌else◌, Option, none, some,
  some-injective, ◌>>=◌, arith, ℤ, pos, is_zero,
}
use asystem_astate.MrSet.Node.{Region, AvlNode}
use asystem_astate.MrSet.Tree.{avl_insert}
use asystem_astate.MrSet.Api.{MrSet, mr_set_insert}
use asystem_astate.MrSet.Sorted.{IsRegion, collides, insert_sorted}
use asystem_astate.MrSet.Laws.{insert_sorted-IsSorted, length-insert_sorted}
use asystem_astate.MrSet.Insert.{Inserts, insert-Inserts}
use asystem_astate.MrSet.Insert.NoMemory.{Refuses, avl_insert-Refuses}
use asystem_astate.MrSet.Refine.{IsValid, contents}

-- The set and the code after an insertion of `x`.
pub record IsInsertion (s : MrSet) (x : Region) (s' : MrSet) (code : ℤ) : Type 0 where
  pub valid : IsValid s'
  pub flag : is_zero code ≡ not (collides x (contents s))
  pub result :
      contents s' ≡ (if collides x (contents s) then contents s else insert_sorted x (contents s))

-- The set and the code, from the tree and the flag of `avl_insert`.
abbrev coded : MrSet → AvlNode × Bool → MrSet × ℤ
coded s (t, true) = (record s { root = t }, pos 1)
coded s (t, false) = (record { root = t; size = s.size + 1 }, pos 0)

insertion :
    (s : MrSet) (x : Region)
    → IsValid s
    → IsRegion x
    → (o : Option (AvlNode × Bool)) → Inserts x s.root o
    → (s' : MrSet) (code : ℤ) → (do r ← o; some (coded s r)) ≡ some (s', code)
    → IsInsertion s x s' code
insertion s x v r none i s' code e = absurd (cc e)
insertion s x v r (some (t, true)) i s' code e =
    subst (λ (p : MrSet × ℤ). IsInsertion s x p.0 p.1) (some-injective _ _ e)
      (record {
        valid = record {
          sorted = rw (i.1, sym i.0) v.sorted;
          counted = rw (i.1, sym i.0) v.counted;
        };
        flag = rw (sym i.0) refl;
        result = i.1;
      })
insertion s x v r (some (t, false)) i s' code e =
    subst (λ (p : MrSet × ℤ). IsInsertion s x p.0 p.1) (some-injective _ _ e)
      (record {
        valid = record {
          sorted = rw (i.1, sym i.0) (insert_sorted-IsSorted x (contents s) r v.sorted (sym i.0));
          counted = rw (i.1, sym i.0, length-insert_sorted, v.counted) refl;
        };
        flag = rw (sym i.0) refl;
        result = i.1;
      })

insert-IsInsertion :
    (s : MrSet) (x : Region) (s' : MrSet) (code : ℤ)
    → IsValid s
    → IsRegion x
    → mr_set_insert true s x.addr x.len x.value ≡ some (s', code)
    → IsInsertion s x s' code
unfolding mr_set_insert
insert-IsInsertion s x s' code v r e =
    insertion s x v r (avl_insert true s.root x false) (insert-Inserts s.root x r v.sorted) s' code
      (sym (ground (arith, r.not_empty, r.has_item)) ∙ e)

-- Where `malloc` fails.
refusal :
    (s : MrSet)
    → IsValid s
    → (o : Option (AvlNode × Bool)) → Refuses s.root o
    → (s' : MrSet) (code : ℤ) → (do r ← o; some (coded s r)) ≡ some (s', code)
    → IsValid s'
refusal s v none i s' code e = absurd (cc e)
refusal s v (some (t, true)) i s' code e =
    subst (λ (p : MrSet × ℤ). IsValid p.0) (some-injective _ _ e)
      (record { sorted = rw i.1 v.sorted; counted = rw i.1 v.counted })
refusal s v (some (t, false)) i s' code e = absurd (ground (arith, i.0))

-- Whatever the height fields and `malloc` say, an insertion that does not fault leaves a valid set.
pub insert-IsValid :
    (malloc : Bool) (s : MrSet) (x : Region) (s' : MrSet) (code : ℤ)
    → IsValid s
    → IsRegion x
    → mr_set_insert malloc s x.addr x.len x.value ≡ some (s', code)
    → IsValid s'
unfolding mr_set_insert
insert-IsValid true s x s' code v r e = (insert-IsInsertion s x s' code v r e).valid
insert-IsValid false s x s' code v r e =
    refusal s v (avl_insert false s.root x false) (avl_insert-Refuses s.root x) s' code
      (sym (ground (arith, r.not_empty, r.has_item)) ∙ e)
