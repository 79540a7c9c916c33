-- ===== src/MrSet/Refine.antt =====
-- The set as its callers see it: each function of utrans_mr_set.c against an operation on the sorted
-- list of regions.
use asystem_astate.Base.{
  ℕ, ◌+◌, ◌-◌, ◌^◌, ◌<◌, ◌≡◌, refl, sym, ◌∙◌, true, false, Option, none, some, List, ◌∷◌, length,
  length-append, map, if◌then◌else◌, arith, pos, inl, inr, Bool-cases, map-append,
}
use asystem_astate.MrSet.Node.{Region, AvlNode, null, node}
use asystem_astate.MrSet.Tree.{avl_scan}
use asystem_astate.MrSet.Api.{MrSet, mr_set_insert, mr_set_find, mr_set_remove, mr_set_getall}
use asystem_astate.MrSet.Sorted.{
  regions, IsRegion, IsSorted, collides, insert_sorted, containing, erase,
}
use asystem_astate.MrSet.Insert.Fresh.{avl_insert_fresh}
use asystem_astate.MrSet.Insert.Balanced.{IsAvl}
use asystem_astate.MrSet.Insert.NoMemory.{avl_insert_no_memory}
use asystem_astate.MrSet.Insert.Avl.{avl_insert_balanced}
use asystem_astate.MrSet.Find.{find-eq-containing}
use asystem_astate.MrSet.Remove.{delete_node-Deletes}
use asystem_astate.MrSet.Laws.{
  insert_sorted-IsSorted, erase-IsSorted, length-insert_sorted, length-erase, item_at-containing,
  All-containing, IsSorted-regions,
}

-- The regions are in order and disjoint, and the size counts them. The height fields are free.
pub record IsValid (s : MrSet) : Type 0 where
  pub sorted : IsSorted (regions s.root)
  pub counted : s.size ≡ length (regions s.root)

abbrev pub contents : MrSet → List Region
contents s = regions s.root

-- The item of a region, or NULL.
abbrev pub item_of : Option Region → ℕ
item_of none = 0
item_of (some x) = x.value

-- Removal by a range: nothing, or the region that contains it.
abbrev pub without : Option Region → List Region → List Region
without none ys = ys
without (some x) ys = erase x.addr ys

module _ (s : MrSet) (valid : IsValid s) (x : Region) (region : IsRegion x) where
  -- Where malloc succeeds, a region that is not empty, does not wrap, has an item that is not NULL
  -- and collides with none is inserted into a valid set without a fault, whatever the height fields
  -- say: the call returns 0, and the set stays valid and holds the region in its place.
  pub mr_set_insert_fresh :
      collides x (contents s) ≡ false
      → (s' : MrSet) × (mr_set_insert true s x.addr x.len x.value ≡ some (s', pos 0))
        × IsValid s'
        × (contents s' ≡ insert_sorted x (contents s))
  unfolding mr_set_insert
  mr_set_insert_fresh c =
      let (t, e, k) = avl_insert_fresh s.root x region valid.sorted c in
      (
        record { root = t; size = s.size + 1 },
        ground (arith, e, region.not_empty, region.has_item),
        record {
          sorted = rw k (insert_sorted-IsSorted x (contents s) region valid.sorted c);
          counted = rw (k, length-insert_sorted, valid.counted);
        },
        k,
      )

  -- In a valid set whose tree is an AVL tree, and where malloc succeeds, the insertion of a region
  -- that is not empty, does not wrap and has an item that is not NULL never faults. It returns 1
  -- and changes nothing exactly if the region collides with one of the set, and otherwise returns 0
  -- and adds it in its place; the set stays valid and the tree an AVL tree.
  pub mr_set_insert_balanced :
      IsAvl s.root
      → (s' : MrSet) × (mr_set_insert true s x.addr x.len x.value
          ≡ some (s', (if collides x (contents s) then pos 1 else pos 0)))
        × IsValid s'
        × IsAvl s'.root
        × (collides x (contents s) ≡ true → s' ≡ s)
        × (collides x (contents s) ≡ false → contents s' ≡ insert_sorted x (contents s))
  unfolding mr_set_insert
  mr_set_insert_balanced v =
      let (t, e, w, same, new) = avl_insert_balanced s.root x region valid.sorted v in
      elim (Bool-cases (collides x (contents s))) [
        | inl c ↦ (
          s,
          ground (arith, e, same c, region.not_empty, region.has_item),
          valid,
          v,
          λ _. refl,
          λ n. absurd (cc (c, n)),
        )
        | inr c ↦
            let s' : MrSet = record { root = t; size = s.size + 1 } in
            (
              s',
              ground (arith, e, region.not_empty, region.has_item),
              record {
                sorted = rw (new c) (insert_sorted-IsSorted x (contents s) region valid.sorted c);
                counted = rw (new c, length-insert_sorted, valid.counted);
              },
              w,
              λ n. absurd (cc (c, n)),
              new,
            )
      ]

-- In an AVL tree, an insertion for which `malloc` fails changes nothing and returns 1.
pub mr_set_insert_no_memory :
    (s : MrSet) (x : Region)
    → IsRegion x
    → IsAvl s.root
    → mr_set_insert false s x.addr x.len x.value ≡ some (s, pos 1)
unfolding mr_set_insert
mr_set_insert_no_memory s x region v =
    ground (arith, avl_insert_no_memory s.root x v, region.not_empty, region.has_item)

module _ (s : MrSet) (valid : IsValid s) (addr len : ℕ) (some_len : 0 < len)
    (fits : addr + len < 2 ^ 64) where
  -- Finding a range in a valid set returns the item of the region that contains all of it, and NULL
  -- if there is none, a range that only overlaps a region included.
  pub mr_set_find-eq : mr_set_find s addr len ≡ item_of (containing addr len (contents s))
  unfolding mr_set_find
  mr_set_find-eq =
      let e = find-eq-containing addr len some_len fits s.root valid.sorted in
      rw (← e) (ground (arith))

  -- Removing a range from a valid set never faults, whatever the height fields say. It returns what
  -- finding the range returns, and takes just that region out of a set that is valid again.
  pub mr_set_remove-eq :
      (s' : MrSet) × (mr_set_remove s addr len
        ≡ some (s', item_of (containing addr len (contents s))))
      × IsValid s'
      × (contents s' ≡ without (containing addr len (contents s)) (contents s))
  unfolding mr_set_remove
  mr_set_remove-eq = go (containing addr len (contents s)) refl
    where
      go :
          (o : Option Region)
          → containing addr len (contents s) ≡ o
          → (s' : MrSet) × (mr_set_remove s addr len ≡ some (s', item_of o))
            × IsValid s'
            × (contents s' ≡ without o (contents s))
      go none c =
          let e = find-eq-containing addr len some_len fits s.root valid.sorted in
          (s, ground (arith, e, c), valid, refl)
      go (some x) c =
          let e = find-eq-containing addr len some_len fits s.root valid.sorted in
          let (t, d, k) = delete_node-Deletes s.root x.addr valid.sorted in
          let here = item_at-containing addr len (contents s) valid.sorted c in
          let region =
            All-containing IsRegion addr len (contents s)
              (IsSorted-regions (contents s) valid.sorted) c in
          let count = length-erase x.addr x.value (contents s) here in
          (
            record { root = t; size = s.size - 1 },
            ground (arith, e, c, d, here, region.has_item),
            record {
              sorted = rw k (erase-IsSorted x.addr (contents s) valid.sorted);
              counted = rw k (omega (arith, count, valid.counted));
            },
            k,
          )

avl_scan-regions : (t : AvlNode) → avl_scan t ≡ map (λ x. x.value) (regions t)
unfolding avl_scan
avl_scan-regions null = refl
avl_scan-regions (node x l r h) = rw (avl_scan-regions l, avl_scan-regions r, map-append)

length-scan : (t : AvlNode) → length (avl_scan t) ≡ length (regions t)
unfolding avl_scan
length-scan null = refl
length-scan (node x l r h) = omega (
  arith,
  length-append (avl_scan l) (x.value ∷ avl_scan r),
  length-append (regions l) (x ∷ regions r),
  length-scan l,
  length-scan r,
)

-- From a valid set that is not empty, with memory at hand, `utrans_mr_set_getall` returns the items
-- in address order. It writes exactly as many as the array that it allocates holds.
pub mr_set_getall-eq :
    (s : MrSet) (psize : ℕ)
    → IsValid s
    → 0 < s.size
    → (mr_set_getall true s psize ≡ (some (map (λ x. x.value) (contents s)), s.size))
      × (length (map (λ (x : Region). x.value) (contents s)) ≡ s.size)
unfolding mr_set_getall
mr_set_getall-eq s psize valid n =
    let same = length-scan s.root in
    let items = avl_scan-regions s.root in
    (ground (arith, same, items, valid.counted), rw (← items) (same ∙ sym valid.counted))
