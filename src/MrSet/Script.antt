-- ===== src/MrSet/Script.antt =====
-- Sequences of calls on a set, against the same calls on the sorted list of regions.
use asystem_astate.Base.{
  Bool, ℕ, ◌+◌, ◌^◌, ◌<◌, ◌≡◌, refl, ◌∙◌, ap, true, false, Option, some, List, [], ◌∷◌,
  if◌then◌else◌, ◌>>=◌, ℤ, pos,
}
use asystem_astate.MrSet.Node.{Region}
use asystem_astate.MrSet.Api.{MrSet, mr_set_insert, mr_set_find, mr_set_remove}
use asystem_astate.MrSet.Sorted.{IsRegion, collides, insert_sorted, containing}
use asystem_astate.MrSet.Refine.{
  IsValid, contents, item_of, without, mr_set_insert_fresh, mr_set_find-eq, mr_set_remove-eq,
}

pub data Call : Type 0 where
  -- with the outcome of `malloc`
  insert : Bool → Region → Call
  find remove : ℕ → ℕ → Call

pub data Reply : Type 0 where
  code : ℤ → Reply
  item : ℕ → Reply

unfoldable pub call : Call → MrSet → Option (MrSet × Reply)
call (insert alloc x) s = do r ← mr_set_insert alloc s x.addr x.len x.value; some (r.0, code r.1)
call (find addr len) s = some (s, item (mr_set_find s addr len))
call (remove addr len) s = do r ← mr_set_remove s addr len; some (r.0, item r.1)

unfoldable pub run : List Call → MrSet → Option (MrSet × List Reply)
run [] s = some (s, [])
run (c ∷ cs) s = do r ← call c s; t ← run cs r.0; some (t.0, r.1 ∷ t.1)

-- The calls on a sorted list, with all the memory that they need.
abbrev pub replay_call : Call → List Region → List Region × Reply
replay_call (insert alloc x) ys =
    if collides x ys then (ys, code (pos 1)) else (insert_sorted x ys, code (pos 0))
replay_call (find addr len) ys = (ys, item (item_of (containing addr len ys)))
replay_call (remove addr len) ys =
    (without (containing addr len ys) ys, item (item_of (containing addr len ys)))

abbrev pub replay : List Call → List Region → List Region × List Reply
replay [] ys = (ys, [])
replay (c ∷ cs) ys = let r = replay_call c ys in let t = replay cs r.0 in (t.0, r.1 ∷ t.1)

-- A call whose range is not empty and does not wrap. An insertion has an item that is not NULL and
-- the memory it needs, and inserts nothing over another region.
abbrev pub IsClean : Call → List Region → Type 0
IsClean (insert alloc x) ys = (alloc ≡ true) × IsRegion x × (collides x ys ≡ false)
IsClean (find addr len) ys = (0 < len) × (addr + len < 2 ^ 64)
IsClean (remove addr len) ys = (0 < len) × (addr + len < 2 ^ 64)

abbrev pub AllClean : List Call → List Region → Type 0
AllClean [] ys = Unit
AllClean (c ∷ cs) ys = IsClean c ys × AllClean cs (replay_call c ys).0

call_refines :
    (c : Call) (s : MrSet)
    → IsValid s
    → IsClean c (contents s)
    → (s' : MrSet) × (call c s ≡ some (s', (replay_call c (contents s)).1))
      × IsValid s'
      × (contents s' ≡ (replay_call c (contents s)).0)
unfolding call
call_refines (insert alloc x) s v (a, r, c) =
    let (s', e, v', k) = mr_set_insert_fresh s v x r c in (s', rw (a, e, c), v', rw c k)
call_refines (find addr len) s v (p, q) = (s, rw (mr_set_find-eq s v addr len p q), v, refl)
call_refines (remove addr len) s v (p, q) =
    let (s', e, v', k) = mr_set_remove-eq s v addr len p q in (s', rw e, v', k)

-- From a valid set, a sequence of insertions, searches and removals runs without a null
-- dereference, if the ranges are not empty and do not wrap, the inserted items are not NULL, malloc
-- succeeds in each insertion, and no insertion collides. It returns what the same calls return on
-- the sorted list of regions, and ends in a valid set with that content.
pub run_refines :
    (cs : List Call) (s : MrSet)
    → IsValid s
    → AllClean cs (contents s)
    → (s' : MrSet) × (run cs s ≡ some (s', (replay cs (contents s)).1))
      × IsValid s'
      × (contents s' ≡ (replay cs (contents s)).0)
unfolding run
run_refines [] s v c = (s, refl, v, refl)
run_refines (c ∷ cs) s v (h, hs) =
    let (s₁, e₁, v₁, k₁) = call_refines c s v h in
    let (s₂, e₂, v₂, k₂) = run_refines cs s₁ v₁ (rw k₁ hs) in
    (s₂, rw (e₁, e₂, k₁), v₂, k₂ ∙ ap (λ ys. (replay cs ys).0) k₁)
