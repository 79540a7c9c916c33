-- ===== src/MrSet/Laws.antt =====
-- The list operations that specify the set keep lists sorted, and how they change the length.
use asystem_astate.Base.{
  ℕ, ◌+◌, ◌≤◌, ◌≡◌, refl, Bool, true, false, ◌&&◌, Option, some, List, [], ◌∷◌, length, ◌⊎◌, inl,
  inr, subst, leb, leb→le, ◌==◌, Bool-cases, if◌then◌else◌, All, All-imp, arith,
}
use asystem_astate.MrSet.Node.{Region}
use asystem_astate.MrSet.Sorted.{
  end_of, IsRegion, IsBefore, IsSorted, collides, insert_sorted, containing, erase,
}
use asystem_astate.MrSet.Remove.{item_at}

All-insert_sorted {κ} :
    (P : Region → Type κ) (x : Region) (ys : List Region)
    → P x
    → All P ys
    → All P (insert_sorted x ys)
All-insert_sorted P x [] p h = (p, tt)
All-insert_sorted P x (y ∷ ys) p h = ground (arith, All-insert_sorted P x ys p h.1)

All-erase {κ} : (P : Region → Type κ) (key : ℕ) (ys : List Region) → All P ys → All P (erase key ys)
All-erase P key [] h = tt
All-erase P key (y ∷ ys) h = ground (arith, All-erase P key ys h.1)

-- What contains a range is the first region of the list, or one of the rest.
some_of_if :
    (b : Bool) (y x : Region) (o : Option Region)
    → (if b then some y else o) ≡ some x
    → (y ≡ x) ⊎ (o ≡ some x)
some_of_if true y x o e = inl (cc)
some_of_if false y x o e = inr e

containing-cons :
    (addr len : ℕ) (y : Region) (ys : List Region) {x : Region}
    → containing addr len (y ∷ ys) ≡ some x
    → (y ≡ x) ⊎ (containing addr len ys ≡ some x)
containing-cons addr len y ys {x} e =
    some_of_if (leb y.addr addr && leb (addr + len) (end_of y)) y x (containing addr len ys) e

pub All-containing {κ} :
    (P : Region → Type κ) (addr len : ℕ) (ys : List Region) {x : Region}
    → All P ys
    → containing addr len ys ≡ some x
    → P x
All-containing P addr len [] h e = absurd (cc e)
All-containing P addr len (y ∷ ys) {x} h e = elim (containing-cons addr len y ys {x = x} e) [
  | inl t ↦ subst P t h.0
  | inr t ↦ All-containing P addr len ys h.1 t
]

apart_of_collides :
    (x y : Region) (ys : List Region)
    → collides x (y ∷ ys) ≡ false
    → leb (end_of y) x.addr ≡ false
    → (end_of x ≤ y.addr) × (collides x ys ≡ false)
apart_of_collides x y ys c e = ground arith

collides_tail :
    (x y : Region) (ys : List Region) → collides x (y ∷ ys) ≡ false → collides x ys ≡ false
collides_tail x y ys c = ground arith

pub insert_sorted-IsSorted :
    (x : Region) (ys : List Region)
    → IsRegion x
    → IsSorted ys
    → collides x ys ≡ false
    → IsSorted (insert_sorted x ys)
insert_sorted-IsSorted x [] r s c = (r, tt, tt)
insert_sorted-IsSorted x (y ∷ ys) r s c = elim (Bool-cases (leb (end_of y) x.addr)) [
  | inl e ↦ rw e (
    s.0,
    All-insert_sorted (λ z. IsBefore y z) x ys (leb→le (end_of y) x.addr e) s.1,
    insert_sorted-IsSorted x ys r s.2 (collides_tail x y ys c),
  )
  | inr e ↦
      let b = apart_of_collides x y ys c e in
      rw e (r, (b.0, All-imp (λ z (q : IsBefore y z). omega (arith, s.0.not_empty)) ys s.1), s)
]

pub erase-IsSorted : (key : ℕ) (ys : List Region) → IsSorted ys → IsSorted (erase key ys)
erase-IsSorted key [] s = tt
erase-IsSorted key (y ∷ ys) s = elim (Bool-cases (y.addr == key)) [
  | inl e ↦ rw e (s.2)
  | inr e ↦ rw e (s.0, All-erase (λ z. IsBefore y z) key ys s.1, erase-IsSorted key ys s.2)
]

pub length-insert_sorted :
    (x : Region) (ys : List Region) → length (insert_sorted x ys) ≡ length ys + 1
length-insert_sorted x [] = refl
length-insert_sorted x (y ∷ ys) = ground (arith, length-insert_sorted x ys)

-- Erasing takes one region away if there is one at the address.
pub length-erase :
    (key item : ℕ) (ys : List Region)
    → item_at key ys ≡ some item
    → length (erase key ys) + 1 ≡ length ys
length-erase key item [] e = absurd (cc e)
length-erase key item (y ∷ ys) e = ground (arith, length-erase key item ys)

item_at_here : (y : Region) (ys : List Region) → item_at y.addr (y ∷ ys) ≡ some y.value
item_at_here y ys = ground arith

-- The region that contains a range is the one at its own address.
pub item_at-containing :
    (addr len : ℕ) (ys : List Region) {x : Region}
    → IsSorted ys
    → containing addr len ys ≡ some x
    → item_at x.addr ys ≡ some x.value
item_at-containing addr len [] s e = absurd (cc e)
item_at-containing addr len (y ∷ ys) {x} s e = elim (containing-cons addr len y ys {x = x} e) [
  | inl t ↦ subst (λ z. item_at z.addr (y ∷ ys) ≡ some z.value) t (item_at_here y ys)
  | inr t ↦
      let after : IsBefore y x = All-containing (λ z. IsBefore y z) addr len ys s.1 t in
      ground (arith, item_at-containing addr len ys {x = x} s.2 t, s.0.not_empty)
]

pub IsSorted-regions : (ys : List Region) → IsSorted ys → All IsRegion ys
IsSorted-regions [] s = tt
IsSorted-regions (y ∷ ys) s = (s.0, IsSorted-regions ys s.2)
