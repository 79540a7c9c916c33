-- ===== src/MrSet/Sorted.antt =====
-- What the region tree stands for: the list of its regions by address. The list is sorted, and its
-- regions are disjoint. The operations on the list are the specification of those on the tree.
use asystem_astate.Base.{
  ℕ, ◌+◌, ◌^◌, ◌≤◌, ◌<◌, ◌≡◌, refl, Bool, true, false, ◌&&◌, ◌||◌, not, Option, none, some, List,
  [], ◌∷◌, ◌++◌, arith, leb, ◌==◌, if◌then◌else◌, All, All-prefix, All-suffix,
}
use asystem_astate.MrSet.Node.{Region, AvlNode, null, node, add64}

abbrev pub regions : AvlNode → List Region
regions null = []
regions (node x left right h) = regions left ++ x ∷ regions right

-- One past the last address.
abbrev pub end_of : Region → ℕ
end_of x = x.addr + x.len

-- A region that is not empty, ends within the address space, and has an item.
pub record IsRegion (x : Region) : Type 0 where
  pub not_empty : 0 < x.len
  pub fits : end_of x < 2 ^ 64
  pub has_item : 0 < x.value

abbrev pub IsBefore : Region → Region → Type 0
IsBefore x y = end_of x ≤ y.addr

abbrev pub IsSorted : List Region → Type 0
IsSorted [] = Unit
IsSorted (x ∷ xs) = IsRegion x × All (λ y. IsBefore x y) xs × IsSorted xs

-- Does a region of the list share an address with `x`?
abbrev pub collides : Region → List Region → Bool
collides x [] = false
collides x (y ∷ ys) = not (leb (end_of y) x.addr || leb (end_of x) y.addr) || collides x ys

abbrev pub insert_sorted : Region → List Region → List Region
insert_sorted x [] = x ∷ []
insert_sorted x (y ∷ ys) = if leb (end_of y) x.addr then y ∷ insert_sorted x ys else x ∷ y ∷ ys

-- The region of the list that contains all addresses from `addr` to `addr + len`.
abbrev pub containing : ℕ → ℕ → List Region → Option Region
containing addr len [] = none
containing addr len (y ∷ ys) =
    if leb y.addr addr && leb (addr + len) (end_of y) then some y else containing addr len ys

-- The list without its region at address `key`.
abbrev pub erase : ℕ → List Region → List Region
erase key [] = []
erase key (y ∷ ys) = if y.addr == key then ys else y ∷ erase key ys

pub IsSorted-prefix : (xs ys : List Region) → IsSorted (xs ++ ys) → IsSorted xs
IsSorted-prefix [] ys h = tt
IsSorted-prefix (x ∷ xs) ys h = (h.0, All-prefix _ xs ys h.1, IsSorted-prefix xs ys h.2)

pub IsSorted-suffix : (xs ys : List Region) → IsSorted (xs ++ ys) → IsSorted ys
IsSorted-suffix [] ys h = h
IsSorted-suffix (x ∷ xs) ys h = IsSorted-suffix xs ys h.2

pub IsBefore-of_sorted :
    (xs : List Region) (y : Region) (ys : List Region)
    → IsSorted (xs ++ y ∷ ys)
    → All (λ x. IsBefore x y) xs
IsBefore-of_sorted [] y ys h = tt
IsBefore-of_sorted (x ∷ xs) y ys h =
    ((All-suffix _ xs (y ∷ ys) h.1).0, IsBefore-of_sorted xs y ys h.2)

-- The facts about a node's region and its children.
pub record Parts (xs : List Region) (y : Region) (ys : List Region) : Type 0 where
  pub left : IsSorted xs
  pub before : All (λ x. IsBefore x y) xs
  pub root : IsRegion y
  pub after : All (λ z. IsBefore y z) ys
  pub right : IsSorted ys

pub IsSorted-Parts :
    (xs : List Region) (y : Region) (ys : List Region) → IsSorted (xs ++ y ∷ ys) → Parts xs y ys
IsSorted-Parts xs y ys h = record {
  left = IsSorted-prefix xs (y ∷ ys) h;
  before = IsBefore-of_sorted xs y ys h;
  root = (IsSorted-suffix xs (y ∷ ys) h).0;
  after = (IsSorted-suffix xs (y ∷ ys) h).1;
  right = (IsSorted-suffix xs (y ∷ ys) h).2;
}

-- Where every region of `xs` lies before `x`, only the rest of a list matters to `x`.
module _ (x : Region) where
  pub collides_before :
      (xs ys : List Region) → All (λ y. IsBefore y x) xs → collides x (xs ++ ys) ≡ collides x ys
  collides_before [] ys h = refl
  collides_before (y ∷ xs) ys h = ground (arith, collides_before xs ys h.1)

  pub insert_sorted_before :
      (xs ys : List Region)
      → All (λ y. IsBefore y x) xs
      → insert_sorted x (xs ++ ys) ≡ xs ++ insert_sorted x ys
  insert_sorted_before [] ys h = refl
  insert_sorted_before (y ∷ xs) ys h = ground (arith, insert_sorted_before xs ys h.1)

  pub collides_after : (ys : List Region) → All (λ z. IsBefore x z) ys → collides x ys ≡ false
  collides_after [] h = refl
  collides_after (y ∷ ys) h = ground (arith, collides_after ys h.1)

  pub insert_sorted_after :
      (xs : List Region) (y : Region) (ys : List Region)
      → IsRegion y
      → IsBefore x y
      → insert_sorted x (xs ++ y ∷ ys) ≡ insert_sorted x xs ++ y ∷ ys
  insert_sorted_after [] y ys r h = ground arith
  insert_sorted_after (z ∷ xs) y ys r h = ground (arith, insert_sorted_after xs y ys r h)

  pub collides_drop_after :
      (xs ys : List Region) → All (λ z. IsBefore x z) ys → collides x (xs ++ ys) ≡ collides x xs
  collides_drop_after [] ys h = collides_after ys h
  collides_drop_after (y ∷ xs) ys h = ground (arith, collides_drop_after xs ys h)

  pub collides_here :
      (xs : List Region) (y : Region) (ys : List Region)
      → x.addr < end_of y
      → y.addr < end_of x
      → collides x (xs ++ y ∷ ys) ≡ true
  collides_here [] y ys h k = ground arith
  collides_here (z ∷ xs) y ys h k = ground (arith, collides_here xs y ys h k)

-- The code's test `y.addr + y.len <= a`, whose 64-bit sum does not wrap for a region.
pub end_le_of_test :
    (y : Region) (a : ℕ) → IsRegion y → leb (add64 y.addr y.len) a ≡ true → end_of y ≤ a
end_le_of_test y a r e = ground arith

pub lt_end_of_test :
    (y : Region) (a : ℕ) → IsRegion y → leb (add64 y.addr y.len) a ≡ false → a < end_of y
lt_end_of_test y a r e = ground arith
