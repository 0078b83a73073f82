-- ===== src/Core/Telemetry/Sorting.antt =====
-- The sorted window, and sums over a window.
use lado_flow.Base.{
  ℕ, zero, suc, ◌-◌, ◌*◌, ◌/◌, ◌≤◌, ◌<◌, ◌≡◌, refl, sym, arith, List, [], ◌∷◌, All, length, get_or,
}
use mathlib.Core.Path.{subst}
use lado_flow.Core.Telemetry.{insert_sorted, sort, sum}

-- Every element lies between the bounds.
abbrev pub Within : ℕ → ℕ → List ℕ → Type 0
Within lo hi = All (λ x. (lo ≤ x) × (x ≤ hi))

-- In order, and no element below the bound.
abbrev pub IsSorted : ℕ → List ℕ → Type 0
IsSorted lo [] = Unit {0}
IsSorted lo (x ∷ xs) = (lo ≤ x) × IsSorted x xs

insert_sorted-IsSorted :
    (lo x : ℕ) (ys : List ℕ) → lo ≤ x → IsSorted lo ys → IsSorted lo (insert_sorted x ys)
unfolding insert_sorted
insert_sorted-IsSorted lo x [] h s = (h, tt)
insert_sorted-IsSorted lo x (y ∷ ys) h s = ground (arith, insert_sorted-IsSorted y x ys)

pub sort-IsSorted : (xs : List ℕ) → IsSorted 0 (sort xs)
unfolding sort
sort-IsSorted [] = tt
sort-IsSorted (x ∷ xs) = insert_sorted-IsSorted 0 x (sort xs) (omega arith) (sort-IsSorted xs)

insert_sorted-Within :
    (lo hi x : ℕ) (ys : List ℕ)
    → lo ≤ x
    → x ≤ hi
    → Within lo hi ys
    → Within lo hi (insert_sorted x ys)
unfolding insert_sorted
insert_sorted-Within lo hi x [] p q w = ((p, q), tt)
insert_sorted-Within lo hi x (y ∷ ys) p q w =
    ground (arith, insert_sorted-Within lo hi x ys p q w.1)

pub sort-Within : (lo hi : ℕ) (xs : List ℕ) → Within lo hi xs → Within lo hi (sort xs)
unfolding sort
sort-Within lo hi [] w = tt
sort-Within lo hi (x ∷ xs) w =
    insert_sorted-Within lo hi x (sort xs) w.0.0 w.0.1 (sort-Within lo hi xs w.1)

length-insert_sorted : (x : ℕ) (ys : List ℕ) → length (insert_sorted x ys) ≡ suc (length ys)
unfolding insert_sorted
length-insert_sorted x [] = refl
length-insert_sorted x (y ∷ ys) = ground (arith, length-insert_sorted x ys)

pub length-sort : (xs : List ℕ) → length (sort xs) ≡ length xs
unfolding sort
length-sort [] = refl
length-sort (x ∷ xs) = omega (arith, length-insert_sorted x (sort xs), length-sort xs)

get_or_le : (lo j : ℕ) (xs : List ℕ) → IsSorted lo xs → j < length xs → lo ≤ get_or xs j 0
get_or_le lo j [] s h = absurd (omega arith)
get_or_le lo zero (x ∷ xs) s h = s.0
get_or_le lo (suc j) (x ∷ xs) s h = omega (arith, s.0, get_or_le x j xs s.1 (omega arith))

-- A sorted list grows along its indices.
pub get_or_mono :
    (lo i j : ℕ) (xs : List ℕ)
    → IsSorted lo xs
    → i ≤ j
    → j < length xs
    → get_or xs i 0 ≤ get_or xs j 0
get_or_mono lo i j [] s h l = absurd (omega arith)
get_or_mono lo zero zero (x ∷ xs) s h l = omega arith
get_or_mono lo zero (suc j) (x ∷ xs) s h l = get_or_le x j xs s.1 (omega arith)
get_or_mono lo (suc i) zero (x ∷ xs) s h l = absurd (omega arith)
get_or_mono lo (suc i) (suc j) (x ∷ xs) s h l = get_or_mono x i j xs s.1 (omega arith) (omega arith)

-- The first and the last element of a sorted list bound it.
first_bound : (lo : ℕ) (xs : List ℕ) → IsSorted lo xs → All (λ x. lo ≤ x) xs
first_bound lo [] s = tt
first_bound lo (x ∷ xs) s = (s.0, All_weaken x lo xs s.0 (first_bound x xs s.1))
  where
    All_weaken : (m n : ℕ) (ys : List ℕ) → n ≤ m → All (λ y. m ≤ y) ys → All (λ y. n ≤ y) ys
    All_weaken m n [] h a = tt
    All_weaken m n (y ∷ ys) h a = (omega arith, All_weaken m n ys h a.1)

pub sum-Within :
    (lo hi : ℕ) (xs : List ℕ)
    → Within lo hi xs
    → (lo * length xs ≤ sum xs) × (sum xs ≤ hi * length xs)
unfolding sum
sum-Within lo hi [] w = omega arith
sum-Within lo hi (x ∷ xs) w = let ih = sum-Within lo hi xs w.1 in grind (arith, ih)

-- A quotient lies between the bounds of the sum that it averages.
pub div_bounds : (lo hi s n : ℕ) → 0 < n → lo * n ≤ s → s ≤ hi * n → (lo ≤ s / n) × (s / n ≤ hi)
div_bounds lo hi s n pos p q = grind arith

-- Every element is between the first and the last of its sorted list.
last_bound :
    (lo x : ℕ) (xs : List ℕ)
    → IsSorted lo (x ∷ xs)
    → All (λ y. y ≤ get_or (x ∷ xs) (length xs) 0) (x ∷ xs)
last_bound lo x [] s = (omega arith, tt)
last_bound lo x (y ∷ ys) s =
    let rest = last_bound x y ys s.1 in (omega (arith, s.1.0, rest.0), rest)

pub sorted_Within :
    (xs : List ℕ)
    → 0 < length xs
    → IsSorted 0 xs
    → Within (get_or xs 0 0) (get_or xs (length xs - 1) 0) xs
sorted_Within [] pos s = absurd (omega arith)
sorted_Within (x ∷ xs) pos s =
    let at : length (x ∷ xs) - 1 ≡ length xs = omega arith in
    subst (λ n. Within x (get_or (x ∷ xs) n 0) (x ∷ xs)) (sym at)
      (All_both x _ (x ∷ xs) (first_bound x (x ∷ xs) (omega arith, s.1)) (last_bound 0 x xs s))
  where
    All_both : (m n : ℕ) (ys : List ℕ) → All (λ y. m ≤ y) ys → All (λ y. y ≤ n) ys → Within m n ys
    All_both m n [] a b = tt
    All_both m n (y ∷ ys) a b = ((a.0, b.0), All_both m n ys a.1 b.1)

insert_sorted-Within_inv :
    (lo hi x : ℕ) (ys : List ℕ)
    → Within lo hi (insert_sorted x ys)
    → ((lo ≤ x) × (x ≤ hi)) × Within lo hi ys
unfolding insert_sorted
insert_sorted-Within_inv lo hi x [] w = w
insert_sorted-Within_inv lo hi x (y ∷ ys) w = ground (arith, insert_sorted-Within_inv lo hi x ys)

pub sort-Within_inv : (lo hi : ℕ) (xs : List ℕ) → Within lo hi (sort xs) → Within lo hi xs
unfolding sort
sort-Within_inv lo hi [] w = tt
sort-Within_inv lo hi (x ∷ xs) w =
    let both = insert_sorted-Within_inv lo hi x (sort xs) w in
    (both.0, sort-Within_inv lo hi xs both.1)
