-- ===== src/Server/Metrics/Percentile.antt =====
-- The percentiles of crates/hyperbox-server/src/metrics.rs.
use hyperbox.Prelude.{
  ℕ, zero, suc, ◌+◌, ◌-◌, ◌*◌, ◌/◌, ◌≤◌, ◌<◌, List, [], ◌∷◌, some, length, get_elem?, leb, true,
  false, All, ◌≡◌, refl, ◌∙◌, arith,
}
use hyperbox.Server.Metrics.{insert_sorted, sort, percentile}

-- A number at or below each element of a list.
abbrev Below : ℕ → List ℕ → Type 0
Below x = All (λ y. x ≤ y)

abbrev pub IsSorted : List ℕ → Type 0
IsSorted [] = Unit
IsSorted (x ∷ xs) = Below x xs × IsSorted xs

insert_sorted-Below : (a x : ℕ) (ys : List ℕ) → a ≤ x → Below a ys → Below a (insert_sorted x ys)
unfolding insert_sorted
insert_sorted-Below a x [] h b = (h, tt)
insert_sorted-Below a x (y ∷ ys) h b = ground (arith, insert_sorted-Below a x ys)

Below-mono : (a x : ℕ) (ys : List ℕ) → a ≤ x → Below x ys → Below a ys
Below-mono a x [] h b = tt
Below-mono a x (y ∷ ys) h b = (omega arith, Below-mono a x ys h b.1)

insert_sorted-IsSorted : (x : ℕ) (ys : List ℕ) → IsSorted ys → IsSorted (insert_sorted x ys)
unfolding insert_sorted
insert_sorted-IsSorted x [] s = (tt, tt)
insert_sorted-IsSorted x (y ∷ ys) s =
    ground (arith, insert_sorted-IsSorted x ys, insert_sorted-Below y x ys, Below-mono x y ys)

sort-IsSorted : (xs : List ℕ) → IsSorted (sort xs)
unfolding sort
sort-IsSorted [] = tt
sort-IsSorted (x ∷ xs) = insert_sorted-IsSorted x (sort xs) (sort-IsSorted xs)

length-insert_sorted : (x : ℕ) (ys : List ℕ) → length (insert_sorted x ys) ≡ suc (length ys)
unfolding insert_sorted
length-insert_sorted x [] = refl
length-insert_sorted x (y ∷ ys) = ground (arith, length-insert_sorted x ys)

length-sort : (xs : List ℕ) → length (sort xs) ≡ length xs
unfolding sort
length-sort [] = refl
length-sort (x ∷ xs) = omega (arith, length-insert_sorted x (sort xs), length-sort xs)

-- How many elements are at or below a bound, and at or above it.
abbrev pub count_le : ℕ → List ℕ → ℕ
count_le b [] = 0
count_le b (x ∷ xs) = elim (leb x b) [ true ↦ suc (count_le b xs) | false ↦ count_le b xs ]

abbrev pub count_ge : ℕ → List ℕ → ℕ
count_ge b [] = 0
count_ge b (x ∷ xs) = elim (leb b x) [ true ↦ suc (count_ge b xs) | false ↦ count_ge b xs ]

count_le-insert : (b x : ℕ) (ys : List ℕ) → count_le b (insert_sorted x ys) ≡ count_le b (x ∷ ys)
unfolding insert_sorted
count_le-insert b x [] = refl
count_le-insert b x (y ∷ ys) = ground (arith, count_le-insert b x ys)

count_ge-insert : (b x : ℕ) (ys : List ℕ) → count_ge b (insert_sorted x ys) ≡ count_ge b (x ∷ ys)
unfolding insert_sorted
count_ge-insert b x [] = refl
count_ge-insert b x (y ∷ ys) = ground (arith, count_ge-insert b x ys)

count_ge-Below : (b : ℕ) (ys : List ℕ) → Below b ys → count_ge b ys ≡ length ys
count_ge-Below b [] h = refl
count_ge-Below b (y ∷ ys) h = ground (arith, count_ge-Below b ys)

get_elem?-Below : (b i v : ℕ) (ys : List ℕ) → Below b ys → get_elem? ys i ≡ some v → b ≤ v
get_elem?-Below b i v [] h e = absurd (ground arith)
get_elem?-Below b zero v (y ∷ ys) h e = ground arith
get_elem?-Below b (suc i) v (y ∷ ys) h e = get_elem?-Below b i v ys h.1 e

-- In a sorted list the element at `i` has `i + 1` elements at or below it, itself among them, and
-- all but `i` at or above it.
sorted_rank :
    (ys : List ℕ) (i v : ℕ)
    → IsSorted ys
    → get_elem? ys i ≡ some v
    → (i + 1 ≤ count_le v ys) × (length ys ≤ i + count_ge v ys)
sorted_rank [] i v s e = absurd (ground arith)
sorted_rank (y ∷ ys) zero v s e = ground (arith, count_ge-Below y ys s.0)
sorted_rank (y ∷ ys) (suc i) v s e =
    ground (arith, sorted_rank ys i v s.1 e, get_elem?-Below y i v ys s.0 e)

get_elem?-lt : (ys : List ℕ) (i : ℕ) → i < length ys → (v : ℕ) × (get_elem? ys i ≡ some v)
get_elem?-lt [] i h = absurd (omega arith)
get_elem?-lt (y ∷ ys) zero h = (y, refl)
get_elem?-lt (y ∷ ys) (suc i) h = get_elem?-lt ys i (omega arith)

count_le-sort : (b : ℕ) (xs : List ℕ) → count_le b (sort xs) ≡ count_le b xs
unfolding sort
count_le-sort b [] = refl
count_le-sort b (x ∷ xs) = ground (arith, count_le-insert b x (sort xs), count_le-sort b xs)

count_ge-sort : (b : ℕ) (xs : List ℕ) → count_ge b (sort xs) ≡ count_ge b xs
unfolding sort
count_ge-sort b [] = refl
count_ge-sort b (x ∷ xs) = ground (arith, count_ge-insert b x (sort xs), count_ge-sort b xs)

percentile-pos :
    (ys : List ℕ) (p : ℕ)
    → 0 < length ys
    → percentile ys p ≡ get_elem? ys ((length ys * p + 99) / 100 - 1)
unfolding percentile
percentile-pos [] p h = absurd (omega arith)
percentile-pos (y ∷ ys) p h = refl

-- The rank lies inside the list.
rank-lt : (n p : ℕ) → 0 < n → p ≤ 100 → (n * p + 99) / 100 - 1 < n
rank-lt n p h k = let bound : n * p ≤ n * 100 = grind arith in omega (arith, bound)

-- The nearest-rank percentile: of a sample with at least one latency, for `0 < p ≤ 100`, the index
-- is in bounds, at least `p` percent of the sample is at or below the result, and less than `p`
-- percent is strictly below it.
pub percentile-nearest_rank :
    (xs : List ℕ) (p : ℕ)
    → 0 < length xs
    → 0 < p
    → p ≤ 100
    → (v : ℕ) × (percentile (sort xs) p ≡ some v)
      × (length xs * p ≤ count_le v xs * 100)
      × ((length xs - count_ge v xs) * 100 < length xs * p)
percentile-nearest_rank xs p h k l =
    let n = length xs in
    let i = (n * p + 99) / 100 - 1 in
    let len = length-sort xs in
    let pos : 0 < n * p = grind arith in
    let (v, e) = get_elem?-lt (sort xs) i (omega (arith, rank-lt n p h l)) in
    let ranks = sorted_rank (sort xs) i v (sort-IsSorted xs) e in
    let le = count_le-sort v xs in
    let ge = count_ge-sort v xs in
    (v, percentile-pos (sort xs) p (omega arith) ∙ rw len e, omega arith, omega arith)
