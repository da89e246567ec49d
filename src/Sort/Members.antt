-- ===== src/Sort/Members.antt =====
-- internal/utils/arr_dedup.go and `dedupUint8` of fingerprint_hash.go: which values occur.
use clienthellod.Common.{
  ℕ, ◌≤◌, ◌<◌, ◌≡◌, refl, ap₂, sym, ◌↔◌, ◌⊎◌, inl, inr, List, [], ◌∷◌, ◌==◌, if-cases, All, subst,
  arith,
}
use clienthellod.Sort.{insert_by, sort_by, sort, IsSorted, dedup_after, dedup_uint8, dedup_int_arr}
use clienthellod.Outcome.{ok}
use clienthellod.Sort.Order.{sort_by-IsSorted}

-- Whether a value occurs, as a sum: no order of the occurrences is forgotten.
abbrev pub In : ℕ → List ℕ → Type 0
In n [] = ⊥
In n (x ∷ xs) = (n ≡ x) ⊎ In n xs

In-insert_by : (n x : ℕ) (ys : List ℕ) → In n (insert_by (λ k. k) x ys) ↔ In n (x ∷ ys)
unfolding insert_by
In-insert_by n x [] = (λ h. h, λ h. h)
In-insert_by n x (y ∷ ys) = ground (arith, In-insert_by n x ys)

In-sort : (n : ℕ) (xs : List ℕ) → In n (sort xs) ↔ In n xs
unfolding sort_by
In-sort n [] = (λ h. h, λ h. h)
In-sort n (x ∷ xs) = ground (arith, In-insert_by n x (sort xs), In-sort n xs)

-- Each value is above the one before it, the first above `low`.
abbrev pub IsRising : ℕ → List ℕ → Type 0
IsRising low [] = Unit
IsRising low (x ∷ xs) = (low < x) × IsRising x xs

dedup_after-IsRising :
    (last : ℕ) (xs : List ℕ)
    → All (λ y. last ≤ y) xs
    → IsSorted (λ k. k) xs
    → IsRising last (dedup_after last xs)
unfolding dedup_after
dedup_after-IsRising last [] h s = tt
dedup_after-IsRising last (x ∷ xs) h s =
    if-cases (IsRising last) (x == last) (λ e. dedup_after-IsRising last xs h.1 s.1)
      (λ e. (ground arith, dedup_after-IsRising x xs s.0 s.1))

In-dedup_after : (n last : ℕ) (xs : List ℕ) → In n (last ∷ dedup_after last xs) ↔ In n (last ∷ xs)
unfolding dedup_after
In-dedup_after n last [] = (λ h. h, λ h. h)
In-dedup_after n last (x ∷ xs) = ground (arith, In-dedup_after n last xs, In-dedup_after n x xs)

IsRising-In : (low n : ℕ) (xs : List ℕ) → IsRising low xs → In n xs → low < n
IsRising-In low n [] r h = elim h [ ]
IsRising-In low n (x ∷ xs) r (inl e) = omega arith
IsRising-In low n (x ∷ xs) r (inr h) = let x<n = IsRising-In x n xs r.1 h in omega arith

-- The heads of two rising lists with the same values are equal, and the tails have the same.
module _ (x y : ℕ) (xs ys : List ℕ) (rx : IsRising x xs) (ry : IsRising y ys)
    (h : (n : ℕ) → In n (x ∷ xs) ↔ In n (y ∷ ys)) where
  IsRising-head : x ≡ y
  IsRising-head = elim ((h x).0 (inl refl)) [
    | inl e ↦ e
    | inr i ↦ elim ((h y).1 (inl refl)) [
      | inl e ↦ sym e
      | inr j ↦
          let y<x = IsRising-In y x ys ry i in let x<y = IsRising-In x y xs rx j in omega arith
    ]
  ]

  IsRising-tail : (n : ℕ) → In n xs → In n ys
  IsRising-tail n i =
      let x<n = IsRising-In x n xs rx i in
      let e = IsRising-head in elim ((h n).0 (inr i)) [ inl e' ↦ ground arith | inr j ↦ j ]

-- Rising lists with the same values are equal.
IsRising-eq :
    (low : ℕ) (xs ys : List ℕ)
    → IsRising low xs
    → IsRising low ys
    → ((n : ℕ) → In n xs ↔ In n ys)
    → xs ≡ ys
IsRising-eq low [] [] rx ry h = refl
IsRising-eq low [] (y ∷ ys) rx ry h = elim ((h y).1 (inl refl)) [ ]
IsRising-eq low (x ∷ xs) [] rx ry h = elim ((h x).0 (inl refl)) [ ]
IsRising-eq low (x ∷ xs) (y ∷ ys) rx ry h =
    let back : (n : ℕ) → In n (y ∷ ys) ↔ In n (x ∷ xs) = λ n. ((h n).1, (h n).0) in
    let e = IsRising-head x y xs ys rx.1 ry.1 h in
    let rest =
      IsRising-eq x xs ys rx.1 (subst (λ k. IsRising k ys) (sym e) ry.1)
        (λ n. (IsRising-tail x y xs ys rx.1 ry.1 h n, IsRising-tail y x ys xs ry.1 rx.1 back n)) in
    ap₂ (λ a l. a ∷ l) e rest

In-dedup : (n : ℕ) (xs : List ℕ) → In n (dedup_uint8 xs) ↔ In n xs
unfolding dedup_uint8
In-dedup n [] = (λ h. h, λ h. h)
In-dedup n (x ∷ xs) = In-dedup_after n x xs

dedup-eq :
    (us vs : List ℕ)
    → IsSorted (λ k. k) us
    → IsSorted (λ k. k) vs
    → ((n : ℕ) → In n (dedup_uint8 us) ↔ In n (dedup_uint8 vs))
    → dedup_uint8 us ≡ dedup_uint8 vs
unfolding dedup_uint8
dedup-eq [] [] su sv h = refl
dedup-eq [] (v ∷ vs) su sv h = elim ((h v).1 (inl refl)) [ ]
dedup-eq (u ∷ us) [] su sv h = elim ((h u).0 (inl refl)) [ ]
dedup-eq (u ∷ us) (v ∷ vs) su sv h =
    let back : (n : ℕ) → In n (v ∷ dedup_after v vs) ↔ In n (u ∷ dedup_after u us) =
      λ n. ((h n).1, (h n).0) in
    let ru = dedup_after-IsRising u us su.0 su.1 in
    let rv = dedup_after-IsRising v vs sv.0 sv.1 in
    let e = IsRising-head u v (dedup_after u us) (dedup_after v vs) ru rv h in
    let rest =
      IsRising-eq u (dedup_after u us) (dedup_after v vs) ru
        (subst (λ k. IsRising k (dedup_after v vs)) (sym e) rv)
        (λ n. (
          IsRising-tail u v (dedup_after u us) (dedup_after v vs) ru rv h n,
          IsRising-tail v u (dedup_after v vs) (dedup_after u us) rv ru back n,
        )) in
    ap₂ (λ a l. a ∷ l) e rest

-- Sorted without duplicates, two lists of the same values are the same.
pub dedup-sort :
    (xs ys : List ℕ) → ((n : ℕ) → In n xs ↔ In n ys) → dedup_uint8 (sort xs) ≡ dedup_uint8 (sort ys)
dedup-sort xs ys h =
    dedup-eq (sort xs) (sort ys) (sort_by-IsSorted (λ k. k) xs) (sort_by-IsSorted (λ k. k) ys) (λ n.
      ground (arith, h n, In-dedup n (sort xs), In-dedup n (sort ys), In-sort n xs, In-sort n ys))

-- Each value is above the one before it.
abbrev pub IsStrict : List ℕ → Type 0
IsStrict [] = Unit
IsStrict (x ∷ xs) = IsRising x xs

dedup-IsStrict : (xs : List ℕ) → IsSorted (λ k. k) xs → IsStrict (dedup_uint8 xs)
unfolding dedup_uint8
dedup-IsStrict [] s = tt
dedup-IsStrict (x ∷ xs) s = dedup_after-IsRising x xs s.0 s.1

-- DedupIntArr of an array that is not empty, whatever its capacity, returns the same values in
-- strictly rising order.
pub dedup_int_arr-IsStrict :
    (spare : List ℕ) (x : ℕ) (xs : List ℕ)
    → (ys : List ℕ) × (dedup_int_arr spare (x ∷ xs) ≡ ok ys)
      × IsStrict ys
      × ((n : ℕ) → In n ys ↔ In n (x ∷ xs))
unfolding dedup_int_arr
dedup_int_arr-IsStrict spare x xs =
    let all : List ℕ = x ∷ xs in
    (
      dedup_uint8 (sort all),
      refl,
      dedup-IsStrict (sort all) (sort_by-IsSorted (λ k. k) all),
      λ n. ground (arith, In-dedup n (sort all), In-sort n all),
    )
