-- ===== src/Sort/Order.antt =====
-- `sort.Slice`: order and permutations.
use clienthellod.Common.{
  ℕ, suc, ◌≤◌, ◌≡◌, ◌≢◌, subst, refl, ap, ap₂, sym, ◌∙◌, List, [], ◌∷◌, ◌++◌, length, leb, if-cases,
  All, All-append, All-map, arith,
}
use clienthellod.Sort.{insert_by, sort_by, sort, IsSorted}
use mathlib.Core.List.{Permᴰ}
use mathlib.Core.List.Permᴰ

module _ {ℓ κ} {A : Type ℓ} (key : A → ℕ) (P : A → Type κ) where
  pub insert_by-All : (x : A) (ys : List A) → P x → All P ys → All P (insert_by key x ys)
  unfolding insert_by
  insert_by-All x [] px h = (px, tt)
  insert_by-All x (y ∷ ys) px h =
      if-cases (All P) (leb (key x) (key y)) (λ e. (px, h)) (λ e. (h.0, insert_by-All x ys px h.1))

  pub sort_by-All : (xs : List A) → All P xs → All P (sort_by key xs)
  unfolding sort_by
  sort_by-All [] h = tt
  sort_by-All (x ∷ xs) h = insert_by-All x (sort_by key xs) h.0 (sort_by-All xs h.1)

  pub All-of_insert_by : (x : A) (ys : List A) → All P (insert_by key x ys) → P x × All P ys
  unfolding insert_by
  All-of_insert_by x [] h = h
  All-of_insert_by x (y ∷ ys) h =
      if-cases (λ l. All P l → P x × All P (y ∷ ys)) (leb (key x) (key y)) (λ e t. t)
        (λ e t. let r = All-of_insert_by x ys t.1 in (r.0, (t.0, r.1))) h

module _ {ℓ} {A : Type ℓ} (key : A → ℕ) where
  pub length-insert_by : (x : A) (ys : List A) → length (insert_by key x ys) ≡ suc (length ys)
  unfolding insert_by
  length-insert_by x [] = refl
  length-insert_by x (y ∷ ys) =
      if-cases (λ (l : List A). length l ≡ suc (suc (length ys))) (leb (key x) (key y)) (λ e. refl)
        (λ e. ap suc (length-insert_by x ys))

  pub length-sort_by : (xs : List A) → length (sort_by key xs) ≡ length xs
  unfolding sort_by
  length-sort_by [] = refl
  length-sort_by (x ∷ xs) = length-insert_by x (sort_by key xs) ∙ ap suc (length-sort_by xs)

  pub insert_by-IsSorted :
      (x : A) (ys : List A) → IsSorted key ys → IsSorted key (insert_by key x ys)
  unfolding insert_by
  insert_by-IsSorted x [] h = (tt, tt)
  insert_by-IsSorted x (y ∷ ys) h =
      if-cases (IsSorted key) (leb (key x) (key y))
        (λ e.
          let x≤y : key x ≤ key y = ground arith in
          ((x≤y, All-map {P = λ z. key y ≤ key z} (λ z y≤z. omega arith) ys h.0), h))
        (λ e. (
          insert_by-All key (λ z. key y ≤ key z) x ys (ground arith) h.0,
          insert_by-IsSorted x ys h.1,
        ))

  pub sort_by-IsSorted : (xs : List A) → IsSorted key (sort_by key xs)
  unfolding sort_by
  sort_by-IsSorted [] = tt
  sort_by-IsSorted (x ∷ xs) = insert_by-IsSorted x (sort_by key xs) (sort_by-IsSorted xs)

insert_by-swap :
    (a b : ℕ) (xs : List ℕ)
    → insert_by (λ n. n) a (insert_by (λ n. n) b xs)
      ≡ insert_by (λ n. n) b (insert_by (λ n. n) a xs)
unfolding insert_by
insert_by-swap a b [] = ground arith
insert_by-swap a b (x ∷ xs) = ground (arith, insert_by-swap a b xs)

-- Lists with the same elements, each as often, are sorted alike.
pub sort-Perm : {xs ys : List ℕ} → Permᴰ xs ys → sort xs ≡ sort ys
unfolding sort_by
sort-Perm Permᴰ.nil = refl
sort-Perm (Permᴰ.cons e p) = cc (e, sort-Perm p)
sort-Perm (Permᴰ.swap {a} {b} {l = l} e f) = cc (e, f, insert_by-swap a b (sort l))
sort-Perm (Permᴰ.trans p q) = sort-Perm p ∙ sort-Perm q

-- No key occurs twice.
abbrev pub IsDistinct {ℓ} : {A : Type ℓ} → (A → ℕ) → List A → Type 0
IsDistinct key [] = Unit
IsDistinct key (x ∷ xs) = All (λ y. key x ≢ key y) xs × IsDistinct key xs

All-Perm {ℓ κ} : {A : Type ℓ} (P : A → Type κ) {xs ys : List A} → Permᴰ xs ys → All P xs → All P ys
All-Perm P Permᴰ.nil h = tt
All-Perm P (Permᴰ.cons e p) h = (subst P e h.0, All-Perm P p h.1)
All-Perm P (Permᴰ.swap e f) h = (subst P f h.1.0, (subst P e h.0, h.1.1))
All-Perm P (Permᴰ.trans p q) h = All-Perm P q (All-Perm P p h)

module _ {ℓ} {A : Type ℓ} (key : A → ℕ) where
  pub IsDistinct-Perm : {xs ys : List A} → Permᴰ xs ys → IsDistinct key xs → IsDistinct key ys
  IsDistinct-Perm Permᴰ.nil h = tt
  IsDistinct-Perm (Permᴰ.cons {b = b} {l₁ = l} e p) h = (
    All-Perm (λ y. key b ≢ key y) p (subst (λ c. All (λ y. key c ≢ key y) l) e h.0),
    IsDistinct-Perm p h.1,
  )
  IsDistinct-Perm (Permᴰ.swap {a} {b} {l = l} e f) h =
      subst (IsDistinct key) (ap₂ (λ u v. u ∷ v ∷ l) f e)
        ((λ k. h.0.0 (sym k), h.1.0), (h.0.1, h.1.1))
  IsDistinct-Perm (Permᴰ.trans p q) h = IsDistinct-Perm q (IsDistinct-Perm p h)

  insert_by-swap_distinct :
      (a b : A) (xs : List A)
      → key a ≢ key b
      → insert_by key a (insert_by key b xs) ≡ insert_by key b (insert_by key a xs)
  unfolding insert_by
  insert_by-swap_distinct a b [] h = ground arith
  insert_by-swap_distinct a b (x ∷ xs) h = ground (arith, insert_by-swap_distinct a b xs h)

  -- Where no two keys are equal, the order before the sort is forgotten.
  pub sort_by-Perm :
      {xs ys : List A} → Permᴰ xs ys → IsDistinct key xs → sort_by key xs ≡ sort_by key ys
  unfolding sort_by
  sort_by-Perm Permᴰ.nil h = refl
  sort_by-Perm (Permᴰ.cons e p) h = cc (e, sort_by-Perm p h.1)
  sort_by-Perm (Permᴰ.swap {a} {b} {l = l} e f) h =
      cc (e, f, insert_by-swap_distinct a b (sort_by key l) h.0.0)
  sort_by-Perm (Permᴰ.trans p q) h = sort_by-Perm p h ∙ sort_by-Perm q (IsDistinct-Perm p h)

  insert_by-front :
      (x : A) (xs : List A) → All (λ y. key x ≤ key y) xs → insert_by key x xs ≡ x ∷ xs
  unfolding insert_by
  insert_by-front x [] h = refl
  insert_by-front x (y ∷ ys) h = let le = h.0 in ground arith

  -- A sorted list stays as it is.
  pub sort_by-of_IsSorted : (xs : List A) → IsSorted key xs → sort_by key xs ≡ xs
  unfolding sort_by
  sort_by-of_IsSorted [] h = refl
  sort_by-of_IsSorted (x ∷ xs) h =
      ap (insert_by key x) (sort_by-of_IsSorted xs h.1) ∙ insert_by-front x xs h.0

  insert_by-Perm : (x : A) (ys : List A) → Permᴰ (x ∷ ys) (insert_by key x ys)
  unfolding insert_by
  insert_by-Perm x [] = Permᴰ.refl (x ∷ [])
  insert_by-Perm x (y ∷ ys) =
      if-cases (Permᴰ (x ∷ y ∷ ys)) (leb (key x) (key y)) (λ e. Permᴰ.refl (x ∷ y ∷ ys))
        (λ e. Permᴰ.trans (Permᴰ.swap refl refl) (Permᴰ.cons refl (insert_by-Perm x ys)))

  -- A sort only changes the order.
  pub Perm-sort_by : (xs : List A) → Permᴰ xs (sort_by key xs)
  unfolding sort_by
  Perm-sort_by [] = Permᴰ.nil
  Perm-sort_by (x ∷ xs) =
      Permᴰ.trans (Permᴰ.cons refl (Perm-sort_by xs)) (insert_by-Perm x (sort_by key xs))

  pub IsDistinct-snoc :
      (xs : List A) (x : A)
      → IsDistinct key xs
      → All (λ y. key y ≢ key x) xs
      → IsDistinct key (xs ++ x ∷ [])
  IsDistinct-snoc [] x d n = (tt, tt)
  IsDistinct-snoc (y ∷ ys) x d n =
      (All-append (λ z. key y ≢ key z) ys (x ∷ []) d.0 (n.0, tt), IsDistinct-snoc ys x d.1 n.1)
