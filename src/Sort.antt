-- ===== src/Sort.antt =====
-- `sort.Slice` with a key, and internal/utils/arr_dedup.go with `dedupUint8` of
-- fingerprint_hash.go. `sort.Slice` may order equal keys in any way; insertion keeps their order.
pub mod Order
pub mod Members
use clienthellod.Common.{ℕ, ◌≤◌, Bool, List, [], ◌∷◌, leb, ◌==◌, if◌then◌else◌, All}
use clienthellod.Outcome.{Result, ok, panic}

module _ {ℓ} {A : Type ℓ} (key : A → ℕ) where
  unfoldable pub insert_by : A → List A → List A
  insert_by x [] = x ∷ []
  insert_by x (y ∷ ys) =
      let rest = insert_by x ys in if leb (key x) (key y) then x ∷ y ∷ ys else y ∷ rest

  unfoldable pub sort_by : List A → List A
  sort_by [] = []
  sort_by (x ∷ xs) = insert_by x (sort_by xs)

  abbrev pub IsSorted : List A → Type 0
  IsSorted [] = Unit
  IsSorted (x ∷ xs) = All (λ y. key x ≤ key y) xs × IsSorted xs

-- A sort of numbers.
abbrev pub sort : List ℕ → List ℕ
sort = sort_by (λ n. n)

-- The loop of `dedupUint8` once `last` was written to the output.
unfoldable pub dedup_after : ℕ → List ℕ → List ℕ
dedup_after last [] = []
dedup_after last (v ∷ vs) =
    let rest = dedup_after v vs in if v == last then dedup_after last vs else v ∷ rest

unfoldable pub dedup_uint8 : List ℕ → List ℕ
dedup_uint8 [] = []
dedup_uint8 (v ∷ vs) = v ∷ dedup_after v vs

-- `DedupIntArr`. `spare` is what the slice's capacity has behind its elements: of an empty array
-- `arr[:j+1]` takes the first of that, and is out of range where there is none.
unfoldable pub dedup_int_arr : List ℕ → List ℕ → Result (List ℕ)
dedup_int_arr [] [] = panic
dedup_int_arr (s ∷ spare) [] = ok (s ∷ [])
dedup_int_arr spare (v ∷ vs) = ok (dedup_uint8 (sort (v ∷ vs)))
