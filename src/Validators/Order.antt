-- ===== src/Validators/Order.antt =====
-- The list of identifiers: membership, ascending order, and what sorting and removal do to them.
use waychain_consensus.Prelude.{
  suc, ◌+◌, ◌<◌, ◌≡◌, refl, Bool, false, ◌||◌, List, [], ◌∷◌, ◌++◌, ◌∙◌, arith, ◌==◌, length,
  if◌then◌else◌,
}
use waychain_consensus.Validators.{ValidatorId, insert_sorted, sort_ids, remove_first}

unfoldable pub mem : ValidatorId → List ValidatorId → Bool
mem z [] = false
mem z (x ∷ xs) = (x == z) || mem z xs

-- Every identifier of the list is above `x`.
abbrev pub Above : ValidatorId → List ValidatorId → Type 0
Above x [] = Unit
Above x (y ∷ ys) = (x < y) × Above x ys

abbrev pub IsAscending : List ValidatorId → Type 0
IsAscending [] = Unit
IsAscending (x ∷ xs) = Above x xs × IsAscending xs

abbrev IsDistinct : List ValidatorId → Type 0
IsDistinct [] = Unit
IsDistinct (x ∷ xs) = (mem x xs ≡ false) × IsDistinct xs

mem-Above : (z x : ValidatorId) (xs : List ValidatorId) → Above x xs → z < suc x → mem z xs ≡ false
unfolding mem
mem-Above z x [] h p = refl
mem-Above z x (y ∷ ys) h p = ground (arith, mem-Above z x ys h.1 p)

Above-trans : (x y : ValidatorId) (xs : List ValidatorId) → x < y → Above y xs → Above x xs
Above-trans x y [] p h = tt
Above-trans x y (z ∷ zs) p h = (omega arith, Above-trans x y zs p h.1)

IsAscending-IsDistinct : (xs : List ValidatorId) → IsAscending xs → IsDistinct xs
IsAscending-IsDistinct [] h = tt
IsAscending-IsDistinct (x ∷ xs) h =
    (mem-Above x x xs h.0 (omega arith), IsAscending-IsDistinct xs h.1)

pub mem-insert_sorted :
    (z x : ValidatorId) (ys : List ValidatorId)
    → mem z (insert_sorted x ys) ≡ ((x == z) || mem z ys)
unfolding mem insert_sorted
mem-insert_sorted z x [] = refl
mem-insert_sorted z x (y ∷ ys) = ground (arith, mem-insert_sorted z x ys)

pub mem-sort_ids : (z : ValidatorId) (xs : List ValidatorId) → mem z (sort_ids xs) ≡ mem z xs
unfolding mem sort_ids
mem-sort_ids z [] = refl
mem-sort_ids z (x ∷ xs) = ground (arith, mem-insert_sorted z x (sort_ids xs), mem-sort_ids z xs)

pub mem-append :
    (z x : ValidatorId) (xs : List ValidatorId) → mem z (xs ++ x ∷ []) ≡ ((x == z) || mem z xs)
unfolding mem
mem-append z x [] = refl
mem-append z x (y ∷ ys) = ground (arith, mem-append z x ys)

Above-insert_sorted :
    (y x : ValidatorId) (ys : List ValidatorId) → y < x → Above y ys → Above y (insert_sorted x ys)
unfolding insert_sorted
Above-insert_sorted y x [] p h = (p, tt)
Above-insert_sorted y x (z ∷ zs) p h = ground (arith, Above-insert_sorted y x zs p h.1)

insert_sorted-IsAscending :
    (x : ValidatorId) (ys : List ValidatorId)
    → mem x ys ≡ false
    → IsAscending ys
    → IsAscending (insert_sorted x ys)
unfolding mem insert_sorted
insert_sorted-IsAscending x [] n h = (tt, tt)
insert_sorted-IsAscending x (y ∷ ys) n h =
    ground (arith, insert_sorted-IsAscending x ys, Above-insert_sorted y x ys, Above-trans x y ys)

sort_ids-IsAscending : (xs : List ValidatorId) → IsDistinct xs → IsAscending (sort_ids xs)
unfolding sort_ids
sort_ids-IsAscending [] h = tt
sort_ids-IsAscending (x ∷ xs) h =
    insert_sorted-IsAscending x (sort_ids xs) (mem-sort_ids x xs ∙ h.0)
      (sort_ids-IsAscending xs h.1)

IsDistinct-append :
    (x : ValidatorId) (xs : List ValidatorId)
    → mem x xs ≡ false
    → IsDistinct xs
    → IsDistinct (xs ++ x ∷ [])
unfolding mem
IsDistinct-append x [] n h = (refl, tt)
IsDistinct-append x (y ∷ ys) n h = ground (arith, mem-append y x ys, IsDistinct-append x ys)

-- Adding a fresh identifier and sorting keeps the list ascending.
pub sort_ids-append-IsAscending :
    (x : ValidatorId) (xs : List ValidatorId)
    → mem x xs ≡ false
    → IsAscending xs
    → IsAscending (sort_ids (xs ++ x ∷ []))
sort_ids-append-IsAscending x xs n h =
    sort_ids-IsAscending _ (IsDistinct-append x xs n (IsAscending-IsDistinct xs h))

length-insert_sorted :
    (x : ValidatorId) (ys : List ValidatorId) → length (insert_sorted x ys) ≡ suc (length ys)
unfolding insert_sorted
length-insert_sorted x [] = refl
length-insert_sorted x (y ∷ ys) = ground (arith, length-insert_sorted x ys)

pub length-sort_ids : (xs : List ValidatorId) → length (sort_ids xs) ≡ length xs
unfolding sort_ids
length-sort_ids [] = refl
length-sort_ids (x ∷ xs) = omega (arith, length-insert_sorted x (sort_ids xs), length-sort_ids xs)

Above-remove_first :
    (y x : ValidatorId) (xs : List ValidatorId) → Above y xs → Above y (remove_first x xs)
unfolding remove_first
Above-remove_first y x [] h = tt
Above-remove_first y x (z ∷ zs) h = ground (arith, Above-remove_first y x zs h.1)

pub remove_first-IsAscending :
    (x : ValidatorId) (xs : List ValidatorId) → IsAscending xs → IsAscending (remove_first x xs)
unfolding remove_first
remove_first-IsAscending x [] h = tt
remove_first-IsAscending x (y ∷ ys) h =
    ground (arith, remove_first-IsAscending x ys h.1, Above-remove_first y x ys h.0)

-- In an ascending list the removal takes every occurrence.
pub mem-remove_first :
    (z x : ValidatorId) (xs : List ValidatorId)
    → IsAscending xs
    → mem z (remove_first x xs) ≡ (if x == z then false else mem z xs)
unfolding mem remove_first
mem-remove_first z x [] h = ground arith
mem-remove_first z x (y ∷ ys) h = ground (arith, mem-remove_first z x ys h.1, mem-Above z y ys h.0)

pub length-remove_first :
    (x : ValidatorId) (xs : List ValidatorId)
    → length (remove_first x xs) + (if mem x xs then 1 else 0) ≡ length xs
unfolding mem remove_first
length-remove_first x [] = omega arith
length-remove_first x (y ∷ ys) = ground (arith, length-remove_first x ys)
