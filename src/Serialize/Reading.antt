-- ===== src/Serialize/Reading.antt =====
-- What the reads of serialize.go give back of what was written.
use native.Mathlib.Nat.{mod-eq_of_lt}
use waychain_consensus.Prelude.{
  ℕ, ◌^◌, ◌<◌, ◌≡◌, refl, ap, ◌∙◌, [], ◌∷◌, ◌++◌, ok, arith, Bytes, length, take, drop, be_value,
  length-append,
}
use waychain_consensus.Precompile.{be_bytes}
use waychain_consensus.Precompile.Laws.{length-be_bytes, be_from-be_bytes}
use waychain_consensus.Serialize.{◌>>=◌, read, read_number, read_sized}

pub take-append : (xs ys : Bytes) → take (length xs) (xs ++ ys) ≡ xs
take-append [] ys = refl
take-append (x ∷ xs) ys = ap (λ zs. x ∷ zs) (take-append xs ys)

pub drop-append : (xs ys : Bytes) → drop (length xs) (xs ++ ys) ≡ ys
drop-append [] ys = refl
drop-append (x ∷ xs) ys = drop-append xs ys

pub read-append :
    (field : Bytes) (n : ℕ) (xs ys : Bytes) → length xs ≡ n → read field n (xs ++ ys) ≡ ok (xs, ys)
unfolding read
read-append field n xs ys size =
    ground (arith, take-append xs ys, drop-append xs ys, length-append xs ys)

pub be_value-be_bytes : (n v : ℕ) → v < 256 ^ n → be_value (be_bytes n v) ≡ v
unfolding be_value
be_value-be_bytes n v small = be_from-be_bytes n v 0 ∙ omega (arith, mod-eq_of_lt small)

pub read_number-append :
    (field : Bytes) (n v : ℕ) (ys : Bytes)
    → v < 256 ^ n
    → read_number field n (be_bytes n v ++ ys) ≡ ok (v, ys)
unfolding read_number
read_number-append field n v ys small =
    rw
      (
        read_number,
        ◌>>=◌,
        read-append field n (be_bytes n v) ys (length-be_bytes n v),
        be_value-be_bytes n v small,
      )
      refl

pub read_sized-append :
    (length_field field : Bytes) (n : ℕ) (xs ys : Bytes)
    → length xs < 256 ^ n
    → read_sized length_field field n (be_bytes n (length xs) ++ (xs ++ ys)) ≡ ok (xs, ys)
unfolding read_sized
read_sized-append length_field field n xs ys small =
    rw (read_sized, ◌>>=◌, read_number-append length_field n (length xs) (xs ++ ys) small)
      (read-append field (length xs) xs ys refl)
