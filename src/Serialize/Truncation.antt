-- ===== src/Serialize/Truncation.antt =====
-- What a reader of serialize.go makes of a text that is cut short.
-- A reader that succeeds on a text succeeds on every longer one, with the same value.
use waychain_consensus.Prelude.{
  ℕ, zero, suc, ◌+◌, ◌-◌, ◌<◌, ◌≤◌, ◌≡◌, ◌≢◌, refl, sym, ap, ◌∙◌, [], ◌∷◌, ◌++◌, ok, err, panic,
  Outcome, arith, Bytes, length, take, drop, length-append,
}
use waychain_consensus.Precompile.Laws.{length-drop_enough}
use mathlib.Core.List.{append-nil}
use waychain_consensus.Hashing.{Sha256}
use waychain_consensus.Types.{Transaction}
use waychain_consensus.Serialize.RoundTrip.{IsSerializable, read_tx-wire}
use waychain_consensus.Serialize.{
  Reader, TxError, short_read, hex_decode, ◌>>=◌, done, read, read_number, read_sized, read_tx,
  serialize_tx, deserialize_tx,
}

pub record IsExtending {ℓ} {A : Type ℓ} (p : Reader A) : Type ℓ where
  pub extends :
      (xs ys : Bytes) (v : A) (rest : Bytes)
      → p xs ≡ ok (v, rest)
      → p (xs ++ ys) ≡ ok (v, rest ++ ys)
  pub returns : (xs : Bytes) → p xs ≢ panic
  pub not_hex : (xs : Bytes) → p xs ≢ err hex_decode

module _ {ℓ κ} {A : Type ℓ} {B : Type κ} {p : Reader A} {f : A → Reader B} (rp : IsExtending p)
    (rf : (a : A) → IsExtending (f a)) where
  bind_extends :
      (o : Outcome TxError (A × Bytes)) (xs ys : Bytes) (v : B) (rest : Bytes)
      → p xs ≡ o
      → ◌>>=◌ p f xs ≡ ok (v, rest)
      → ◌>>=◌ p f (xs ++ ys) ≡ ok (v, rest ++ ys)
  bind_extends (ok (a, r)) xs ys v rest e h =
      ground (arith, e, rp.extends xs ys a r e, (rf a).extends r ys v rest)
  bind_extends (err x) xs ys v rest e h = ground (arith, e)
  bind_extends panic xs ys v rest e h = ground (arith, e)

  bind_returns : (o : Outcome TxError (A × Bytes)) (xs : Bytes) → p xs ≡ o → ◌>>=◌ p f xs ≢ panic
  bind_returns (ok (a, r)) xs e h = ground (arith, e, (rf a).returns r)
  bind_returns (err x) xs e h = ground (arith, e)
  bind_returns panic xs e h = rp.returns xs e

  bind_not_hex :
      (o : Outcome TxError (A × Bytes)) (xs : Bytes) → p xs ≡ o → ◌>>=◌ p f xs ≢ err hex_decode
  bind_not_hex (ok (a, r)) xs e h = ground (arith, e, (rf a).not_hex r)
  bind_not_hex (err x) xs e h = ground (arith, e, rp.not_hex xs)
  bind_not_hex panic xs e h = ground (arith, e)

  bind-IsExtending : IsExtending (p >>= f)
  bind-IsExtending = record {
    extends = λ xs ys v rest. bind_extends (p xs) xs ys v rest refl;
    returns = λ xs. bind_returns (p xs) xs refl;
    not_hex = λ xs. bind_not_hex (p xs) xs refl;
  }

done-IsExtending {ℓ} : {A : Type ℓ} (a : A) → IsExtending (done a)
done-IsExtending a = record {
  extends = λ xs ys v rest h. ground (arith, h);
  returns = λ xs h. ground (arith, h);
  not_hex = λ xs h. ground (arith, h);
}

take-append : (n : ℕ) (xs ys : Bytes) → n ≤ length xs → take n (xs ++ ys) ≡ take n xs
take-append zero xs ys h = refl
take-append (suc n) [] ys h = elim h [ ]
take-append (suc n) (x ∷ xs) ys h = ap (λ zs. x ∷ zs) (take-append n xs ys (omega (arith, h)))

drop-append : (n : ℕ) (xs ys : Bytes) → n ≤ length xs → drop n (xs ++ ys) ≡ drop n xs ++ ys
drop-append zero xs ys h = refl
drop-append (suc n) [] ys h = elim h [ ]
drop-append (suc n) (x ∷ xs) ys h = drop-append n xs ys (omega (arith, h))

read-IsExtending : (field : Bytes) (n : ℕ) → IsExtending (read field n)
unfolding read
read-IsExtending field n = record {
  extends = λ xs ys v rest h.
      ground (arith, h, length-append xs ys, take-append n xs ys, drop-append n xs ys);
  returns = λ xs h. ground (arith, h);
  not_hex = λ xs h. ground (arith, h);
}

read_number-IsExtending : (field : Bytes) (n : ℕ) → IsExtending (read_number field n)
unfolding read_number
read_number-IsExtending field n =
    bind-IsExtending (read-IsExtending field n) (λ bs. done-IsExtending _)

read_sized-IsExtending :
    (length_field field : Bytes) (n : ℕ) → IsExtending (read_sized length_field field n)
unfolding read_sized
read_sized-IsExtending length_field field n =
    bind-IsExtending (read_number-IsExtending length_field n) (λ size. read-IsExtending field size)

take-append-drop : (n : ℕ) (xs : Bytes) → take n xs ++ drop n xs ≡ xs
take-append-drop zero xs = refl
take-append-drop (suc n) [] = refl
take-append-drop (suc n) (x ∷ xs) = ap (λ zs. x ∷ zs) (take-append-drop n xs)

module _ ⦃h : Sha256⦄ where
  read_tx-IsExtending : IsExtending read_tx
  unfolding read_tx
  read_tx-IsExtending = bind-IsExtending (read_number-IsExtending _ _) λ _.
      bind-IsExtending (read_sized-IsExtending _ _ _) λ _.
        bind-IsExtending (read_sized-IsExtending _ _ _) λ _.
          bind-IsExtending (read_sized-IsExtending _ _ _) λ _.
            bind-IsExtending (read_number-IsExtending _ _) λ _.
              bind-IsExtending (read_number-IsExtending _ _) λ _.
                bind-IsExtending (read_number-IsExtending _ _) λ _.
                  bind-IsExtending (read_sized-IsExtending _ _ _) λ _.
                    bind-IsExtending (read_sized-IsExtending _ _ _)
                      λ _. bind-IsExtending (read_sized-IsExtending _ _ _) λ _. done-IsExtending _

  -- How much is left of the input after a transaction was read.
  left : Outcome TxError (Transaction × Bytes) → ℕ
  left (ok (v, rest)) = length rest
  left (err e) = 0
  left panic = 0

  left-read_tx : (tx : Transaction) → IsSerializable tx → left (read_tx (serialize_tx tx)) ≡ 0
  unfolding left
  left-read_tx tx fits =
      ap (λ w. left (read_tx w)) (sym (append-nil (serialize_tx tx)))
      ∙ rw (read_tx-wire tx [] fits) refl

  whole_left :
      (bs : Bytes) (n : ℕ) (v : Transaction) (rest : Bytes)
      → read_tx (take n bs) ≡ ok (v, rest)
      → left (read_tx bs) ≡ length rest + (length bs - n)
  unfolding left
  whole_left bs n v rest e =
      ap (λ w. left (read_tx w)) (sym (take-append-drop n bs))
      ∙ ap left (read_tx-IsExtending.extends (take n bs) (drop n bs) v rest e)
      ∙ length-append rest (drop n bs)
      ∙ omega (arith, length-drop_enough n bs)

  cut_refused :
      (tx : Transaction) (n : ℕ) (o : Outcome TxError (Transaction × Bytes))
      → IsSerializable tx
      → n < length (serialize_tx tx)
      → read_tx (take n (serialize_tx tx)) ≡ o
      → (field : Bytes) × (o ≡ err (short_read field))
  cut_refused tx n (ok (v, rest)) fits short e =
      ground (arith, left-read_tx tx fits, whole_left (serialize_tx tx) n v rest e)
  cut_refused tx n (err (short_read field)) fits short e = (field, refl)
  cut_refused tx n (err hex_decode) fits short e = elim (read_tx-IsExtending.not_hex _ e) [ ]
  cut_refused tx n panic fits short e = elim (read_tx-IsExtending.returns _ e) [ ]

  -- Every text that is cut short of a transaction whose fields fit the format is refused, with the
  -- error of a read that falls short.
  pub deserialize_tx-take :
      (tx : Transaction) (n : ℕ)
      → IsSerializable tx
      → n < length (serialize_tx tx)
      → (field : Bytes) × (deserialize_tx (take n (serialize_tx tx)) ≡ err (short_read field))
  unfolding deserialize_tx
  deserialize_tx-take tx n fits short =
      let refusal = cut_refused tx n (read_tx (take n (serialize_tx tx))) fits short refl in
      (refusal.0, rw (deserialize_tx, refusal.1) refl)
