-- ===== src/Indexer/Abi/Slices.antt =====
-- The part of a list of bytes that stands between two others.
use omniscient.Prelude.{ℕ, ◌+◌, ◌-◌, ◌≡◌, refl, ap, [], ◌∷◌, ◌++◌, length, arith}
use omniscient.Store.{Bytes}
use omniscient.Indexer.{slice, take, drop}

drop-append : (xs ys : Bytes) → drop (length xs) (xs ++ ys) ≡ ys
drop-append [] ys = refl
drop-append (x ∷ xs) ys = drop-append xs ys

take-append : (xs ys : Bytes) → take (length xs) (xs ++ ys) ≡ xs
take-append [] ys = refl
take-append (x ∷ xs) ys = ap (λ (zs : Bytes). x ∷ zs) (take-append xs ys)

pub slice-append :
    (xs ys zs : Bytes) (start end : ℕ)
    → length xs ≡ start
    → start + length ys ≡ end
    → slice start end (xs ++ (ys ++ zs)) ≡ ys
unfolding slice
slice-append xs ys zs start end h k =
    let n : end - start ≡ length ys = omega arith in
    rw (← h) (
      rw (drop-append xs (ys ++ zs))
        (let m : end - length xs ≡ length ys = omega arith in rw m (take-append ys zs)))
