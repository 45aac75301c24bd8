-- ===== src/Pdu/RawId/Bytes.antt =====
-- Words as big-endian bytes: read back, and ordered like the words.
use Prim.Native.Nat.{compare, Ordering}
use arcana_server.Common.{
  ℕ, zero, suc, ◌+◌, ◌*◌, ◌/◌, ◌%◌, ◌<◌, ◌≡◌, refl, ◌∙◌, [], ◌∷◌, ◌++◌, arith, length,
  length-append, then_cmp,
}
use arcana_server.Pdu.RawId.{Bytes, be_bytes, from_be_bytes, take, drop}

-- the words of `width` bytes
abbrev pub bound : ℕ → ℕ
bound zero = 1
bound (suc width) = bound width * 256

pub length-be_bytes : (width n : ℕ) → length (be_bytes width n) ≡ width
unfolding be_bytes
length-be_bytes zero n = refl
length-be_bytes (suc width) n = ground (
  arith,
  length-append (be_bytes width (n / 256)) (n % 256 ∷ []),
  length-be_bytes width (n / 256),
)

from_be_bytes-append :
    (high : ℕ) (xs : Bytes) (byte : ℕ)
    → from_be_bytes high (xs ++ (byte ∷ [])) ≡ from_be_bytes high xs * 256 + byte
unfolding from_be_bytes
from_be_bytes-append high [] byte = refl
from_be_bytes-append high (x ∷ xs) byte = from_be_bytes-append (high * 256 + x) xs byte

pub from_be_bytes-be_bytes :
    (width n : ℕ) → n < bound width → from_be_bytes 0 (be_bytes width n) ≡ n
unfolding from_be_bytes be_bytes
from_be_bytes-be_bytes zero n h = omega arith
from_be_bytes-be_bytes (suc width) n h =
    let read = from_be_bytes-be_bytes width (n / 256) (omega (arith, h)) in
    let last = from_be_bytes-append 0 (be_bytes width (n / 256)) (n % 256) in
    omega (arith, read, last)

pub take-append :
    (n : ℕ) (xs ys : Bytes) → length xs ≡ n → (take n (xs ++ ys) ≡ xs) × (drop n (xs ++ ys) ≡ ys)
take-append zero [] ys h = (refl, refl)
take-append zero (x ∷ xs) ys h = absurd (omega (arith, h))
take-append (suc n) [] ys h = absurd (omega (arith, h))
take-append (suc n) (x ∷ xs) ys h = ground (arith, take-append n xs ys)

-- `Ord` of byte slices
abbrev pub cmp_bytes : Bytes → Bytes → Ordering
cmp_bytes [] [] = Ordering.eq
cmp_bytes [] (y ∷ ys) = Ordering.lt
cmp_bytes (x ∷ xs) [] = Ordering.gt
cmp_bytes (x ∷ xs) (y ∷ ys) = then_cmp (compare x y) (cmp_bytes xs ys)

pub cmp_bytes-append :
    (xs ys us vs : Bytes)
    → length xs ≡ length ys
    → cmp_bytes (xs ++ us) (ys ++ vs) ≡ then_cmp (cmp_bytes xs ys) (cmp_bytes us vs)
cmp_bytes-append [] [] us vs h = refl
cmp_bytes-append [] (y ∷ ys) us vs h = absurd (omega (arith, h))
cmp_bytes-append (x ∷ xs) [] us vs h = absurd (omega (arith, h))
cmp_bytes-append (x ∷ xs) (y ∷ ys) us vs h = ground (arith, cmp_bytes-append xs ys us vs)

pub cmp_bytes-be_bytes :
    (width n m : ℕ)
    → n < bound width
    → m < bound width
    → cmp_bytes (be_bytes width n) (be_bytes width m) ≡ compare n m
unfolding be_bytes
cmp_bytes-be_bytes zero n m hn hm = ground arith
cmp_bytes-be_bytes (suc width) n m hn hm =
    let first =
      cmp_bytes-be_bytes width (n / 256) (m / 256) (omega (arith, hn)) (omega (arith, hm)) in
    let split =
      cmp_bytes-append (be_bytes width (n / 256)) (be_bytes width (m / 256)) (n % 256 ∷ [])
        (m % 256 ∷ [])
        (length-be_bytes width (n / 256) ∙ omega (arith, length-be_bytes width (m / 256))) in
    ground (arith, first, split)

pub cmp_bytes_refl : (xs : Bytes) → cmp_bytes xs xs ≡ Ordering.eq
cmp_bytes_refl [] = refl
cmp_bytes_refl (x ∷ xs) = ground (arith, cmp_bytes_refl xs)
