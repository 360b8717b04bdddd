-- ===== src/Index/OrderKey/Bytewise.antt =====
-- The order of byte sequences, and how the encodings of numbers and texts keep it.
use Prim.Native.Nat.{Ordering, compare}
use mathlib.Core.List.{append_assoc}
use byte_db.Common.{
  ℕ, zero, suc, ◌/◌, ◌%◌, ◌≡◌, ◌<◌, refl, sym, ap, ◌∙◌, [], ◌∷◌, ◌++◌, length, arith, Bytes,
}
use byte_db.Common.LeBytes.{powers}
use byte_db.Index.OrderKey.{to_be_bytes, encode_var}

abbrev pub then_with : Ordering → Ordering → Ordering
then_with Ordering.eq o = o
then_with Ordering.lt o = Ordering.lt
then_with Ordering.gt o = Ordering.gt

-- `Ord` of byte sequences
abbrev pub lex : Bytes → Bytes → Ordering
lex [] [] = Ordering.eq
lex [] (b ∷ bs) = Ordering.lt
lex (a ∷ xs) [] = Ordering.gt
lex (a ∷ xs) (b ∷ bs) = then_with (compare a b) (lex xs bs)

pub then_with_assoc : (a b c : Ordering) → then_with (then_with a b) c ≡ then_with a (then_with b c)
then_with_assoc Ordering.eq b c = refl
then_with_assoc Ordering.lt b c = refl
then_with_assoc Ordering.gt b c = refl

compare_digits :
    (m n : ℕ) → then_with (compare (m / 256) (n / 256)) (compare (m % 256) (n % 256)) ≡ compare m n
compare_digits m n = ground arith

pub lex-to_be_bytes :
    (w m n : ℕ) (r s : Bytes)
    → m < powers w
    → n < powers w
    → lex (to_be_bytes w m ++ r) (to_be_bytes w n ++ s) ≡ then_with (compare m n) (lex r s)
lex-to_be_bytes zero m n r s hm hn = ground arith
lex-to_be_bytes (suc w) m n r s hm hn =
    rw (append_assoc (to_be_bytes w (m / 256)) (m % 256 ∷ []) r) (
      rw (append_assoc (to_be_bytes w (n / 256)) (n % 256 ∷ []) s) (
        lex-to_be_bytes w (m / 256) (n / 256) (m % 256 ∷ r) (n % 256 ∷ s) (omega arith)
          (omega arith)
        ∙ sym
            (then_with_assoc (compare (m / 256) (n / 256)) (compare (m % 256) (n % 256)) (lex r s))
        ∙ ap (λ o. then_with o (lex r s)) (compare_digits m n)))

pub lex-encode_var :
    (x y r s : Bytes) → lex (encode_var x ++ r) (encode_var y ++ s) ≡ then_with (lex x y) (lex r s)
unfolding encode_var
lex-encode_var [] [] r s = refl
lex-encode_var [] (b ∷ y) r s = ground arith
lex-encode_var (a ∷ x) [] r s = ground arith
lex-encode_var (a ∷ x) (b ∷ y) r s = ground (arith, lex-encode_var x y r s)

-- sequences of one length
pub lex-append :
    (x y r s : Bytes) → length x ≡ length y → lex (x ++ r) (y ++ s) ≡ then_with (lex x y) (lex r s)
lex-append [] [] r s h = refl
lex-append [] (b ∷ y) r s h = absurd (omega (arith, h))
lex-append (a ∷ x) [] r s h = absurd (omega (arith, h))
lex-append (a ∷ x) (b ∷ y) r s h =
    ap (then_with (compare a b)) (lex-append x y r s (omega (arith, h)))
    ∙ sym (then_with_assoc (compare a b) (lex x y) (lex r s))

pub then_with_eq : (a : Ordering) → then_with a Ordering.eq ≡ a
then_with_eq Ordering.eq = refl
then_with_eq Ordering.lt = refl
then_with_eq Ordering.gt = refl
