-- ===== src/Text/Digits.antt =====
-- The length of a decimal number, and that it holds no byte 0.
use dfss.Base.{
  ℕ, zero, suc, ◌+◌, ◌*◌, ◌/◌, ◌%◌, ◌≤◌, ◌<◌, ◌≡◌, refl, false, [], ◌∷◌, arith, ltb, Bool-cases,
  inl, inr, length,
}
use dfss.Text.{Str}
use dfss.Text.Split.{has_byte}
use dfss.Text.Decimal.{digits_of, to_string}

abbrev pow10 : ℕ → ℕ
pow10 zero = 1
pow10 (suc k) = 10 * pow10 k

length-digits_of :
    (k f n : ℕ) (out : Str) → n < 10 * pow10 k → length (digits_of f n out) ≤ suc k + length out
unfolding digits_of
length-digits_of k zero n out h = omega arith
length-digits_of zero (suc f) n out h = ground arith
length-digits_of (suc k) (suc f) n out h =
    let rest = length-digits_of k f (n / 10) ((b'0' + n % 10) ∷ out) (omega arith) in
    elim (Bool-cases (ltb n 10)) [
      | inl small ↦ rw small (omega arith)
      | inr big ↦ rw big (omega arith)
    ]

digits_of_free :
    (f n : ℕ) (out : Str) → has_byte 0 out ≡ false → has_byte 0 (digits_of f n out) ≡ false
unfolding digits_of
digits_of_free zero n out h = h
digits_of_free (suc f) n out h = elim (Bool-cases (ltb n 10)) [
  | inl small ↦ rw small (ground arith)
  | inr big ↦ rw big (digits_of_free f (n / 10) ((b'0' + n % 10) ∷ out) (ground arith))
]

-- An `int` has ten digits at most.
pub length-to_string : (n : ℕ) → n < 2147483648 → length (to_string n) ≤ 10
unfolding to_string
length-to_string n h = length-digits_of 9 (suc n) n [] (omega arith)

pub to_string_free : (n : ℕ) → has_byte 0 (to_string n) ≡ false
unfolding to_string
to_string_free n = digits_of_free (suc n) n [] refl
