-- ===== src/Text/Decimal.antt =====
-- `std::to_string` and `sprintf("%d")` of the C and C++ libraries, for numbers from 0 on.
use dfss.Base.{
  ℕ, zero, suc, ◌+◌, ◌-◌, ◌*◌, ◌/◌, ◌%◌, ◌<◌, ◌≡◌, refl, sym, ap, ◌∙◌, true, false, [], ◌∷◌, ◌++◌,
  arith, ltb, if◌then◌else◌, Bool-cases, inl, inr,
}
use dfss.Base.Int.{pos}
use dfss.Text.{Str}
use dfss.Text.Number.{is_digit, digits, signed, atoi}

-- The digits of `n` before `out`, with fuel for `n + 1` of them.
unfoldable pub digits_of : ℕ → ℕ → Str → Str
digits_of zero n out = out
digits_of (suc f) n out =
    let rest = digits_of f (n / 10) ((b'0' + n % 10) ∷ out) in
    if ltb n 10 then (b'0' + n) ∷ out else rest

unfoldable pub to_string : ℕ → Str
unfolding digits_of
to_string n = digits_of (suc n) n []

digits_of-append :
    (f n : ℕ) (out rest : Str) → digits_of f n out ++ rest ≡ digits_of f n (out ++ rest)
unfolding digits_of
digits_of-append zero n out rest = refl
digits_of-append (suc f) n out rest = elim (Bool-cases (ltb n 10)) [
  | inl small ↦ rw small refl
  | inr big ↦ rw big (digits_of-append f (n / 10) ((b'0' + n % 10) ∷ out) rest)
]

digit_step :
    (m c : ℕ) (s : Str) (n : ℕ)
    → is_digit c ≡ true
    → 10 * m + (c - b'0') ≡ n
    → digits m (c ∷ s) ≡ digits n s
unfolding digits
digit_step m c s n d e = rw (d, e) refl

digits-digits_of : (f n : ℕ) (out : Str) → n < f → digits 0 (digits_of f n out) ≡ digits n out
unfolding digits_of digits
digits-digits_of zero n out h = absurd (omega arith)
digits-digits_of (suc f) n out h = elim (Bool-cases (ltb n 10)) [
  | inl small ↦ rw small (digit_step 0 (b'0' + n) out n (ground arith) (omega arith))
  | inr big ↦ rw big (
      digits-digits_of f (n / 10) ((b'0' + n % 10) ∷ out) (ground arith)
      ∙ digit_step (n / 10) (b'0' + n % 10) out n (ground arith) (omega arith))
]

-- The first byte is a digit.
starts :
    (f n : ℕ) (out : Str)
    → n < f
    → (c : ℕ) × (s : Str) × (digits_of f n out ≡ c ∷ s) × (is_digit c ≡ true)
unfolding digits_of
starts zero n out h = absurd (omega arith)
starts (suc f) n out h = elim (Bool-cases (ltb n 10)) [
  | inl small ↦ (b'0' + n, out, rw small refl, ground arith)
  | inr big ↦
      let (c, s, e, d) = starts f (n / 10) ((b'0' + n % 10) ∷ out) (ground arith) in
      (c, s, rw big e, d)
]

atoi_digit : (c : ℕ) (s : Str) → is_digit c ≡ true → atoi (c ∷ s) ≡ pos (digits 0 (c ∷ s))
unfolding atoi signed
atoi_digit c s d = ground arith

-- What follows the digits does not start with a digit.
abbrev pub Ends : Str → Type 0
Ends [] = Unit {0}
Ends (c ∷ s) = is_digit c ≡ false

digits_end : (n : ℕ) (rest : Str) → Ends rest → digits n rest ≡ n
unfolding digits
digits_end n [] h = refl
digits_end n (c ∷ s) h = rw h refl

-- A number starts with a digit.
pub to_string-starts :
    (n : ℕ) (rest : Str) → (c : ℕ) × (s : Str) × (to_string n ++ rest ≡ c ∷ s) × (is_digit c ≡ true)
unfolding to_string
to_string-starts n rest =
    let (c, s, e, d) = starts (suc n) n rest (omega arith) in
    (c, s, digits_of-append (suc n) n [] rest ∙ e, d)

pub atoi-to_string : (n : ℕ) (rest : Str) → Ends rest → atoi (to_string n ++ rest) ≡ pos n
unfolding to_string
atoi-to_string n rest h =
    let (c, s, e, d) = starts (suc n) n rest (omega arith) in
    ap atoi (digits_of-append (suc n) n [] rest)
    ∙ ap atoi e
    ∙ atoi_digit c s d
    ∙ ap (λ t. pos (digits 0 t)) (sym e)
    ∙ ap pos (digits-digits_of (suc n) n rest (omega arith) ∙ digits_end n rest h)
