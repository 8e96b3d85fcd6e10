-- ===== src/Transfer/Slabs.antt =====
-- src/ftpserver.cpp and src/ftpclient.cpp: what the sending loop sends.
use dfss.Base.{
  ℕ, zero, suc, ◌-◌, ◌≡◌, ◌≤◌, ◌<◌, refl, sym, ap, ◌∙◌, Option, some, [], ◌∷◌, ◌++◌, inl, inr,
  arith, ltb, Bool-cases, length, length-append,
}
use mathlib.Core.List.{append-nil, append_assoc}
use dfss.Text.{Str}
use dfss.Transfer.{fread, send_loop, send_file, zeros}

fread_lem :
    (bytes : Str) (n : ℕ) (file : Str)
    → n ≤ length bytes
    → n ≤ length file
    → (got file' pad : Str) × (fread bytes n file ≡ (got ++ pad, got, file'))
      × (file ≡ got ++ file')
      × (length got ≡ n)
      × (length pad ≡ length bytes - n)
unfolding fread
fread_lem bytes zero file h h' = ([], file, bytes, refl, refl, refl, omega arith)
fread_lem bytes (suc n) [] h h' = absurd (omega arith)
fread_lem [] (suc n) (c ∷ file) h h' = absurd (omega arith)
fread_lem (x ∷ bytes) (suc n) (c ∷ file) h h' =
    let (got, file', pad, e, eq, len, fill) = fread_lem bytes n file (omega arith) (omega arith) in
    (c ∷ got, file', pad, rw e refl, ap (◌∷◌ c) eq, omega arith, omega arith)

length-nil : (s : Str) → length s ≡ 0 → s ≡ []
length-nil [] e = refl
length-nil (c ∷ s) e = absurd (omega arith)

-- What the loop sends: the file, then what was left of the last slab.
abbrev pub Sent : Str → Option Str → Type 0
Sent file o = (pad : Str) × (o ≡ some (file ++ pad)) × (length pad < 256)

send_loop-Sent :
    (fuel r : ℕ) (bytes file : Str)
    → length bytes ≡ 256
    → length file ≡ r
    → r ≤ fuel
    → Sent file (send_loop fuel r bytes file)
unfolding send_loop
send_loop-Sent fuel zero bytes [] h e enough = ([], refl, omega arith)
send_loop-Sent fuel zero bytes (c ∷ file) h e enough = absurd (omega arith)
send_loop-Sent zero (suc r) bytes file h e enough = absurd (omega arith)
send_loop-Sent (suc fuel) (suc r) bytes file h e enough = elim (Bool-cases (ltb (suc r) 256)) [
  | inl small ↦
      let small' : suc r < 256 = ground arith in
      let (got, file', pad, read, eq, len, fill) =
        fread_lem bytes (suc r) file (omega arith) (omega arith) in
      let done : suc r - length got ≡ 0 = omega arith in
      let whole : got ≡ file = sym (
        eq
        ∙ ap (λ f. got ++ f)
            (length-nil file' (omega (arith, ap length eq, length-append got file')))
        ∙ append-nil got) in
      (
        pad,
        rw (small, read, done) (ap some (append-nil (got ++ pad) ∙ ap (λ f. f ++ pad) whole)),
        omega arith,
      )
  | inr big ↦
      let big' : 256 ≤ suc r = ground arith in
      let (got, file', pad, read, eq, len, fill) =
        fread_lem bytes 256 file (omega arith) (omega arith) in
      let rest : length file' ≡ suc r - length got =
        omega (arith, ap length eq, length-append got file') in
      let (pad', out, short) =
        send_loop-Sent fuel (suc r - length got) (got ++ pad) file'
          (omega (arith, length-append got pad)) rest (omega arith) in
      let none_left : got ++ pad ≡ got =
        ap (λ p. got ++ p) (length-nil pad (omega arith)) ∙ append-nil got in
      (
        pad',
        rw (big, read, out)
            (ap some (
              ap (λ g. g ++ (file' ++ pad')) none_left
              ∙ sym (append_assoc got file' pad')
              ∙ ap (λ f. f ++ pad') (sym eq))),
        short,
      )
]

length-zeros : (n : ℕ) → length (zeros n) ≡ n
unfolding zeros
length-zeros zero = refl
length-zeros (suc n) = omega (arith, length-zeros n)

-- The sender's loop ends on every file, with as many rounds as bytes at most; it sends the file and
-- less than 256 bytes after it.
pub send_file-Sent : (file : Str) → Sent file (send_file file)
unfolding send_file
send_file-Sent file =
    send_loop-Sent (length file) (length file) (zeros 256) file (length-zeros 256) refl
      (omega arith)
