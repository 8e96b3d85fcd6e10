-- ===== src/Examples/Streams.antt =====
-- A socket that gives all it was asked for, as src/ftpserver.cpp and src/ftpclient.cpp use it.
use dfss.Base.{◌≡◌, ◌≤◌, ◌<◌, refl, ap, subst, some, [], ◌∷◌, ◌++◌, arith, ℕ, zero, suc, length}
use dfss.Ftp.Steps.{InOnePiece}
use dfss.Text.{Str}
use dfss.Transfer.{Socket}
use dfss.Transfer.Receive.{Delivers}

unfoldable pub front : ℕ → Str → Str
front zero s = []
front (suc n) [] = []
front (suc n) (c ∷ s) = c ∷ front n s

unfoldable pub back : ℕ → Str → Str
back zero s = s
back (suc n) [] = []
back (suc n) (c ∷ s) = back n s

pub front-back : (n : ℕ) (s : Str) → s ≡ front n s ++ back n s
unfolding front back
front-back zero s = refl
front-back (suc n) [] = refl
front-back (suc n) (c ∷ s) = ap (◌∷◌ c) (front-back n s)

pub length-front : (n : ℕ) (s : Str) → length (front n s) ≤ n
unfolding front
length-front zero s = omega arith
length-front (suc n) [] = omega arith
length-front (suc n) (c ∷ s) = omega (arith, length-front n s)

abbrev pub stream : Socket
stream = record {
  State = Str;
  pending = λ s. s;
  recv = λ s n. some (front n s, back n s);
  recv_next = λ s s' n chunk e. let whole = front-back n s in cc;
  recv_bound = λ s s' n chunk e.
      let bound = length-front n s in
      let same : front n s ≡ chunk = cc in subst (λ c. length c ≤ n) same bound;
}

front-some : (n : ℕ) (s : Str) → 0 < n → 0 < length s → 0 < length (front n s)
unfolding front
front-some n [] h there = absurd (omega arith)
front-some zero (c ∷ s) h there = absurd (omega arith)
front-some (suc n) (c ∷ s) h there = omega arith

pub stream-Delivers : Delivers stream
stream-Delivers s n h there = (front n s, back n s, refl, front-some n s h there)

front-short : (n : ℕ) (s : Str) → length s ≤ n → (front n s ≡ s) × (back n s ≡ [])
unfolding front back
front-short zero [] h = (refl, refl)
front-short zero (c ∷ s) h = absurd (omega arith)
front-short (suc n) [] h = (refl, refl)
front-short (suc n) (c ∷ s) h =
    let (whole, rest) = front-short n s (omega arith) in (ap (◌∷◌ c) whole, rest)

pub stream-InOnePiece : (m : Str) → length m ≤ 256 → InOnePiece stream m m
stream-InOnePiece m h = let (whole, rest) = front-short 256 m h in (back 256 m, rw whole refl, rest)
