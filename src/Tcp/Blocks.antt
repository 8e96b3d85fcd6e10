-- ===== src/Tcp/Blocks.antt =====
-- src/com.hpp and src/com.cpp: how many reads a connection makes.
use dfss.Base.{
  ℕ, zero, suc, ◌+◌, ◌-◌, ◌/◌, ◌≤◌, ◌<◌, ◌≡◌, refl, sym, ap, ◌∙◌, true, false, Bool-cases, inl, inr,
  none, some, List, [], ◌∷◌, ◌++◌, arith, ltb, length, drop,
}
use dfss.Base.Int.{ℤ, pos, eqb_ℤ}
use dfss.Text.{Str}
use dfss.Text.Number.{is_digit, converts, string_to_int}
use dfss.Text.Decimal.{to_string, Ends, atoi-to_string, to_string-starts}
use dfss.Tcp.{block_count, tcp_send_file, tcp_connection, start, run}

converts_digit : (c : ℕ) (s : Str) → is_digit c ≡ true → converts (c ∷ s) ≡ true
unfolding converts
converts_digit c s d = ground arith

pub string_to_int-to_string :
    (n : ℕ) (rest : Str) → Ends rest → string_to_int (to_string n ++ rest) ≡ some (pos n)
unfolding string_to_int
string_to_int-to_string n rest h =
    let (c, s, e, d) = to_string-starts n rest in
    rw (ap converts e ∙ converts_digit c s d, atoi-to_string n rest h) refl

start-next :
    (contents : Str) (i : ℕ) (total : ℤ)
    → 0 < i
    → start contents (record { seq = i; total_blocks = total })
      ≡ some (record { seq = suc i; total_blocks = total })
unfolding start
start-next contents zero total more = absurd (omega arith)
start-next contents (suc i) total more = ground arith

-- With `i` reads made and `n` to make in all.
run-rest :
    (n i : ℕ) (reads : List Str)
    → 0 < i
    → i < n
    → n ≤ i + length reads
    → run reads (record { seq = i; total_blocks = pos n })
      ≡ some (record { seq = n; total_blocks = pos n }, drop (n - i) reads)
unfolding run
run-rest n i [] more less enough = absurd (omega arith)
run-rest n i (contents ∷ reads) more less enough = elim (Bool-cases (eqb_ℤ (pos (suc i)) (pos n))) [
  | inl last ↦
      let same : suc i ≡ n = ground arith in
      let one : 1 ≡ n - i = omega arith in
      rw (start-next contents i (pos n) more, last)
        (ap (λ m. some (record { seq = m; total_blocks = pos n }, reads)) same
          ∙ ap (λ k. some (record { seq = n; total_blocks = pos n }, drop k (contents ∷ reads)))
              one)
  | inr other ↦
      let apart : suc i < n = ground arith in
      let more_left : suc (n - suc i) ≡ n - i = omega arith in
      rw (start-next contents i (pos n) more, other)
        (run-rest n (suc i) reads (omega arith) apart (omega arith)
          ∙ ap (λ k. some (record { seq = n; total_blocks = pos n }, drop k (contents ∷ reads)))
              more_left)
]

-- The connection that reads what `tcp_send_file` writes takes the number of blocks from it, if the
-- message does not start with a digit and an `int` holds the number: given that many reads, it
-- ends after exactly `file_size / 100000 + 2` of them, whatever the others give.
pub blocks-counted :
    (message contents : Str) (file_size n : ℕ) (reads : List Str)
    → Ends message
    → tcp_send_file message file_size ≡ some contents
    → block_count file_size ≡ some n
    → n ≤ suc (length reads)
    → run (contents ∷ reads) tcp_connection
      ≡ some (record { seq = n; total_blocks = pos n }, drop (n - 1) reads)
unfolding run start block_count tcp_send_file
blocks-counted message contents file_size n reads ends sent counted enough =
    elim (Bool-cases (ltb (file_size / 100000 + 2) 2147483648)) [
      | inl fits ↦
          let count : file_size / 100000 + 2 ≡ n = ground arith in
          let text : to_string (file_size / 100000 + 2) ++ message ≡ contents = cc in
          let parsed : string_to_int contents ≡ some (pos n) =
            ap string_to_int (sym text)
            ∙ string_to_int-to_string (file_size / 100000 + 2) message ends
            ∙ ap (λ k. some (pos k)) count in
          rw (parsed, more_than_one n (omega arith))
            (run-rest n 1 reads (omega arith) (omega arith) (omega arith))
      | inr large ↦ absurd (none-ne (rw large at counted))
    ]
  where
    more_than_one : (k : ℕ) → 1 < k → eqb_ℤ (pos 1) (pos k) ≡ false
    more_than_one k h = ground arith

    none-ne : none ≡ some n → ⊥
    none-ne e = cc
