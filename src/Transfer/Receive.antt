-- ===== src/Transfer/Receive.antt =====
-- src/ftpserver.cpp and src/ftpclient.cpp: what the receiving loop writes.
use dfss.Base.{
  ℕ, zero, suc, ◌+◌, ◌-◌, ◌≡◌, ◌≤◌, ◌<◌, refl, sym, ap, ◌∙◌, Option, none, some, false, [], ◌++◌,
  inl, inr, arith, ltb, Bool-cases, Option-cases, length, length-append,
}
use mathlib.Core.List.{append-nil, append_assoc}
use dfss.Text.{Str}
use dfss.Transfer.{Socket, receive_loop, receive_file}

-- While the stream holds bytes, `recv` gives at least one.
abbrev pub Delivers : Socket → Type 0
Delivers k =
    (s : k.State) (n : ℕ)
    → 0 < n
    → 0 < length (k.pending s)
    → (chunk : Str) × (s' : k.State) × (k.recv s n ≡ some (chunk, s')) × (0 < length chunk)

-- What a run of the loop with `r` bytes to go adds to `file`.
abbrev pub Received : (k : Socket) → ℕ → Str → k.State → Option (Str × k.State) → Type 0
Received k r file s o =
    (got : Str) × (s' : k.State) × (o ≡ some (file ++ got, s'))
    × (k.pending s ≡ got ++ k.pending s')
    × (length got ≤ r)
    × (r ≤ length got + 255)

receive_loop-Received :
    (k : Socket)
    → Delivers k
    → (fuel r : ℕ) (file : Str) (s : k.State) → r ≤ fuel
    → r ≤ length (k.pending s)
    → Received k r file s (receive_loop k fuel r file s)
unfolding receive_loop
receive_loop-Received k d fuel zero file s enough there =
    ([], s, ap (λ f. some (f, s)) (sym (append-nil file)), refl, omega arith, omega arith)
receive_loop-Received k d zero (suc r) file s enough there = absurd (omega arith)
receive_loop-Received k d (suc fuel) (suc r) file s enough there =
    elim (Bool-cases (ltb (suc r) 256)) [
      | inl small ↦
          let (chunk, s', e, more) = d s (suc r) (omega arith) (omega arith) in
          (
            chunk,
            s',
            rw (small, e) refl,
            k.recv_next s s' (suc r) chunk e,
            k.recv_bound s s' (suc r) chunk e,
            ground arith,
          )
      | inr big ↦
          let (chunk, s', e, more) = d s 256 (omega arith) (omega arith) in
          let big' : 256 ≤ suc r = ground arith in
          let bound = k.recv_bound s s' 256 chunk e in
          let after =
            ap length (k.recv_next s s' 256 chunk e) ∙ length-append chunk (k.pending s') in
          let (got, s'', out, next, most, least) =
            receive_loop-Received k d fuel (suc r - length chunk) (file ++ chunk) s' (omega arith)
              (omega arith) in
          (
            chunk ++ got,
            s'',
            rw (big, e) (out ∙ ap (λ f. some (f, s'')) (append_assoc file chunk got)),
            k.recv_next s s' 256 chunk e
                ∙ ap (λ p. chunk ++ p) next
                ∙ sym (append_assoc chunk got (k.pending s'')),
            omega (arith, length-append chunk got),
            omega (arith, length-append chunk got),
          )
    ]

-- On a socket that delivers, if the stream holds as many bytes as were announced, the receiver's
-- loop ends, with at most as many rounds as bytes, however `recv` cuts the stream up. It
-- writes a prefix of the stream, never more bytes than announced, and at most 255 fewer.
pub receive-prefix :
    (k : Socket) (file_size : ℕ) (s : k.State)
    → Delivers k
    → file_size ≤ length (k.pending s)
    → Received k file_size [] s (receive_file k file_size s)
unfolding receive_file
receive-prefix k file_size s d there =
    receive_loop-Received k d file_size file_size [] s (omega arith) there

-- If the stream ends 256 bytes or more short of what is still to come, the receiver's loop never gets
-- to its end: no number of rounds is enough, however `recv` cuts the stream up.
pub receive_loop-endless :
    (k : Socket) (fuel r : ℕ) (file : Str) (s : k.State)
    → length (k.pending s) + 256 ≤ r
    → receive_loop k fuel r file s ≡ none
unfolding receive_loop
receive_loop-endless k fuel zero file s short = absurd (omega arith)
receive_loop-endless k zero (suc r) file s short = refl
receive_loop-endless k (suc fuel) (suc r) file s short =
    let big : ltb (suc r) 256 ≡ false = ground arith in
    elim (Option-cases (k.recv s 256)) [
      | inl e ↦ rw (big, e) refl
      | inr ((chunk, s'), e) ↦
          let after =
            ap length (k.recv_next s s' 256 chunk e) ∙ length-append chunk (k.pending s') in
          rw (big, e)
            (receive_loop-endless k fuel (suc r - length chunk) (file ++ chunk) s' (omega arith))
    ]
