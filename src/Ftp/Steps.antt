-- ===== src/Ftp/Steps.antt =====
-- src/ftpserver.cpp and src/ftpclient.cpp: the buffers and the calls of `recv` of one request.
use dfss.Base.{
  ℕ, zero, suc, ◌≤◌, ◌<◌, ◌≡◌, refl, sym, ap, ◌∙◌, subst, false, Option, none, some, List, [], ◌∷◌,
  arith, ◌==◌, length, replicate, length-replicate,
}
use mathlib.Core.List.{append-nil}
use dfss.Base.Int.{pos}
use dfss.Text.{Str}
use dfss.Text.Number.{atoi}
use dfss.Text.Decimal.{to_string, atoi-to_string}
use dfss.Text.Digits.{length-to_string, to_string_free}
use dfss.Datagram.{overwrite}
use dfss.Datagram.Delivery.{padded, overwrite-zeros, overwrite_whole, c_string-padded}
use dfss.Transfer.{Socket, zeros}
use dfss.Ftp.{fits, file_size, size_buffer, natural, read_size, recv_into}

pub fits_short : (text : Str) → length text < 256 → fits text ≡ some text
unfolding fits
fits_short text h = ground arith

pub file_size_lem : (file : Str) → length file < 2147483648 → file_size file ≡ some (length file)
unfolding file_size
file_size_lem file h = ground arith

zeros-replicate : (n : ℕ) → zeros n ≡ replicate n 0
unfolding zeros replicate
zeros-replicate zero = refl
zeros-replicate (suc n) = ap (◌∷◌ 0) (zeros-replicate n)

pub length-zeros : length (zeros 256) ≡ 256
length-zeros = ap length (zeros-replicate 256) ∙ length-replicate {A = ℕ} 256 0

pub overwrite-clear : (s : Str) → length s ≤ 256 → overwrite s (zeros 256) ≡ some (padded 256 s)
overwrite-clear s h = ap (overwrite s) (zeros-replicate 256) ∙ overwrite-zeros 256 s h

pub size_buffer_lem : (n : ℕ) → n < 2147483648 → size_buffer n ≡ some (padded 256 (to_string n))
unfolding size_buffer
size_buffer_lem n h = overwrite-clear (to_string n) (omega (arith, length-to_string n h))

atoi_lem : (n : ℕ) → atoi (to_string n) ≡ pos n
atoi_lem n = ap atoi (sym (append-nil (to_string n))) ∙ atoi-to_string n [] tt

-- The size that one end writes is the size that the other end reads.
pub read_size-padded : (n : ℕ) → n < 2147483648 → read_size (padded 256 (to_string n)) ≡ some n
unfolding read_size natural
read_size-padded n h =
    rw (c_string-padded 256 (to_string n) (to_string_free n) (omega (arith, length-to_string n h)))
      (ap natural (atoi_lem n))

overwrite-some :
    (s buf : Str)
    → length s ≤ length buf
    → (out : Str) × (overwrite s buf ≡ some out) × (length out ≡ length buf)
unfolding overwrite
overwrite-some [] buf h = (buf, refl, refl)
overwrite-some (c ∷ s) [] h = absurd (omega arith)
overwrite-some (c ∷ s) (x ∷ buf) h =
    let (out, e, l) = overwrite-some s buf (omega arith) in (c ∷ out, rw e refl, ap suc l)

-- The next message comes in one piece: one `recv` gives all of `m`, and nothing is behind it yet. A
-- stream does not promise this of a message; it is a condition on a run.
abbrev pub InOnePiece : (k : Socket) → k.State → Str → Type 0
InOnePiece k s m = (s' : k.State) × (k.recv s 256 ≡ some (m, s')) × (k.pending s' ≡ [])

module _ (k : Socket) where
  module _ (send : k.State → Str → k.State) where
    pub recv_into-some :
        (buffer : Str) (s : k.State)
        → length buffer ≡ 256
        → (out : Str) × (s' : k.State) × (recv_into k send buffer s ≡ some (out, s'))
    unfolding recv_into
    recv_into-some buffer s size = by_chunk (k.recv s 256) refl
      where
        by_chunk :
            (o : Option (Str × k.State))
            → k.recv s 256 ≡ o
            → (out : Str) × (s' : k.State) × (recv_into k send buffer s ≡ some (out, s'))
        by_chunk none e = (buffer, s, rw (recv_into, e) refl)
        by_chunk (some (chunk, s')) e =
            let (out, over, l) =
              overwrite-some chunk buffer (omega (arith, k.recv_bound s s' 256 chunk e)) in
            (out, s', rw (recv_into, e, over) refl)

    pub recv_into-whole :
        (buffer m : Str) (s : k.State)
        → length buffer ≡ 256
        → length m ≡ 256
        → InOnePiece k s m
        → (s' : k.State) × (recv_into k send buffer s ≡ some (m, s')) × (k.pending s' ≡ [])
    unfolding recv_into
    recv_into-whole buffer m s size full (s', e, rest) =
        (s', rw (recv_into, e, overwrite_whole m buffer (full ∙ sym size)) refl, rest)

-- Whenever one end has sent `m` on a connection with nothing to receive, the other end answers `n`.
abbrev pub Answers : (k : Socket) → (k.State → Str → k.State) → Str → Str → Type 0
Answers k send m n = (s : k.State) → k.pending s ≡ [] → k.pending (send s m) ≡ n

-- The same, where the answer comes in one piece.
abbrev pub AnswersWhole : (k : Socket) → (k.State → Str → k.State) → Str → Str → Type 0
AnswersWhole k send m n = (s : k.State) → k.pending s ≡ [] → InOnePiece k (send s m) n

-- The request does not fill the buffer.
pub sent_short : (m : Str) → length m < 256 → (length m == 256) ≡ false
sent_short m h = ground arith

pub one_message :
    {F S : Type 0} {a a' : Str} {f f' : F} {t t' : S}
    → ◌≡◌ {A = Option (List Str × F × S)} (some (a ∷ [], f, t)) (some (a' ∷ [], f', t'))
    → a ≡ a'
one_message e = cc

pub two_messages :
    {F S : Type 0} {a b a' b' : Str} {f f' : F} {t t' : S}
    → ◌≡◌ {A = Option (List Str × F × S)} (some (a ∷ b ∷ [], f, t)) (some (a' ∷ b' ∷ [], f', t'))
    → (a ≡ a') × (b ≡ b')
two_messages e = (cc, cc)

pub three_messages :
    {S : Type 0} {a b c a' b' c' : Str} {t t' : S}
    → ◌≡◌ {A = Option (List Str × S)} (some (a ∷ b ∷ c ∷ [], t)) (some (a' ∷ b' ∷ c' ∷ [], t'))
    → (a ≡ a') × (b ≡ b') × (c ≡ c')
three_messages e = (cc, cc, cc)

pub subst2 : (P : Str → Str → Type 0) {m m' n n' : Str} → m ≡ m' → n ≡ n' → P m n → P m' n'
subst2 P {m' = m'} {n = n} e f x = subst (λ t. P m' t) f (subst (λ t. P t n) e x)
