-- ===== src/Transfer/Roundtrip.antt =====
-- src/ftpserver.cpp and src/ftpclient.cpp: what both loops make of the bytes of a file.
use dfss.Base.{◌≡◌, ◌≤◌, refl, sym, ap, ◌∙◌, some, [], ◌∷◌, ◌++◌, arith, length, length-append}
use mathlib.Core.List.{cons-eq-cons}
use dfss.Text.{Str}
use dfss.Transfer.{Socket, receive_file, send_file}
use dfss.Transfer.Receive.{Delivers, receive-prefix}
use dfss.Transfer.Slabs.{send_file-Sent}

-- The start of a file: what is missing of it is less than 256 bytes.
abbrev pub CutShort : Str → Str → Type 0
CutShort file got = (lost : Str) × (file ≡ got ++ lost) × (length lost ≤ 255)

start_of :
    (file pad got rest : Str)
    → file ++ pad ≡ got ++ rest
    → length got ≤ length file
    → (lost : Str) × (file ≡ got ++ lost)
start_of file pad [] rest e h = (file, refl)
start_of [] pad (y ∷ got) rest e h = absurd (omega arith)
start_of (x ∷ file) pad (y ∷ got) rest e h =
    let (head, tail) = cons-eq-cons.0 e in
    let (lost, more) = start_of file pad got rest tail (omega arith) in (lost, cc)

-- On a socket that delivers: if the stream holds what the sender's loop sends for a file, then the
-- receiver's loop, given the size of the file, ends, and writes the file but for at most 255 bytes
-- at its end.
pub transfer-CutShort :
    (k : Socket) (file sent : Str) (s : k.State)
    → Delivers k
    → send_file file ≡ some sent
    → k.pending s ≡ sent
    → (got : Str) × (s' : k.State) × (receive_file k (length file) s ≡ some (got, s'))
      × CutShort file got
transfer-CutShort k file sent s d e stream =
    let (pad, out, short) = send_file-Sent file in
    let same : k.pending s ≡ file ++ pad = cc in
    let (got, s', run, next, most, least) =
      receive-prefix k (length file) s d (omega (arith, ap length same, length-append file pad)) in
    let (lost, split) = start_of file pad got (k.pending s') (sym same ∙ next) most in
    (got, s', run, (lost, split, omega (arith, ap length split, length-append got lost, least)))
