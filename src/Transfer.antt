-- ===== src/Transfer.antt =====
-- src/ftpserver.cpp and src/ftpclient.cpp: the loops that move the bytes of a file, the same in
-- `get`, `put`, `upload_file` and `download_file`. The socket is the operating system's: `Socket`
-- states what `recv` on a stream promises.
pub mod Receive
pub mod Roundtrip
pub mod Slabs
use dfss.Base.{
  ℕ, zero, suc, ◌+◌, ◌-◌, ◌≤◌, ◌<◌, ◌≡◌, Bool, Option, none, some, List, [], ◌∷◌, ◌++◌, ◌==◌, ltb,
  if◌then◌else◌, length, ◌>>=◌,
}
use dfss.Text.{Str}

-- `recv s n` gives a chunk, or `none` for -1. A chunk holds the next bytes of the stream, n at most.
pub record Socket : Type 1 where
  pub State : Type 0
  pub pending : State → Str
  pub recv : State → ℕ → Option (Str × State)
  pub recv_next :
      (s s' : State) (n : ℕ) (chunk : Str)
      → recv s n ≡ some (chunk, s')
      → pending s ≡ chunk ++ pending s'
  pub recv_bound :
      (s s' : State) (n : ℕ) (chunk : Str) → recv s n ≡ some (chunk, s') → length chunk ≤ n

-- `while (remainingData != 0)`, with `fuel` rounds left. A slab of less than 256 bytes is read once:
-- `break` follows. `none` is an error of `recv`, whose -1 goes to `fwrite` as a length, or the end of
-- the fuel.
unfoldable pub receive_loop : (k : Socket) → ℕ → ℕ → Str → k.State → Option (Str × k.State)
receive_loop k fuel zero file s = some (file, s)
receive_loop k zero (suc r) file s = none
receive_loop k (suc fuel) (suc r) file s =
    if ltb (suc r) 256 then (do (buffer, s') ← k.recv s (suc r); some (file ++ buffer, s')) else (do
      (buffer, s') ← k.recv s 256
      receive_loop k fuel (suc r - length buffer) (file ++ buffer) s')

-- `fread(byteArray, 1, n, fp)`: the bytes read over the start of `byteArray`, what they were, and
-- the rest of the file.
unfoldable pub fread : Str → ℕ → Str → Str × Str × Str
fread bytes zero file = (bytes, [], file)
fread bytes (suc n) [] = (bytes, [], [])
fread [] (suc n) (c ∷ file) = ([], [], c ∷ file)
fread (x ∷ bytes) (suc n) (c ∷ file) =
    let (bytes', got, file') = fread bytes n file in (c ∷ bytes', c ∷ got, file')

-- `while (bytesRemaining != 0)`: each round sends all of `byteArray`. `none` is the end of the fuel.
unfoldable pub send_loop : ℕ → ℕ → Str → Str → Option Str
unfolding fread
send_loop fuel zero byte_array file = some []
send_loop zero (suc r) byte_array file = none
send_loop (suc fuel) (suc r) byte_array file =
    let n = (if ltb (suc r) 256 then suc r else 256) in
    let (bytes', got, file') = fread byte_array n file in
    (do rest ← send_loop fuel (suc r - length got) bytes' file'; some (bytes' ++ rest))

-- `char byteArray[256]`, cleared.
unfoldable pub zeros : ℕ → Str
zeros zero = []
zeros (suc n) = 0 ∷ zeros n

unfoldable pub send_file : Str → Option Str
unfolding zeros
send_file file = send_loop (length file) (length file) (zeros 256) file

unfoldable pub receive_file : (k : Socket) → ℕ → k.State → Option (Str × k.State)
receive_file k file_size s = receive_loop k file_size file_size [] s
