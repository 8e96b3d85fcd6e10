-- ===== src/Ftp.antt =====
-- src/ftpserver.cpp and src/ftpclient.cpp: one request of a file, from both ends of its connection.
-- `none` is an overflow of a buffer of the source, the use of a file that did not open, or an exit
-- by `syserr`. `files` is the file system: the bytes at each path.
pub mod Listing
pub mod Upload
pub mod Download
pub mod Steps
use dfss.Base.{
  ℕ, ◌%◌, Bool, true, false, ◌&&◌, ◌||◌, Option, none, some, List, [], ◌∷◌, ◌++◌, ◌==◌, ltb,
  if◌then◌else◌, length, drop, ◌>>=◌,
}
use dfss.Base.Int.{ℤ, pos, negsuc}
use dfss.Text.{Str, str_eq, codes}
use dfss.Text.Map.{map_find, map_set}
use dfss.Text.Number.{atoi}
use dfss.Text.Decimal.{to_string}
use dfss.Text.Split.{Boost}
use dfss.Datagram.{overwrite, c_string}
use dfss.Transfer.{Socket, receive_file, send_loop, zeros}

-- A text in a `char[256]`, with its byte 0: `strcat` and `sprintf` write past a longer one.
unfoldable pub fits : Str → Option Str
fits text = if ltb (length text) 256 then some text else none

-- `int file_size = ftell(fp)`: 32 bits of the length. A negative size is left out: `fread` would get
-- it as a huge count.
unfoldable pub file_size : Str → Option ℕ
file_size file = let n = length file % 4294967296 in if ltb n 2147483648 then some n else none

-- `sprintf(fileSizeBuffer, "%d", file_size)` in the cleared buffer.
unfoldable pub size_buffer : ℕ → Option Str
unfolding overwrite zeros to_string
size_buffer n = overwrite (to_string n) (zeros 256)

-- `atoi(fileSizeBuffer)`. A negative number is left out: the loop would receive it as a length.
unfoldable pub natural : ℤ → Option ℕ
natural (pos n) = some n
natural (negsuc n) = none

unfoldable pub read_size : Str → Option ℕ
unfolding c_string natural
read_size buffer = do text ← c_string buffer; natural (atoi text)

abbrev pub is_dot : Str → Bool
is_dot name = str_eq name (codes ".") || str_eq name (codes "..")

-- The loop over `readdir` that writes the names.
unfoldable pub ls_loop : Str → List Str → Option Str
unfolding fits
ls_loop text [] = some text
ls_loop text (name ∷ dir) =
    let skipped = ls_loop text dir in
    let written = (do text' ← fits (text ++ (name ++ (b';' ∷ []))); ls_loop text' dir) in
    if is_dot name then skipped else written

unfoldable pub ls_local : List Str → List Str
ls_local [] = []
ls_local (name ∷ dir) = let rest = ls_local dir in if is_dot name then rest else name ∷ rest

-- `files.erase(files.end() - 1)`
unfoldable pub erase_last : List Str → List Str
erase_last [] = []
erase_last (x ∷ []) = []
erase_last (x ∷ y ∷ xs) = x ∷ erase_last (y ∷ xs)

unfoldable pub starts_with : Str → Str → Bool
starts_with [] s = true
starts_with (c ∷ p) [] = false
starts_with (c ∷ p) (d ∷ s) = (d == c) && starts_with p s

abbrev pub FileSystem : Type 0
FileSystem = List (Str × Str)

-- The socket of this end. Each operation gives the messages that it sends, in order.
module _ (k : Socket) (send : k.State → Str → k.State) where
  -- `recv` into a buffer of 256 bytes. An error, which the callers ignore, leaves it as it was.
  unfoldable pub recv_into : Str → k.State → Option (Str × k.State)
  unfolding overwrite
  recv_into buffer s = elim (k.recv s 256) [
    | none ↦ some (buffer, s)
    | some (chunk, s') ↦ do buffer' ← overwrite chunk buffer; some (buffer', s')
  ]

  -- `ls-remote` at the server. `dir` is what `readdir` gives, or `none` if the directory did not open:
  -- then nothing is sent.
  unfoldable pub ls_session :
      Option (List Str) → FileSystem → k.State → Option (List Str × FileSystem × k.State)
  unfolding ls_loop overwrite zeros
  ls_session none files s = some ([], files, s)
  ls_session (some dir) files s = do
    text ← ls_loop [] dir
    msg_buffer ← overwrite text (zeros 256)
    some (msg_buffer ∷ [], files, send s msg_buffer)

  -- `get` at the server.
  unfoldable pub get_session :
      Str → Str → FileSystem → k.State → Option (List Str × FileSystem × k.State)
  unfolding fits file_size size_buffer recv_into send_loop
  get_session folder msg files s = do
    address ← fits (folder ++ drop 4 msg)
    file ← map_find address files
    n ← file_size file
    buffer ← size_buffer n
    (ack, s') ← recv_into buffer (send s buffer)
    slabs ← send_loop n n (zeros 256) file
    some (buffer ∷ slabs ∷ [], files, send s' slabs)

  -- `put` at the server: `msg_buffer` is the whole buffer, `msg` the text in it. After the file a last
  -- packet is received and dropped.
  unfoldable pub put_session :
      Str → Str → Str → FileSystem → k.State → Option (List Str × FileSystem × k.State)
  unfolding fits recv_into read_size receive_file zeros
  put_session folder msg_buffer msg files s = do
    (buffer, s1) ← recv_into (zeros 256) (send s msg_buffer)
    let s2 = send s1 buffer
    n ← read_size buffer
    path ← fits (folder ++ drop 4 msg)
    (file, s3) ← receive_file k n s2
    (lingering, s4) ← recv_into (zeros 256) s3
    some (msg_buffer ∷ buffer ∷ [], map_set path file files, s4)

  -- The child of `fork` that serves a connection: it reads one request and closes the socket.
  -- `msgBuffer[b] = '\0'` is out of range when `recv` fills the buffer.
  unfoldable pub serve :
      Str → Option (List Str) → FileSystem → k.State → Option (List Str × FileSystem × k.State)
  unfolding overwrite c_string ls_session get_session put_session starts_with str_eq zeros
  serve folder dir files s = do
    (chunk, s') ← k.recv s 256
    msg_buffer ← (if length chunk == 256 then none else overwrite chunk (zeros 256))
    msg ← c_string msg_buffer
    (if str_eq msg (codes "exit")
        then some (msg_buffer ∷ [], files, send s' msg_buffer)
        else if str_eq msg (codes "ls-remote")
        then ls_session dir files s'
        else if starts_with (codes "get ") msg
        then get_session folder msg files s'
        else if starts_with (codes "put ") msg
        then put_session folder msg_buffer msg files s'
        else some (msg_buffer ∷ [], files, send s' msg_buffer))

  unfoldable pub upload_file : Str → Str → Str → FileSystem → k.State → Option (List Str × k.State)
  unfolding fits file_size size_buffer recv_into send_loop
  upload_file local_folder file_name new_name files s = do
    change_fname ← fits (codes "put " ++ new_name)
    buffer ← fits (codes "put " ++ file_name)
    name_buffer ← overwrite change_fname (zeros 256)
    (ack, s1) ← recv_into name_buffer (send s change_fname)
    address ← fits (local_folder ++ drop 4 buffer)
    file ← map_find address files
    n ← file_size file
    file_size_buffer ← size_buffer n
    (ack', s2) ← recv_into file_size_buffer (send s1 file_size_buffer)
    slabs ← send_loop n n (zeros 256) file
    some (change_fname ∷ file_size_buffer ∷ slabs ∷ [], send s2 slabs)

  unfoldable pub download_file :
      Str → Str → Str → FileSystem → k.State → Option (List Str × FileSystem × k.State)
  unfolding fits overwrite recv_into read_size receive_file zeros
  download_file local_folder file_name new_name files s = do
    request ← fits (codes "get " ++ file_name)
    buffer ← overwrite request (zeros 256)
    (size, s1) ← recv_into buffer (send s request)
    let s2 = send s1 size
    n ← read_size size
    path ← fits (local_folder ++ new_name)
    (file, s3) ← receive_file k n s2
    some (request ∷ size ∷ [], map_set path file files, s3)

  unfoldable pub list_remote_files : Boost → k.State → Option (List Str)
  unfolding overwrite c_string erase_last zeros
  list_remote_files b s = do
    let request = codes "ls-remote"
    buffer ← overwrite request (zeros 256)
    (chunk, s') ← k.recv (send s request) 256
    buffer' ← overwrite chunk buffer
    text ← c_string buffer'
    some (erase_last (b.split b';' text))
