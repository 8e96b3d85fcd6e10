-- ===== src/Examples/Ftp.antt =====
-- `upload_file`, `download_file` and `list_remote_files` of src/ftpclient.cpp with a server of
-- src/ftpserver.cpp at the other end.
use dfss.Base.{
  ◌≡◌, ◌≤◌, ◌<◌, refl, none, some, List, [], ◌∷◌, ◌++◌, arith, replicate, length, if◌then◌else◌,
}
use dfss.Datagram.Delivery.{padded, length-padded}
use dfss.Examples.Files.{file}
use dfss.Examples.Streams.{stream, stream-Delivers, stream-InOnePiece}
use dfss.Ftp.{
  FileSystem, serve, starts_with, upload_file, download_file, list_remote_files, ls_local,
}
use dfss.Ftp.Steps.{Answers, AnswersWhole, InOnePiece}
use dfss.Ftp.Listing.{ls-sends, remote-local, ls_too_long}
use dfss.Ftp.Upload.{Uploads, upload_file-sends, upload-stored}
use dfss.Ftp.Download.{Downloads, get-sends, download-stored}
use dfss.Text.{Str, str_eq, codes}
use dfss.Text.Decimal.{to_string, digits_of}
use dfss.Text.Digits.{length-to_string}
use dfss.Text.Map.{map_find, map_set}
use dfss.Text.Split.{boost, terminated, Free}
use dfss.Transfer.{send_file}
use dfss.Transfer.Roundtrip.{CutShort}

-- Nothing answers.
abbrev silent : Str → Str → Str
silent s m = s

abbrev size : Str
size = padded 256 (to_string 5)

abbrev own_files : FileSystem
own_files = (codes "./a.txt", file) ∷ []

uploads : Uploads (codes "./uploads/") (codes "./") (codes "a.txt") (codes "b.txt") own_files file
unfolding map_find str_eq
uploads = record {
  found = refl;
  small = omega arith;
  name = omega arith;
  new = omega arith;
  path = omega arith;
  remote_path = omega arith;
  plain = refl;
}

uploaded :
    (slabs : Str) × (s' : Str) × (upload_file stream silent
        (codes "./")
        (codes "a.txt")
        (codes "b.txt")
        own_files
        []
      ≡ some (codes "put b.txt" ∷ size ∷ slabs ∷ [], s'))
    × (send_file file ≡ some slabs)
uploaded =
    upload_file-sends (codes "./uploads/") (codes "./") (codes "a.txt") (codes "b.txt") own_files
      file stream silent [] uploads

-- The other end answers the name with the size, and the size with the file.
abbrev client : Str → Str → Str
client s m = if starts_with (codes "put ") m then size else uploaded.0

size-InOnePiece : InOnePiece stream size size
size-InOnePiece = stream-InOnePiece size (
    omega
      (arith, length-padded 256 (to_string 5) (omega (arith, length-to_string 5 (omega arith)))))

client-name : AnswersWhole stream client (padded 256 (codes "put b.txt")) size
unfolding starts_with
client-name s e = size-InOnePiece

client-size : Answers stream client size uploaded.0
unfolding starts_with to_string digits_of
client-size s e = refl

upload-stored_example :
    (got s'' : Str) × (serve stream client (codes "./uploads/") none [] (codes "put b.txt")
      ≡ some (
        padded 256 (codes "put b.txt") ∷ size ∷ [],
        map_set (codes "./uploads/" ++ codes "b.txt") got [],
        s'',
      ))
    × CutShort file got
upload-stored_example =
    upload-stored stream stream silent client [] uploaded.1 (codes "put b.txt") (codes "./uploads/")
      (codes "./") (codes "a.txt") (codes "b.txt") (codes "put b.txt") size uploaded.0 file none
      own_files [] uploads uploaded.2 stream-Delivers
      (stream-InOnePiece (codes "put b.txt") (omega arith)) client-name client-size

abbrev remote_files : FileSystem
remote_files = (codes "./uploads/b.txt", file) ∷ []

downloads :
    Downloads
      (codes "./uploads/")
      (codes "./downloads/")
      (codes "b.txt")
      (codes "c.txt")
      remote_files
      file
unfolding map_find str_eq
downloads = record {
  found = refl;
  small = omega arith;
  name = omega arith;
  path = omega arith;
  local_path = omega arith;
  plain = refl;
}

served :
    (slabs : Str) × (s' : Str) × (serve stream silent
        (codes "./uploads/")
        none
        remote_files
        (codes "get b.txt")
      ≡ some (size ∷ slabs ∷ [], remote_files, s'))
    × (send_file file ≡ some slabs)
served =
    get-sends (codes "./uploads/") (codes "./downloads/") (codes "b.txt") (codes "c.txt")
      remote_files file stream silent (codes "get b.txt") none downloads
      (stream-InOnePiece (codes "get b.txt") (omega arith))

-- The other end answers the request with the size, and the size with the file.
abbrev server : Str → Str → Str
server s m = if starts_with (codes "get ") m then size else served.0

server-name : AnswersWhole stream server (codes "get b.txt") size
unfolding starts_with
server-name s e = size-InOnePiece

server-size : Answers stream server size served.0
unfolding starts_with to_string digits_of
server-size s e = refl

download-stored_example :
    (got s'' : Str) × (download_file stream server
        (codes "./downloads/")
        (codes "b.txt")
        (codes "c.txt")
        []
        []
      ≡ some (
        codes "get b.txt" ∷ size ∷ [],
        map_set (codes "./downloads/" ++ codes "c.txt") got [],
        s'',
      ))
    × CutShort file got
download-stored_example =
    download-stored stream stream server silent [] (codes "get b.txt") served.1 (codes "./uploads/")
      (codes "./downloads/") (codes "b.txt") (codes "c.txt") size served.0 file none [] remote_files
      downloads (stream-InOnePiece (codes "get b.txt") (omega arith)) served.2 stream-Delivers refl
      server-name server-size

abbrev dir : List Str
dir = codes "." ∷ codes "a.txt" ∷ codes ".." ∷ codes "b.txt" ∷ []

abbrev names : List Str
names = codes "a.txt" ∷ codes "b.txt" ∷ []

names-local : ls_local dir ≡ names
unfolding ls_local str_eq
names-local = refl

names_fit : length (terminated b';' (ls_local dir)) < 256
unfolding ls_local str_eq terminated
names_fit = omega arith

names-Free : Free b';' (ls_local dir) × Free 0 (ls_local dir)
unfolding ls_local str_eq
names-Free = ((refl, (refl, tt)), (refl, (refl, tt)))

listed :
    (s' : Str) × (serve stream silent (codes "./uploads/") (some dir) [] (codes "ls-remote")
      ≡ some (padded 256 (terminated b';' (ls_local dir)) ∷ [], [], s'))
listed =
    ls-sends stream silent (codes "ls-remote") (codes "./uploads/") dir [] names_fit
      (stream-InOnePiece (codes "ls-remote") (omega arith))

-- The other end answers with the listing.
abbrev lister : Str → Str → Str
lister s m = padded 256 (terminated b';' (ls_local dir))

listing-InOnePiece :
    InOnePiece stream
      (padded 256 (terminated b';' (ls_local dir)))
      (padded 256 (terminated b';' (ls_local dir)))
listing-InOnePiece =
    stream-InOnePiece (padded 256 (terminated b';' (ls_local dir)))
      (omega (arith, length-padded 256 (terminated b';' (ls_local dir)) (omega (arith, names_fit))))

remote-local_example : list_remote_files stream lister boost [] ≡ some (ls_local dir)
remote-local_example =
    remote-local boost stream stream lister silent [] (codes "ls-remote") listed.0
      (codes "./uploads/") (padded 256 (terminated b';' (ls_local dir))) dir [] names-Free.0
      names-Free.1 names_fit (stream-InOnePiece (codes "ls-remote") (omega arith)) listed.1 refl
      (λ s e. listing-InOnePiece)

long_names : 256 ≤ length (terminated b';' (ls_local (replicate 300 7 ∷ [])))
unfolding ls_local str_eq terminated replicate
long_names = omega arith

ls_too_long_example :
    serve stream silent (codes "./uploads/") (some (replicate 300 7 ∷ [])) [] (codes "ls-remote")
    ≡ none
ls_too_long_example =
    ls_too_long stream silent (codes "ls-remote") (codes "./uploads/") (replicate 300 7 ∷ []) []
      long_names (stream-InOnePiece (codes "ls-remote") (omega arith))
