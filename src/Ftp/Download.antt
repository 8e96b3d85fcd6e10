-- ===== src/Ftp/Download.antt =====
-- src/ftpclient.cpp and src/ftpserver.cpp: `download_file` and the `get` of the server.
use dfss.Base.{
  ◌<◌, ◌≡◌, refl, sym, ap, ◌∙◌, subst, false, Option, some, List, [], ◌∷◌, ◌++◌, arith, length,
}
use dfss.Text.{Str, str_eq, codes}
use dfss.Text.Split.{has_byte}
use dfss.Text.Map.{map_find, map_set}
use dfss.Text.Decimal.{to_string}
use dfss.Text.Digits.{length-to_string}
use dfss.Datagram.Delivery.{padded, length-padded, c_string-padded}
use dfss.Transfer.{Socket, send_file}
use dfss.Transfer.Receive.{Delivers}
use dfss.Transfer.Slabs.{send_file-Sent}
use dfss.Transfer.Roundtrip.{CutShort, transfer-CutShort}
use dfss.Ftp.{FileSystem, download_file, get_session, serve, starts_with}
use dfss.Ftp.Steps.{
  InOnePiece, Answers, AnswersWhole, fits_short, file_size_lem, overwrite-clear, size_buffer_lem,
  read_size-padded, recv_into-some, recv_into-whole, sent_short, two_messages,
}

-- What is to be downloaded: the file is there, and the names, the paths and the size fit.
pub record Downloads (folder local_folder file_name new_name : Str) (remote : FileSystem)
    (file : Str) : Type 0 where
  pub found : map_find (folder ++ file_name) remote ≡ some file
  pub small : length file < 2147483648
  pub name : length file_name < 252
  pub path : length (folder ++ file_name) < 256
  pub local_path : length (local_folder ++ new_name) < 256
  pub plain : has_byte 0 file_name ≡ false

module _ (folder local_folder file_name new_name : Str) (remote : FileSystem) (file : Str) where
  -- Asked, by a request that comes in one piece, for a file that it has and that fits with its
  -- names and paths (`Downloads`), the server sends its size in a buffer of 256 bytes and,
  -- whatever is acknowledged, the file with less than 256 bytes behind it.
  pub get-sends :
      (k : Socket) (send : k.State → Str → k.State) (s : k.State) (dir : Option (List Str))
      → Downloads folder local_folder file_name new_name remote file
      → InOnePiece k s (codes "get " ++ file_name)
      → (slabs : Str) × (s' : k.State) × (serve k send folder dir remote s
          ≡ some (padded 256 (to_string (length file)) ∷ slabs ∷ [], remote, s'))
        × (send_file file ≡ some slabs)
  unfolding serve get_session send_file str_eq starts_with
  get-sends k send s dir u (s1, came, rest1) =
      let msg = codes "get " ++ file_name in
      let fit : length msg < 256 = omega (arith, u.name) in
      let size = padded 256 (to_string (length file)) in
      let digits_short = length-to_string (length file) u.small in
      let (ack, s2, acked) =
        recv_into-some k send size (send s1 size)
          (length-padded 256 (to_string (length file)) (omega arith)) in
      let (pad, sent, short) = send_file-Sent file in
      (
        file ++ pad,
        send s2 (file ++ pad),
        rw
            (
              came,
              sent_short msg fit,
              overwrite-clear msg (omega arith),
              c_string-padded 256 msg u.plain fit,
              fits_short (folder ++ file_name) u.path,
              u.found,
              file_size_lem file u.small,
              size_buffer_lem (length file) u.small,
              acked,
              sent,
            )
            refl,
        sent,
      )

  get-stores :
      (k : Socket) (send : k.State → Str → k.State) (s : k.State) (files : FileSystem) (slabs : Str)
      → Downloads folder local_folder file_name new_name remote file
      → Delivers k
      → send_file file ≡ some slabs
      → k.pending s ≡ []
      → AnswersWhole k send (codes "get " ++ file_name) (padded 256 (to_string (length file)))
      → Answers k send (padded 256 (to_string (length file))) slabs
      → (got : Str) × (s' : k.State) × (download_file k send local_folder file_name new_name files s
          ≡ some (
            (codes "get " ++ file_name) ∷ padded 256 (to_string (length file)) ∷ [],
            map_set (local_folder ++ new_name) got files,
            s',
          ))
        × CutShort file got
  unfolding download_file
  get-stores k send s files slabs u d sent there first second =
      let request = codes "get " ++ file_name in
      let fit : length request < 256 = omega (arith, u.name) in
      let size = padded 256 (to_string (length file)) in
      let digits_short = length-to_string (length file) u.small in
      let (s1, sized, rest1) =
        recv_into-whole k send (padded 256 request) size (send s request)
          (length-padded 256 request (omega arith))
          (length-padded 256 (to_string (length file)) (omega arith)) (first s there) in
      let (got, s2, received, cut) =
        transfer-CutShort k file slabs (send s1 size) d sent (second s1 rest1) in
      (
        got,
        s2,
        rw
            (
              fits_short request fit,
              overwrite-clear request (omega arith),
              sized,
              read_size-padded (length file) u.small,
              fits_short (local_folder ++ new_name) u.local_path,
              received,
            )
            refl,
        cut,
      )

-- A file that the server sends reaches the client. Let the request come in one piece to a server that
-- has the file, which fits with its names and paths (`Downloads`), and let the server send two
-- messages. Let the other end of the client's connection answer with them in turn, the size in one
-- piece; the bytes of the file may come in any pieces. Then `download_file` ends, and stores the
-- file under the new name in its folder, over what was there, but for at most 255 bytes at its end.
pub download-stored :
    (k k' : Socket) (send : k.State → Str → k.State) (send' : k'.State → Str → k'.State)
    (s : k.State) (s' s1 : k'.State) (folder local_folder file_name new_name size slabs file : Str)
    (dir : Option (List Str)) (files remote : FileSystem)
    → Downloads folder local_folder file_name new_name remote file
    → InOnePiece k' s' (codes "get " ++ file_name)
    → serve k' send' folder dir remote s' ≡ some (size ∷ slabs ∷ [], remote, s1)
    → Delivers k
    → k.pending s ≡ []
    → AnswersWhole k send (codes "get " ++ file_name) size
    → Answers k send size slabs
    → (got : Str) × (s'' : k.State) × (download_file k send local_folder file_name new_name files s
        ≡ some (
          (codes "get " ++ file_name) ∷ size ∷ [],
          map_set (local_folder ++ new_name) got files,
          s'',
        ))
      × CutShort file got
download-stored k k' send send' s s' s1 folder local_folder file_name new_name size slabs file dir
      files remote u came served d there first second =
    let (slabs', s1', sends, sent) =
      get-sends folder local_folder file_name new_name remote file k' send' s' dir u came in
    let (e1, e2) = two_messages (sym sends ∙ served) in
    let (got, s'', stored, cut) =
      get-stores folder local_folder file_name new_name remote file k send s files slabs u d
        (sent ∙ ap some e2) there
        (subst (λ m. AnswersWhole k send (codes "get " ++ file_name) m) (sym e1) first)
        (subst (λ m. Answers k send m slabs) (sym e1) second) in
    (
      got,
      s'',
      subst
          (λ m.
            download_file k send local_folder file_name new_name files s
            ≡ some (
              (codes "get " ++ file_name) ∷ m ∷ [],
              map_set (local_folder ++ new_name) got files,
              s'',
            ))
          e1 stored,
      cut,
    )
