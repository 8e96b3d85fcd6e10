-- ===== src/Ftp/Upload.antt =====
-- src/ftpclient.cpp and src/ftpserver.cpp: `upload_file` and the `put` of the server.
use dfss.Base.{
  ◌<◌, ◌≡◌, refl, sym, ap, ◌∙◌, subst, false, Option, some, List, [], ◌∷◌, ◌++◌, arith, length,
}
use dfss.Text.{Str, str_eq, codes}
use dfss.Text.Split.{has_byte}
use dfss.Text.Map.{map_find, map_set}
use dfss.Text.Decimal.{to_string}
use dfss.Datagram.Delivery.{padded, length-padded, c_string-padded}
use dfss.Text.Digits.{length-to_string}
use dfss.Transfer.{Socket, send_file, zeros}
use dfss.Transfer.Receive.{Delivers}
use dfss.Transfer.Slabs.{send_file-Sent}
use dfss.Transfer.Roundtrip.{CutShort, transfer-CutShort}
use dfss.Ftp.{FileSystem, upload_file, put_session, starts_with, serve}
use dfss.Ftp.Steps.{
  InOnePiece, AnswersWhole, fits_short, file_size_lem, length-zeros, overwrite-clear,
  size_buffer_lem, read_size-padded, recv_into-some, recv_into-whole, Answers, sent_short,
  three_messages, subst2,
}

-- What is to be uploaded: the file is there, and the names, the paths and the size fit.
pub record Uploads (folder local_folder file_name new_name : Str) (files : FileSystem) (file : Str)
    : Type 0 where
  pub found : map_find (local_folder ++ file_name) files ≡ some file
  pub small : length file < 2147483648
  pub name : length file_name < 252
  pub new : length new_name < 252
  pub path : length (local_folder ++ file_name) < 256
  pub remote_path : length (folder ++ new_name) < 256
  pub plain : has_byte 0 new_name ≡ false

module _ (folder local_folder file_name new_name : Str) (files : FileSystem) (file : Str) where
  -- If the file is there and it, its names and its paths fit (`Uploads`), then the client,
  -- whatever is acknowledged, sends the request, the size of the file in a buffer of 256 bytes,
  -- and the file with less than 256 bytes behind it.
  pub upload_file-sends :
      (k : Socket) (send : k.State → Str → k.State) (s : k.State)
      → Uploads folder local_folder file_name new_name files file
      → (slabs : Str) × (s' : k.State) × (upload_file k send local_folder file_name new_name files s
          ≡ some
              ((codes "put " ++ new_name) ∷ padded 256 (to_string (length file)) ∷ slabs ∷ [], s'))
        × (send_file file ≡ some slabs)
  unfolding upload_file send_file
  upload_file-sends k send s u =
      let change_fname = codes "put " ++ new_name in
      let size = padded 256 (to_string (length file)) in
      let digits_short = length-to_string (length file) u.small in
      let (ack, s1, first) =
        recv_into-some k send (padded 256 change_fname) (send s change_fname)
          (length-padded 256 change_fname (omega (arith, u.new))) in
      let (ack', s2, second) =
        recv_into-some k send size (send s1 size)
          (length-padded 256 (to_string (length file)) (omega arith)) in
      let (pad, sent, short) = send_file-Sent file in
      (
        file ++ pad,
        send s2 (file ++ pad),
        rw
            (
              fits_short change_fname (omega (arith, u.new)),
              fits_short (codes "put " ++ file_name) (omega (arith, u.name)),
              overwrite-clear change_fname (omega (arith, u.new)),
              first,
              fits_short (local_folder ++ file_name) u.path,
              u.found,
              file_size_lem file u.small,
              size_buffer_lem (length file) u.small,
              second,
              sent,
            )
            refl,
        sent,
      )

put-stores :
    (k : Socket) (send : k.State → Str → k.State) (s : k.State) (folder new_name file slabs : Str)
    (dir : Option (List Str)) (remote : FileSystem)
    → Delivers k
    → length file < 2147483648
    → length new_name < 252
    → length (folder ++ new_name) < 256
    → has_byte 0 new_name ≡ false
    → send_file file ≡ some slabs
    → InOnePiece k s (codes "put " ++ new_name)
    → AnswersWhole k send
        (padded 256 (codes "put " ++ new_name))
        (padded 256 (to_string (length file)))
    → Answers k send (padded 256 (to_string (length file))) slabs
    → (got : Str) × (s' : k.State) × (serve k send folder dir remote s
        ≡ some (
          padded 256 (codes "put " ++ new_name) ∷ padded 256 (to_string (length file)) ∷ [],
          map_set (folder ++ new_name) got remote,
          s',
        ))
      × CutShort file got
unfolding serve put_session str_eq starts_with
put-stores k send s folder new_name file slabs dir remote d small new path plain sent
      (s1, came, rest1) first second =
    let msg = codes "put " ++ new_name in
    let size = padded 256 (to_string (length file)) in
    let (s2, sized, rest2) =
      recv_into-whole k send (zeros 256) size (send s1 (padded 256 msg)) length-zeros
        (length-padded 256 (to_string (length file))
          (omega (arith, length-to_string (length file) small)))
        (first s1 rest1) in
    let (got, s3, received, cut) =
      transfer-CutShort k file slabs (send s2 size) d sent (second s2 rest2) in
    let (lingering, s4, last) = recv_into-some k send (zeros 256) s3 length-zeros in
    (
      got,
      s4,
      rw
          (
            came,
            sent_short msg (omega arith),
            overwrite-clear msg (omega arith),
            c_string-padded 256 msg plain (omega arith),
            sized,
            read_size-padded (length file) small,
            fits_short (folder ++ new_name) path,
            received,
            last,
          )
          refl,
      cut,
    )

-- A file that `upload_file` sends reaches the server. Let the file be there and it, its names and its
-- paths fit (`Uploads`), let the other end of the server's connection answer with the client's three
-- messages in turn, and let the name and the size come in one piece each; the bytes of the file may
-- come in any pieces. Then the server acknowledges the name and the size, ends, and stores the file
-- under the new name in its folder, over what was there, but for at most 255 bytes at its end.
pub upload-stored :
    (k k' : Socket) (send : k.State → Str → k.State) (send' : k'.State → Str → k'.State)
    (s s1 : k.State) (s' : k'.State)
    (folder local_folder file_name new_name request size slabs file : Str) (dir : Option (List Str))
    (files remote : FileSystem)
    → Uploads folder local_folder file_name new_name files file
    → upload_file k send local_folder file_name new_name files s
      ≡ some (request ∷ size ∷ slabs ∷ [], s1)
    → Delivers k'
    → InOnePiece k' s' request
    → AnswersWhole k' send' (padded 256 request) size
    → Answers k' send' size slabs
    → (got : Str) × (s'' : k'.State) × (serve k' send' folder dir remote s'
        ≡ some (padded 256 request ∷ size ∷ [], map_set (folder ++ new_name) got remote, s''))
      × CutShort file got
upload-stored k k' send send' s s1 s' folder local_folder file_name new_name request size slabs file
      dir files remote u uploaded d came first second =
    let (slabs', s1', sends, sent) =
      upload_file-sends folder local_folder file_name new_name files file k send s u in
    let (e1, e2, e3) = three_messages (sym sends ∙ uploaded) in
    let (got, s'', stored, cut) =
      put-stores k' send' s' folder new_name file slabs dir remote d u.small u.new u.remote_path
        u.plain (sent ∙ ap some e3) (subst (InOnePiece k' s') (sym e1) came)
        (subst2 (λ m n. AnswersWhole k' send' (padded 256 m) n) (sym e1) (sym e2) first)
        (subst (λ m. Answers k' send' m slabs) (sym e2) second) in
    (
      got,
      s'',
      subst2
          (λ m n.
            serve k' send' folder dir remote s'
            ≡ some (padded 256 m ∷ n ∷ [], map_set (folder ++ new_name) got remote, s''))
          e1 e2 stored,
      cut,
    )
