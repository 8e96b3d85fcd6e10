-- ===== src/Commands.antt =====
-- src/client.cpp: the menu of `main` and the commands `put`, `get`, `delete`, `store` and `ls`.
-- `none` is undefined behaviour: an index out of range. An exception, which `main` catches, is left
-- out: `Remote` stands for requests that are answered.
pub mod Cluster
pub mod Lifecycle
pub mod Outcome
pub mod Service
pub mod Session
pub mod Tolerance
use dfss.Base.{ℕ, zero, suc, Bool, Option, none, some, List, [], ◌∷◌, ◌++◌, if◌then◌else◌, ◌>>=◌}
use dfss.Text.{Str, str_eq, codes}
use dfss.Text.Split.{Boost}
use dfss.Members.{MemberEntry, MemberList}
use dfss.Placement.{find_file_remote}
use dfss.Ftp.{ls_local}

-- What the commands use of the other parts and of the machine, over a state `W` of them.
pub record Remote (W : Type 0) : Type 0 where
  -- `udp_sendmsg(request, master, PUTFILE_PORT, response)`: the response.
  pub put_request : Str → W → Str × W
  -- `udp_sendmsg(request, ip, MONITOR_SERVER_PORT, response)`
  pub monitor_request : Str → Str → W → Str × W
  -- `upload_file(ip, FTP_SERVER_PORT, "./", file_name, new_name)`
  pub upload : Str → Str → Str → W → W
  -- `download_file(ip, FTP_SERVER_PORT, "./downloads/", file_name, new_name)`
  pub download : Str → Str → Str → W → W
  -- `leave_introducer(argv[1])`
  pub leave : W → W
  pub is_file_exist : W → Str → Bool
  -- What `readdir` gives of a folder.
  pub folder : W → Str → List Str
  pub member_list : W → MemberList

-- What `main` prints of a choice.
pub data Printed : Type 0 where
  left : Printed
  members : List (Str × Str) → Printed
  invalid_command : Printed
  no_local_file : Printed
  declined : Printed
  uploaded : List Str → Printed
  downloaded : Str → Printed
  deleted : Printed
  files_here : List Str → List Str → Printed
  not_on_sdfs : Printed
  present_at : List Str → Printed
  no_choice : Printed

-- What is typed at the menu; `answer` is what is typed after the command line, if it is asked for.
pub data Choice : Type 0 where
  leaves : Choice
  displays : Choice
  commands : (line answer : Str) → Choice
  others : Choice

abbrev boolstr : Bool → Str
boolstr a = if a then codes "Failed" else codes "Alive"

unfoldable pub display : MemberList → List (Str × Str)
display [] = []
display ((ip, e) ∷ m) = (ip, boolstr e.failed) ∷ display m

-- `arr[i]` for `i < arr.size() - 1`. No code reads an empty `arr`: `boost::split` gives a token.
unfoldable pub but_last : List Str → List Str
but_last [] = []
but_last (x ∷ []) = []
but_last (x ∷ y ∷ xs) = x ∷ but_last (y ∷ xs)

module _ {W : Type 0} (b : Boost) (r : Remote W) where
  unfoldable pub upload_places : Str → Str → List Str → W → W
  upload_places file_name new_name [] w = w
  upload_places file_name new_name (ip ∷ arr) w =
      upload_places file_name new_name arr (r.upload ip file_name new_name w)

  unfoldable pub delete_places : Str → List Str → W → W
  delete_places name [] w = w
  delete_places name (ip ∷ arr) w =
      delete_places name arr (r.monitor_request (name ++ codes ";DELETE") ip w).1

  -- `put`: the name here, the name there. `answer` is what is typed after a conflict.
  unfoldable pub put_command : Str → Str → Str → W → Printed × W
  unfolding upload_places but_last
  put_command answer v1 v2 w =
      let (response, w1) = r.put_request (codes "0;" ++ v2) w in
      let (forced, w2) = r.put_request (codes "1;" ++ v2) w1 in
      let arr = but_last (b.split b';' response) in
      let arr' = but_last (b.split b';' forced) in
      if r.is_file_exist w (codes "./" ++ v1)
      then (if str_eq response (codes "CONFLICT")
          then (if str_eq answer (codes "yes")
              then (uploaded arr', upload_places v1 v2 arr' w2)
              else (declined, w1))
          else (uploaded arr, upload_places v1 v2 arr w1))
      else (no_local_file, w)

  -- The search of `get` and `ls` for a node that has the file: its address, or nothing. A request with
  -- another verb than `CHECK` in the name's own text may delete files.
  unfoldable pub search_file : List Str → Str → W → Option (Str × W)
  unfolding find_file_remote
  search_file arr name w = find_file_remote b r.monitor_request arr name w

  unfoldable pub get_command : Str → Str → W → Option (Printed × W)
  unfolding search_file
  get_command v1 v2 w = do
    let (response, w1) = r.put_request (codes "1;" ++ v1) w
    (url, w2) ← search_file (b.split b';' response) v1 w1
    some (if str_eq url [] then (not_on_sdfs, w2) else (downloaded url, r.download url v1 v2 w2))

  unfoldable pub delete_command : Str → W → Printed × W
  unfolding delete_places but_last
  delete_command v1 w =
      let (response, w1) = r.put_request (codes "1;" ++ v1) w in
      (deleted, delete_places v1 (but_last (b.split b';' response)) w1)

  unfoldable pub ls_command : Str → W → Option (Printed × W)
  unfolding search_file but_last
  ls_command v1 w = do
    let (response, w1) = r.put_request (codes "1;" ++ v1) w
    let arr = b.split b';' response
    (url, w2) ← search_file arr v1 w1
    some (if str_eq url [] then not_on_sdfs else present_at (but_last arr), w2)

  unfoldable pub put_words : Str → List Str → W → Printed × W
  put_words answer [] w = (invalid_command, w)
  put_words answer (v1 ∷ []) w = (invalid_command, w)
  put_words answer (v1 ∷ v2 ∷ []) w = put_command answer v1 v2 w
  put_words answer (v1 ∷ v2 ∷ x ∷ v) w = (invalid_command, w)

  unfoldable pub get_words : List Str → W → Option (Printed × W)
  get_words [] w = some (invalid_command, w)
  get_words (v1 ∷ []) w = some (invalid_command, w)
  get_words (v1 ∷ v2 ∷ []) w = get_command v1 v2 w
  get_words (v1 ∷ v2 ∷ x ∷ v) w = some (invalid_command, w)

  unfoldable pub delete_words : List Str → W → Printed × W
  delete_words [] w = (invalid_command, w)
  delete_words (v1 ∷ []) w = delete_command v1 w
  delete_words (v1 ∷ x ∷ v) w = (invalid_command, w)

  -- `v[1]` is read whatever the size of `v`.
  unfoldable pub ls_words : List Str → W → Option (Printed × W)
  ls_words [] w = none
  ls_words (v1 ∷ v) w = ls_command v1 w

  abbrev printed : Printed × W → Option Printed × W
  printed (p, w) = (some p, w)

  -- A command line: what is printed, or nothing for a `break` out of the menu.
  unfoldable pub command : Str → List Str → W → Option (Option Printed × W)
  unfolding put_words get_words delete_words ls_words ls_local
  command answer [] w = none
  command answer (verb ∷ v) w =
      if str_eq verb (codes "put")
      then some (printed (put_words answer v w))
      else if str_eq verb (codes "get")
      then (do done ← get_words v w; some (printed done))
      else if str_eq verb (codes "delete")
      then some (printed (delete_words v w))
      else if str_eq verb (codes "store")
      then some (
        some (
            files_here (ls_local (r.folder w (codes "./uploads/")))
              (ls_local (r.folder w (codes "./backups/")))),
        w,
      )
      else if str_eq verb (codes "ls")
      then (do done ← ls_words v w; some (printed done))
      else some (none, w)

  unfoldable pub choose : Choice → W → Option (Option Printed × W)
  unfolding display command
  choose leaves w = some (some left, r.leave w)
  choose displays w = some (some (members (display (r.member_list w))), w)
  choose (commands line answer) w = command answer (b.split b' ' line) w
  choose others w = some (some no_choice, w)

  -- The loop of the menu, with `rounds` to go, over what is typed.
  unfoldable pub menu : ℕ → List Choice → W → Option (List Printed × W)
  unfolding choose
  menu zero input w = some ([], w)
  menu (suc rounds) [] w = some ([], w)
  menu (suc rounds) (c ∷ input) w = do
    (out, w1) ← choose c w
    elim out [
      | none ↦ some ([], w1)
      | some p ↦ do (ps, w2) ← menu rounds input w1; some (p ∷ ps, w2)
    ]
