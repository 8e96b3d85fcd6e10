-- ===== src/Placement/Held.antt =====
-- src/client.cpp: which files a node has after a deletion.
use dfss.Base.{◌≡◌, not, ◌&&◌, List, [], ◌∷◌, arith}
use dfss.Text.{Str, str_eq, str_eq_iff}
use dfss.Placement.{has_file, delete_file}

pub has_file-delete_file :
    (name n : Str) (fs : List Str)
    → has_file n (delete_file name fs) ≡ (not (str_eq n name) && has_file n fs)
unfolding has_file delete_file
has_file-delete_file name n [] = ground arith
has_file-delete_file name n (x ∷ fs) =
    ground
      (arith, has_file-delete_file name n fs, str_eq_iff x name, str_eq_iff n name, str_eq_iff x n)
