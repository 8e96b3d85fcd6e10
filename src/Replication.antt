-- ===== src/Replication.antt =====
-- src/client.cpp: `monitor`, which replicates the files of a node and removes those that it need not
-- hold. `ask_master` is the reply of the master's put handler, `ask` that of a node's monitor.
pub mod Recovery
pub mod Removal
pub mod Restore
pub mod Round
pub mod Survival
use dfss.Base.{
  Bool, true, false, Option, some, none, List, [], ◌∷◌, ◌++◌, leb, if◌then◌else◌, get_elem?, length,
  ◌>>=◌,
}
use dfss.Text.{Str, str_eq, codes}
use dfss.Text.Split.{Boost}
use dfss.Members.{MemberList}

-- What a round does: `upload_file` to a node, and `delete_file`.
pub data Action : Type 0 where
  uploads : (ip name : Str) → Action
  removes : (name : Str) → Action

module _ (b : Boost) where
  -- The loop over the places of a file: `file_not_required`, and the uploads. The last token is not
  -- read.
  unfoldable pub monitor_places : (Str → Str) → Str → List Str → Option (Bool × List Action)
  monitor_places ask name [] = none
  monitor_places ask name (ip ∷ []) = some (true, [])
  monitor_places ask name (ip ∷ next ∷ arr) = do
    let return_vals = b.split b';' (ask ip)
    owner ← get_elem? return_vals 1
    verdict ← get_elem? return_vals 0
    (not_required, actions) ← monitor_places ask name (next ∷ arr)
    some (
      (if str_eq owner ip then false else not_required),
      (if str_eq verdict (codes "NO") then uploads ip name ∷ actions else actions),
    )

  unfoldable pub monitor_files : (Str → Str) → (Str → Str → Str) → List Str → Option (List Action)
  monitor_files ask_master ask [] = some []
  monitor_files ask_master ask (name ∷ files) = do
    (not_required, actions) ←
        monitor_places (ask (name ++ codes ";CHECK")) name
          (b.split b';' (ask_master (codes "1;" ++ name)))
    rest ← monitor_files ask_master ask files
    some (actions ++ ((if not_required then removes name ∷ [] else []) ++ rest))

  unfoldable pub monitor :
      (Str → Str) → (Str → Str → Str) → MemberList → List Str → Option (List Action)
  unfolding monitor_files
  monitor ask_master ask member_list files =
      if leb 4 (length member_list) then monitor_files ask_master ask files else some []
