-- ===== src/Placement.antt =====
-- src/client.cpp: where the copies of a file go, and the master's handler of `put` requests.
-- `none` is undefined behaviour or an exception of the source: reading `end()`, a division by 0,
-- an index out of range, `std::stoi` without a number.
pub mod Conflict
pub mod Copies
pub mod Distinct
pub mod Held
use mathlib.Core.List.{reverse}
use dfss.Base.{
  ℕ, zero, suc, ◌+◌, ◌-◌, ◌%◌, Bool, true, false, ◌||◌, Option, none, some, List, [], ◌∷◌, ◌++◌,
  ◌==◌, ltb, leb, if◌then◌else◌, get_elem?, ◌>>=◌,
}
use dfss.Base.Int.{ℤ, pos, neg, ◌+ℤ◌, ltb_ℤ, eqb_ℤ, sub_ℕ}
use dfss.Text.{Str, str_eq, codes}
use dfss.Text.Map.{map_find, map_set}
use dfss.Text.Number.{atoi, string_to_int}
use dfss.Text.Split.{Boost}
use dfss.Members.{MemberList, number_of_active_nodes}

-- `(int(c) - 'a') % (active - 1)`, with a signed `char` and C++'s remainder.
unfoldable pub offset : ℕ → ℕ → Option ℤ
offset c zero = some (pos 0)
offset c (suc zero) = none
offset c (suc (suc k)) =
    if leb 128 c
    then some (neg ((256 - c + b'a') % suc k))
    else if ltb c b'a'
    then some (neg ((b'a' - c) % suc k))
    else some (pos ((c - b'a') % suc k))

unfoldable pub where_to_value : Str → MemberList → Option ℤ
where_to_value request m = do
  c ← get_elem? request 0
  o ← offset c (number_of_active_nodes m)
  some (pos 37 +ℤ o)

-- `while (it2->second.failed_ == true && it2 != end())`, from the member after `it` on. The test
-- reads `end()` before it compares, so that the branch `it2 == end()` is never reached.
unfoldable pub next_active : MemberList → Option Str
next_active [] = none
next_active ((ip, e) ∷ m) = let rest = next_active m in if e.failed then rest else some ip

-- The members before `it`, the nearest one first: `it2` goes down and stops at `begin()`, where the
-- source reads `end()`.
unfoldable pub prev_active : MemberList → Option Str
prev_active [] = none
prev_active (x ∷ []) = none
prev_active ((ip, e) ∷ y ∷ m) = let rest = prev_active (y ∷ m) in if e.failed then rest else some ip

-- What the loop returns at `it`, the member `ip` with `m` after it and `seen` before it.
unfoldable pub copies : Str → MemberList → MemberList → Option (List Str)
copies ip seen m = do
  second ← next_active m
  third ← prev_active seen
  some (ip ∷ second ∷ third ∷ [])

module _ (b : Boost) where
  -- The loop from `it` on; `seen` holds the members before it, the nearest one first. At its end
  -- the source reads `end()->first`.
  unfoldable pub where_loop : ℤ → MemberList → MemberList → Option (List Str)
  where_loop val seen [] = none
  where_loop val seen ((ip, e) ∷ m) = do
    let rest = where_loop val ((ip, e) ∷ seen) m
    t ← get_elem? (b.split b'.' ip) 3
    if ltb_ℤ (atoi t) val || e.failed then rest else copies ip seen m

  unfoldable pub where_to : Str → MemberList → Option (List Str)
  unfolding where_to_value
  where_to request m = do val ← where_to_value request m; where_loop val [] m

-- `safety_check`: when a file was last put.
abbrev pub SafetyCheck : Type 0
SafetyCheck = List (Str × ℕ)

-- `none` is the reply `CONFLICT`.
unfoldable pub check_conflict : Str → ℕ → SafetyCheck → Option SafetyCheck
check_conflict name timer m = elim (map_find name m) [
  | none ↦ some (map_set name timer m)
  | some last ↦ if ltb (timer - last) 60 then none else some (map_set name timer m)
]

-- `ip += ips[i] + ";"` for each address.
unfoldable pub write_ips : Str → List Str → Str
write_ips ip [] = ip
write_ips ip (x ∷ xs) = write_ips (ip ++ (x ++ (b';' ∷ []))) xs

unfoldable pub putfile_handler :
    Boost → Str → ℕ → MemberList → SafetyCheck → Option (Str × SafetyCheck)
putfile_handler b request timer m safety_check = do
  let params = b.split b';' request
  p0 ← get_elem? params 0
  force ← string_to_int p0
  name ← get_elem? params 1
  elim (if eqb_ℤ force (pos 0) then check_conflict name timer safety_check else some safety_check) [
    | none ↦ some (codes "CONFLICT", safety_check)
    | some safety_check' ↦ do ips ← where_to b name m; some (write_ips [] ips, safety_check')
  ]

-- `monitor_handler`: `files` are the names in `./uploads/`; the reply, and the files afterwards.
unfoldable pub has_file : Str → List Str → Bool
has_file name [] = false
has_file name (x ∷ xs) = let rest = has_file name xs in if str_eq x name then true else rest

unfoldable pub delete_file : Str → List Str → List Str
delete_file name [] = []
delete_file name (x ∷ xs) =
    let rest = delete_file name xs in if str_eq x name then rest else x ∷ rest

unfoldable pub monitor_handler : Boost → Str → Str → List Str → Option (Str × List Str)
monitor_handler b request ip files = do
  let arr = b.split b';' request
  name ← get_elem? arr 0
  verb ← get_elem? arr 1
  some (
      if str_eq verb (codes "DELETE")
      then (codes "YES;" ++ ip, delete_file name files)
      else if has_file name files
      then (codes "YES;" ++ ip, files)
      else (codes "NO;" ++ ip, files))

-- `find_file_remote`: `ask request ip` sends the request to the monitor of that node, which may
-- change the state `W` of the machines. The last of `ips` is not asked; `none` is an empty `ips`.
unfoldable pub find_file_loop :
    {W : Type 0} → Boost → (Str → W → Str × W) → List Str → W → Option (Str × W)
find_file_loop b ask [] w = none
find_file_loop b ask (ip ∷ []) w = some ([], w)
find_file_loop b ask (ip ∷ next ∷ ips) w = do
  let (file_check, w1) = ask ip w
  verdict ← get_elem? (b.split b';' file_check) 0
  elim (str_eq verdict (codes "YES")) [
    | true ↦ some (ip, w1)
    | false ↦ find_file_loop b ask (next ∷ ips) w1
  ]

unfoldable pub find_file_remote :
    {W : Type 0} → Boost → (Str → Str → W → Str × W) → List Str → Str → W → Option (Str × W)
unfolding find_file_loop
find_file_remote b ask ips file_name w = find_file_loop b (ask (file_name ++ codes ";CHECK")) ips w
