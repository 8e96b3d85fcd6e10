-- ===== src/Members.antt =====
-- src/client.cpp and src/membershiplist.hpp: the membership list, the local neighbours, and the
-- handlers that change them. A handler is a function of the state, the request and `time(0)`, taken
-- as one step. `none` is undefined behaviour of the source, all but that of the constructor of
-- `member_entry`, which the entry itself records.
pub mod Beating
pub mod Beats
pub mod Detection
pub mod Election
pub mod Gossip
pub mod Known
pub mod Learn
pub mod Life
pub mod Silence
pub mod Wire
use mathlib.Core.List.{reverse}
use dfss.Base.{
  ℕ, suc, ◌+◌, ◌-◌, ◌≡◌, Bool, true, false, not, ◌&&◌, Option, none, some, List, [], ◌∷◌, ◌++◌,
  ◌==◌, ltb, leb, if◌then◌else◌, length, get_elem?, ◌>>=◌,
}
use dfss.Text.{Str, str_eq, codes}
use dfss.Text.Map.{map_find, map_insert, map_modify}
use dfss.Text.Order.{set_has}
use dfss.Text.Split.{Boost}

-- The constructor copies the address to the start of an empty string: `ip_addr` stays empty, and
-- `overrun` is the bytes that are written past its end. If it is not empty, the source has undefined
-- behaviour here; what a theorem says of the entry is then said of a machine where those bytes hurt
-- nothing else.
pub record MemberEntry : Type 0 where
  pub ip_addr : Str
  pub overrun : Str
  pub time_stamp : ℕ
  pub failed : Bool

abbrev pub member_entry : Str → ℕ → MemberEntry
member_entry ip time = record { ip_addr = []; overrun = ip; time_stamp = time; failed = false }

abbrev pub MemberList : Type 0
MemberList = List (Str × MemberEntry)

-- The globals of a node.
pub record Node : Type 0 where
  pub member_list : MemberList
  pub local_neighbour_list : List Str
  pub master : Str

unfoldable pub add_to_memlist : Str → ℕ → Node → Node
add_to_memlist ip now n = elim (map_find ip n.member_list) [
  | none ↦ record n { member_list = map_insert ip (member_entry ip now) n.member_list }
  | some _ ↦ n
]

unfoldable pub add_to_local_neighbour_list : Str → Node → Node
add_to_local_neighbour_list ip n =
    if ltb (length n.local_neighbour_list) 4
    then record n { local_neighbour_list = n.local_neighbour_list ++ (ip ∷ []) }
    else n

-- `bool_to_string`
unfoldable pub bool_to_string : Bool → Str
bool_to_string true = b'1' ∷ []
bool_to_string false = b'0' ∷ []

-- What one entry of a heartbeat does to a known member.
unfoldable pub merge : Str → Bool → MemberEntry → MemberEntry
merge flag neighbour e =
    let e' = (if e.failed && str_eq flag (b'0' ∷ []) then record e { failed = false } else e) in
    if not e'.failed && (str_eq flag (b'1' ∷ []) && not neighbour)
    then record e' { failed = true }
    else e'

-- The sender is alive: its entry is renewed, or made.
unfoldable pub heard_from : Str → ℕ → Node → Node
heard_from ip now n = elim (map_find ip n.member_list) [
  | none ↦ record n { member_list = map_insert ip (member_entry ip now) n.member_list }
  | some _ ↦ add_to_local_neighbour_list ip (record n {
    member_list = map_modify (λ e. record e { time_stamp = now; failed = false }) ip n.member_list;
  })
]

-- The last token goes if it is empty.
unfoldable pub drop_last_empty : List Str → List Str
drop_last_empty [] = []
drop_last_empty ([] ∷ []) = []
drop_last_empty ((c ∷ s) ∷ []) = (c ∷ s) ∷ []
drop_last_empty (s ∷ t ∷ ts) = s ∷ drop_last_empty (t ∷ ts)

module _ (b : Boost) where
  -- The body of the loop over the message's entries.
  unfoldable pub heartbeat_entry : Str → ℕ → Node → Option Node
  heartbeat_entry item now n = do
    let temp = b.split b':' item
    ip ← get_elem? temp 0
    elim (map_find ip n.member_list) [
      | none ↦ some (record n { member_list = map_insert ip (member_entry ip now) n.member_list })
      | some e ↦ do
        flag ← get_elem? temp 1
        some (record n {
          member_list =
              map_modify (merge flag (set_has ip n.local_neighbour_list)) ip n.member_list;
        })
    ]

  -- `for (i = 0; i < vs1.size() - 1; ++i)`: the last token is not read.
  unfoldable pub heartbeat_entries : List Str → ℕ → Node → Option Node
  heartbeat_entries [] now n = some n
  heartbeat_entries (item ∷ []) now n = some n
  heartbeat_entries (item ∷ next ∷ rest) now n = do
    n' ← heartbeat_entry item now n
    heartbeat_entries (next ∷ rest) now n'

  unfoldable pub heartbeat_handler : Str → Str → ℕ → Node → Option (Node × Str)
  heartbeat_handler request ip now n = do
    n' ← heartbeat_entries (b.split b';' request) now (heard_from ip now n)
    some (n', codes "pong")

  unfoldable pub update_handler : Str → Node → Node × Str
  update_handler response n =
      (record n { local_neighbour_list = drop_last_empty (b.split b';' response) }, codes "pong")

  unfoldable pub contact_introducer : Str → Node → Node
  contact_introducer response n = record n {
    local_neighbour_list = drop_last_empty (b.split b';' response);
  }

-- The membership list as text: `ip:0;` or `ip:1;` for each member.
unfoldable pub make_message : Str → MemberList → Str
unfolding bool_to_string
make_message str [] = str
make_message str ((ip, e) ∷ m) =
    make_message (str ++ (ip ++ (b':' ∷ (bool_to_string e.failed ++ (b';' ∷ []))))) m

unfoldable pub in_local : Str → List Str → Bool
in_local ip [] = false
in_local ip (x ∷ xs) = if str_eq x ip then true else in_local ip xs

-- A round of `failure_detector`: the neighbours that were silent for two seconds.
unfoldable pub detect : List Str → ℕ → MemberList → MemberList
detect [] now m = m
detect (ip ∷ ips) now m =
    detect ips now
      (map_modify (λ e. if leb 2 (now - e.time_stamp) then record e { failed = true } else e) ip m)

unfoldable pub failure_detector_round : ℕ → Node → Node
failure_detector_round now n = record n {
  member_list = detect n.local_neighbour_list now n.member_list;
}

unfoldable pub number_of_active_nodes : MemberList → ℕ
number_of_active_nodes [] = 0
number_of_active_nodes ((ip, e) ∷ m) =
    let rest = number_of_active_nodes m in if e.failed then rest else rest + 1

-- A round of `master_elector`: `it` goes from the last member down, and stops before the first.
unfoldable pub elect : MemberList → Option Str
elect [] = none
elect ((ip, e) ∷ m) = let rest = elect m in if e.failed then rest else some ip

abbrev pub but_first : MemberList → MemberList
but_first [] = []
but_first (x ∷ m) = m

unfoldable pub master_elector_round : Node → Node
unfolding elect
master_elector_round n = elim (elect (reverse (but_first n.member_list))) [
  | none ↦ n
  | some ip ↦ record n { master = ip }
]
