-- ===== src/Members/Beats.antt =====
-- src/client.cpp: the start of a node in `main`, the rounds of `heartbeater`, and those of the
-- introducer in `main`. A message goes to the thread `runner`, which sends it.
use dfss.Base.{ℕ, Option, some, List, [], ◌∷◌, ◌++◌, ◌==◌, if◌then◌else◌, ◌>>=◌}
use dfss.Text.{Str}
use dfss.Text.Map.{map_find}
use dfss.Text.Split.{Boost}
use dfss.Node.{Ptr, null, VirtualRing, get}
use dfss.Members.{MemberList, Node, make_message, add_to_memlist, contact_introducer}

-- `for (i = 0; i < local_neighbour_list.size(); ++i) add_to_memlist(local_neighbour_list[i])`
unfoldable pub add_all : List Str → ℕ → Node → Node
unfolding add_to_memlist
add_all [] now n = n
add_all (ip ∷ ips) now n = add_all ips now (add_to_memlist ip now n)

-- A node contacts the introducer, which answers `response`, and enters the neighbours.
unfoldable pub start_node : Boost → Str → ℕ → Node → Node
unfolding add_all
start_node b response now n =
    let joined = contact_introducer b response n in add_all joined.local_neighbour_list now joined

-- The messages of a round, with the address each goes to. `none` is the read of `end()` for a
-- neighbour that is not in the list.
unfoldable pub heartbeater_loop : MemberList → List Str → Option (List (Str × Str))
heartbeater_loop m [] = some []
heartbeater_loop m (temp ∷ ips) = do
  let message = make_message [] m
  e ← map_find temp m
  rest ← heartbeater_loop m ips
  some (if e.failed then rest else (temp, message) ∷ rest)

unfoldable pub heartbeater_round : Node → Option (List (Str × Str))
unfolding heartbeater_loop
heartbeater_round n = heartbeater_loop n.member_list n.local_neighbour_list

-- The introducer's beat to the node behind one of its pointers: an empty message.
unfoldable pub introducer_beat : MemberList → Ptr → VirtualRing → Option (List (Str × Str))
introducer_beat m p r =
    if p == null
    then some []
    else (do ip ← get r.ip_addr p; e ← map_find ip m; some (if e.failed then [] else (ip, []) ∷ []))

unfoldable pub introducer_round : MemberList → VirtualRing → Option (List (Str × Str))
unfolding introducer_beat
introducer_round m r = do
  p1 ← get r.next1 r.introducer
  b1 ← introducer_beat m p1 r
  p2 ← get r.next2 r.introducer
  b2 ← introducer_beat m p2 r
  p3 ← get r.prev1 r.introducer
  b3 ← introducer_beat m p3 r
  p4 ← get r.prev2 r.introducer
  b4 ← introducer_beat m p4 r
  some (b1 ++ (b2 ++ (b3 ++ b4)))
