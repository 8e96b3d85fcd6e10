-- ===== src/Introducer.antt =====
-- src/client.cpp: the introducer's handler of JOIN and LEAVE, and the updates that it sends out.
-- `update_nodes` runs in a thread of its own: it is a function of the ring that it finds.
pub mod Beats
pub mod Joining
pub mod Leaving
pub mod Mutual
pub mod Near
pub mod Replies
pub mod Strangers
pub mod Updates
pub mod Watch
use dfss.Base.{
  ℕ, zero, suc, Bool, true, false, Option, none, some, List, [], ◌∷◌, ◌++◌, ◌==◌, if◌then◌else◌,
  ◌>>=◌,
}
use dfss.Text.{Str, str_eq, codes}
use dfss.Text.Order.{set_insert}
use dfss.Text.Split.{Boost}
use dfss.Node.{Ptr, null, VirtualRing, get}
use dfss.Ring.{insert, leave}
use dfss.Ring.Display.{display}

-- `if (p != NULL) if (ip.compare(p->ip_addr) != 0) ip_s.insert(p->ip_addr);`
unfoldable pub add_neighbour : Str → Ptr → VirtualRing → List Str → List Str
add_neighbour ip p r ip_s =
    if p == null
    then ip_s
    else if str_eq ip (r.ip_addr p)
    then ip_s
    else set_insert (r.ip_addr p) ip_s

-- The addresses of the four neighbours of `t`, less `ip`, as the set `ip_s`.
unfoldable pub neighbour_set : Str → Ptr → VirtualRing → Option (List Str)
neighbour_set ip t r = do
  n1 ← get r.next1 t
  n2 ← get r.next2 t
  p1 ← get r.prev1 t
  p2 ← get r.prev2 t
  some (
      add_neighbour ip p2 r
        (add_neighbour ip p1 r (add_neighbour ip n2 r (add_neighbour ip n1 r []))))

-- `response += (*it); response += ";";` for each element.
unfoldable pub write_list : Str → List Str → Str
write_list response [] = response
write_list response (x ∷ xs) = write_list (response ++ (x ++ (b';' ∷ []))) xs

-- `update_nodes`, with `k` rounds left from `t` on: what is sent to whom.
unfoldable pub update_loop : ℕ → Ptr → VirtualRing → Option (List (Str × Str))
update_loop zero t r = some []
update_loop (suc k) t r = do
  own ← get r.ip_addr t
  ip_s ← neighbour_set own t r
  first ← get r.ip_addr r.introducer
  next ← get r.next1 t
  rest ← update_loop k next r
  some (if str_eq own first then rest else (own, write_list [] ip_s) ∷ rest)

unfoldable pub update_nodes : VirtualRing → Option (List (Str × Str))
unfolding update_loop
update_nodes r = update_loop r.count r.introducer r

-- The ring afterwards, the lines that `display` prints, the reply, and whether `update_nodes` is started.
pub record Answer : Type 0 where
  pub ring : VirtualRing
  pub printed : List Str
  pub reply : Str
  pub updates : Bool

abbrev pub answer : VirtualRing → List Str → Str → Bool → Answer
answer r printed reply updates = record {
  ring = r;
  printed = printed;
  reply = reply;
  updates = updates;
}

unfoldable pub intro_handler : Boost → Str → Str → VirtualRing → Option Answer
intro_handler b request ip r =
    if str_eq request (codes "JOIN")
    then (do
      (t, r') ← insert b ip r
      printed ← display r'
      ip_s ← neighbour_set ip t r'
      some (answer r' printed (write_list [] ip_s) true))
    else if str_eq request (codes "LEAVE")
    then (do r' ← leave ip r; printed ← display r'; some (answer r' printed (codes "pong") true))
    else some (answer r [] (codes "pong") false)
