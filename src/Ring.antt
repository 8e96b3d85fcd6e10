-- ===== src/Ring.antt =====
-- src/virtual_ring.cpp: `insert`, `leave` and `put_file` of the introducer's ring.
-- `none` is undefined behaviour of the source (a NULL dereference, a missing field) or a throw.
pub mod Between
pub mod Cycle
pub mod Delete
pub mod Display
pub mod First
pub mod Grow
pub mod History
pub mod Join
pub mod Leave
pub mod Paths
pub mod Refine
pub mod RefineLeave
pub mod Search
pub mod Shape
pub mod Shrink
pub mod Slots
pub mod Spec
pub mod Splice
pub mod Unique
pub mod Unlink
use dfss.Base.{
  ℕ, zero, suc, ◌+◌, ◌-◌, Option, none, some, ◌==◌, ltb, if◌then◌else◌, get_elem?, ◌>>=◌,
}
use dfss.Base.Int.{ℤ, pos, ◌+ℤ◌, neg, ltb_ℤ, eqb_ℤ}
use dfss.Text.{Str, str_eq}
use dfss.Text.Number.{atoi}
use dfss.Text.Split.{Boost}
use dfss.Node.{
  Ptr, null, VirtualRing, get, set_next1, set_next2, set_prev1, set_prev2, create_node, leak,
}

-- `int(c)` of a `char`, which is signed.
abbrev pub char_int : ℕ → ℤ
char_int c = if ltb c 128 then pos c else neg (256 - c)

-- `insert`, first loop: the node that holds the address already, among `k` nodes from `itr` on.
-- `some null`: there is none.
unfoldable pub find_node : Str → VirtualRing → ℕ → Ptr → Option Ptr
find_node ip r zero itr = some null
find_node ip r (suc k) itr = do
  a ← get r.ip_addr itr
  let rest = find_node ip r k (r.next1 itr)
  if str_eq ip a then some itr else rest

-- `insert` with one node there already: the two point at one another.
unfoldable pub link_second : Ptr → VirtualRing → Option VirtualRing
link_second temp r = do
  r ← set_next1 r.introducer temp r
  r ← set_prev1 r.introducer temp r
  r ← set_next1 temp r.introducer r
  r ← set_prev1 temp r.introducer r
  r ← set_next2 temp null r
  set_prev2 temp null r

-- The three splices of `insert`; `introducer` is the node before the slot while they run.
unfoldable pub link_third : Ptr → VirtualRing → Option VirtualRing
link_third temp r = do
  let r = leak r
  temp1 ← get r.next1 r.introducer
  r ← set_next1 r.introducer temp r
  r ← set_next2 r.introducer temp1 r
  r ← set_prev2 r.introducer temp r
  r ← set_next1 temp temp1 r
  n ← get r.next1 temp
  m ← get r.next1 n
  r ← set_next2 temp m r
  r ← set_prev1 temp r.introducer r
  p ← get r.prev1 r.introducer
  r ← set_prev2 temp p r
  n ← get r.next1 r.introducer
  r ← set_next2 temp1 n r
  r ← set_prev1 temp1 temp r
  set_prev2 temp1 r.introducer r

unfoldable pub link_fourth : Ptr → VirtualRing → Option VirtualRing
link_fourth temp r = do
  let r = leak r
  temp2 ← get r.next1 r.introducer
  r ← set_next1 r.introducer temp r
  r ← set_next2 r.introducer temp2 r
  r ← set_next1 temp temp2 r
  n ← get r.next1 temp2
  r ← set_next2 temp n r
  r ← set_prev1 temp r.introducer r
  p ← get r.prev1 r.introducer
  r ← set_prev2 temp p r
  p ← get r.prev1 temp2
  r ← set_prev2 temp2 p r
  r ← set_prev1 temp2 temp r
  let r = leak r
  temp3 ← get r.prev1 r.introducer
  p ← get r.prev1 temp3
  q ← get r.prev1 p
  r ← set_prev2 temp3 q r
  n ← get r.next1 r.introducer
  set_next2 temp3 n r

unfoldable pub link_many : Ptr → VirtualRing → Option VirtualRing
link_many temp r = do
  let r = leak r
  temp4 ← get r.next1 r.introducer
  r ← set_next1 r.introducer temp r
  r ← set_next2 r.introducer temp4 r
  r ← set_next1 temp temp4 r
  n ← get r.next1 temp4
  r ← set_next2 temp n r
  r ← set_prev1 temp r.introducer r
  p ← get r.prev1 r.introducer
  r ← set_prev2 temp p r
  r ← set_prev1 temp4 temp r
  p ← get r.prev1 temp
  r ← set_prev2 temp4 p r
  n ← get r.next1 temp4
  r ← set_prev2 n temp r
  p ← get r.prev1 r.introducer
  set_next2 p temp r

-- `if (count == 3) … if (count == 4) … else if (count > 4) …`
unfoldable pub link : Ptr → VirtualRing → Option VirtualRing
link temp r = do
  r ← (if r.count == 3 then link_third temp r else some r)
  if r.count == 4 then link_fourth temp r else if ltb 4 r.count then link_many temp r else some r

-- `leave` of the introducer `s`.
unfoldable pub leave_introducer : Ptr → VirtualRing → Option VirtualRing
leave_introducer s r = do
  let r = record r { count = r.count - 1; introducer_exists = 0 }
  n1 ← get r.next1 s
  let r = record r { introducer = n1 }
  p1 ← get r.prev1 s
  n1 ← get r.next1 s
  r ← set_next1 p1 n1 r
  p1 ← get r.prev1 s
  n2 ← get r.next2 s
  r ← set_next2 p1 n2 r
  p2 ← get r.prev2 s
  n1 ← get r.next1 s
  r ← set_next2 p2 n1 r
  n1 ← get r.next1 s
  p1 ← get r.prev1 s
  r ← set_prev1 n1 p1 r
  n1 ← get r.next1 s
  p2 ← get r.prev2 s
  r ← set_prev2 n1 p2 r
  n2 ← get r.next2 s
  p1 ← get r.prev1 s
  set_prev2 n2 p1 r

-- `leave` of another node `s`.
unfoldable pub unlink : Ptr → VirtualRing → Option VirtualRing
unlink s r = do
  let r = record r { count = r.count - 1 }
  s1 ← get r.prev1 s
  n1 ← get r.next1 s
  r ← set_next1 s1 n1 r
  n2 ← get r.next2 s
  r ← set_next2 s1 n2 r
  p ← get r.prev1 s1
  n1 ← get r.next1 s
  r ← set_next2 p n1 r
  n1 ← get r.next1 s
  r ← set_prev1 n1 s1 r
  n1 ← get r.next1 s
  p ← get r.prev1 s1
  r ← set_prev2 n1 p r
  n2 ← get r.next2 s
  r ← set_prev2 n2 s1 r
  r ← set_next1 s null r
  r ← set_next2 s null r
  r ← set_prev1 s null r
  set_prev2 s null r

-- `for (i = 1; i <= count; i++)` of `leave`, with `k` rounds left.
unfoldable pub leave_loop : Str → ℕ → Ptr → VirtualRing → Option VirtualRing
leave_loop ip zero s r = some r
leave_loop ip (suc k) s r = do
  a ← get r.ip_addr s
  n ← get r.next1 s
  let rest = leave_loop ip k n r
  if str_eq a ip then unlink s r else rest

unfoldable pub leave : Str → VirtualRing → Option VirtualRing
leave ip r = do
  a ← get r.ip_addr r.introducer
  if str_eq ip a
      then leave_introducer r.introducer r
      else if ltb 2 r.count
      then leave_loop ip r.count r.introducer r
      else some r

module _ (b : Boost) where
  -- `atoi(strs[3])` of the split address: a fault with less than four fields.
  unfoldable pub octet : Str → Option ℤ
  octet ip = do s ← get_elem? (b.split b'.' ip) 3; some (atoi s)

  -- `insert`, second loop, with `k` rounds left: `while (val1 < val and i < count)`.
  unfoldable pub find_slot : ℤ → VirtualRing → ℕ → ℤ → Ptr → Option Ptr
  find_slot val r zero val1 temporary = some temporary
  find_slot val r (suc k) val1 temporary =
      let step = (do
        next ← get r.next1 temporary
        a ← get r.ip_addr next
        val1' ← octet a
        find_slot val r k val1' next) in
      if ltb_ℤ val1 val then step else some temporary

  -- `insert`: the node that holds the address, and the ring.
  unfoldable pub insert : Str → VirtualRing → Option (Ptr × VirtualRing)
  insert ip r = do
    itr ← find_node ip r r.count r.introducer
    let temp = r.fresh
    let joined = (do
      let r = create_node ip (record r { count = r.count + 1 })
      val ← octet ip
      if r.count == 2 then (do r ← link_second temp r; some (temp, r)) else do
        temporary ← find_slot val r (r.count - 1) (pos 1) r.introducer
        before ← get r.prev1 temporary
        let original_introducer = r.introducer
        r ← link temp (record r { introducer = before })
        some (temp, record r { introducer = original_introducer }))
    if itr == null then joined else some (itr, r)

  -- `put_file`, with `k` rounds left: `while (Val > Val1 and i < count)`.
  unfoldable pub put_loop : ℤ → VirtualRing → ℕ → ℤ → Ptr → Option Str
  put_loop val r zero val1 temp = get r.ip_addr temp
  put_loop val r (suc k) val1 temp =
      let step = (do
        a ← get r.ip_addr temp
        val1' ← octet a
        next ← get r.next1 temp
        let rest = put_loop val r k val1' next
        if eqb_ℤ val1' val then some a else rest) in
      if ltb_ℤ val1 val then step else get r.ip_addr temp

  -- `file_name.at(0)` throws on the empty name.
  unfoldable pub put_file : Str → VirtualRing → Option Str
  put_file file_name r = do
    c ← get_elem? file_name 0
    put_loop (char_int c +ℤ pos 37 +ℤ neg b'a') r (r.count - 1) (pos 1) r.introducer
