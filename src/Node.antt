-- ===== src/Node.antt =====
-- src/virtual_ring.hpp: `struct node`, `class virtual_ring` and its allocation.
-- Nodes are addresses, and each field of `struct node` is a function of the address; 0 is NULL.
-- Nodes are never freed, so a dereference fails at NULL only. `fresh` is the next unused address.
use dfss.Base.{ℕ, ◌+◌, Option, none, some, [], ◌==◌, if◌then◌else◌}
use dfss.Text.{Str}

abbrev pub Ptr : Type 0
Ptr = ℕ

abbrev pub null : Ptr
null = 0

pub record VirtualRing : Type 0 where
  pub introducer : Ptr
  pub count : ℕ
  pub introducer_exists : ℕ
  pub ip_addr : Ptr → Str
  pub next1 : Ptr → Ptr
  pub next2 : Ptr → Ptr
  pub prev1 : Ptr → Ptr
  pub prev2 : Ptr → Ptr
  pub fresh : Ptr

abbrev pub update {ℓ} : {A : Type ℓ} → (Ptr → A) → Ptr → A → Ptr → A
update f p v q = if q == p then v else f q

-- The constructor: the node at address 1 is the introducer.
unfoldable pub virtual_ring : Str → VirtualRing
virtual_ring ip = record {
  introducer = 1;
  count = 1;
  introducer_exists = 1;
  ip_addr = update (λ _. []) 1 ip;
  next1 = λ _. null;
  next2 = λ _. null;
  prev1 = λ _. null;
  prev2 = λ _. null;
  fresh = 2;
}

-- `p->f`, a fault at NULL.
abbrev pub get {ℓ} : {A : Type ℓ} → (Ptr → A) → Ptr → Option A
get f p = if p == null then none else some (f p)

-- `p->f = v`
abbrev pub set_next1 : Ptr → Ptr → VirtualRing → Option VirtualRing
set_next1 p v r = if p == null then none else some (record r { next1 = update r.next1 p v })

abbrev pub set_next2 : Ptr → Ptr → VirtualRing → Option VirtualRing
set_next2 p v r = if p == null then none else some (record r { next2 = update r.next2 p v })

abbrev pub set_prev1 : Ptr → Ptr → VirtualRing → Option VirtualRing
set_prev1 p v r = if p == null then none else some (record r { prev1 = update r.prev1 p v })

abbrev pub set_prev2 : Ptr → Ptr → VirtualRing → Option VirtualRing
set_prev2 p v r = if p == null then none else some (record r { prev2 = update r.prev2 p v })

-- The new node's address is `r.fresh`.
unfoldable pub create_node : Str → VirtualRing → VirtualRing
create_node ip r = record r {
  ip_addr = update r.ip_addr r.fresh ip;
  next1 = update r.next1 r.fresh null;
  next2 = update r.next2 r.fresh null;
  prev1 = update r.prev1 r.fresh null;
  prev2 = update r.prev2 r.fresh null;
  fresh = r.fresh + 1;
}

-- `new (struct node)` whose only pointer is overwritten at once: an address is lost.
abbrev pub leak : VirtualRing → VirtualRing
leak r = record r { fresh = r.fresh + 1 }
