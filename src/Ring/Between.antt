-- ===== src/Ring/Between.antt =====
-- What `leave` of src/virtual_ring.cpp finds, and the nodes around it.
use dfss.Base.{
  ◌≤◌, ◌≡◌, refl, ap, inl, inr, true, false, some, List, [], ◌∷◌, ◌++◌, arith, ◌==◌, if◌then◌else◌,
  length, Bool-cases, All,
}
use dfss.Text.{Str, str_eq, str_eq_sym}
use dfss.Node.{Ptr, null, VirtualRing}
use dfss.Ring.{leave_loop, unlink}
use dfss.Ring.Shape.{mem, Chain, IsCycle}
use dfss.Ring.Cycle.{next-ne, next_twice-ne}
use dfss.Ring.Search.{AllLive, holder}
use dfss.Ring.Unlink.{Between}

-- The search of `leave`: the first node with the address is unlinked.
pub leave_loop-holder :
    (ip : Str) (r : VirtualRing) (p : Ptr) (xs : List Ptr) (stop : Ptr)
    → Chain r.next1 p xs stop
    → AllLive xs
    → leave_loop ip (length xs) p r
      ≡ (if holder ip r.ip_addr xs == null then some r else unlink (holder ip r.ip_addr xs) r)
unfolding leave_loop
leave_loop-holder ip r p [] stop path live = refl
leave_loop-holder ip r p (x ∷ xs) stop path live =
    let open_x : (x == null) ≡ false = ground arith in
    let rest = leave_loop-holder ip r (r.next1 x) xs stop path.1 live.1 in
    elim (Bool-cases (str_eq ip (r.ip_addr x))) [
      | inl hit ↦ rw (path.0, open_x, str_eq_sym (r.ip_addr x) ip, hit, open_x) refl
      | inr miss ↦ rw (path.0, open_x, str_eq_sym (r.ip_addr x) ip, miss) rest
    ]

-- The holder stands in the list, behind nodes with other addresses.
pub holder-split :
    (ip : Str) (addr : Ptr → Str) (xs : List Ptr)
    → (holder ip addr xs == null) ≡ false
    → (front : List Ptr) × (back : List Ptr) × (xs ≡ front ++ (holder ip addr xs ∷ back))
      × (str_eq ip (addr (holder ip addr xs)) ≡ true)
      × All (λ q. str_eq ip (addr q) ≡ false) front
holder-split ip addr [] h = absurd (impossible h)
  where
    impossible : true ≡ false → ⊥
    impossible e = cc
holder-split ip addr (x ∷ xs) h = elim (Bool-cases (str_eq ip (addr x))) [
  | inl hit ↦ ([], xs, rw hit refl, rw hit hit, tt)
  | inr miss ↦
      let found : (holder ip addr xs == null) ≡ false = rw miss at h in
      let (front, back, e, same, others) = holder-split ip addr xs found in
      (x ∷ front, back, rw miss (ap (◌∷◌ x) e), rw miss same, (miss, others))
]

module _ (r : VirtualRing) (start s : Ptr) (ps : List Ptr) (cycle : IsCycle r start ps)
    (three : 3 ≤ length ps) (i : mem s ps ≡ true) where
  open cycle.linked use {live, next_mem, prev_mem, prev_next, next_prev}

  abbrev a : Ptr
  a = r.prev1 s

  abbrev c : Ptr
  c = r.next1 s

  ne : (p : Ptr) → mem p ps ≡ true → (r.next1 p == p) ≡ false
  ne = next-ne r start ps cycle

  ne2 : (p : Ptr) → mem p ps ≡ true → (r.next1 (r.next1 p) == p) ≡ false
  ne2 = next_twice-ne r start ps cycle three

  a-mem : mem a ps ≡ true
  a-mem = prev_mem s i

  z-mem : mem (r.prev1 a) ps ≡ true
  z-mem = prev_mem a a-mem

  c-mem : mem c ps ≡ true
  c-mem = next_mem s i

  d-mem : mem (r.next1 c) ps ≡ true
  d-mem = next_mem c c-mem

  pub s-Between : Between r s
  s-Between = record {
    open_s = ground (arith, live s i);
    open_a = ground (arith, live a a-mem);
    open_c = ground (arith, live c c-mem);
    open_z = ground (arith, live (r.prev1 a) z-mem);
    open_d = ground (arith, live (r.next1 c) d-mem);
    next2 = (cycle.second three s i).0;
    prev2 = (cycle.second three s i).1;
    sa = ground (arith, ne a a-mem, next_prev s i);
    sc = ground (arith, ne s i);
    sz = ground (arith, ne2 (r.prev1 a) z-mem, next_prev a a-mem, next_prev s i);
    sd = ground (arith, ne2 s i);
    ac = ground (arith, ne2 a a-mem, next_prev s i);
    az = ground (arith, ne (r.prev1 a) z-mem, next_prev a a-mem);
    cd = ground (arith, ne c c-mem);
  }
