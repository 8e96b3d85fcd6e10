-- ===== src/Ring/Grow.antt =====
-- src/virtual_ring.cpp, `insert`: the circle after a splice.
use dfss.Base.{
  ◌≤◌, ◌<◌, ◌≡◌, refl, sym, subst, ◌≢◌, true, false, ◌||◌, List, [], ◌∷◌, ◌++◌, arith, ◌==◌, length,
  length-append,
}
use dfss.Node.{Ptr, null, VirtualRing}
use dfss.Ring.Shape.{mem, mem-append, Chain, Chain-frame, IsLinked, IsSecond, IsCycle}
use dfss.Ring.Cycle.{next-ne, pigeonhole}
use dfss.Ring.Paths.{
  mem-insert, IsDistinct-insert, Chain-join, Chain-retarget, IsDistinct-not-mem, Chain-last,
  mid-not-mem, mid-mem,
}
use dfss.Ring.Splice.{Spliced}

module _ (r s : VirtualRing) (t : Ptr) (ps qs : List Ptr) (k : IsLinked r ps)
    (members : (q : Ptr) → mem q qs ≡ ((q == t) || mem q ps)) (i : mem r.introducer ps ≡ true)
    (new : mem t ps ≡ false) (sp : Spliced r t s) (t_live : (t ≢ null) × (t < s.fresh)) where
  abbrev a : Ptr
  a = r.introducer

  abbrev b : Ptr
  b = r.next1 a

  abbrev z : Ptr
  z = r.prev1 a

  next_mem : (p : Ptr) → mem p qs ≡ true → mem (s.next1 p) qs ≡ true
  next_mem p h =
      ground (arith, sp.next1 p, members p, members (s.next1 p), k.next_mem a i, k.next_mem p)

  prev_mem : (p : Ptr) → mem p qs ≡ true → mem (s.prev1 p) qs ≡ true
  prev_mem p h = ground (arith, sp.prev1 p, members p, members (s.prev1 p), i, k.prev_mem p)

  prev_next : (p : Ptr) → mem p qs ≡ true → s.prev1 (s.next1 p) ≡ p
  prev_next p h = ground (
    arith,
    sp.next1 p,
    sp.prev1 (s.next1 p),
    members p,
    k.next_mem a i,
    k.next_mem p,
    k.prev_next a i,
    k.prev_next p,
  )

  next_prev : (p : Ptr) → mem p qs ≡ true → s.next1 (s.prev1 p) ≡ p
  next_prev p h = ground (
    arith,
    sp.prev1 p,
    sp.next1 (s.prev1 p),
    members p,
    i,
    k.prev_mem p,
    k.next_prev p,
    k.prev_next a i,
  )

  pub splice-IsLinked : IsLinked s qs
  splice-IsLinked = record {
    live = λ p h. ground (arith, members p, k.live p, sp.fresh);
    next_mem = next_mem;
    prev_mem = prev_mem;
    prev_next = prev_next;
    next_prev = next_prev;
  }

module _ (r s : VirtualRing) (start t : Ptr) (ps qs : List Ptr) (cycle : IsCycle r start ps)
    (members : (q : Ptr) → mem q qs ≡ ((q == t) || mem q ps)) (i : mem r.introducer ps ≡ true)
    (new : mem t ps ≡ false) (sp : Spliced r t s) where
  open cycle.linked use {next_mem as next_in, prev_mem as prev_in, prev_next as pn, next_prev as np}

  abbrev head : Ptr
  head = r.introducer

  a-ne-b : (r.next1 r.introducer == r.introducer) ≡ false
  a-ne-b = next-ne r start ps cycle r.introducer i

  z-ne-a : (r.prev1 r.introducer == r.introducer) ≡ false
  z-ne-a =
      ground (arith, next-ne r start ps cycle (r.prev1 r.introducer) (prev_in head i), np head i)

  b-ne-c : (r.next1 (r.next1 r.introducer) == r.next1 r.introducer) ≡ false
  b-ne-c = next-ne r start ps cycle (r.next1 r.introducer) (next_in head i)

  -- A member besides `a` and the one before it makes three.
  three_of :
      (p : Ptr)
      → mem p ps ≡ true
      → (p == r.introducer) ≡ false
      → (p == r.prev1 r.introducer) ≡ false
      → 3 ≤ length ps
  three_of p j na nz =
      pigeonhole (p ∷ r.introducer ∷ r.prev1 r.introducer ∷ []) ps
        (ground arith, (ground (arith, z-ne-a), (refl, tt))) (j, (i, (prev_in head i, tt)))

  old_second :
      (p : Ptr)
      → mem p ps ≡ true
      → (p == r.introducer) ≡ false
      → (p == r.prev1 r.introducer) ≡ false
      → IsSecond r p
  old_second p j na nz = cycle.second (three_of p j na nz) p j

  splice-next2 : (p : Ptr) → mem p qs ≡ true → s.next2 p ≡ s.next1 (s.next1 p)
  splice-next2 p h = ground (
    arith,
    sp.next1 p,
    sp.next1 (s.next1 p),
    sp.next2 p,
    members p,
    next_in head i,
    next_in p,
    pn p,
    np head i,
    prev_in head i,
    a-ne-b,
    z-ne-a,
    old_second p,
  )

  old_second_back :
      (p : Ptr)
      → mem p ps ≡ true
      → (p == r.next1 r.introducer) ≡ false
      → (p == r.next1 (r.next1 r.introducer)) ≡ false
      → IsSecond r p
  old_second_back p j nb nc =
      cycle.second
        (pigeonhole (p ∷ r.next1 r.introducer ∷ r.next1 (r.next1 r.introducer) ∷ []) ps
          (ground arith, (ground (arith, b-ne-c), (refl, tt)))
          (j, (next_in head i, (next_in (r.next1 r.introducer) (next_in head i), tt))))
        p j

  splice-prev2 : (p : Ptr) → mem p qs ≡ true → s.prev2 p ≡ s.prev1 (s.prev1 p)
  splice-prev2 p h = ground (
    arith,
    sp.prev1 p,
    sp.prev1 (s.prev1 p),
    sp.prev2 p,
    members p,
    next_in head i,
    prev_in p,
    np p,
    pn head i,
    pn (r.next1 head),
    next_in (r.next1 head),
    a-ne-b,
    b-ne-c,
    old_second_back p,
  )

  pub splice-IsSecond : (p : Ptr) → mem p qs ≡ true → IsSecond s p
  splice-IsSecond p h = (splice-next2 p h, splice-prev2 p h)

module _ (r s : VirtualRing) (x mid t : Ptr) (xs ys : List Ptr)
    (cycle : IsCycle r x (x ∷ (xs ++ ys))) (front : Chain r.next1 (r.next1 x) xs mid)
    (back : Chain r.next1 mid ys x) (at_slot : r.introducer ≡ r.prev1 mid)
    (new : mem t (x ∷ (xs ++ ys)) ≡ false) (t_live : (t ≢ null) × (t < s.fresh))
    (sp : Spliced r t s) where
  slot_mem : mem r.introducer (x ∷ (xs ++ ys)) ≡ true
  slot_mem =
      subst (λ v. mem v (x ∷ (xs ++ ys)) ≡ true) (sym at_slot)
        (cycle.linked.prev_mem mid (mid-mem r.next1 x mid xs ys back))

  slot_next : r.next1 r.introducer ≡ mid
  slot_next = rw at_slot (cycle.linked.next_prev mid (mid-mem r.next1 x mid xs ys back))

  slot_front : mem r.introducer (x ∷ xs) ≡ true
  slot_front =
      let (l, i, e) = Chain-last r.next1 x x xs mid (refl, front) in
      ground (arith, at_slot, cycle.linked.prev_next l, mem-append l (x ∷ xs) ys, e, i)

  slot_back : mem r.introducer ys ≡ false
  slot_back = IsDistinct-not-mem r.introducer (x ∷ xs) ys cycle.distinct slot_front

  front-Chain : Chain s.next1 x (x ∷ xs) t
  front-Chain =
      Chain-retarget r.next1 s.next1 r.introducer mid t x x xs slot_next
        (ground (arith, sp.next1 r.introducer, slot_mem))
        (λ y h ne. ground (arith, sp.next1 y, mem-append y (x ∷ xs) ys))
        (λ y h e. ground (arith, at_slot, cycle.linked.prev_next y, mem-append y (x ∷ xs) ys))
        (mid-not-mem r.next1 x mid xs ys cycle.distinct back) (refl, front)

  back-Chain : Chain s.next1 mid ys x
  back-Chain =
      Chain-frame r.next1 s.next1 mid ys x
        (λ y h. ground (arith, sp.next1 y, mem-append y (x ∷ xs) ys, slot_back)) back

  t_next : s.next1 t ≡ mid
  t_next = ground (arith, sp.next1 t, slot_next)

  members : (q : Ptr) → mem q (x ∷ (xs ++ (t ∷ ys))) ≡ ((q == t) || mem q (x ∷ (xs ++ ys)))
  members q = mem-insert t q (x ∷ xs) ys

  -- The new node stands behind `x ∷ xs`.
  pub splice-IsCycle : IsCycle s x (x ∷ (xs ++ (t ∷ ys)))
  splice-IsCycle = record {
    two = omega (arith, length-append xs (t ∷ ys));
    distinct = IsDistinct-insert t (x ∷ xs) ys new cycle.distinct;
    path = Chain-join s.next1 x (x ∷ xs) (t ∷ ys) t x front-Chain (refl, rw t_next back-Chain);
    linked =
        splice-IsLinked r s t (x ∷ (xs ++ ys)) (x ∷ (xs ++ (t ∷ ys))) cycle.linked members slot_mem
          new sp t_live;
    second = λ three.
        splice-IsSecond r s x t (x ∷ (xs ++ ys)) (x ∷ (xs ++ (t ∷ ys))) cycle members slot_mem new
          sp;
    idle = λ two.
        absurd (omega (arith, two, cycle.two, length-append xs (t ∷ ys), length-append xs ys));
  }
