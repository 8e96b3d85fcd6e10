-- ===== src/Ring/Shrink.antt =====
-- src/virtual_ring.cpp, `leave`: the links of the circle after a removal.
use dfss.Base.{
  suc, ◌≤◌, ◌≡◌, refl, sym, ap, ◌∙◌, inl, inr, true, false, not, ◌&&◌, List, [], ◌∷◌, arith, ◌==◌,
  length, Bool-cases,
}
use dfss.Node.{Ptr, VirtualRing}
use dfss.Ring.Shape.{mem, IsDistinct, Chain, IsLinked, IsSecond, IsCycle}
use dfss.Ring.Cycle.{next-ne, next_twice-ne, next_thrice, pigeonhole}
use dfss.Ring.Unlink.{Removed}

module _ (r r' : VirtualRing) (s start : Ptr) (ps qs : List Ptr) (cycle : IsCycle r start ps)
    (three : 3 ≤ length ps) (members : (q : Ptr) → mem q qs ≡ (not (q == s) && mem q ps))
    (i : mem s ps ≡ true) (rm : Removed r s r') where
  open cycle.linked use {live, next_mem, prev_mem, prev_next, next_prev}

  abbrev a : Ptr
  a = r.prev1 s

  abbrev c : Ptr
  c = r.next1 s

  s-ne-c : (c == s) ≡ false
  s-ne-c = next-ne r start ps cycle s i

  s-ne-a : (a == s) ≡ false
  s-ne-a = ground (arith, next-ne r start ps cycle a (prev_mem s i), next_prev s i)

  c-ne-a : (c == a) ≡ false
  c-ne-a = ground (arith, next_twice-ne r start ps cycle three a (prev_mem s i), next_prev s i)

  z-ne-a : (r.prev1 a == a) ≡ false
  z-ne-a = ground (
    arith,
    next-ne r start ps cycle (r.prev1 a) (prev_mem a (prev_mem s i)),
    next_prev a (prev_mem s i),
  )

  shrink_next_mem : (p : Ptr) → mem p qs ≡ true → mem (r'.next1 p) qs ≡ true
  shrink_next_mem p h = ground (
    arith,
    rm.next1 p,
    members p,
    members (r'.next1 p),
    next_mem s i,
    next_mem p,
    prev_next p,
    s-ne-c,
  )

  shrink_prev_mem : (p : Ptr) → mem p qs ≡ true → mem (r'.prev1 p) qs ≡ true
  shrink_prev_mem p h = ground (
    arith,
    rm.prev1 p,
    members p,
    members (r'.prev1 p),
    prev_mem s i,
    prev_mem p,
    next_prev p,
    s-ne-a,
  )

  shrink_prev_next : (p : Ptr) → mem p qs ≡ true → r'.prev1 (r'.next1 p) ≡ p
  shrink_prev_next p h = ground (
    arith,
    rm.next1 p,
    rm.prev1 (r'.next1 p),
    members p,
    next_mem p,
    prev_next p,
    prev_next s i,
    s-ne-c,
    s-ne-a,
  )

  shrink_next_prev : (p : Ptr) → mem p qs ≡ true → r'.next1 (r'.prev1 p) ≡ p
  shrink_next_prev p h = ground (
    arith,
    rm.prev1 p,
    rm.next1 (r'.prev1 p),
    members p,
    prev_mem p,
    next_prev p,
    next_prev s i,
    s-ne-c,
    s-ne-a,
  )

  pub shrink-IsLinked : IsLinked r' qs
  shrink-IsLinked = record {
    live = λ p h. ground (arith, members p, live p, rm.fresh);
    next_mem = shrink_next_mem;
    prev_mem = shrink_prev_mem;
    prev_next = shrink_prev_next;
    next_prev = shrink_next_prev;
  }

  shrink_next2 : (p : Ptr) → mem p qs ≡ true → r'.next2 p ≡ r'.next1 (r'.next1 p)
  shrink_next2 p h = ground (
    arith,
    rm.next1 p,
    rm.next1 (r'.next1 p),
    rm.next2 p,
    members p,
    members (r'.next1 p),
    next_mem p,
    prev_next p,
    prev_next (r.next1 p),
    s-ne-c,
    s-ne-a,
    c-ne-a,
    z-ne-a,
    next_prev s i,
    next_prev a (prev_mem s i),
    cycle.second three p,
  )

  shrink_prev2 : (p : Ptr) → mem p qs ≡ true → r'.prev2 p ≡ r'.prev1 (r'.prev1 p)
  shrink_prev2 p h = ground (
    arith,
    rm.prev1 p,
    rm.prev1 (r'.prev1 p),
    rm.prev2 p,
    members p,
    members (r'.prev1 p),
    prev_mem p,
    next_prev p,
    next_prev (r.prev1 p),
    s-ne-c,
    s-ne-a,
    c-ne-a,
    next-ne r start ps cycle c (next_mem s i),
    prev_next s i,
    prev_next c (next_mem s i),
    cycle.second three p,
  )

  pub shrink-IsSecond : (p : Ptr) → mem p qs ≡ true → IsSecond r' p
  shrink-IsSecond p h = (shrink_next2 p h, shrink_prev2 p h)

  -- Of three nodes two stay, the one before and the one behind.
  one_of : length ps ≡ 3 → (p : Ptr) → mem p qs ≡ true → (p == a) ≡ false → (p == c) ≡ true
  one_of is3 p h na = elim (Bool-cases (p == c)) [
    | inl e ↦ e
    | inr e ↦ absurd (
        omega (
          arith,
          is3,
          pigeonhole (p ∷ s ∷ a ∷ c ∷ []) ps
              (
                ground (arith, members p),
                (ground (arith, s-ne-a, s-ne-c), (ground (arith, c-ne-a), (refl, tt))),
              )
              (ground (arith, members p), (i, (prev_mem s i, (next_mem s i, tt)))),
        ))
  ]

  shrink_back : length ps ≡ 3 → (p : Ptr) → mem p qs ≡ true → r'.next1 (r'.next1 p) ≡ p
  shrink_back is3 p h = ground (
    arith,
    one_of is3 p h,
    rm.next1 a,
    rm.next1 c,
    s-ne-a,
    s-ne-c,
    c-ne-a,
    next_prev s i,
    next_thrice r start ps cycle is3 a (prev_mem s i),
  )

  shrink_forth : length ps ≡ 3 → (p : Ptr) → mem p qs ≡ true → r'.prev1 (r'.prev1 p) ≡ p
  shrink_forth is3 p h =
      let back =
        shrink_back is3 (r'.prev1 (r'.prev1 p))
          (shrink_prev_mem (r'.prev1 p) (shrink_prev_mem p h)) in
      sym back
      ∙ ap r'.next1 (shrink_next_prev (r'.prev1 p) (shrink_prev_mem p h))
      ∙ shrink_next_prev p h

  pub shrink-IsCycle :
      (start' : Ptr)
      → suc (length qs) ≡ length ps
      → IsDistinct qs
      → Chain r'.next1 start' qs start'
      → IsCycle r' start' qs
  shrink-IsCycle start' size distinct path = record {
    two = omega (arith, three);
    distinct = distinct;
    path = path;
    linked = shrink-IsLinked;
    second = λ more. shrink-IsSecond;
    idle = λ two p h.
        let is3 : length ps ≡ 3 = omega (arith, two, size) in
        (
          inr (shrink_next2 p h ∙ shrink_back is3 p h),
          inr (shrink_prev2 p h ∙ shrink_forth is3 p h),
        );
  }
