-- ===== src/Ring/Delete.antt =====
-- src/virtual_ring.cpp, `leave`: what is left of a circle when one of its nodes is taken out of the list.
use dfss.Base.{
  ◌≤◌, ◌≡◌, refl, subst, inl, inr, true, false, not, ◌&&◌, List, [], ◌∷◌, ◌++◌, arith, ◌==◌, length,
  length-append, Bool-cases,
}
use dfss.Node.{Ptr, VirtualRing}
use dfss.Ring.Shape.{mem, mem-append, IsDistinct, Chain, Chain-frame, IsLinked, IsCycle}
use dfss.Ring.Cycle.{next-ne}
use dfss.Ring.Paths.{Chain-split, Chain-join, Chain-retarget, Chain-last, IsDistinct-not-mem}
use dfss.Ring.Unlink.{Removed}
use dfss.Ring.Shrink.{shrink-IsCycle}

mem-delete :
    (s q : Ptr) (xs ys : List Ptr)
    → IsDistinct (xs ++ (s ∷ ys))
    → mem q (xs ++ ys) ≡ (not (q == s) && mem q (xs ++ (s ∷ ys)))
mem-delete s q [] ys d = ground arith
mem-delete s q (x ∷ xs) ys d = ground (arith, mem-delete s q xs ys d.1, mem-append x xs (s ∷ ys))

IsDistinct-delete :
    (s : Ptr) (xs ys : List Ptr) → IsDistinct (xs ++ (s ∷ ys)) → IsDistinct (xs ++ ys)
IsDistinct-delete s [] ys d = d.1
IsDistinct-delete s (x ∷ xs) ys d =
    (ground (arith, mem-delete s x xs ys d.1), IsDistinct-delete s xs ys d.1)

tail-IsDistinct : (s : Ptr) (xs ys : List Ptr) → IsDistinct (xs ++ (s ∷ ys)) → IsDistinct (s ∷ ys)
tail-IsDistinct s [] ys d = d
tail-IsDistinct s (x ∷ xs) ys d = tail-IsDistinct s xs ys d.1

module _ (r r' : VirtualRing) (s : Ptr) (rm : Removed r s r') where
  -- A path that ended at `s` ends at the node behind it.
  cut-Chain :
      (ps : List Ptr)
      → IsLinked r ps
      → mem s ps ≡ true
      → (p x : Ptr) (xs : List Ptr)
      → ((q : Ptr) → mem q (x ∷ xs) ≡ true → ((q == s) ≡ false) × (mem q ps ≡ true))
      → (r.prev1 s == s) ≡ false
      → Chain r.next1 p (x ∷ xs) s
      → Chain r'.next1 p (x ∷ xs) (r.next1 s)
  cut-Chain ps k i p x xs within ne path =
      Chain-retarget r.next1 r'.next1 (r.prev1 s) s (r.next1 s) p x xs (k.next_prev s i)
        (ground (arith, rm.next1 (r.prev1 s), ne)) (λ y h n. ground (arith, rm.next1 y, within y h))
        (λ y h e. ground (arith, k.prev_next y, within y h, e))
        (elim (Bool-cases (mem s xs)) [
          | inr e ↦ e
          | inl e ↦ absurd (apart (within s (ground arith)))
        ])
        path
    where
      apart : ((s == s) ≡ false) × (mem s ps ≡ true) → ⊥
      apart h = ground arith

  -- The node that leaves stands behind the introducer.
  module _ (x : Ptr) (xs ys : List Ptr) (cycle : IsCycle r x (x ∷ (xs ++ (s ∷ ys))))
      (three : 3 ≤ length (x ∷ (xs ++ (s ∷ ys)))) where
    s_mem : mem s (x ∷ (xs ++ (s ∷ ys))) ≡ true
    s_mem = ground (arith, mem-append s (x ∷ xs) (s ∷ ys))

    a-ne-s : (r.prev1 s == s) ≡ false
    a-ne-s =
        let k = cycle.linked in
        ground (
          arith,
          next-ne r x (x ∷ (xs ++ (s ∷ ys))) cycle (r.prev1 s) (k.prev_mem s s_mem),
          k.next_prev s s_mem,
        )

    within :
        (q : Ptr)
        → mem q (x ∷ xs) ≡ true
        → ((q == s) ≡ false) × (mem q (x ∷ (xs ++ (s ∷ ys))) ≡ true)
    within q h = (
      ground (arith, IsDistinct-not-mem q (x ∷ xs) (s ∷ ys) cycle.distinct h),
      ground (arith, mem-append q (x ∷ xs) (s ∷ ys)),
    )

    cut : Chain r'.next1 x (x ∷ (xs ++ ys)) x
    cut = rejoin (Chain-split r.next1 x (x ∷ xs) (s ∷ ys) x cycle.path)
      where
        rejoin :
            (mid : Ptr) × Chain r.next1 x (x ∷ xs) mid × Chain r.next1 mid (s ∷ ys) x
            → Chain r'.next1 x (x ∷ (xs ++ ys)) x
        rejoin (mid, front, back) =
            let to_s : Chain r.next1 x (x ∷ xs) s = subst (Chain r.next1 x (x ∷ xs)) back.0 front in
            let (l, li, le) = Chain-last r.next1 x x xs s to_s in
            let a_front : mem (r.prev1 s) (x ∷ xs) ≡ true =
              ground (arith, cycle.linked.prev_next l, within l li, le, li) in
            Chain-join r'.next1 x (x ∷ xs) ys (r.next1 s) x
              (cut-Chain (x ∷ (xs ++ (s ∷ ys))) cycle.linked s_mem x x xs within a-ne-s to_s)
              (Chain-frame r.next1 r'.next1 (r.next1 s) ys x
                (λ y h. ground (
                  arith,
                  rm.next1 y,
                  IsDistinct-not-mem (r.prev1 s) (x ∷ xs) (s ∷ ys) cycle.distinct a_front,
                  IsDistinct-not-mem y (s ∷ []) ys (tail-IsDistinct s (x ∷ xs) ys cycle.distinct),
                  h,
                ))
                back.1)

    pub shrink_behind : IsCycle r' x (x ∷ (xs ++ ys))
    shrink_behind =
        shrink-IsCycle r r' s x (x ∷ (xs ++ (s ∷ ys))) (x ∷ (xs ++ ys)) cycle three
          (λ q. mem-delete s q (x ∷ xs) ys cycle.distinct) s_mem rm x
          (omega (arith, length-append xs ys, length-append xs (s ∷ ys)))
          (IsDistinct-delete s (x ∷ xs) ys cycle.distinct) cut

  -- The introducer leaves.
  pub shrink_first :
      (y : Ptr) (ys : List Ptr)
      → IsCycle r s (s ∷ y ∷ ys)
      → 3 ≤ length (s ∷ y ∷ ys)
      → IsCycle r' (r.next1 s) (y ∷ ys)
  shrink_first y ys cycle three =
      shrink-IsCycle r r' s s (s ∷ y ∷ ys) (y ∷ ys) cycle three
        (λ q. mem-delete s q [] (y ∷ ys) cycle.distinct) (ground arith) rm (r.next1 s) refl
        cycle.distinct.1
        (cut-Chain (s ∷ y ∷ ys) cycle.linked (ground arith) (r.next1 s) y ys
          (λ q h. (ground (arith, cycle.distinct), ground arith))
          (ground (
            arith,
            cycle.linked.next_prev s,
            next-ne r s (s ∷ y ∷ ys) cycle (r.prev1 s),
            cycle.linked.prev_mem s,
          ))
          cycle.path.1)
