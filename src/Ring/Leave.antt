-- ===== src/Ring/Leave.antt =====
-- src/virtual_ring.cpp, `leave` on a circle: what it removes, and what it leaves as it was.
use dfss.Base.{
  ◌≤◌, ◌≡◌, refl, sym, ap, subst, ◌∙◌, ◌≢◌, inl, inr, true, false, some, List, ◌∷◌, ◌++◌, arith,
  ◌==◌, ltb, if◌then◌else◌, length, length-append, Bool-cases,
}
use dfss.Text.{Str, str_eq}
use dfss.Node.{Ptr, null, VirtualRing}
use dfss.Ring.{leave, leave_loop, leave_introducer, unlink}
use dfss.Ring.Shape.{mem, mem-append, IsCycle, IsCircle, All-of-mem}
use dfss.Ring.Search.{AllLive, holder}
use dfss.Ring.Delete.{shrink_behind, shrink_first}
use dfss.Ring.Splice.{Yields, Yields-some}
use dfss.Ring.Unlink.{Removed, unlink-Removed, leave_introducer-Removed}
use dfss.Ring.Between.{leave_loop-holder, s-Between}

-- What a departure leaves: the nodes `rest`, with their addresses.
pub record Left (r : VirtualRing) (rest : List Ptr) (r' : VirtualRing) : Type 0 where
  pub circle : IsCircle r' rest
  pub ip_addr : r'.ip_addr ≡ r.ip_addr
  pub fresh : r'.fresh ≡ r.fresh

module _ (ip : Str) (r : VirtualRing) (xs : List Ptr)
    (circle : IsCircle r (r.introducer ∷ xs)) where
  open_i : (r.introducer == null) ≡ false
  open_i = ground (arith, circle.cycle.linked.live r.introducer)

  all_live : AllLive (r.introducer ∷ xs)
  all_live = All-of-mem (r.introducer ∷ xs) (λ p i. (circle.cycle.linked.live p i).0)

  module _ (other : str_eq ip (r.ip_addr r.introducer) ≡ false) where
    walk :
        leave_loop ip r.count r.introducer r
        ≡ (if holder ip r.ip_addr xs == null then some r else unlink (holder ip r.ip_addr xs) r)
    walk =
        ap (λ k. leave_loop ip k r.introducer r) circle.counted
        ∙ leave_loop-holder ip r r.introducer (r.introducer ∷ xs) r.introducer circle.cycle.path
            all_live
        ∙ rw other refl

    -- Nobody with that address: nothing changes.
    pub leave_absent : holder ip r.ip_addr xs ≡ null → leave ip r ≡ some r
    unfolding leave
    leave_absent absent =
        let gone : leave_loop ip r.count r.introducer r ≡ some r = walk ∙ rw absent refl in
        elim (Bool-cases (ltb 2 r.count)) [
          | inl more ↦ rw (open_i, other, more) gone
          | inr few ↦ rw (open_i, other, few) refl
        ]

    -- Of two nodes neither is removed.
    pub leave_pair : length xs ≡ 1 → leave ip r ≡ some r
    unfolding leave
    leave_pair one =
        let few : ltb 2 r.count ≡ false = ground (arith, circle.counted) in
        rw (open_i, other, few) refl

    pub leave_other :
        (s : Ptr) (front back : List Ptr)
        → holder ip r.ip_addr xs ≡ s
        → s ≢ null
        → xs ≡ front ++ (s ∷ back)
        → 2 ≤ length xs
        → Yields
            (λ r'.
              Left r (r.introducer ∷ (front ++ back)) r'
              × (r'.introducer ≡ r.introducer)
              × (r'.introducer_exists ≡ r.introducer_exists))
            (leave ip r)
    unfolding leave
    leave_other s front back held ne split two =
        let more : ltb 2 r.count ≡ true = ground (arith, circle.counted) in
        let open_s : (s == null) ≡ false = ground arith in
        let three : 3 ≤ length (r.introducer ∷ (front ++ (s ∷ back))) =
          omega (arith, two, ap length split) in
        let cycle : IsCycle r r.introducer (r.introducer ∷ (front ++ (s ∷ back))) =
          subst (λ l. IsCycle r r.introducer (r.introducer ∷ l)) split circle.cycle in
        let i : mem s (r.introducer ∷ (front ++ (s ∷ back))) ≡ true =
          ground (arith, mem-append s (r.introducer ∷ front) (s ∷ back)) in
        let w = s-Between r r.introducer s (r.introducer ∷ (front ++ (s ∷ back))) cycle three i in
        rw (open_i, other, more, walk, held, open_s)
          (finish (Yields-some (unlink s r) (unlink-Removed r s w)) cycle three)
      where
        finish :
            (r' : VirtualRing) × (unlink s r ≡ some r')
              × (Removed r s r'
                  × (r'.introducer ≡ r.introducer)
                  × (r'.introducer_exists ≡ r.introducer_exists))
            → IsCycle r r.introducer (r.introducer ∷ (front ++ (s ∷ back)))
            → 3 ≤ length (r.introducer ∷ (front ++ (s ∷ back)))
            → Yields
                (λ r'.
                  Left r (r.introducer ∷ (front ++ back)) r'
                  × (r'.introducer ≡ r.introducer)
                  × (r'.introducer_exists ≡ r.introducer_exists))
                (unlink s r)
        finish (r', e, (rm, same, exists)) cycle three = rw e (
          record {
            circle = record {
              counted = omega (
                arith,
                rm.count,
                circle.counted,
                ap length split,
                length-append front back,
                length-append front (s ∷ back),
              );
              cycle =
                  subst (λ p. IsCycle r' p (r.introducer ∷ (front ++ back))) (sym same)
                    (shrink_behind r r' s rm r.introducer front back cycle three);
            };
            ip_addr = rm.ip_addr;
            fresh = rm.fresh;
          },
          same,
          exists,
        )

  -- The introducer leaves, and the next node takes its place.
  pub leave_self :
      (y : Ptr) (ys : List Ptr)
      → str_eq ip (r.ip_addr r.introducer) ≡ true
      → xs ≡ y ∷ ys
      → 2 ≤ length xs
      → Yields (λ r'. Left r xs r' × (r'.introducer ≡ y) × (r'.introducer_exists ≡ 0)) (leave ip r)
  unfolding leave
  leave_self y ys self split two =
      let cycle : IsCycle r r.introducer (r.introducer ∷ y ∷ ys) =
        subst (λ l. IsCycle r r.introducer (r.introducer ∷ l)) split circle.cycle in
      let three : 3 ≤ length (r.introducer ∷ y ∷ ys) = omega (arith, two, ap length split) in
      let w =
        s-Between r r.introducer r.introducer (r.introducer ∷ y ∷ ys) cycle three (ground arith) in
      rw (open_i, self)
        (finish
          (Yields-some (leave_introducer r.introducer r)
            (leave_introducer-Removed r r.introducer w))
          cycle three)
    where
      finish :
          (r' : VirtualRing) × (leave_introducer r.introducer r ≡ some r')
            × (Removed r r.introducer r'
                × (r'.introducer ≡ r.next1 r.introducer)
                × (r'.introducer_exists ≡ 0))
          → IsCycle r r.introducer (r.introducer ∷ y ∷ ys)
          → 3 ≤ length (r.introducer ∷ y ∷ ys)
          → Yields
              (λ r'. Left r xs r' × (r'.introducer ≡ y) × (r'.introducer_exists ≡ 0))
              (leave_introducer r.introducer r)
      finish (r', e, (rm, next, exists)) cycle three = rw e (
        record {
          circle = record {
            counted = omega (arith, rm.count, circle.counted, ap length split);
            cycle =
                subst (λ l. IsCycle r' r'.introducer l) (sym split)
                  (subst (λ p. IsCycle r' p (y ∷ ys)) (sym next)
                    (shrink_first r r' r.introducer rm y ys cycle three));
          };
          ip_addr = rm.ip_addr;
          fresh = rm.fresh;
        },
        next ∙ cycle.path.1.0,
        exists,
      )
