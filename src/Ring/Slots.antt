-- ===== src/Ring/Slots.antt =====
-- src/virtual_ring.cpp, `insert`: the branches of 3, 4 and more nodes as one splice.
use dfss.Base.{
  ◌+◌, ◌≡◌, sym, ap, ◌∙◌, ◌≢◌, inl, inr, true, false, List, arith, ◌==◌, ltb, length, Bool-cases,
}
use dfss.Node.{Ptr, null, VirtualRing}
use dfss.Ring.{link, link_third, link_fourth}
use dfss.Ring.Shape.{mem, IsCycle}
use dfss.Ring.Cycle.{next-ne, next_twice, next_thrice}
use dfss.Ring.Splice.{
  Slot, Spliced, Yields, Yields-some, link_third-Spliced, link_fourth-Spliced, link_many-Spliced,
}

module _ (r : VirtualRing) (start t : Ptr) (ps : List Ptr) (cycle : IsCycle r start ps)
    (i : mem r.introducer ps ≡ true) (new : mem t ps ≡ false) (t_ne : t ≢ null) where
  open cycle.linked use {live, next_mem, prev_mem, prev_next, next_prev}

  abbrev a : Ptr
  a = r.introducer

  abbrev b : Ptr
  b = r.next1 a

  abbrev z : Ptr
  z = r.prev1 a

  b-mem : mem b ps ≡ true
  b-mem = next_mem a i

  c_mem : mem (r.next1 b) ps ≡ true
  c_mem = next_mem b b-mem

  z-mem : mem z ps ≡ true
  z-mem = prev_mem a i

  a-Slot : Slot r t
  a-Slot = record {
    open_a = ground (arith, live a i);
    open_b = ground (arith, live b b-mem);
    open_c = ground (arith, live (r.next1 b) c_mem);
    open_z = ground (arith, live z z-mem);
    open_t = ground arith;
    at = ground arith;
    bt = ground (arith, b-mem);
    ct = ground (arith, c_mem);
    zt = ground (arith, z-mem);
    za = ground (arith, next-ne r start ps cycle z z-mem, next_prev a i);
    ta = ground arith;
    tb = ground (arith, b-mem);
    ab = ground (arith, next-ne r start ps cycle a i);
    ba = next-ne r start ps cycle a i;
    bc = ground (arith, next-ne r start ps cycle b b-mem);
  }

  -- Of two nodes the next is also the one before.
  z-eq-b_of_two : length ps ≡ 2 → z ≡ b
  z-eq-b_of_two two = sym (ap r.prev1 (next_twice r start ps cycle two a i)) ∙ prev_next b b-mem

  -- Of three nodes the second next is the one before.
  c-eq-z_of_three : length ps ≡ 3 → r.next1 b ≡ z
  c-eq-z_of_three three =
      sym (prev_next (r.next1 b) c_mem) ∙ ap r.prev1 (next_thrice r start ps cycle three a i)

  third : length ps ≡ 2 → Yields (Spliced r t) (link_third t r)
  third two =
      link_third-Spliced r t a-Slot (next_twice r start ps cycle two a i) (z-eq-b_of_two two)

  fourth : length ps ≡ 3 → Yields (Spliced r t) (link_fourth t r)
  fourth three =
      let cz = c-eq-z_of_three three in
      link_fourth-Spliced r t a-Slot cz (ap r.prev1 (sym cz) ∙ prev_next b b-mem) (prev_next a i)
        (ground (arith, cz, next-ne r start ps cycle b b-mem))

  -- Whatever the count, the node comes into the slot.
  pub link-Spliced : r.count ≡ length ps + 1 → Yields (Spliced r t) (link t r)
  unfolding link
  link-Spliced counted = elim (Bool-cases (r.count == 3)) [
    | inl is3 ↦
        let (s, e, sp) = Yields-some (link_third t r) (third (ground arith)) in
        let not4 : (s.count == 4) ≡ false = ground (arith, sp.count) in
        let not5 : ltb 4 s.count ≡ false = ground (arith, sp.count) in rw (is3, e, not4, not5) sp
    | inr not3 ↦ elim (Bool-cases (r.count == 4)) [
      | inl is4 ↦ rw (not3, is4) (fourth (ground arith))
      | inr not4 ↦
          let many : ltb 4 r.count ≡ true = ground (arith, cycle.two) in
          rw (not3, not4, many) (link_many-Spliced r t a-Slot)
    ]
  ]
