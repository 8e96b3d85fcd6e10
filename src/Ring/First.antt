-- ===== src/Ring/First.antt =====
-- `insert` of src/virtual_ring.cpp into a ring that holds the introducer alone.
use dfss.Base.{
  ◌+◌, ◌≡◌, refl, sym, ap, subst, ◌∙◌, ◌≢◌, inl, inr, true, false, some, List, [], ◌∷◌, arith, ◌==◌,
  Bool-cases,
}
use dfss.Base.Int.{ℤ, pos, ltb_ℤ}
use dfss.Text.{Str}
use dfss.Text.Split.{Boost}
use dfss.Node.{Ptr, null, VirtualRing, update, create_node}
use dfss.Ring.{link_second, insert, find_node, octet}
use dfss.Ring.Shape.{IsLinked, IsCycle, IsCircle, IsSingle}
use dfss.Ring.Splice.{Yields}
use dfss.Ring.Search.{holder, find_node-holder}
use dfss.Ring.Join.{joined, Joined}

module _ (b : Boost) (ip : Str) (val : ℤ) (r : VirtualRing) where
  -- The first join: the introducer and the new node point at one another.
  module _ (single : IsSingle r) (octet_ip : octet b ip ≡ some val) where
    open_i : (r.introducer == null) ≡ false
    open_i = ground (arith, single.live)

    open_f : (r.fresh == null) ≡ false
    open_f = ground (arith, single.live)

    i-ne-f : (r.introducer == r.fresh) ≡ false
    i-ne-f = ground (arith, single.live)

    f-ne-i : (r.fresh == r.introducer) ≡ false
    f-ne-i = ground (arith, single.live)

    abbrev start : VirtualRing
    start = create_node ip (record r { count = r.count + 1 })

    abbrev paired : VirtualRing
    paired = record start {
      next1 = update (update start.next1 r.introducer r.fresh) r.fresh r.introducer;
      prev1 = update (update start.prev1 r.introducer r.fresh) r.fresh r.introducer;
      next2 = update start.next2 r.fresh null;
      prev2 = update start.prev2 r.fresh null;
    }

    link_second-paired : link_second r.fresh start ≡ some paired
    unfolding link_second create_node
    link_second-paired = simp (open_i, open_f)

    abbrev pair : List Ptr
    pair = r.introducer ∷ r.fresh ∷ []

    joined_nil : joined b ip val r [] ≡ pair
    joined_nil = elim (Bool-cases (ltb_ℤ (pos 1) val)) [ inl h ↦ rw h refl | inr h ↦ rw h refl ]

    paired-IsLinked : IsLinked paired pair
    unfolding create_node
    paired-IsLinked = record {
      live = λ p i. ground (arith, single.live);
      next_mem = λ p i. ground arith;
      prev_mem = λ p i. ground arith;
      prev_next = λ p i. ground arith;
      next_prev = λ p i. ground arith;
    }

    paired-IsCycle : IsCycle paired r.introducer pair
    unfolding create_node
    paired-IsCycle = record {
      two = omega arith;
      distinct = (ground arith, (refl, tt));
      path = (refl, (ground arith, ground arith));
      linked = paired-IsLinked;
      second = λ three. absurd (omega (arith, three));
      idle = λ two p i. (ground (arith, single.next2), ground (arith, single.prev2));
    }

    paired-Joined : Joined b ip val r [] (r.fresh, paired)
    unfolding create_node
    paired-Joined = record {
      node = refl;
      introducer = refl;
      circle =
          subst (IsCircle paired) (sym joined_nil)
            (record { counted = omega (arith, single.counted); cycle = paired-IsCycle });
      ip_addr = refl;
      fresh_new = ground (arith, f-ne-i);
      exists = refl;
    }

    alone :
        (p : Ptr)
        → holder ip r.ip_addr (r.introducer ∷ []) ≡ p
        → find_node ip r r.count r.introducer ≡ some p
    alone p held =
        ap (λ k. find_node ip r k r.introducer) single.counted
        ∙ find_node-holder ip r r.introducer (r.introducer ∷ []) null (refl, single.next1)
            (single.live.0, tt)
        ∙ ap some held

    pub insert_first :
        holder ip r.ip_addr (r.introducer ∷ []) ≡ null
        → Yields ((Joined b ip val r [])) (insert b ip r)
    unfolding insert create_node
    insert_first absent =
        let two : (r.count + 1 == 2) ≡ true = ground (arith, single.counted) in
        rw (alone null absent, octet_ip, two, link_second-paired) paired-Joined

    pub insert_only :
        (p : Ptr)
        → holder ip r.ip_addr (r.introducer ∷ []) ≡ p
        → p ≢ null
        → insert b ip r ≡ some (p, r)
    unfolding insert
    insert_only p held ne =
        let open_p : (p == null) ≡ false = ground arith in rw (alone p held, open_p) refl
