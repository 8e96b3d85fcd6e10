-- ===== src/Ring/Join.antt =====
-- src/virtual_ring.cpp, `insert` into a circle of at least two nodes.
use dfss.Base.{
  suc, ◌+◌, ◌-◌, ◌<◌, ◌≡◌, refl, sym, ap, subst, ◌∙◌, ◌≢◌, inl, inr, true, false, some, List, ◌∷◌,
  ◌++◌, arith, ◌==◌, length, length-append, Bool-cases, All,
}
use dfss.Base.Int.{ℤ, pos}
use dfss.Text.{Str}
use dfss.Text.Split.{Boost}
use dfss.Node.{Ptr, null, VirtualRing, update, create_node}
use dfss.Ring.{link, insert, find_node, find_slot, octet}
use dfss.Ring.Shape.{
  mem, Chain, IsCycle, IsCycle-frame, IsCircle, SameOn, SameOn-introducer, All-of-mem, mem-All,
}
use dfss.Ring.Paths.{mid-mem}
use dfss.Ring.Grow.{splice-IsCycle}
use dfss.Ring.Slots.{link-Spliced}
use dfss.Ring.Splice.{Spliced, Yields, Yields-some}
use dfss.Ring.Search.{
  holder, AllLive, find_node-holder, before_slot, after_slot, before-append-after, number, HasOctet,
  find_slot-slot,
}

abbrev pub joined_addr : Str → VirtualRing → Ptr → Str
joined_addr ip r = update r.ip_addr r.fresh ip

module _ (b : Boost) (ip : Str) (val : ℤ) (r : VirtualRing) where
  abbrev pub key : Ptr → ℤ
  key q = number b (joined_addr ip r q)

  -- The order of the nodes afterwards.
  abbrev pub joined : List Ptr → List Ptr
  joined xs = r.introducer ∷ (before_slot key val xs ++ (r.fresh ∷ after_slot key val xs))

  pub record Joined (xs : List Ptr) (out : Ptr × VirtualRing) : Type 0 where
    pub node : out.0 ≡ r.fresh
    pub introducer : out.1.introducer ≡ r.introducer
    pub circle : IsCircle out.1 (joined xs)
    pub ip_addr : out.1.ip_addr ≡ joined_addr ip r
    pub fresh_new : mem r.fresh (r.introducer ∷ xs) ≡ false
    pub exists : out.1.introducer_exists ≡ r.introducer_exists

  module _ (xs : List Ptr) (circle : IsCircle r (r.introducer ∷ xs))
      (known : All (λ q. HasOctet b (r.ip_addr q)) (r.introducer ∷ xs))
      (octet_ip : octet b ip ≡ some val) where
    abbrev ps : List Ptr
    ps = r.introducer ∷ xs

    abbrev created : VirtualRing
    created = create_node ip (record r { count = r.count + 1 })

    fresh_new : mem r.fresh ps ≡ false
    fresh_new = elim (Bool-cases (mem r.fresh ps)) [
      | inr e ↦ e
      | inl e ↦ absurd (omega (arith, (circle.cycle.linked.live r.fresh e).1))
    ]

    fresh_live : r.fresh ≢ null
    fresh_live = omega (arith, (circle.cycle.linked.live r.introducer (ground arith)).1)

    created-SameOn : SameOn ps r created
    unfolding create_node
    created-SameOn = record {
      next1 = λ p i. ground (arith, fresh_new);
      next2 = λ p i. ground (arith, fresh_new);
      prev1 = λ p i. ground (arith, fresh_new);
      prev2 = λ p i. ground (arith, fresh_new);
      fresh = omega arith;
    }

    created-IsCycle : IsCycle created r.introducer ps
    created-IsCycle = IsCycle-frame r created r.introducer ps created-SameOn circle.cycle

    all_live : AllLive ps
    all_live = All-of-mem ps (λ p i. (circle.cycle.linked.live p i).0)

    is_held : (p : Ptr) → holder ip r.ip_addr ps ≡ p → find_node ip r r.count r.introducer ≡ some p
    is_held p held =
        ap (λ k. find_node ip r k r.introducer) circle.counted
        ∙ find_node-holder ip r r.introducer ps r.introducer circle.cycle.path all_live
        ∙ ap some held

    known_created : All (λ q. HasOctet b (joined_addr ip r q)) ps
    known_created = All-of-mem ps (λ p i.
        let same : joined_addr ip r p ≡ r.ip_addr p = ground (arith, fresh_new) in
        rw same (mem-All (λ q. HasOctet b (r.ip_addr q)) ps known p i))

    abbrev before : List Ptr
    before = before_slot key val xs

    abbrev after : List Ptr
    after = after_slot key val xs

    abbrev at : Ptr → VirtualRing
    at p = record created { introducer = p }

    at-IsCycle : (p : Ptr) → IsCycle (at p) r.introducer (r.introducer ∷ (before ++ after))
    at-IsCycle p =
        subst (λ l. IsCycle (at p) r.introducer (r.introducer ∷ l))
          (sym (before-append-after key val xs))
          (IsCycle-frame created (at p) r.introducer ps (SameOn-introducer ps created p)
            created-IsCycle)

    abbrev Slotted : Ptr → Type 0
    Slotted mid =
        (find_slot b val created (suc (length xs)) (pos 1) r.introducer ≡ some mid)
        × Chain created.next1 (created.next1 r.introducer) before mid
        × Chain created.next1 mid after r.introducer

    slotted : (mid : Ptr) × Slotted mid
    unfolding create_node
    slotted =
        let (mid, e, f, g) =
          find_slot-slot b created val r.introducer all_live.0 known_created.0 xs
            created-IsCycle.path.1 all_live.1 known_created.1 in
        (mid, (e, f, g))

    module _ (mid : Ptr) (found : Slotted mid) where
      mid_ps : mem mid (r.introducer ∷ (before ++ after)) ≡ true
      mid_ps = mid-mem created.next1 r.introducer mid before after found.2

      mid_live : (mid ≢ null) × (mid < created.fresh)
      mid_live = (at-IsCycle mid).linked.live mid mid_ps

      entry : Ptr
      entry = created.prev1 mid

      new : mem r.fresh (r.introducer ∷ (before ++ after)) ≡ false
      new = rw (before-append-after key val xs) fresh_new

      spliced :
          Yields (Spliced (at (created.prev1 mid)) r.fresh) (link r.fresh (at (created.prev1 mid)))
      unfolding create_node
      spliced =
          link-Spliced (at (created.prev1 mid)) r.introducer r.fresh
            (r.introducer ∷ (before ++ after)) (at-IsCycle (created.prev1 mid))
            ((at-IsCycle mid).linked.prev_mem mid mid_ps) new fresh_live
            (rw (before-append-after key val xs) (omega (arith, circle.counted)))

      insert-Joined : holder ip r.ip_addr ps ≡ null → Yields (Joined xs) (insert b ip r)
      unfolding insert create_node
      insert-Joined absent = joins (Yields-some (link r.fresh (at (created.prev1 mid))) spliced)
        where
          open_mid : (mid == null) ≡ false
          open_mid = ground (arith, mid_live)

          not_two : (r.count + 1 == 2) ≡ false
          not_two = ground (arith, circle.counted, circle.cycle.two)

          rounds : r.count + 1 - 1 ≡ suc (length xs)
          rounds = omega (arith, circle.counted)

          joins :
              (s : VirtualRing) × (link r.fresh (at (created.prev1 mid)) ≡ some s)
                × Spliced (at (created.prev1 mid)) r.fresh s
              → Yields (Joined xs) (insert b ip r)
          joins (s, e, sp) =
              rw (is_held null absent, octet_ip, not_two, rounds, found.0, open_mid, e)
                (record {
                  node = refl;
                  introducer = refl;
                  circle = record {
                    counted = omega (
                      arith,
                      sp.count,
                      circle.counted,
                      length-append before (r.fresh ∷ after),
                      length-append before after,
                      ap length (before-append-after key val xs),
                    );
                    cycle =
                        IsCycle-frame s (record s { introducer = r.introducer }) r.introducer
                          (joined xs) (SameOn-introducer (joined xs) s r.introducer)
                          (splice-IsCycle (at (created.prev1 mid)) s r.introducer mid r.fresh before
                            after (at-IsCycle (created.prev1 mid)) found.1 found.2 refl new
                            (fresh_live, omega (arith, sp.fresh)) sp);
                  };
                  ip_addr = sp.ip_addr;
                  fresh_new = fresh_new;
                  exists = sp.introducer_exists;
                })

    -- A new address gets a new node in its slot, and all links are right again.
    pub insert_new : holder ip r.ip_addr ps ≡ null → Yields (Joined xs) (insert b ip r)
    insert_new absent = let (mid, found) = slotted in insert-Joined mid found absent

    -- An address of the ring is found, and nothing changes.
    pub insert_known :
        (p : Ptr) → holder ip r.ip_addr ps ≡ p → p ≢ null → insert b ip r ≡ some (p, r)
    unfolding insert
    insert_known p held ne =
        let open_p : (p == null) ≡ false = ground arith in rw (is_held p held, open_p) refl
