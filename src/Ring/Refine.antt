-- ===== src/Ring/Refine.antt =====
-- `insert` of src/virtual_ring.cpp against the list of addresses.
use dfss.Base.{
  ◌≡◌, refl, sym, ap, subst, ◌∙◌, ◌≢◌, inl, inr, true, false, not, some, List, [], ◌∷◌, ◌++◌, map,
  arith, ◌==◌, Bool-cases, All,
}
use dfss.Text.{Str, eq_of_str_eq}
use dfss.Text.Order.{set_has}
use dfss.Text.Split.{Boost}
use dfss.Node.{Ptr, null, VirtualRing}
use dfss.Ring.{insert}
use dfss.Ring.Shape.{mem, mem-append, IsCircle, IsRing, All-of-mem}
use dfss.Ring.First.{insert_first, insert_only}
use dfss.Ring.Join.{Joined, joined_addr, joined, key, insert_new, insert_known}
use dfss.Ring.Between.{holder-split}
use dfss.Ring.Search.{AllLive, holder, before_slot, after_slot, number, HasOctet}
use dfss.Ring.Spec.{addresses, join_spec, Represents, map-slots, All-slots, map-agree, holder-has}
use dfss.Ring.Splice.{Yields, Yields-some}

-- The node that `insert` returns holds the address, in the ring that results.
pub record Inserted (b : Boost) (ip : Str) (ips : List Str) (out : Ptr × VirtualRing) : Type 0 where
  pub represents : Represents b out.1 (join_spec b ip ips)
  pub node : mem out.0 (out.1.introducer ∷ represents.nodes) ≡ true
  pub holds : out.1.ip_addr out.0 ≡ ip

module _ (b : Boost) (ip : Str) (r : VirtualRing) (xs : List Ptr) (h : HasOctet b ip) where
  -- Seen as addresses, the new node comes into its slot.
  Joined-addresses :
      (out : Ptr × VirtualRing)
      → Joined b ip (number b ip) r xs out
      → set_has ip (addresses r xs) ≡ false
      → map out.1.ip_addr (joined b ip (number b ip) r xs) ≡ join_spec b ip (addresses r xs)
  Joined-addresses out j absent =
      let same : (p : Ptr) → mem p (r.introducer ∷ xs) ≡ true → joined_addr ip r p ≡ r.ip_addr p =
        λ p i. ground (arith, j.fresh_new) in
      let first : joined_addr ip r r.introducer ≡ r.ip_addr r.introducer =
        same r.introducer (ground arith) in
      let rest : map (joined_addr ip r) xs ≡ map r.ip_addr xs =
        map-agree (joined_addr ip r) r.ip_addr xs (λ p i. same p (ground arith)) in
      let own : joined_addr ip r r.fresh ≡ ip = ground arith in
      let slots = map-slots (joined_addr ip r) (number b) (number b ip) r.fresh xs in
      ap (λ f. map f (joined b ip (number b ip) r xs)) j.ip_addr
      ∙ rw (absent, first) (ap (◌∷◌ (r.ip_addr r.introducer)) (rw (rest, own) at slots))

  Joined-Inserted :
      (out : Ptr × VirtualRing)
      → Joined b ip (number b ip) r xs out
      → set_has ip (addresses r xs) ≡ false
      → All (HasOctet b) (addresses r xs)
      → Inserted b ip (addresses r xs) out
  Joined-Inserted out j absent octets =
      let nodes : List Ptr =
        before_slot (key b ip (number b ip) r) (number b ip) xs
        ++ (r.fresh ∷ after_slot (key b ip (number b ip) r) (number b ip) xs) in
      record {
        represents = record {
          nodes = nodes;
          ring = inr (subst (λ p. IsCircle out.1 (p ∷ nodes)) (sym j.introducer) j.circle);
          addrs =
              subst (λ p. map out.1.ip_addr (p ∷ nodes) ≡ join_spec b ip (addresses r xs))
                (sym j.introducer) (Joined-addresses out j absent);
          octets = rw absent (
            octets.0,
            All-slots (HasOctet b) (number b) (number b ip) ip (map r.ip_addr xs) h octets.1,
          );
        };
        node = ground (
          arith,
          j.node,
          mem-append out.0 (before_slot (key b ip (number b ip) r) (number b ip) xs)
              (r.fresh ∷ after_slot (key b ip (number b ip) r) (number b ip) xs),
        );
        holds = ap (λ f. f out.0) j.ip_addr ∙ own_addr (out.0) j.node;
      }
    where
      own_addr : (p : Ptr) → p ≡ r.fresh → joined_addr ip r p ≡ ip
      own_addr p e = ground arith

  -- The ring holds the address already.
  Held-Inserted :
      IsRing r xs
      → AllLive (r.introducer ∷ xs)
      → set_has ip (addresses r xs) ≡ true
      → All (HasOctet b) (addresses r xs)
      → Inserted b ip (addresses r xs) (holder ip r.ip_addr (r.introducer ∷ xs), r)
  Held-Inserted ring live held octets =
      let open_h : (holder ip r.ip_addr (r.introducer ∷ xs) == null) ≡ false =
        holder-has ip r.ip_addr (r.introducer ∷ xs) live ∙ ap not held in
      let (front, back, e, same, others) = holder-split ip r.ip_addr (r.introducer ∷ xs) open_h in
      let p : Ptr = holder ip r.ip_addr (r.introducer ∷ xs) in
      record {
        represents = record {
          nodes = xs;
          ring = ring;
          addrs = rw held refl;
          octets = rw held octets;
        };
        node = subst (λ l. mem p l ≡ true) (sym e) (ground (arith, mem-append p front (p ∷ back)));
        holds = sym (eq_of_str_eq ip (r.ip_addr p) same);
      }

pub map-All :
    (P : Str → Type 0) (f : Ptr → Str) (xs : List Ptr) → All P (map f xs) → All (λ q. P (f q)) xs
map-All P f [] h = tt
map-All P f (x ∷ xs) h = (h.0, map-All P f xs h.1)

pub IsRing-live : (r : VirtualRing) (xs : List Ptr) → IsRing r xs → AllLive (r.introducer ∷ xs)
IsRing-live r xs (inl (e, single)) = rw e (single.live.0, tt)
IsRing-live r xs (inr circle) =
    All-of-mem (r.introducer ∷ xs) (λ p i. (circle.cycle.linked.live p i).0)

module _ (b : Boost) (ip : Str) (r : VirtualRing) (xs : List Ptr) (h : HasOctet b ip)
    (octets : All (HasOctet b) (addresses r xs)) where
  inserts_new :
      IsRing r xs
      → holder ip r.ip_addr (r.introducer ∷ xs) ≡ null
      → Yields (Joined b ip (number b ip) r xs) (insert b ip r)
  inserts_new (inl (e, single)) absent =
      subst (λ l. Yields (Joined b ip (number b ip) r l) (insert b ip r)) (sym e)
        (insert_first b ip (number b ip) r single h
          (subst (λ l. holder ip r.ip_addr (r.introducer ∷ l) ≡ null) e absent))
  inserts_new (inr circle) absent =
      insert_new b ip (number b ip) r xs circle
        (map-All (HasOctet b) r.ip_addr (r.introducer ∷ xs) octets) h absent

  inserts_known :
      IsRing r xs
      → (p : Ptr) → holder ip r.ip_addr (r.introducer ∷ xs) ≡ p
      → p ≢ null
      → insert b ip r ≡ some (p, r)
  inserts_known (inl (e, single)) p held ne =
      insert_only b ip (number b ip) r single h p
        (subst (λ l. holder ip r.ip_addr (r.introducer ∷ l) ≡ p) e held) ne
  inserts_known (inr circle) p held ne =
      insert_known b ip (number b ip) r xs circle
        (map-All (HasOctet b) r.ip_addr (r.introducer ∷ xs) octets) h p held ne

  inserts : IsRing r xs → Yields (Inserted b ip (addresses r xs)) (insert b ip r)
  inserts ring =
      let live = IsRing-live r xs ring in
      let has = holder-has ip r.ip_addr (r.introducer ∷ xs) live in
      elim (Bool-cases (set_has ip (addresses r xs))) [
        | inl held ↦
            let ne : (holder ip r.ip_addr (r.introducer ∷ xs) == null) ≡ false =
              has ∙ ap not held in
            rw (inserts_known ring (holder ip r.ip_addr (r.introducer ∷ xs)) refl (ground arith))
              (Held-Inserted b ip r xs h ring live held octets)
        | inr new ↦
            let absent : (holder ip r.ip_addr (r.introducer ∷ xs) == null) ≡ true =
              has ∙ ap not new in
            let (out, e, j) = Yields-some (insert b ip r) (inserts_new ring (ground arith)) in
            rw e (Joined-Inserted b ip r xs h out j new octets)
      ]

-- On a well-formed ring with the addresses `ips`, `insert` of an address with an octet ends without
-- following a NULL pointer. The ring that results is well-formed with the addresses `join_spec`
-- gives, and the node that is returned is one of its nodes and holds the address.
pub insert-refines :
    (b : Boost) (ip : Str) (r : VirtualRing) (ips : List Str)
    → Represents b r ips
    → HasOctet b ip
    → Yields (Inserted b ip ips) (insert b ip r)
insert-refines b ip r ips rep h =
    subst (λ l. Yields (Inserted b ip l) (insert b ip r)) rep.addrs
      (inserts b ip r rep.nodes h (subst (All (HasOctet b)) (sym rep.addrs) rep.octets) rep.ring)
