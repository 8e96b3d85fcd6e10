-- ===== src/Ring/RefineLeave.antt =====
-- `leave` of src/virtual_ring.cpp against the list of addresses.
use dfss.Base.{
  ℕ, ◌≤◌, ◌≡◌, refl, sym, ap, subst, ◌∙◌, ◌≢◌, inl, inr, true, false, some, List, [], ◌∷◌, ◌++◌,
  map, arith, ◌==◌, leb, ltb, length, Bool-cases, All,
}
use dfss.Text.{Str, str_eq}
use dfss.Text.Split.{Boost}
use dfss.Node.{Ptr, null, VirtualRing}
use dfss.Ring.{leave}
use dfss.Ring.Shape.{IsCircle, IsSingle, IsRing}
use dfss.Ring.Between.{holder-split}
use dfss.Ring.Leave.{leave_absent, leave_pair, leave_other, leave_self}
use dfss.Ring.Refine.{IsRing-live}
use dfss.Ring.Search.{holder, HasOctet}
use dfss.Ring.Spec.{addresses, leave_spec, erase, Represents, length-map}
use dfss.Ring.Splice.{Yields, Yields-some}

abbrev tail : List Str → List Str
tail [] = []
tail (x ∷ xs) = xs

leb→le : (m n : ℕ) → leb m n ≡ true → m ≤ n
leb→le m n h = ground arith

erase-split :
    (ip : Str) (f : Ptr → Str) (s : Ptr) (front back : List Ptr)
    → str_eq ip (f s) ≡ true
    → All (λ q. str_eq ip (f q) ≡ false) front
    → erase ip (map f (front ++ (s ∷ back))) ≡ map f (front ++ back)
erase-split ip f s [] back hit others = rw hit refl
erase-split ip f s (x ∷ front) back hit others =
    rw others.0 (ap (◌∷◌ (f x)) (erase-split ip f s front back hit others.1))

erase-absent :
    (ip : Str) (f : Ptr → Str) (xs : List Ptr)
    → holder ip f xs ≡ null
    → All (λ q. q ≢ null) xs
    → erase ip (map f xs) ≡ map f xs
erase-absent ip f [] absent live = refl
erase-absent ip f (x ∷ xs) absent live = elim (Bool-cases (str_eq ip (f x))) [
  | inl hit ↦ absurd (live.0 (rw hit at absent))
  | inr miss ↦ rw miss (ap (◌∷◌ (f x)) (erase-absent ip f xs (rw miss at absent) live.1))
]

All-erase : (P : Str → Type 0) (ip : Str) (xs : List Str) → All P xs → All P (erase ip xs)
All-erase P ip [] h = tt
All-erase P ip (x ∷ xs) h = elim (Bool-cases (str_eq ip x)) [
  | inl e ↦ rw e h.1
  | inr e ↦ rw e (h.0, All-erase P ip xs h.1)
]

module _ (b : Boost) (ip : Str) (r : VirtualRing) where
  -- `leave` keeps a well-formed ring, over the addresses that stay.
  abbrev pub Leaves : List Str → VirtualRing → Type 0
  Leaves ips r' =
      Represents b r' (leave_spec ip ips)
      × (r'.introducer ≡ r.introducer)
      × (r'.ip_addr ≡ r.ip_addr)

  unchanged :
      (xs : List Ptr)
      → IsRing r xs
      → All (HasOctet b) (addresses r xs)
      → leave_spec ip (addresses r xs) ≡ addresses r xs
      → leave ip r ≡ some r
      → Yields (Leaves (addresses r xs)) (leave ip r)
  unchanged xs ring octets spec e = rw e (
    subst (Represents b r) (sym spec)
        (record { nodes = xs; ring = ring; addrs = refl; octets = octets }),
    refl,
    refl,
  )

  module _ (other : str_eq ip (r.ip_addr r.introducer) ≡ false) where
    alone : IsSingle r → leave ip r ≡ some r
    unfolding leave
    alone single =
        let open_i : (r.introducer == null) ≡ false = ground (arith, single.live) in
        let few : ltb 2 r.count ≡ false = ground (arith, single.counted) in
        rw (open_i, other, few) refl

    removes :
        (xs : List Ptr)
        → IsCircle r (r.introducer ∷ xs)
        → All (HasOctet b) (addresses r xs)
        → 2 ≤ length xs
        → (holder ip r.ip_addr xs == null) ≡ false
        → Yields (Leaves (addresses r xs)) (leave ip r)
    removes xs circle octets two open_h =
        let (front, back, e, hit, others) = holder-split ip r.ip_addr xs open_h in
        let s : Ptr = holder ip r.ip_addr xs in
        let (r', done, (left, same, exists)) =
          Yields-some (leave ip r)
            (leave_other ip r xs circle other s front back refl (ground arith) e two) in
        let many : leb (length (map r.ip_addr xs)) 1 ≡ false =
          ground (arith, length-map r.ip_addr xs) in
        let erased : erase ip (map r.ip_addr xs) ≡ map r.ip_addr (front ++ back) =
          ap (λ l. erase ip (map r.ip_addr l)) e
          ∙ erase-split ip r.ip_addr s front back hit others in
        rw done (
          record {
            nodes = front ++ back;
            ring = inr (subst (λ p. IsCircle r' (p ∷ (front ++ back))) (sym same) left.circle);
            addrs =
                ap (λ f. map f (r'.introducer ∷ (front ++ back))) left.ip_addr
                ∙ ap (λ p. map r.ip_addr (p ∷ (front ++ back))) same
                ∙ rw many (ap (◌∷◌ (r.ip_addr r.introducer)) (sym erased));
            octets = rw many (octets.0, All-erase (HasOctet b) ip (map r.ip_addr xs) octets.1);
          },
          same,
          left.ip_addr,
        )

    leaves :
        (xs : List Ptr)
        → IsRing r xs
        → All (HasOctet b) (addresses r xs)
        → Yields (Leaves (addresses r xs)) (leave ip r)
    leaves xs (inl (e, single)) octets =
        unchanged xs (inl (e, single)) octets (rw e refl) (alone single)
    leaves xs (inr circle) octets = elim (Bool-cases (leb (length xs) 1)) [
      | inl one ↦ unchanged xs (inr circle) octets (rw (length-map r.ip_addr xs, one) refl) (
          leave_pair ip r xs circle other
            (omega (arith, leb→le (length xs) 1 one, circle.cycle.two)))
      | inr more ↦ elim (Bool-cases (holder ip r.ip_addr xs == null)) [
        | inl absent ↦
            let gone : holder ip r.ip_addr xs ≡ null = ground arith in
            unchanged xs (inr circle) octets
              (rw (length-map r.ip_addr xs, more)
                (ap (◌∷◌ (r.ip_addr r.introducer))
                  (erase-absent ip r.ip_addr xs gone (IsRing-live r xs (inr circle)).1)))
              (leave_absent ip r xs circle other gone)
        | inr held ↦ removes xs circle octets (ground arith) held
      ]
    ]

  -- On a well-formed ring with the addresses `ips`, `leave` of any address but the introducer's own
  -- ends without following a NULL pointer; the ring that results is well-formed with the addresses
  -- `leave_spec` gives, the same introducer, and the same address in every node.
  pub leave-refines :
      (ips : List Str)
      → Represents b r ips
      → str_eq ip (r.ip_addr r.introducer) ≡ false
      → Yields (Leaves ips) (leave ip r)
  leave-refines ips rep other =
      subst (λ l. Yields (Leaves l) (leave ip r)) rep.addrs
        (leaves other rep.nodes rep.ring (subst (All (HasOctet b)) (sym rep.addrs) rep.octets))

  takes_over :
      (xs : List Ptr)
      → IsRing r xs
      → All (HasOctet b) (addresses r xs)
      → str_eq ip (r.ip_addr r.introducer) ≡ true
      → 2 ≤ length xs
      → Yields (λ r'. Represents b r' (map r.ip_addr xs) × (r'.introducer_exists ≡ 0)) (leave ip r)
  takes_over [] ring octets self two = absurd (omega (arith, two))
  takes_over (y ∷ ys) (inl (e, single)) octets self two = absurd (omega (arith, two, ap length e))
  takes_over (y ∷ ys) (inr circle) octets self two =
      let (r', done, (left, next, exists)) =
        Yields-some (leave ip r) (leave_self ip r (y ∷ ys) circle y ys self refl two) in
      rw done (
        record {
          nodes = ys;
          ring = inr (subst (λ p. IsCircle r' (p ∷ ys)) (sym next) left.circle);
          addrs =
              ap (λ f. map f (r'.introducer ∷ ys)) left.ip_addr
              ∙ ap (λ p. map r.ip_addr (p ∷ ys)) next;
          octets = octets.1;
        },
        exists,
      )

  -- On a well-formed ring of at least three nodes, `leave` of the introducer's own address ends
  -- without following a NULL pointer; the ring that results is well-formed with the other addresses
  -- in their order, the next node in the introducer's place, and `introducer_exists` is 0.
  pub leave_introducer-refines :
      (first : Str) (rest : List Str)
      → Represents b r (first ∷ rest)
      → str_eq ip (r.ip_addr r.introducer) ≡ true
      → 2 ≤ length rest
      → Yields (λ r'. Represents b r' rest × (r'.introducer_exists ≡ 0)) (leave ip r)
  leave_introducer-refines first rest rep self two =
      let same : map r.ip_addr rep.nodes ≡ rest = ap tail rep.addrs in
      subst (λ l. Yields (λ r'. Represents b r' l × (r'.introducer_exists ≡ 0)) (leave ip r)) same
        (takes_over rep.nodes rep.ring (subst (All (HasOctet b)) (sym rep.addrs) rep.octets) self
          (omega (arith, length-map r.ip_addr rep.nodes, ap length same, two)))
