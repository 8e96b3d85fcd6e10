-- ===== src/Ring/Splice.antt =====
-- src/virtual_ring.cpp, `insert`: what a splice does to the links, `t` put between `a` and the node
-- after it.
use dfss.Base.{◌≤◌, ◌≡◌, refl, false, Option, none, some, arith, ◌==◌, ==_self, if◌then◌else◌}
use dfss.Node.{Ptr, null, VirtualRing}
use dfss.Ring.{link_third, link_fourth, link_many}

-- The slot between `introducer`, the node before it, and the next node: what the tests of the
-- splices find when `t` is new and there are at least two nodes.
pub record Slot (r : VirtualRing) (t : Ptr) : Type 0 where
  pub open_a : (r.introducer == null) ≡ false
  pub open_b : (r.next1 r.introducer == null) ≡ false
  pub open_c : (r.next1 (r.next1 r.introducer) == null) ≡ false
  pub open_z : (r.prev1 r.introducer == null) ≡ false
  pub open_t : (t == null) ≡ false
  pub at : (r.introducer == t) ≡ false
  pub bt : (r.next1 r.introducer == t) ≡ false
  pub ct : (r.next1 (r.next1 r.introducer) == t) ≡ false
  pub zt : (r.prev1 r.introducer == t) ≡ false
  pub ta : (t == r.introducer) ≡ false
  pub tb : (t == r.next1 r.introducer) ≡ false
  pub za : (r.prev1 r.introducer == r.introducer) ≡ false
  pub ab : (r.introducer == r.next1 r.introducer) ≡ false
  pub ba : (r.next1 r.introducer == r.introducer) ≡ false
  pub bc : (r.next1 r.introducer == r.next1 (r.next1 r.introducer)) ≡ false

-- The fields of `s`, which is `r` with `t` in the slot.
pub record Spliced (r : VirtualRing) (t : Ptr) (s : VirtualRing) : Type 0 where
  pub next1 :
      (q : Ptr)
      → s.next1 q
        ≡ (if q == t then r.next1 r.introducer else if q == r.introducer then t else r.next1 q)
  pub prev1 :
      (q : Ptr)
      → s.prev1 q
        ≡ (if q == t then r.introducer else if q == r.next1 r.introducer then t else r.prev1 q)
  pub next2 :
      (q : Ptr)
      → s.next2 q ≡ (
          if q == r.introducer
          then r.next1 r.introducer
          else if q == t
          then r.next1 (r.next1 r.introducer)
          else if q == r.prev1 r.introducer
          then t
          else r.next2 q)
  pub prev2 :
      (q : Ptr)
      → s.prev2 q ≡ (
          if q == t
          then r.prev1 r.introducer
          else if q == r.next1 r.introducer
          then r.introducer
          else if q == r.next1 (r.next1 r.introducer)
          then t
          else r.prev2 q)
  pub ip_addr : s.ip_addr ≡ r.ip_addr
  pub introducer_exists : s.introducer_exists ≡ r.introducer_exists
  pub count : s.count ≡ r.count
  pub fresh : r.fresh ≤ s.fresh

abbrev pub Yields : {A : Type 0} → (A → Type 0) → Option A → Type 0
Yields P none = ⊥
Yields P (some a) = P a

pub Yields-some :
    {A : Type 0} {P : A → Type 0} (o : Option A) → Yields P o → (a : A) × (o ≡ some a) × P a
Yields-some none y = absurd y
Yields-some (some a) y = (a, refl, y)

module _ (r : VirtualRing) (t : Ptr) (s : Slot r t) where
  open s use {open_a, open_b, open_c, open_z, open_t, at, bt, ct, zt, za, ta, tb, ab, ba, bc}

  pub link_many-Spliced : Yields (Spliced r t) (link_many t r)
  unfolding link_many
  link_many-Spliced =
      simp (open_a, open_b, open_c, open_z, open_t, at, bt, tb, ab, ba, ==_self)
        (record {
          next1 = λ q. ground arith;
          prev1 = λ q. ground arith;
          next2 = λ q. ground arith;
          prev2 = λ q. ground arith;
          ip_addr = refl;
          introducer_exists = refl;
          count = refl;
          fresh = omega arith;
        })

  -- With two nodes the one after the next is `introducer` again.
  pub link_third-Spliced :
      r.next1 (r.next1 r.introducer) ≡ r.introducer
      → r.prev1 r.introducer ≡ r.next1 r.introducer
      → Yields (Spliced r t) (link_third t r)
  unfolding link_third
  link_third-Spliced ca zb =
      simp (open_a, open_b, open_t, at, bt, ba, ==_self)
        (record {
          next1 = λ q. ground arith;
          prev1 = λ q. ground arith;
          next2 = λ q. ground arith;
          prev2 = λ q. ground arith;
          ip_addr = refl;
          introducer_exists = refl;
          count = refl;
          fresh = omega arith;
        })

  -- With three nodes the one after the next is the one before.
  pub link_fourth-Spliced :
      r.next1 (r.next1 r.introducer) ≡ r.prev1 r.introducer
      → r.prev1 (r.prev1 r.introducer) ≡ r.next1 r.introducer
      → r.prev1 (r.next1 r.introducer) ≡ r.introducer
      → (r.prev1 r.introducer == r.next1 r.introducer) ≡ false
      → Yields (Spliced r t) (link_fourth t r)
  unfolding link_fourth
  link_fourth-Spliced cz zz pb zb =
      simp (open_a, open_b, open_z, open_t, at, bt, zt, zb, ab, ba, zz, ==_self)
        (record {
          next1 = λ q. ground arith;
          prev1 = λ q. ground arith;
          next2 = λ q. ground arith;
          prev2 = λ q. ground arith;
          ip_addr = refl;
          introducer_exists = refl;
          count = refl;
          fresh = omega arith;
        })
