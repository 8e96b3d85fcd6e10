-- ===== src/Ring/Unlink.antt =====
-- src/virtual_ring.cpp, `leave`: what a removal does to the nodes that stay.
use dfss.Base.{◌-◌, ◌≡◌, refl, false, arith, ◌==◌, if◌then◌else◌}
use dfss.Node.{Ptr, null, VirtualRing}
use dfss.Ring.{unlink, leave_introducer}
use dfss.Ring.Splice.{Yields}

-- What the removals find around `s` when there are at least three nodes.
pub record Between (r : VirtualRing) (s : Ptr) : Type 0 where
  pub open_s : (s == null) ≡ false
  pub open_a : (r.prev1 s == null) ≡ false
  pub open_c : (r.next1 s == null) ≡ false
  pub open_z : (r.prev1 (r.prev1 s) == null) ≡ false
  pub open_d : (r.next1 (r.next1 s) == null) ≡ false
  pub next2 : r.next2 s ≡ r.next1 (r.next1 s)
  pub prev2 : r.prev2 s ≡ r.prev1 (r.prev1 s)
  pub sa : (s == r.prev1 s) ≡ false
  pub sc : (s == r.next1 s) ≡ false
  pub sz : (s == r.prev1 (r.prev1 s)) ≡ false
  pub sd : (s == r.next1 (r.next1 s)) ≡ false
  pub ac : (r.prev1 s == r.next1 s) ≡ false
  pub az : (r.prev1 s == r.prev1 (r.prev1 s)) ≡ false
  pub cd : (r.next1 s == r.next1 (r.next1 s)) ≡ false

-- The fields of `s'`, which is `r` without `s`, at the nodes that stay.
pub record Removed (r : VirtualRing) (s : Ptr) (r' : VirtualRing) : Type 0 where
  pub next1 :
      (q : Ptr) → (q == s) ≡ false → r'.next1 q ≡ (if q == r.prev1 s then r.next1 s else r.next1 q)
  pub prev1 :
      (q : Ptr) → (q == s) ≡ false → r'.prev1 q ≡ (if q == r.next1 s then r.prev1 s else r.prev1 q)
  pub next2 :
      (q : Ptr)
      → (q == s) ≡ false
      → r'.next2 q ≡ (
          if q == r.prev1 s
          then r.next1 (r.next1 s)
          else if q == r.prev1 (r.prev1 s)
          then r.next1 s
          else r.next2 q)
  pub prev2 :
      (q : Ptr)
      → (q == s) ≡ false
      → r'.prev2 q ≡ (
          if q == r.next1 s
          then r.prev1 (r.prev1 s)
          else if q == r.next1 (r.next1 s)
          then r.prev1 s
          else r.prev2 q)
  pub ip_addr : r'.ip_addr ≡ r.ip_addr
  pub count : r'.count ≡ r.count - 1
  pub fresh : r'.fresh ≡ r.fresh

module _ (r : VirtualRing) (s : Ptr) (w : Between r s) where
  open w use {open_s, open_a, open_c, open_z, open_d, next2, prev2, sa, sc, sz, sd, ac, az, cd}

  pub unlink-Removed :
      Yields
        (λ r'.
          Removed r s r'
          × (r'.introducer ≡ r.introducer)
          × (r'.introducer_exists ≡ r.introducer_exists))
        (unlink s r)
  unfolding unlink
  unlink-Removed =
      simp (open_s, open_a, open_c, open_z, open_d, next2, sa, sz, ac)
        (
          record {
            next1 = λ q h. ground arith;
            prev1 = λ q h. ground arith;
            next2 = λ q h. ground arith;
            prev2 = λ q h. ground arith;
            ip_addr = refl;
            count = refl;
            fresh = refl;
          },
          refl,
          refl,
        )

  pub leave_introducer-Removed :
      Yields
        (λ r'. Removed r s r' × (r'.introducer ≡ r.next1 s) × (r'.introducer_exists ≡ 0))
        (leave_introducer s r)
  unfolding leave_introducer
  leave_introducer-Removed =
      simp (open_s, open_a, open_c, open_z, open_d, next2, prev2, sa, sc, sz)
        (
          record {
            next1 = λ q h. ground arith;
            prev1 = λ q h. ground arith;
            next2 = λ q h. ground arith;
            prev2 = λ q h. ground arith;
            ip_addr = refl;
            count = refl;
            fresh = refl;
          },
          refl,
          refl,
        )
