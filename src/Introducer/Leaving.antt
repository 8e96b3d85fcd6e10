-- ===== src/Introducer/Leaving.antt =====
-- src/client.cpp: a LEAVE at `intro_handler`.
use dfss.Base.{
  ◌≡◌, refl, inl, inr, true, false, List, [], ◌∷◌, ◌++◌, map, leb, length, All, Bool-cases,
}
use dfss.Text.{Str, str_eq, codes}
use dfss.Text.Split.{Boost}
use dfss.Node.{VirtualRing}
use dfss.Introducer.{Answer, intro_handler}
use dfss.Ring.{leave}
use dfss.Ring.Display.{border, node_line, display-lines}
use dfss.Ring.RefineLeave.{leave-refines}
use dfss.Ring.Spec.{leave_spec, erase, Represents}
use dfss.Ring.Splice.{Yields, Yields-some}

-- What the ring is left with, and what is printed and answered.
pub record Left (b : Boost) (ip : Str) (ips : List Str) (a : Answer) : Type 0 where
  pub represents : Represents b a.ring (leave_spec ip ips)
  pub printed :
      a.printed
      ≡ border ∷ (map (node_line a.ring) (a.ring.introducer ∷ represents.nodes) ++ (border ∷ []))
  pub updates : a.updates ≡ true
  pub reply : a.reply ≡ codes "pong"

-- On a well-formed ring a LEAVE from another address than the introducer's own is handled without a
-- fault: the ring is well-formed with the addresses that `leave_spec` gives, it is printed, the
-- nodes are to be updated, and the answer is `pong`.
pub leave-answered :
    (b : Boost) (ip : Str) (r : VirtualRing) (ips : List Str)
    → Represents b r ips
    → str_eq ip (r.ip_addr r.introducer) ≡ false
    → Yields (Left b ip ips) (intro_handler b (codes "LEAVE") ip r)
unfolding intro_handler str_eq
leave-answered b ip r ips rep other =
    let (r', e, (rep', same, addrs)) =
      Yields-some (leave ip r) (leave-refines b ip r ips rep other) in
    rw (e, display-lines b r' (leave_spec ip ips) rep')
      (record { represents = rep'; printed = refl; updates = refl; reply = refl })

erase-All : (P : Str → Type 0) (ip : Str) (ips : List Str) → All P ips → All P (erase ip ips)
erase-All P ip [] h = tt
erase-All P ip (x ∷ ips) h = elim (Bool-cases (str_eq ip x)) [
  | inl hit ↦ rw hit h.1
  | inr other ↦ rw other (h.0, erase-All P ip ips h.1)
]

pub leave_spec-All :
    (P : Str → Type 0) (ip : Str) (ips : List Str) → All P ips → All P (leave_spec ip ips)
leave_spec-All P ip [] h = tt
leave_spec-All P ip (first ∷ rest) h = elim (Bool-cases (leb (length rest) 1)) [
  | inl few ↦ rw few h
  | inr many ↦ rw many (h.0, erase-All P ip rest h.1)
]
