-- ===== src/Examples/Introducer.antt =====
-- The introducer's rounds of beats in src/client.cpp on a small network.
use dfss.Base.{
  ◌≡◌, refl, sym, ap, ◌∙◌, subst, inl, inr, true, false, not, ◌&&◌, none, some, List, [], ◌∷◌, All,
  arith, length, ==_self,
}
use dfss.Examples.Addresses.{host5, host20, host30}
use dfss.Examples.Ring.{ring3, ring3-Represents, at20, not_own, apart20}
use dfss.Introducer.{neighbour_set}
use dfss.Introducer.Beats.{IsEmpty, receivers, introducer-beats}
use dfss.Introducer.Mutual.{neighbour_set-mutual}
use dfss.Introducer.Strangers.{introducer_round-faults}
use dfss.Members.{MemberEntry, MemberList}
use dfss.Members.Beating.{is_failed}
use dfss.Members.Beats.{introducer_round}
use dfss.Members.Known.{IsMember}
use dfss.Node.{Ptr}
use dfss.Ring.Shape.{IsRing}
use dfss.Ring.Spec.{addresses}
use dfss.Text.{Str, str_eq, str_eq_sym}
use dfss.Text.Map.{map_find}
use dfss.Text.Order.{set_has}
use dfss.Text.Split.{boost}

abbrev alive : MemberEntry
alive = record { ip_addr = []; overrun = []; time_stamp = 0; failed = false }

abbrev members : MemberList
members = (host20, record alive { failed = true }) ∷ (host30, alive) ∷ (host5, alive) ∷ []

members-known : All (IsMember members) (host5 ∷ host20 ∷ host30 ∷ [])
unfolding map_find str_eq
members-known = ((alive, refl), ((record alive { failed = true }, refl), ((alive, refl), tt)))

introducer-beats_example :
    (xs : List Str) × (sent : List (Str × Str)) × (neighbour_set
        (ring3.ip_addr ring3.introducer)
        ring3.introducer
        ring3
      ≡ some xs)
    × (introducer_round members ring3 ≡ some sent)
    × All IsEmpty sent
    × ((x : Str)
        → (not (str_eq (ring3.ip_addr ring3.introducer) x) && set_has x (receivers sent))
          ≡ (set_has x xs && not (is_failed x members)))
introducer-beats_example =
    introducer-beats boost ring3 members (host5 ∷ host20 ∷ host30 ∷ []) ring3-Represents
      members-known

back :
    (xs : List Ptr)
    → IsRing ring3 xs
    → addresses ring3 xs ≡ host5 ∷ host20 ∷ host30 ∷ []
    → ring3.prev1 (ring3.next1 ring3.introducer) ≡ ring3.introducer
back [] ring addrs = absurd (omega (arith, ap length addrs))
back (x ∷ xs) (inl (e, single)) addrs = absurd (omega (arith, ap length e))
back (x ∷ xs) (inr c) addrs =
    c.cycle.linked.prev_next ring3.introducer (ground (arith, ==_self ring3.introducer))

-- The node behind the introducer is in its list.
listed :
    (ys : List Str) × (neighbour_set (ring3.ip_addr ring3.introducer) ring3.introducer ring3
      ≡ some ys)
    × (set_has (ring3.ip_addr (ring3.next1 ring3.introducer)) ys ≡ true)
listed =
    neighbour_set-mutual boost ring3 (host5 ∷ host20 ∷ host30 ∷ []) ring3-Represents
      (ring3.next1 ring3.introducer) ring3.introducer at20.0
      (ground (arith, ==_self ring3.introducer)) apart (omega arith)
      (inr (inr (inl (back ring3-Represents.nodes ring3-Represents.ring ring3-Represents.addrs))))
  where
    apart :
        str_eq (ring3.ip_addr ring3.introducer) (ring3.ip_addr (ring3.next1 ring3.introducer))
        ≡ false
    apart =
        str_eq_sym (ring3.ip_addr ring3.introducer) (ring3.ip_addr (ring3.next1 ring3.introducer))
        ∙ subst (λ a. str_eq a (ring3.ip_addr ring3.introducer) ≡ false) (sym at20.1)
            (not_own host20 apart20)

abbrev none_known : MemberList
none_known = []

unknown : map_find (ring3.ip_addr (ring3.next1 ring3.introducer)) none_known ≡ none
unfolding map_find
unknown = refl

introducer_round-faults_example : introducer_round none_known ring3 ≡ none
introducer_round-faults_example =
    introducer_round-faults boost ring3 none_known (host5 ∷ host20 ∷ host30 ∷ []) listed.0
      (ring3.ip_addr (ring3.next1 ring3.introducer)) ring3-Represents listed.1 listed.2 unknown
