-- ===== src/System/Reach.antt =====
-- src/client.cpp: every state that a network can reach, from the start of the introducer on.
use dfss.Base.{
  ℕ, ◌≡◌, refl, subst, Option, ◌⊎◌, inl, inr, true, false, some, List, [], ◌∷◌, Bool-cases, All,
  some-inj, if◌then◌else◌,
}
use dfss.Text.{Str, str_eq}
use dfss.Text.Order.{set_has}
use dfss.Text.Split.{Boost}
use dfss.Members.{failure_detector_round, master_elector_round}
use dfss.Members.Beats.{heartbeater_round}
use dfss.Members.Beating.{sent_to, heartbeater_loop-sent}
use dfss.Members.Known.{IsMember}
use dfss.Introducer.Beats.{introducer-beats}
use dfss.Ring.History.{virtual_ring-Represents}
use dfss.Ring.Search.{HasOctet}
use dfss.Ring.Splice.{Yields, Yields-some}
use dfss.System.{
  System, put_node, post, Event, joins, leaves, updates, beats, arrives, detects, elects, happen,
  beat, start_system, runner,
}
use dfss.System.Packets.{IsAddress}
use dfss.System.Sound.{
  blank-IsProcess, failure_detector_round-IsProcess, master_elector_round-IsProcess,
}
use dfss.System.Steps.{
  Sound, put_node-Sound, join_network-Sound, leave_network-Sound, run_updater-Sound, beat-Sound,
  deliver-Sound,
}

-- The addresses in an event are dotted addresses, and the introducer's process does not leave.
abbrev pub IsUsual : Boost → Str → Event → Type 0
IsUsual b introducer (joins ip now) = HasOctet b ip × IsAddress ip
IsUsual b introducer (leaves ip) = str_eq ip introducer ≡ false
IsUsual b introducer updates = Unit
IsUsual b introducer (beats ip) = IsAddress ip
IsUsual b introducer (arrives k now) = Unit
IsUsual b introducer (detects ip now) = Unit
IsUsual b introducer (elects ip) = Unit

-- The states after any usual events, none of which was a fault.
pub data Reached (b : Boost) (introducer : Str) : System → Type 0 where
  starts : Reached b introducer (start_system introducer)
  after :
      {s s' : System}
      → Reached b introducer s
      → (e : Event) → IsUsual b s.introducer e
      → happen b e s ≡ some s'
      → Reached b introducer s'

start_system-Sound :
    (b : Boost) (ip : Str) → HasOctet b ip → IsAddress ip → Sound b (start_system ip)
unfolding start_system set_has
start_system-Sound b ip octet own = record {
  rest = [];
  ring = virtual_ring-Represents b ip octet;
  plain = (own, tt);
  unique = (refl, tt);
  processes = λ i. blank-IsProcess ip;
  sent = tt;
}

from_some : {A : Type 0} (P : A → Type 0) (o : Option A) (a : A) → Yields P o → o ≡ some a → P a
from_some P o a y e = subst (Yields P) e y

detected-Sound :
    (b : Boost) (ip : Str) (now : ℕ) (s : System)
    → Sound b s
    → Sound b (
        if str_eq ip s.introducer
        then s
        else put_node ip (failure_detector_round now (s.nodes ip)) s)
detected-Sound b ip now s h = elim (Bool-cases (str_eq ip s.introducer)) [
  | inl own ↦ rw own h
  | inr other ↦ rw other (
      put_node-Sound b ip (failure_detector_round now (s.nodes ip)) s
        (failure_detector_round-IsProcess b now (s.nodes ip) (h.processes ip)) h)
]

happen-Sound :
    (b : Boost) (e : Event) (s s' : System)
    → IsUsual b s.introducer e
    → happen b e s ≡ some s'
    → Sound b s
    → Sound b s'
unfolding happen
happen-Sound b (joins ip now) s s' (octet, own) e h =
    from_some (Sound b) _ s' (join_network-Sound b ip now s octet own h) e
happen-Sound b (leaves ip) s s' other e h =
    from_some (Sound b) _ s' (leave_network-Sound b ip s other h) e
happen-Sound b updates s s' u e h = from_some (Sound b) _ s' (run_updater-Sound b s.updaters s h) e
happen-Sound b (beats ip) s s' own e h = beat-Sound b ip s s' e own h
happen-Sound b (arrives k now) s s' u e h = from_some (Sound b) _ s' (deliver-Sound b k now s h) e
happen-Sound b (detects ip now) s s' u e h =
    subst (Sound b) (some-inj e) (detected-Sound b ip now s h)
happen-Sound b (elects ip) s s' u e h = subst (Sound b) (some-inj e) (
    put_node-Sound b ip (master_elector_round (s.nodes ip)) s
      (master_elector_round-IsProcess b (s.nodes ip) (h.processes ip)) h)

-- Let the introducer have a dotted address. Then in every state that the network reaches by usual
-- events, in any order and with datagrams that are lost, repeated or late, the ring is well-formed
-- from the introducer on, with no address twice, every process has a membership list in order and at most four
-- neighbours, and every datagram is a heartbeat that `make_message` wrote or an update for at most
-- four neighbours of a process other than the introducer's.
pub reached-Sound :
    (b : Boost) (introducer : Str) (s : System)
    → HasOctet b introducer
    → IsAddress introducer
    → Reached b introducer s
    → Sound b s
reached-Sound b introducer s octet own starts = start_system-Sound b introducer octet own
reached-Sound b introducer s octet own (after {s = m} r e usual run) =
    happen-Sound b e m s usual run (reached-Sound b introducer m octet own r)

-- Whom the process beats to is in its membership list; for the introducer, the whole ring, its own
-- address included.
abbrev pub KnowsReceivers : Boost → (s : System) → List Str → Event → Type 0
KnowsReceivers b s rest (beats ip) =
    ((str_eq ip s.introducer ≡ false)
      × All (IsMember (s.nodes ip).member_list) (s.nodes ip).local_neighbour_list)
    ⊎ ((str_eq ip s.introducer ≡ true)
        × All (IsMember (s.nodes ip).member_list) (s.introducer ∷ rest))
KnowsReceivers b s rest (joins ip now) = Unit
KnowsReceivers b s rest (leaves ip) = Unit
KnowsReceivers b s rest updates = Unit
KnowsReceivers b s rest (arrives k now) = Unit
KnowsReceivers b s rest (detects ip now) = Unit
KnowsReceivers b s rest (elects ip) = Unit

beat-proceeds :
    (b : Boost) (ip : Str) (s : System) (h : Sound b s)
    → KnowsReceivers b s h.rest (beats ip)
    → (s' : System) × (beat b ip s ≡ some s')
unfolding beat heartbeater_round
beat-proceeds b ip s h (inl (other, known)) =
    let n = s.nodes ip in
    (
      post (runner ip) (sent_to n.member_list n.local_neighbour_list) s,
      rw (other, heartbeater_loop-sent n.member_list n.local_neighbour_list known) refl,
    )
beat-proceeds b ip s h (inr (own, known)) =
    let n = s.nodes ip in
    let (xs, sent, set, run, empty, whom) =
      introducer-beats b s.ring n.member_list (s.introducer ∷ h.rest) h.ring known in
    (post (runner ip) sent s, rw (own, run) refl)

only_some : {A : Type 0} (P : A → Type 0) (o : Option A) → Yields P o → (a : A) × (o ≡ some a)
only_some P o y = let (a, e, p) = Yields-some o y in (a, e)

sound-proceeds :
    (b : Boost) (e : Event) (s : System) (h : Sound b s)
    → IsUsual b s.introducer e
    → KnowsReceivers b s h.rest e
    → (s' : System) × (happen b e s ≡ some s')
unfolding happen
sound-proceeds b (joins ip now) s h (octet, own) k =
    only_some (Sound b) _ (join_network-Sound b ip now s octet own h)
sound-proceeds b (leaves ip) s h other k =
    only_some (Sound b) _ (leave_network-Sound b ip s other h)
sound-proceeds b updates s h u k = only_some (Sound b) _ (run_updater-Sound b s.updaters s h)
sound-proceeds b (beats ip) s h own k = beat-proceeds b ip s h k
sound-proceeds b (arrives i now) s h u k = only_some (Sound b) _ (deliver-Sound b i now s h)
sound-proceeds b (detects ip now) s h u k = (_, refl)
sound-proceeds b (elects ip) s h u k = (_, refl)

-- In every state that the network reaches, each usual event is handled without a fault, apart from the
-- overrun that every new entry of a membership list records: a JOIN or
-- LEAVE, a run of `update_nodes`, the arrival of any datagram that was ever sent, a round of the
-- failure detector or of the election; and a round of beats, if the membership list of the process
-- has all whom it beats to, for the introducer all addresses of the ring, its own included.
pub reached-proceeds :
    (b : Boost) (introducer : Str) (s : System) (e : Event) (octet : HasOctet b introducer)
    (own : IsAddress introducer) (r : Reached b introducer s)
    → IsUsual b s.introducer e
    → KnowsReceivers b s (reached-Sound b introducer s octet own r).rest e
    → (s' : System) × (happen b e s ≡ some s')
reached-proceeds b introducer s e octet own r usual known =
    sound-proceeds b e s (reached-Sound b introducer s octet own r) usual known
