-- ===== src/Examples/Members.antt =====
-- The membership list of src/client.cpp on a small network.
use dfss.Base.{
  ◌≡◌, ◌⊎◌, refl, true, false, not, ◌&&◌, some, [], ◌∷◌, arith, ℕ, replicate, length-replicate,
}
use mathlib.Core.Option
use dfss.Examples.Addresses.{host5, host20, host30}
use dfss.Members.{
  MemberEntry, MemberList, Node, heard_from, heartbeat_handler, make_message,
  failure_detector_round, but_first, master_elector_round,
}
use dfss.Members.Detection.{judged, reported, detector-judges, heard-not-failed}
use dfss.Members.Life.{IsValid, detects}
use dfss.Members.Silence.{still, then_quiet, HeardAt, silent-marked}
use dfss.Members.Wire.{heartbeat_processor, heartbeat-delivered}
use dfss.Datagram.{send_buf, handle_receive, udp_server}
use dfss.Members.Election.{IsHighest, election}
use dfss.Members.Gossip.{Merged, heartbeat-merges}
use dfss.Ring.Splice.{Yields}
use dfss.Text.{Str, str_eq, codes}
use dfss.Text.Map.{map_find, IsSorted}
use dfss.Text.Order.{set_has, str_lt}
use dfss.Text.Split.{boost}

abbrev alive : ℕ → MemberEntry
alive t = record { ip_addr = []; overrun = []; time_stamp = t; failed = false }

abbrev dead : ℕ → MemberEntry
dead t = record { ip_addr = []; overrun = []; time_stamp = t; failed = true }

abbrev members : MemberList
members = (host20, alive 100) ∷ (host30, alive 103) ∷ (host5, dead 90) ∷ []

members-IsSorted : IsSorted members
unfolding str_lt
members-IsSorted = ((refl, (refl, tt)), ((refl, tt), (tt, tt)))

abbrev node : Node
node = record { member_list = members; local_neighbour_list = host30 ∷ host20 ∷ []; master = host5 }

abbrev peer : MemberList
peer = (host20, dead 0) ∷ (host5, alive 0) ∷ []

peer-IsSorted : IsSorted peer
unfolding str_lt
peer-IsSorted = ((refl, tt), (tt, tt))

heartbeat-merges_example :
    Yields
      (Merged 104 peer (heard_from host30 104 node))
      (heartbeat_handler boost (make_message [] peer) host30 104 node)
heartbeat-merges_example =
    heartbeat-merges boost peer host30 104 node ((refl, refl), ((refl, refl), tt)) peer-IsSorted
      members-IsSorted

detector-judges_example :
    IsSorted (failure_detector_round 104 node).member_list
    × ((i : Str)
        → map_find i (failure_detector_round 104 node).member_list
          ≡ Option.map (judged (set_has i node.local_neighbour_list) 104) (map_find i members))
    × ((failure_detector_round 104 node).local_neighbour_list ≡ node.local_neighbour_list)
    × ((failure_detector_round 104 node).master ≡ node.master)
detector-judges_example = detector-judges 104 node members-IsSorted

heard-not-failed_example :
    Yields
      (λ out.
        (e : MemberEntry) × (map_find host20 (failure_detector_round 105 out.0).member_list
          ≡ some e)
        × (e.failed
            ≡ (reported (map_find host20 peer) && not (set_has host20 out.0.local_neighbour_list)))
        × (e.time_stamp ≡ 104))
      (heartbeat_handler boost (make_message [] peer) host20 104 node)
heard-not-failed_example =
    heard-not-failed boost peer host20 104 105 node ((refl, refl), ((refl, refl), tt)) peer-IsSorted
      members-IsSorted (omega arith)

election_example :
    (IsHighest (but_first members) Option.none × (master_elector_round node ≡ node))
    ⊎ ((ip : Str) × IsHighest (but_first members) (some ip)
        × (master_elector_round node ≡ record node { master = ip }))
election_example = election node members-IsSorted.1

node-IsValid : IsValid node
node-IsValid = record { sorted = members-IsSorted; few = omega arith }

heard20 : HeardAt host20 100 members
unfolding map_find str_eq
heard20 = (alive 100, refl, refl)

watched20 : set_has host20 (failure_detector_round 101 node).local_neighbour_list ≡ true
unfolding failure_detector_round set_has str_eq
watched20 = refl

silent-marked_example :
    (e : MemberEntry) × (map_find host20
        (failure_detector_round 103 (failure_detector_round 101 node)).member_list
      ≡ some e)
    × (e.failed ≡ true)
silent-marked_example =
    silent-marked boost host20 100 103 node (failure_detector_round 101 node) node-IsValid heard20
      (then_quiet still (detects 101) tt) watched20 (omega arith)

heartbeat-delivered_example :
    (datagram : Str) × (send_buf (make_message [] peer) ≡ some datagram)
    × Yields
        (λ out.
          (out.0 ≡ some (codes "pong"))
          × Merged 104 peer (heard_from host30 104 node) (out.1.state, codes "pong"))
        (handle_receive
          (heartbeat_processor boost 104)
          true
          datagram
          host30
          (udp_server (replicate 512 7) node))
heartbeat-delivered_example =
    heartbeat-delivered boost peer host30 104 (udp_server (replicate 512 7) node)
      ((refl, refl), ((refl, refl), tt)) ((omega arith, refl), ((omega arith, refl), tt))
      (omega arith) peer-IsSorted members-IsSorted (length-replicate {A = ℕ} 512 7)
