-- ===== src/Examples/Beats.antt =====
-- A node of src/client.cpp that joins a network, and its first heartbeats.
use dfss.Base.{◌≡◌, refl, some, [], arith}
use dfss.Members.{Node, drop_last_empty, failure_detector_round}
use dfss.Members.Beats.{start_node, heartbeater_round}
use dfss.Members.Beating.{begins, goes_on, sent_to, heartbeater-beats}
use dfss.Members.Life.{IsUpdate, detects}
use dfss.Text.{codes}
use dfss.Text.Split.{boost, tokens, push_byte}

abbrev newcomer : Node
newcomer = record { member_list = []; local_neighbour_list = []; master = [] }

fits : IsUpdate boost (codes "10.0.0.5;10.0.0.20;")
unfolding drop_last_empty tokens push_byte
fits = omega arith

abbrev started : Node
started = start_node boost (codes "10.0.0.5;10.0.0.20;") 100 newcomer

heartbeater-beats_example :
    heartbeater_round (failure_detector_round 101 started)
    ≡ some (
        sent_to
          (failure_detector_round 101 started).member_list
          (failure_detector_round 101 started).local_neighbour_list)
heartbeater-beats_example =
    heartbeater-beats boost (codes "10.0.0.5;10.0.0.20;") 100 newcomer
      (failure_detector_round 101 started) refl fits (goes_on begins (detects 101) tt)
