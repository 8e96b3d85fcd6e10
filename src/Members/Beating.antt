-- ===== src/Members/Beating.antt =====
-- src/client.cpp: the rounds of `heartbeater` on a node that started by `main`.
use dfss.Base.{ℕ, ◌≡◌, refl, ◌∙◌, Bool, true, Option, none, some, List, [], ◌∷◌, All, if◌then◌else◌}
use dfss.Text.{Str}
use dfss.Text.Map.{map_find}
use dfss.Text.Order.{set_has}
use dfss.Text.Split.{Boost}
use dfss.Members.{
  MemberEntry, MemberList, Node, make_message, failure_detector_round, master_elector_round,
}
use dfss.Members.Beats.{start_node, heartbeater_loop, heartbeater_round}
use dfss.Members.Detection.{judged, detector-judges}
use dfss.Members.Life.{
  Step, contacts, adds, beats, updates, detects, elects, IsUpdate, Step-IsValid,
  heartbeat_handler-keeps, master_elector_round-lists,
}
use dfss.Members.Known.{
  IsMember, All-map, Covered, Edit-Covered, heard_from-Covered, add_to_memlist-Covered,
  start_node-Covered,
}

-- The step is none of the introducer's messages.
abbrev pub IsOwn : (b : Boost) (n n' : Node) → Step b n n' → Type 0
IsOwn b n n' (contacts response fits) = ⊥
IsOwn b n n' (updates response fits) = ⊥
IsOwn b n n' (beats request sender reply now e) = Unit
IsOwn b n n' (adds added now) = Unit
IsOwn b n n' (detects now) = Unit
IsOwn b n n' elects = Unit

-- Steps among which there is no message of the introducer.
pub data Settled (b : Boost) (start : Node) : Node → Type 0 where
  begins : Settled b start start
  goes_on :
      {n n' : Node}
      → Settled b start n
      → (step : Step b n n') → IsOwn b n n' step
      → Settled b start n'

Step-Covered :
    (b : Boost) (n n' : Node) (step : Step b n n') → IsOwn b n n' step → Covered n → Covered n'
unfolding failure_detector_round
Step-Covered b n n' (contacts response fits) own c = absurd own
Step-Covered b n n' (updates response fits) own c = absurd own
Step-Covered b n n' (adds ip now) own c = add_to_memlist-Covered ip now n c
Step-Covered b n n' (beats request ip reply now e) own c =
    heartbeat_handler-keeps b request ip reply now Covered (Edit-Covered now) n n' e
      (heard_from-Covered ip now n c)
Step-Covered b n n' (detects now) own (v, h) = (
  Step-IsValid b n (failure_detector_round now n) (detects now) v,
  All-map n.local_neighbour_list
      (λ x (e, found). (
        judged (set_has x n.local_neighbour_list) now e,
        (detector-judges now n v.sorted).1 x ∙ rw found refl,
      ))
      h,
)
Step-Covered b n n' elects own (v, h) = (
  Step-IsValid b n (master_elector_round n) elects v,
  rw ((master_elector_round-lists n).0, (master_elector_round-lists n).1) h,
)

Settled-Covered : (b : Boost) {start n : Node} → Covered start → Settled b start n → Covered n
Settled-Covered b c begins = c
Settled-Covered b c (goes_on {n = m} {n' = n'} r step own) =
    Step-Covered b m n' step own (Settled-Covered b c r)

abbrev pub failed_entry : Option MemberEntry → Bool
failed_entry none = true
failed_entry (some e) = e.failed

abbrev pub is_failed : Str → MemberList → Bool
is_failed ip m = failed_entry (map_find ip m)

-- A message to each address that is not marked as failed, in order.
abbrev pub sent_to : MemberList → List Str → List (Str × Str)
sent_to m [] = []
sent_to m (ip ∷ ips) =
    let rest = sent_to m ips in if is_failed ip m then rest else (ip, make_message [] m) ∷ rest

pub heartbeater_loop-sent :
    (m : MemberList) (ips : List Str)
    → All (IsMember m) ips
    → heartbeater_loop m ips ≡ some (sent_to m ips)
unfolding heartbeater_loop
heartbeater_loop-sent m [] h = refl
heartbeater_loop-sent m (ip ∷ ips) ((e, found), h) = rw (found, heartbeater_loop-sent m ips h) refl

-- A node that starts with an empty list and a message of the introducer that names at most four
-- neighbours, and then takes any steps but further messages of the introducer: a round of
-- `heartbeater` does not read past the list, and sends the list to exactly the neighbours that are
-- not marked as failed.
pub heartbeater-beats :
    (b : Boost) (response : Str) (now : ℕ) (first n : Node)
    → first.member_list ≡ []
    → IsUpdate b response
    → Settled b (start_node b response now first) n
    → heartbeater_round n ≡ some (sent_to n.member_list n.local_neighbour_list)
unfolding heartbeater_round
heartbeater-beats b response now first n empty fits settled =
    heartbeater_loop-sent n.member_list n.local_neighbour_list
      (Settled-Covered b (start_node-Covered b response now first empty fits) settled).1
