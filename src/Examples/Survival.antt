-- ===== src/Examples/Survival.antt =====
-- A `put` of src/client.cpp, the failure of two of the three nodes that have the file, a round of
-- `monitor` and a `get`.
use dfss.Base.{◌≡◌, refl, true, false, ◌||◌, some, List, [], ◌∷◌, arith}
use dfss.Base.Int.{◌+ℤ◌}
use dfss.Commands.{uploaded, downloaded, put_command, get_command}
use dfss.Commands.Cluster.{Machines, cluster}
use dfss.Examples.Addresses.{host5, host20, host30, host40}
use dfss.Examples.Commands.{machines, places, listed, places-Free, here, members-IsSorted}
use dfss.Examples.Files.{name}
use dfss.Members.{MemberEntry, MemberList, number_of_active_nodes}
use dfss.Members.Beating.{is_failed}
use dfss.Placement.{
  where_to, where_to_value, where_loop, offset, copies, next_active, prev_active, has_file,
}
use dfss.Replication.{Action, monitor}
use dfss.Replication.Recovery.{IsPlaced, after, master_reply, monitor_reply}
use dfss.Replication.Survival.{knowing, put-survives}
use dfss.Text.{Str, str_eq, codes}
use dfss.Text.Map.{map_find, IsSorted}
use dfss.Text.Number.{atoi, signed, digits}
use dfss.Text.Order.{str_lt}
use dfss.Text.Split.{boost, tokens, push_byte}

abbrev host50 : Str
host50 = codes "10.0.0.50"

abbrev host60 : Str
host60 = codes "10.0.0.60"

abbrev alive : MemberEntry
alive = record { ip_addr = []; overrun = []; time_stamp = 0; failed = false }

abbrev dead : MemberEntry
dead = record { ip_addr = []; overrun = []; time_stamp = 0; failed = true }

-- Two of the holders have failed, and two nodes have joined.
abbrev later : MemberList
later =
    (host20, alive)
    ∷ (host30, alive)
    ∷ (host40, dead)
    ∷ (host5, dead)
    ∷ (host50, alive)
    ∷ (host60, alive)
    ∷ []

later-IsSorted : IsSorted later
unfolding str_lt
later-IsSorted = (
  (refl, (refl, (refl, (refl, (refl, tt))))),
  (
    (refl, (refl, (refl, (refl, tt)))),
    ((refl, (refl, (refl, tt))), ((refl, (refl, tt)), ((refl, tt), (tt, tt)))),
  ),
)

abbrev new_places : Str → List Str
new_places n = host50 ∷ host60 ∷ host30 ∷ []

placed : IsPlaced boost later new_places name
unfolding where_to where_to_value offset number_of_active_nodes ◌+ℤ◌ where_loop copies next_active
    prev_active tokens push_byte atoi signed digits
placed = (refl, refl, (refl, (refl, (refl, tt))))

failed40 : is_failed host40 later ≡ true
unfolding map_find str_eq
failed40 = refl

failed5 : is_failed host5 later ≡ true
unfolding map_find str_eq
failed5 = refl

put-survives_example :
    (w1 w2 : Machines) × (s url : Str) × (actions : List Action) × (put_command boost
        (cluster boost host5)
        (codes "yes")
        (codes "notes.txt")
        name
        machines
      ≡ (uploaded places, w1))
    × (monitor boost
          (master_reply boost (knowing later w1))
          (monitor_reply boost s (knowing later w1))
          later
          (w1.files s)
        ≡ some actions)
    × (get_command boost
          (cluster boost host20)
          name
          (codes "c.txt")
          (after s actions (knowing later w1))
        ≡ some (downloaded url, w2))
    × (has_file (codes "c.txt") w2.downloads ≡ true)
    × ((str_eq s host40 || str_eq s host5) ≡ false)
    × ((str_eq url host40 || str_eq url host5) ≡ false)
put-survives_example =
    put-survives boost host5 host20 machines (codes "notes.txt") name (codes "c.txt") host40 host5
      places later new_places refl refl here members-IsSorted listed places-Free (omega arith)
      later-IsSorted failed40 failed5 placed (λ ip. tt)
