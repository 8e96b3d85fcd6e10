-- ===== src/Examples/Replication.antt =====
-- A round of `monitor` of src/client.cpp on a small network.
use dfss.Base.{
  ◌≡◌, refl, true, some, List, [], ◌∷◌, ◌++◌, if◌then◌else◌, Bool-cases, inl, inr, All, arith,
}
use dfss.Examples.Addresses.{host5, host20, host30, host40}
use dfss.Examples.Files.{members, name}
use dfss.Placement.{
  monitor_handler, has_file, where_to, where_to_value, where_loop, offset, copies, next_active,
  prev_active,
}
use dfss.Replication.{Action, monitor}
use dfss.Base.Int.{◌+ℤ◌}
use dfss.Commands.{downloaded, get_command}
use dfss.Commands.Cluster.{Machines, cluster}
use dfss.Members.{number_of_active_nodes}
use dfss.Placement.Distinct.{IsActive}
use dfss.Replication.Recovery.{IsPlaced, after, master_reply, monitor_reply, restore-get}
use dfss.Replication.Round.{perform}
use dfss.Text.Map.{IsSorted}
use dfss.Text.Number.{atoi, signed, digits}
use dfss.Replication.Restore.{Answered, monitor-restores}
use dfss.Text.{Str, str_eq, codes}
use dfss.Text.Order.{set_has, str_lt}
use dfss.Text.Split.{boost, tokens, push_byte, terminated}

abbrev files : Str → List Str
files ip = if str_eq ip host20 then name ∷ [] else []

abbrev places : Str → List Str
places n = host20 ∷ host30 ∷ []

abbrev ask_master : Str → Str
ask_master request = terminated b';' (host20 ∷ host30 ∷ [])

-- The node at `host5` has the file, and so has one of its places.
abbrev stored : Str → List Str
stored ip = if str_eq ip host5 then name ∷ [] else files ip

abbrev ask : Str → Str → Str
ask request ip = if has_file name (stored ip) then codes "YES;10.0.0.5" else codes "NO;10.0.0.5"

checks :
    (ip : Str)
    → monitor_handler boost (name ++ codes ";CHECK") host5 (stored ip)
      ≡ some (ask (name ++ codes ";CHECK") ip, stored ip)
unfolding monitor_handler tokens push_byte str_eq
checks ip = elim (Bool-cases (has_file name (stored ip))) [
  | inl here ↦ rw here refl
  | inr other ↦ rw other refl
]

answered : Answered boost host5 places stored ask_master ask (name ∷ [])
answered = record {
  own = refl;
  plain = (refl, tt);
  free = ((refl, (refl, tt)), tt);
  listed = (refl, tt);
  checked = (checks, tt);
}

monitor-restores_example :
    (actions : List Action) × (monitor boost ask_master ask members (name ∷ []) ≡ some actions)
    × All
        (λ n. All (λ ip. has_file n (perform host5 actions stored ip) ≡ true) (places n))
        (name ∷ [])
    × All
        (λ n. has_file n (perform host5 actions stored host5) ≡ set_has host5 (places n))
        (name ∷ [])
monitor-restores_example =
    monitor-restores boost host5 places stored ask_master ask members (name ∷ []) (omega arith)
      answered

-- One node has the file, and the others are to get it.
abbrev machines : Machines
machines = record {
  members = members;
  safety_check = [];
  clock = 100;
  files = files;
  own = [];
  downloads = [];
}

abbrev spread : Str → List Str
spread n = host40 ∷ host5 ∷ host30 ∷ []

listed : where_to boost name members ≡ some (spread name)
unfolding where_to where_to_value offset number_of_active_nodes ◌+ℤ◌ where_loop copies next_active
    prev_active tokens push_byte atoi signed digits
listed = refl

members-IsSorted : IsSorted members
unfolding str_lt
members-IsSorted = ((refl, (refl, (refl, tt))), ((refl, (refl, tt)), ((refl, tt), (tt, tt))))

placed : All (IsPlaced boost members spread) (files host20)
unfolding str_eq
placed = ((refl, listed, (refl, (refl, (refl, tt)))), tt)

held : has_file name (files host20) ≡ true
unfolding has_file str_eq
held = refl

restore-get_example :
    (actions : List Action) × (url : Str) × (w2 : Machines) × (monitor boost
        (master_reply boost machines)
        (monitor_reply boost host20 machines)
        members
        (files host20)
      ≡ some actions)
    × (get_command boost (cluster boost host30) name (codes "c.txt") (after host20 actions machines)
        ≡ some (downloaded url, w2))
    × IsActive members url
    × (has_file name ((after host20 actions machines).files url) ≡ true)
    × (has_file (codes "c.txt") w2.downloads ≡ true)
restore-get_example =
    restore-get boost host20 host30 machines spread name (codes "c.txt") (omega arith)
      members-IsSorted refl refl placed held
