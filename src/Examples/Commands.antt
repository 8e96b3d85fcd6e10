-- ===== src/Examples/Commands.antt =====
-- Commands of src/client.cpp on a cluster of four nodes.
use dfss.Base.{
  ◌≡◌, refl, ◌∙◌, true, false, not, ◌&&◌, ◌||◌, some, List, [], ◌∷◌, ◌++◌, if◌then◌else◌,
}
use dfss.Base.Int.{◌+ℤ◌}
use dfss.Commands.{
  Remote, menu, commands, uploaded, downloaded, deleted, not_on_sdfs, put_command, get_command,
  delete_command,
}
use dfss.Commands.Cluster.{Machines, cluster, cluster_service, places-cluster}
use dfss.Commands.Service.{Service}
use dfss.Commands.Outcome.{first_holder, get-first, delete-places}
use dfss.Commands.Session.{menu-put-get}
use dfss.Commands.Tolerance.{put-tolerates}
use dfss.Placement.Distinct.{IsActive, Places, where_to-distinct}
use dfss.Text.Map.{IsSorted}
use dfss.Examples.Addresses.{host5, host30, host40}
use dfss.Examples.Files.{members, name}
use dfss.Members.{number_of_active_nodes}
use dfss.Placement.{
  where_to, where_to_value, where_loop, offset, copies, next_active, prev_active, has_file,
}
use dfss.Text.{Str, str_eq, codes}
use dfss.Text.Number.{atoi, signed, digits}
use dfss.Text.Order.{set_has, str_lt}
use dfss.Text.Split.{boost, tokens, push_byte, Free}

abbrev pub machines : Machines
machines = record {
  members = members;
  safety_check = [];
  clock = 100;
  files = λ ip. [];
  own = codes "./notes.txt" ∷ [];
  downloads = [];
}

abbrev pub places : List Str
places = host40 ∷ host5 ∷ host30 ∷ []

abbrev remote : Remote Machines
remote = cluster boost host5

abbrev service : Service remote host5
service = cluster_service boost host5

pub listed : where_to boost name members ≡ some places
unfolding where_to where_to_value offset number_of_active_nodes ◌+ℤ◌ where_loop copies next_active
    prev_active tokens push_byte atoi signed digits
listed = refl

known : service.places machines name ≡ some places
known = places-cluster boost host5 machines name ∙ listed

pub places-Free : Free b';' places
places-Free = (refl, (refl, (refl, tt)))

pub here : has_file (codes "./notes.txt") (codes "./notes.txt" ∷ []) ≡ true
unfolding has_file str_eq
here = refl

get-first_example :
    get_command boost remote name (codes "c.txt") machines
    ≡ some (
        let w1 = (remote.put_request (codes "1;" ++ name) machines).1 in
        let url = first_holder (λ ip. service.holds machines ip name) places in
        if str_eq url []
        then (not_on_sdfs, w1)
        else (downloaded url, remote.download url name (codes "c.txt") w1))
get-first_example =
    get-first boost remote host5 service refl machines name (codes "c.txt") places refl known
      places-Free

delete-places_example :
    (w' : Machines) × (delete_command boost remote name machines ≡ (deleted, w'))
    × ((ip n : Str)
        → service.holds w' ip n
          ≡ (not (set_has ip places && str_eq n name) && service.holds machines ip n))
    × ((n : Str) → service.places w' n ≡ service.places machines n)
delete-places_example =
    delete-places boost remote host5 service refl machines name places refl known places-Free

host40_some : str_eq host40 [] ≡ false
unfolding str_eq
host40_some = refl

menu-put-get_example :
    (w2 : Machines) × (menu boost remote 10
        (commands (codes "put " ++ (codes "notes.txt" ++ (b' ' ∷ name))) (codes "yes")
          ∷ commands (codes "get " ++ (name ++ (b' ' ∷ codes "c.txt"))) []
          ∷ [])
        machines
      ≡ some (
        uploaded places ∷ downloaded host40 ∷ [],
        remote.download host40 name (codes "c.txt") w2,
      ))
    × ((i n : Str)
        → service.holds (remote.download host40 name (codes "c.txt") w2) i n
          ≡ ((set_has i places && str_eq n name) || service.holds machines i n))
menu-put-get_example =
    menu-put-get boost remote host5 service machines [] (codes "notes.txt") name (codes "c.txt")
      host40 (host5 ∷ host30 ∷ []) refl refl refl refl refl here known places-Free host40_some

pub members-IsSorted : IsSorted members
unfolding str_lt
members-IsSorted = ((refl, (refl, (refl, tt))), ((refl, (refl, tt)), ((refl, tt), (tt, tt))))

where_to-distinct_example : Places members places
where_to-distinct_example = where_to-distinct boost name members places members-IsSorted listed

put-tolerates_example :
    (w' : Machines) × (put_command boost remote (codes "yes") (codes "notes.txt") name machines
      ≡ (uploaded places, w'))
    × (s : Str) × IsActive members s
    × (has_file name (w'.files s) ≡ true)
    × (str_eq s host40 ≡ false)
    × (str_eq s host5 ≡ false)
put-tolerates_example =
    put-tolerates boost host5 machines (codes "notes.txt") name host40 host5 places refl here refl
      members-IsSorted listed places-Free
