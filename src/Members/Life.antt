-- ===== src/Members/Life.antt =====
-- src/client.cpp: the steps that change a node's lists, in any order: heartbeats, updates of the
-- introducer, rounds of the failure detector and of the election.
use dfss.Base.{
  ℕ, ◌≤◌, ◌≡◌, refl, sym, ◌∙◌, subst, Bool, Option, none, some, List, [], ◌∷◌, arith, length,
  length-append, Option-cases, some-inj, inl, inr, get_elem?,
}
use mathlib.Core.List.{reverse}
use dfss.Text.{Str, codes}
use dfss.Text.Map.{
  map_find, map_insert, map_modify, IsSorted, map_insert-IsSorted, map_modify-IsSorted,
}
use dfss.Text.Order.{set_has}
use dfss.Text.Split.{Boost}
use dfss.Members.{
  member_entry, Node, add_to_memlist, add_to_local_neighbour_list, merge, heard_from,
  drop_last_empty, heartbeat_entry, heartbeat_entries, heartbeat_handler, update_handler,
  contact_introducer, failure_detector_round, master_elector_round, elect, but_first,
}
use dfss.Members.Gossip.{heard_from-IsSorted}
use dfss.Members.Detection.{detector-judges}
use dfss.Members.Election.{unfold_round}

module _ (b : Boost) where
  -- An update that names at most four neighbours, as the introducer sends them.
  abbrev pub IsUpdate : Str → Type 0
  IsUpdate response = length (drop_last_empty (b.split b';' response)) ≤ 4

  pub data Step (n : Node) : Node → Type 0 where
    contacts : (response : Str) → IsUpdate response → Step n (contact_introducer b response n)
    adds : (ip : Str) (now : ℕ) → Step n (add_to_memlist ip now n)
    beats :
        (request ip reply : Str) (now : ℕ) {n' : Node}
        → heartbeat_handler b request ip now n ≡ some (n', reply)
        → Step n n'
    updates : (response : Str) → IsUpdate response → Step n (update_handler b response n).0
    detects : (now : ℕ) → Step n (failure_detector_round now n)
    elects : Step n (master_elector_round n)

  pub data Reach (start : Node) : Node → Type 0 where
    here : Reach start start
    next : {n n' : Node} → Reach start n → Step n n' → Reach start n'

-- The membership list is sorted by address, and there are at most four neighbours.
pub record IsValid (n : Node) : Type 0 where
  pub sorted : IsSorted n.member_list
  pub few : length n.local_neighbour_list ≤ 4

-- What one entry of a heartbeat can do to the node.
pub data Edit (now : ℕ) (n : Node) : Node → Type 0 where
  enters :
      (ip : Str)
      → map_find ip n.member_list ≡ none
      → Edit now n (record n { member_list = map_insert ip (member_entry ip now) n.member_list })
  merges :
      (ip flag : Str) (neighbour : Bool)
      → Edit now n (record n { member_list = map_modify (merge flag neighbour) ip n.member_list })

heartbeat_entry-Edit :
    (b : Boost) (item : Str) (now : ℕ) (n n' : Node)
    → heartbeat_entry b item now n ≡ some n'
    → Edit now n n'
unfolding heartbeat_entry
heartbeat_entry-Edit b item now n n' e = elim (Option-cases (get_elem? (b.split b':' item) 0)) [
  | inl d ↦
      let stuck : heartbeat_entry b item now n ≡ none = ground arith in
      absurd (none-ne (sym stuck ∙ e))
  | inr (ip, d) ↦ elim (Option-cases (map_find ip n.member_list)) [
    | inl new ↦
        let entered : heartbeat_entry b item now n
            ≡ some (record n { member_list = map_insert ip (member_entry ip now) n.member_list }) =
          ground arith in
        subst (Edit now n) (some-inj (sym entered ∙ e)) (enters ip new)
    | inr (v, old) ↦ elim (Option-cases (get_elem? (b.split b':' item) 1)) [
      | inl gone ↦
          let stuck : heartbeat_entry b item now n ≡ none = ground arith in
          absurd (none-ne (sym stuck ∙ e))
      | inr (flag, f) ↦
          let neighbour = set_has ip n.local_neighbour_list in
          let merged : heartbeat_entry b item now n
              ≡ some
                  (record n { member_list = map_modify (merge flag neighbour) ip n.member_list }) =
            ground arith in
          subst (Edit now n) (some-inj (sym merged ∙ e)) (merges ip flag neighbour)
    ]
  ]
]
  where
    none-ne : none ≡ some n' → ⊥
    none-ne h = cc

-- What every edit keeps, the loop over the entries keeps.
pub heartbeat_entries-keeps :
    (b : Boost) (now : ℕ) (P : Node → Type 0)
    → ((n n' : Node) → Edit now n n' → P n → P n')
    → (items : List Str) (n n' : Node) → heartbeat_entries b items now n ≡ some n'
    → P n
    → P n'
unfolding heartbeat_entries
heartbeat_entries-keeps b now P keeps [] n n' e h = subst P (some-inj e) h
heartbeat_entries-keeps b now P keeps (item ∷ []) n n' e h = subst P (some-inj e) h
heartbeat_entries-keeps b now P keeps (item ∷ after ∷ rest) n n' e h =
    elim (Option-cases (heartbeat_entry b item now n)) [
      | inl d ↦ absurd (none-ne (rw d at e))
      | inr (n'', d) ↦
          heartbeat_entries-keeps b now P keeps (after ∷ rest) n'' n' (rw d at e)
            (keeps n n'' (heartbeat_entry-Edit b item now n n'' d) h)
    ]
  where
    none-ne : none ≡ some n' → ⊥
    none-ne h = cc

pub heartbeat_handler-keeps :
    (b : Boost) (request ip reply : Str) (now : ℕ) (P : Node → Type 0)
    → ((n n' : Node) → Edit now n n' → P n → P n')
    → (n n' : Node) → heartbeat_handler b request ip now n ≡ some (n', reply)
    → P (heard_from ip now n)
    → P n'
unfolding heartbeat_handler
heartbeat_handler-keeps b request ip reply now P keeps n n' e h =
    elim (Option-cases (heartbeat_entries b (b.split b';' request) now (heard_from ip now n))) [
      | inl d ↦ absurd (none-ne (rw d at e))
      | inr (n'', d) ↦ subst P (same n'' (rw d at e)) (
          heartbeat_entries-keeps b now P keeps (b.split b';' request) (heard_from ip now n) n'' d
            h)
    ]
  where
    none-ne : ◌≡◌ {A = Option (Node × Str)} none (some (n', reply)) → ⊥
    none-ne h = cc

    same :
        (m : Node)
        → ◌≡◌ {A = Option (Node × Str)} (some (m, codes "pong")) (some (n', reply))
        → m ≡ n'
    same m h = cc

pub Edit-IsValid : (now : ℕ) (n n' : Node) → Edit now n n' → IsValid n → IsValid n'
Edit-IsValid now n n' (enters ip new) v = record {
  sorted = map_insert-IsSorted ip (member_entry ip now) n.member_list v.sorted;
  few = v.few;
}
Edit-IsValid now n n' (merges ip flag neighbour) v = record {
  sorted = map_modify-IsSorted (merge flag neighbour) ip n.member_list v.sorted;
  few = v.few;
}

length-add_to_local :
    (ip : Str) (n : Node)
    → length n.local_neighbour_list ≤ 4
    → length (add_to_local_neighbour_list ip n).local_neighbour_list ≤ 4
unfolding add_to_local_neighbour_list
length-add_to_local ip n few = ground (arith, length-append n.local_neighbour_list (ip ∷ []))

length-heard_from :
    (ip : Str) (now : ℕ) (n : Node)
    → length n.local_neighbour_list ≤ 4
    → length (heard_from ip now n).local_neighbour_list ≤ 4
unfolding heard_from
length-heard_from ip now n few = elim (Option-cases (map_find ip n.member_list)) [
  | inl d ↦ rw (d, heard_from) few
  | inr (e, d) ↦ rw (d, heard_from) (length-add_to_local ip _ few)
]

pub heard_from-IsValid : (ip : Str) (now : ℕ) (n : Node) → IsValid n → IsValid (heard_from ip now n)
heard_from-IsValid ip now n v = record {
  sorted = heard_from-IsSorted ip now n v.sorted;
  few = length-heard_from ip now n v.few;
}

pub add_to_memlist-IsValid :
    (ip : Str) (now : ℕ) (n : Node) → IsValid n → IsValid (add_to_memlist ip now n)
unfolding add_to_memlist
add_to_memlist-IsValid ip now n v = elim (Option-cases (map_find ip n.member_list)) [
  | inl d ↦
      rw (d, add_to_memlist)
        (record {
          sorted = map_insert-IsSorted ip (member_entry ip now) n.member_list v.sorted;
          few = v.few;
        })
  | inr (e, d) ↦ rw (d, add_to_memlist) v
]

pub master_elector_round-lists :
    (n : Node)
    → ((master_elector_round n).member_list ≡ n.member_list)
      × ((master_elector_round n).local_neighbour_list ≡ n.local_neighbour_list)
master_elector_round-lists n = elim (Option-cases (elect (reverse (but_first n.member_list)))) [
  | inl d ↦ rw (unfold_round n none d) (refl, refl)
  | inr (ip, d) ↦ rw (unfold_round n (some ip) d) (refl, refl)
]

pub Step-IsValid : (b : Boost) (n n' : Node) → Step b n n' → IsValid n → IsValid n'
unfolding contact_introducer update_handler failure_detector_round
Step-IsValid b n n' (contacts response fits) v = record { sorted = v.sorted; few = fits }
Step-IsValid b n n' (adds ip now) v = add_to_memlist-IsValid ip now n v
Step-IsValid b n n' (beats request ip reply now e) v =
    heartbeat_handler-keeps b request ip reply now IsValid (Edit-IsValid now) n n' e
      (heard_from-IsValid ip now n v)
Step-IsValid b n n' (updates response fits) v = record { sorted = v.sorted; few = fits }
Step-IsValid b n n' (detects now) v = record {
  sorted = (detector-judges now n v.sorted).0;
  few = v.few;
}
Step-IsValid b n n' elects v = record {
  sorted = subst IsSorted (sym (master_elector_round-lists n).0) v.sorted;
  few = rw ((master_elector_round-lists n).1) v.few;
}

-- A node that starts with a sorted list and at most four neighbours keeps both, whatever heartbeats
-- it is sent and in whatever order its threads run, as long as the introducer's messages name at
-- most four neighbours.
pub Reach-IsValid : (b : Boost) {start n : Node} → IsValid start → Reach b start n → IsValid n
Reach-IsValid b v here = v
Reach-IsValid b v (next {n = m} {n' = n'} r step) = Step-IsValid b m n' step (Reach-IsValid b v r)
