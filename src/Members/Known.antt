-- ===== src/Members/Known.antt =====
-- src/client.cpp: nodes whose neighbours are in their membership lists.
use dfss.Base.{
  ℕ, ◌≡◌, refl, sym, ◌∙◌, subst, false, some, List, [], ◌∷◌, All, All-append, Bool-cases,
  Option-cases, inl, inr, ltb, length,
}
use dfss.Text.{Str, str_eq, str_eq_iff, str_eq_refl}
use dfss.Text.Map.{map_find, map_insert, map_modify, IsSorted, find-insert, find-modify}
use dfss.Text.Split.{Boost}
use dfss.Members.{
  MemberEntry, MemberList, member_entry, Node, merge, add_to_memlist, add_to_local_neighbour_list,
  heard_from, contact_introducer,
}
use dfss.Members.Beats.{add_all, start_node}
use dfss.Members.Detection.{add_to_local-members}
use dfss.Members.Life.{
  IsUpdate, IsValid, Edit, enters, merges, Edit-IsValid, heard_from-IsValid, add_to_memlist-IsValid,
}
use dfss.Members.Silence.{insert-HeardAt}

abbrev pub IsMember : MemberList → Str → Type 0
IsMember m ip = (e : MemberEntry) × (map_find ip m ≡ some e)

pub All-map :
    {A : Type 0} {P Q : A → Type 0} (xs : List A) → ((x : A) → P x → Q x) → All P xs → All Q xs
All-map [] f h = tt
All-map (x ∷ xs) f h = (f x h.0, All-map xs f h.1)

insert-IsMember :
    (k ip : Str) (v : MemberEntry) (m : MemberList)
    → IsSorted m
    → IsMember m ip
    → IsMember (map_insert k v m) ip
insert-IsMember k ip v m s (e, found) =
    let (e', found', t) = insert-HeardAt ip e.time_stamp k v m s (e, found, refl) in (e', found')

inserted : (k : Str) (v : MemberEntry) (m : MemberList) → IsSorted m → IsMember (map_insert k v m) k
inserted k v m s = elim (Option-cases (map_find k m)) [
  | inl d ↦ (v, find-insert k k v m s ∙ rw (str_eq_refl k, d) refl)
  | inr (e, d) ↦ (e, find-insert k k v m s ∙ rw (str_eq_refl k, d) refl)
]

modify-IsMember :
    (f : MemberEntry → MemberEntry) (k ip : Str) (m : MemberList)
    → IsMember m ip
    → IsMember (map_modify f k m) ip
modify-IsMember f k ip m (e, found) = elim (Bool-cases (str_eq ip k)) [
  | inl same ↦
      let there : map_find k m ≡ some e =
        subst (λ i. map_find i m ≡ some e) ((str_eq_iff ip k).0 same) found in
      (f e, find-modify f k ip m ∙ rw (same, there) refl)
  | inr other ↦ (e, find-modify f k ip m ∙ rw other found)
]

-- A valid node whose neighbours are all in its membership list.
abbrev pub Covered : Node → Type 0
Covered n = IsValid n × All (IsMember n.member_list) n.local_neighbour_list

pub Edit-Covered : (now : ℕ) (n n' : Node) → Edit now n n' → Covered n → Covered n'
Edit-Covered now n n' (enters ip new) (v, h) = (
  Edit-IsValid now n n' (enters ip new) v,
  All-map n.local_neighbour_list
      (λ x. insert-IsMember ip x (member_entry ip now) n.member_list v.sorted) h,
)
Edit-Covered now n n' (merges ip flag neighbour) (v, h) = (
  Edit-IsValid now n n' (merges ip flag neighbour) v,
  All-map n.local_neighbour_list (λ x. modify-IsMember (merge flag neighbour) ip x n.member_list) h,
)

add_to_local-All :
    (P : Str → Type 0) (ip : Str) (n : Node)
    → P ip
    → All P n.local_neighbour_list
    → All P (add_to_local_neighbour_list ip n).local_neighbour_list
unfolding add_to_local_neighbour_list
add_to_local-All P ip n new h = elim (Bool-cases (ltb (length n.local_neighbour_list) 4)) [
  | inl room ↦ rw room (All-append P n.local_neighbour_list (ip ∷ []) h (new, tt))
  | inr full ↦ rw full h
]

pub heard_from-Covered : (ip : Str) (now : ℕ) (n : Node) → Covered n → Covered (heard_from ip now n)
unfolding heard_from
heard_from-Covered ip now n (v, h) = (
  heard_from-IsValid ip now n v,
  elim (Option-cases (map_find ip n.member_list)) [
    | inl d ↦
        rw (d, heard_from)
          (All-map n.local_neighbour_list
            (λ x. insert-IsMember ip x (member_entry ip now) n.member_list v.sorted) h)
    | inr (e, d) ↦
        rw (d, heard_from)
          (subst
            (λ m.
              All (IsMember m) (add_to_local_neighbour_list ip (renewed n)).local_neighbour_list)
            (sym (add_to_local-members ip (renewed n)))
            (add_to_local-All (IsMember (renewed n).member_list) ip (renewed n)
              (modify-IsMember renew ip ip n.member_list (e, d))
              (All-map n.local_neighbour_list (λ x. modify-IsMember renew ip x n.member_list) h)))
  ],
)
  where
    renew : MemberEntry → MemberEntry
    renew e = record e { time_stamp = now; failed = false }

    renewed : Node → Node
    renewed n = record n { member_list = map_modify renew ip n.member_list }

add_to_memlist-IsMember :
    (ip x : Str) (now : ℕ) (n : Node)
    → IsSorted n.member_list
    → IsMember n.member_list x
    → IsMember (add_to_memlist ip now n).member_list x
unfolding add_to_memlist
add_to_memlist-IsMember ip x now n s h = elim (Option-cases (map_find ip n.member_list)) [
  | inl d ↦ rw (d, add_to_memlist) (insert-IsMember ip x (member_entry ip now) n.member_list s h)
  | inr (e, d) ↦ rw (d, add_to_memlist) h
]

added :
    (ip : Str) (now : ℕ) (n : Node)
    → IsSorted n.member_list
    → IsMember (add_to_memlist ip now n).member_list ip
unfolding add_to_memlist
added ip now n s = elim (Option-cases (map_find ip n.member_list)) [
  | inl d ↦ rw (d, add_to_memlist) (inserted ip (member_entry ip now) n.member_list s)
  | inr (e, d) ↦ rw (d, add_to_memlist) (e, d)
]

add_to_memlist-local :
    (ip : Str) (now : ℕ) (n : Node)
    → (add_to_memlist ip now n).local_neighbour_list ≡ n.local_neighbour_list
unfolding add_to_memlist
add_to_memlist-local ip now n = elim (Option-cases (map_find ip n.member_list)) [
  | inl d ↦ rw (d, add_to_memlist) refl
  | inr (e, d) ↦ rw (d, add_to_memlist) refl
]

pub add_to_memlist-Covered :
    (ip : Str) (now : ℕ) (n : Node) → Covered n → Covered (add_to_memlist ip now n)
add_to_memlist-Covered ip now n (v, h) = (
  add_to_memlist-IsValid ip now n v,
  subst (All (IsMember (add_to_memlist ip now n).member_list)) (sym (add_to_memlist-local ip now n))
      (All-map n.local_neighbour_list (λ x. add_to_memlist-IsMember ip x now n v.sorted) h),
)

add_all-local :
    (ips : List Str) (now : ℕ) (n : Node)
    → (add_all ips now n).local_neighbour_list ≡ n.local_neighbour_list
unfolding add_all
add_all-local [] now n = refl
add_all-local (ip ∷ ips) now n =
    add_all-local ips now (add_to_memlist ip now n) ∙ add_to_memlist-local ip now n

add_all-IsValid : (ips : List Str) (now : ℕ) (n : Node) → IsValid n → IsValid (add_all ips now n)
unfolding add_all
add_all-IsValid [] now n v = v
add_all-IsValid (ip ∷ ips) now n v =
    add_all-IsValid ips now (add_to_memlist ip now n) (add_to_memlist-IsValid ip now n v)

add_all-IsMember :
    (ips : List Str) (x : Str) (now : ℕ) (n : Node)
    → IsValid n
    → IsMember n.member_list x
    → IsMember (add_all ips now n).member_list x
unfolding add_all
add_all-IsMember [] x now n v h = h
add_all-IsMember (ip ∷ ips) x now n v h =
    add_all-IsMember ips x now (add_to_memlist ip now n) (add_to_memlist-IsValid ip now n v)
      (add_to_memlist-IsMember ip x now n v.sorted h)

add_all-All :
    (ips : List Str) (now : ℕ) (n : Node)
    → IsValid n
    → All (IsMember (add_all ips now n).member_list) ips
unfolding add_all
add_all-All [] now n v = tt
add_all-All (ip ∷ ips) now n v =
    let v' = add_to_memlist-IsValid ip now n v in
    (
      add_all-IsMember ips ip now (add_to_memlist ip now n) v' (added ip now n v.sorted),
      add_all-All ips now (add_to_memlist ip now n) v',
    )

pub start_node-Covered :
    (b : Boost) (response : Str) (now : ℕ) (n : Node)
    → n.member_list ≡ []
    → IsUpdate b response
    → Covered (start_node b response now n)
unfolding start_node contact_introducer
start_node-Covered b response now n empty fits =
    let joined = contact_introducer b response n in
    let v : IsValid joined = record { sorted = subst IsSorted (sym empty) tt; few = fits } in
    (
      add_all-IsValid joined.local_neighbour_list now joined v,
      subst (All (IsMember (start_node b response now n).member_list))
          (sym (add_all-local joined.local_neighbour_list now joined))
          (add_all-All joined.local_neighbour_list now joined v),
    )
