-- ===== src/Replication/Survival.antt =====
-- src/client.cpp: `put`, the failure of two nodes, a round of `monitor` on a node that is left, and
-- `get`.
use dfss.Base.{
  ◌≤◌, ◌≡◌, refl, sym, ◌∙◌, subst, Bool, true, false, ◌&&◌, ◌||◌, some, List, [], ◌∷◌, ◌++◌, inl,
  inr, Bool-cases, All, arith, length,
}
use dfss.Commands.{uploaded, downloaded, put_command, get_command}
use dfss.Commands.Cluster.{Machines, cluster}
use dfss.Commands.Tolerance.{put-spares}
use dfss.Members.{MemberList}
use dfss.Members.Beating.{is_failed}
use dfss.Placement.{where_to, has_file}
use dfss.Placement.Distinct.{IsActive}
use dfss.Replication.{Action, monitor}
use dfss.Replication.Recovery.{IsPlaced, All-at, after, master_reply, monitor_reply, restore-get}
use dfss.Text.{Str, str_eq, str_eq_refl, eq_of_str_eq, codes}
use dfss.Text.Map.{map_find, IsSorted}
use dfss.Text.Order.{set_has, All-at-set_has}
use dfss.Text.Split.{Boost, Free, has_byte}

-- The machines once the master's list is `members`.
abbrev pub knowing : MemberList → Machines → Machines
knowing members w = record w { members = members }

All-of-has_file :
    (P : Str → Type 0) (names : List Str)
    → ((n : Str) → has_file n names ≡ true → P n)
    → All P names
unfolding has_file
All-of-has_file P [] h = tt
All-of-has_file P (x ∷ names) h =
    (h x (rw (str_eq_refl x) refl), All-of-has_file P names (λ n i. h n (ground arith)))

-- Every file that a node has after the `put` can be placed.
still_placed :
    (P : Str → Type 0) (name : Str) (given : Bool) (old new : List Str)
    → ((n : Str) → has_file n new ≡ ((given && str_eq n name) || has_file n old))
    → P name
    → All P old
    → All P new
still_placed P name given old new h placed all =
    All-of-has_file P new (λ n i. one_of n (sym (h n) ∙ i))
  where
    one_of : (n : Str) → ((given && str_eq n name) || has_file n old) ≡ true → P n
    one_of n e = elim (Bool-cases (str_eq n name)) [
      | inl same ↦ subst P (sym (eq_of_str_eq n name same)) placed
      | inr other ↦ All-at P n old (ground arith) all
    ]

apart :
    (members : MemberList) (url p : Str)
    → IsActive members url
    → is_failed p members ≡ true
    → str_eq url p ≡ false
apart members url p (e, found, alive) failed = elim (Bool-cases (str_eq url p)) [
  | inr other ↦ other
  | inl same ↦
      let there = subst (λ x. map_find x members ≡ some e) (eq_of_str_eq url p same) found in
      absurd (clash (sym alive ∙ (rw there at failed)))
]
  where
    clash : false ≡ true → ⊥
    clash h = cc

-- Two failures do not lose a file. Let a `put` of a file that is here be confirmed if the master
-- asks, by a list in order that gives the places of the new name. Then let the master have another
-- list in order, of four members or more, in which `p` and `q` are marked as failed or missing, and
-- that can place the file and every file that a node had before. Names and addresses have no `;`.
-- Then there is another node than `p` and `q` on which one round of `monitor` ends without a fault,
-- and after it a `get` of the file from any address downloads it, from another node than `p` and
-- `q`.
pub put-survives :
    (b : Boost) (me client : Str) (w : Machines) (v1 v2 v3 p q : Str) (ips : List Str)
    (members : MemberList) (places : Str → List Str)
    → has_byte b';' me ≡ false
    → has_byte b';' client ≡ false
    → has_file (codes "./" ++ v1) w.own ≡ true
    → IsSorted w.members
    → where_to b v2 w.members ≡ some ips
    → Free b';' ips
    → 4 ≤ length members
    → IsSorted members
    → is_failed p members ≡ true
    → is_failed q members ≡ true
    → IsPlaced b members places v2
    → ((ip : Str) → All (IsPlaced b members places) (w.files ip))
    → (w1 w2 : Machines) × (s url : Str) × (actions : List Action) × (put_command b
          (cluster b me)
          (codes "yes")
          v1
          v2
          w
        ≡ (uploaded ips, w1))
      × (monitor b
            (master_reply b (knowing members w1))
            (monitor_reply b s (knowing members w1))
            members
            (w1.files s)
          ≡ some actions)
      × (get_command b (cluster b client) v2 v3 (after s actions (knowing members w1))
          ≡ some (downloaded url, w2))
      × (has_file v3 w2.downloads ≡ true)
      × ((str_eq s p || str_eq s q) ≡ false)
      × ((str_eq url p || str_eq url q) ≡ false)
put-survives b me client w v1 v2 v3 p q ips members places free own here sorted known f enough
      sorted' gone_p gone_q placed all =
    let (w1, put, holds, s, active, among, no_p, no_q) =
      put-spares b me w v1 v2 p q ips free here placed.0 sorted known f in
    let held : has_file v2 (w1.files s) ≡ true = holds s v2 ∙ rw (among, str_eq_refl v2) refl in
    let (actions, url, w2, run, got, lives, there, down) =
      restore-get b s client (knowing members w1) places v2 v3 enough sorted'
        (All-at-set_has (λ x. has_byte b';' x ≡ false) s ips f among) own
        (still_placed (IsPlaced b members places) v2 (set_has s ips) (w.files s) (w1.files s)
          (λ n. holds s n) placed (all s))
        held in
    (
      w1,
      w2,
      s,
      url,
      actions,
      put,
      run,
      got,
      down,
      rw (no_p, no_q) refl,
      rw (apart members url p lives gone_p, apart members url q lives gone_q) refl,
    )
