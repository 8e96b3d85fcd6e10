-- ===== src/Replication/Recovery.antt =====
-- src/client.cpp: `monitor` on a node, the master's `putfile_handler` and the nodes' `monitor_handler`,
-- and then `get`: a file after the failures of nodes that had it.
use dfss.Base.{
  ◌≤◌, ◌≡◌, refl, sym, ap, ◌∙◌, subst, true, false, some, List, [], ◌∷◌, ◌++◌, inl, inr, Bool-cases,
  All, length,
}
use dfss.Commands.{downloaded, get_command}
use dfss.Commands.Cluster.{
  Machines, cluster, cluster_service, places-cluster, holds-cluster, answered, monitored,
  forced_reply,
}
use dfss.Commands.Outcome.{first_holder, get-first}
use dfss.Members.{MemberList}
use dfss.Placement.{where_to, has_file, putfile_handler, monitor_handler}
use dfss.Placement.Distinct.{IsActive, where_to-distinct}
use dfss.Replication.{Action, monitor}
use dfss.Replication.Restore.{Answered, monitor-restores}
use dfss.Replication.Round.{perform}
use dfss.Text.{Str, str_eq, str_eq_refl, eq_of_str_eq, codes}
use dfss.Text.Map.{IsSorted}
use dfss.Text.Order.{str_lt}
use dfss.Text.Split.{Boost, Free, has_byte, split-tokens, tokens_first, tokens_last}

-- What the master answers to a request, and the monitor of the node `ip` to `node`.
abbrev pub master_reply : Boost → Machines → Str → Str
master_reply b w request =
    (answered w (putfile_handler b request w.clock w.members w.safety_check)).0

abbrev pub monitor_reply : Boost → Str → Machines → Str → Str → Str
monitor_reply b node w request ip = (monitored ip w (monitor_handler b request node (w.files ip))).0

-- The machines after what a round of the node `node` does.
abbrev pub after : Str → List Action → Machines → Machines
after node actions w = record w { files = perform node actions w.files }

-- What the files of a node need for a round of its `monitor`: names without `;`, places that the
-- master finds, and no `;` in their addresses.
abbrev pub IsPlaced : Boost → MemberList → (Str → List Str) → Str → Type 0
IsPlaced b members places n =
    (has_byte b';' n ≡ false) × (where_to b n members ≡ some (places n)) × Free b';' (places n)

module _ (b : Boost) (node : Str) (w : Machines) where
  as_replied :
      (n ip response : Str)
      → monitor_handler b (n ++ codes ";CHECK") node (w.files ip) ≡ some (response, w.files ip)
      → monitor_handler b (n ++ codes ";CHECK") node (w.files ip)
        ≡ some (monitor_reply b node w (n ++ codes ";CHECK") ip, w.files ip)
  as_replied n ip response e = e ∙ sym (ap (λ o. some ((monitored ip w o).0, w.files ip)) e)

  check_keeps :
      (n ip : Str)
      → has_byte b';' n ≡ false
      → monitor_handler b (n ++ codes ";CHECK") node (w.files ip)
        ≡ some (monitor_reply b node w (n ++ codes ";CHECK") ip, w.files ip)
  unfolding monitor_handler str_eq
  check_keeps n ip plain =
      let split =
        split-tokens b b';' (n ++ codes ";CHECK")
        ∙ tokens_first b';' n (codes "CHECK") plain
        ∙ ap (λ t. n ∷ t) (tokens_last b';' (codes "CHECK") refl) in
      elim (Bool-cases (has_file n (w.files ip))) [
        | inl there ↦
            as_replied n ip (codes "YES;" ++ node) (rw (monitor_handler, split, there) refl)
        | inr gone ↦ as_replied n ip (codes "NO;" ++ node) (rw (monitor_handler, split, gone) refl)
      ]

  IsPlaced-Answered :
      (places : Str → List Str) (names : List Str)
      → has_byte b';' node ≡ false
      → All (IsPlaced b w.members places) names
      → Answered b node places w.files (master_reply b w) (monitor_reply b node w) names
  IsPlaced-Answered places [] own h = record {
    own = own;
    plain = tt;
    free = tt;
    listed = tt;
    checked = tt;
  }
  IsPlaced-Answered places (n ∷ names) own ((plain, known, free), h) =
      let rest = IsPlaced-Answered places names own h in
      record {
        own = own;
        plain = (plain, rest.plain);
        free = (free, rest.free);
        listed = (forced_reply b node w n (places n) plain known, rest.listed);
        checked = (λ ip. check_keeps n ip plain, rest.checked);
      }

pub All-at :
    (P : Str → Type 0) (n : Str) (names : List Str) → has_file n names ≡ true → All P names → P n
unfolding has_file
All-at P n [] e h = absurd (clash e)
  where
    clash : false ≡ true → ⊥
    clash i = cc
All-at P n (x ∷ names) e h = elim (Bool-cases (str_eq x n)) [
  | inl same ↦ subst P (eq_of_str_eq x n same) h.0
  | inr other ↦ All-at P n names (rw other at e) h.1
]

-- Nothing comes before the empty address.
after_some : (x y : Str) → str_lt x y ≡ true → str_eq y [] ≡ false
unfolding str_lt str_eq
after_some [] [] h = cc
after_some (a ∷ x) [] h = cc
after_some x (c ∷ y) h = refl

-- Let the node `node` hold the file `v1`, and let the master's membership list, four members or
-- more in order, give places to each file that `node` holds; names and addresses have no `;`. Then
-- one round of `monitor` on `node` ends without a fault, and a `get` of `v1` after it downloads the
-- file: from a member that is not marked as failed, and that has it by then.
pub restore-get :
    (b : Boost) (node me : Str) (w : Machines) (places : Str → List Str) (v1 v2 : Str)
    → 4 ≤ length w.members
    → IsSorted w.members
    → has_byte b';' node ≡ false
    → has_byte b';' me ≡ false
    → All (IsPlaced b w.members places) (w.files node)
    → has_file v1 (w.files node) ≡ true
    → (actions : List Action) × (url : Str) × (w2 : Machines) × (monitor b
          (master_reply b w)
          (monitor_reply b node w)
          w.members
          (w.files node)
        ≡ some actions)
      × (get_command b (cluster b me) v1 v2 (after node actions w) ≡ some (downloaded url, w2))
      × IsActive w.members url
      × (has_file v1 ((after node actions w).files url) ≡ true)
      × (has_file v2 w2.downloads ≡ true)
unfolding has_file
restore-get b node me w places v1 v2 enough sorted own free placed held =
    let (actions, run, given, mine) =
      monitor-restores b node places w.files (master_reply b w) (monitor_reply b node w) w.members
        (w.files node) enough (IsPlaced-Answered b node w places (w.files node) own placed) in
    let w1 = after node actions w in
    let (plain, known, apart) =
      All-at (IsPlaced b w.members places) v1 (w.files node) held placed in
    let (hit, next, prev, same, active, c, d, lower, higher) =
      where_to-distinct b v1 w.members (places v1) sorted known in
    let all_there =
      All-at (λ n. All (λ ip. has_file n (w1.files ip) ≡ true) (places n)) v1 (w.files node) held
        given in
    let there : has_file v1 (w1.files hit) ≡ true =
      (subst (λ ips. All (λ ip. has_file v1 (w1.files ip) ≡ true) ips) same all_there).0 in
    let s = cluster_service b me in
    let holds : s.holds w1 hit v1 ≡ true = holds-cluster b me w1 hit v1 ∙ there in
    let found : first_holder (λ ip. s.holds w1 ip v1) (places v1) ≡ hit =
      ap (first_holder (λ ip. s.holds w1 ip v1)) same ∙ rw holds refl in
    let w2 = ((cluster b me).put_request (codes "1;" ++ v1) w1).1 in
    (
      actions,
      hit,
      (cluster b me).download hit v1 v2 w2,
      run,
      get-first b (cluster b me) me s free w1 v1 v2 (places v1) plain
            (places-cluster b me w1 v1 ∙ known) apart
          ∙ rw (found, after_some prev hit lower) refl,
      active,
      there,
      rw (str_eq_refl v2) refl,
    )
