-- ===== src/Commands/Cluster.antt =====
-- src/client.cpp: the master's `putfile_handler` and the nodes' `monitor_handler` at the other end of
-- the commands.
use dfss.Base.{
  ℕ, ◌≡◌, refl, sym, ap, ◌∙◌, false, not, ◌&&◌, ◌||◌, inl, inr, ◌⊎◌, Option, none, some, List, [],
  ◌∷◌, ◌++◌, Bool-cases, if◌then◌else◌, arith, ◌>>=◌,
}
use mathlib.Core.List.{append_assoc, append-nil}
use mathlib.Core.Path.{fun_ext}
use dfss.Text.{Str, str_eq, str_eq_sym, str_eq_iff, codes}
use dfss.Text.Split.{Boost, has_byte, terminated, split-tokens, tokens_first, tokens_last}
use dfss.Text.Number.{string_to_int, converts, starts_digit, atoi, signed, digits}
use dfss.Members.{MemberList}
use dfss.Placement.{
  SafetyCheck, putfile_handler, monitor_handler, check_conflict, has_file, delete_file, where_to,
  write_ips,
}
use dfss.Placement.Conflict.{putfile_handler-put}
use dfss.Placement.Held.{has_file-delete_file}
use dfss.Replication.Removal.{reply}
use dfss.Commands.{Remote}
use dfss.Commands.Service.{Service}

-- The machines: the master's tables, the names in `./uploads/` of each node, and the names in the
-- folder of the client and in its `./downloads/`.
pub record Machines : Type 0 where
  pub members : MemberList
  pub safety_check : SafetyCheck
  pub clock : ℕ
  pub files : Str → List Str
  pub own : List Str
  pub downloads : List Str

abbrev pub answered : Machines → Option (Str × SafetyCheck) → Str × Machines
answered w none = ([], w)
answered w (some (response, m)) = (response, record w { safety_check = m })

abbrev pub put_files : Str → List Str → Machines → Machines
put_files ip fs w = record w { files = λ i. if str_eq i ip then fs else w.files i }

abbrev pub monitored : Str → Machines → Option (Str × List Str) → Str × Machines
monitored ip w none = ([], w)
monitored ip w (some (response, fs)) = (response, put_files ip fs w)

module _ (b : Boost) (me : Str) where
  abbrev pub cluster : Remote Machines
  cluster = record {
    put_request =
        λ request w. answered w (putfile_handler b request w.clock w.members w.safety_check);
    monitor_request = λ request ip w. monitored ip w (monitor_handler b request me (w.files ip));
    upload = λ ip file_name new_name w. put_files ip (new_name ∷ w.files ip) w;
    download = λ ip file_name new_name w. record w { downloads = new_name ∷ w.downloads };
    leave = λ w. w;
    is_file_exist = λ w name. has_file name w.own;
    folder = λ w name. w.files me;
    member_list = λ w. w.members;
  }

  words :
      (verb name : Str)
      → has_byte b';' verb ≡ false
      → has_byte b';' name ≡ false
      → b.split b';' (verb ++ (b';' ∷ name)) ≡ verb ∷ name ∷ []
  words verb name free plain =
      split-tokens b b';' (verb ++ (b';' ∷ name))
      ∙ tokens_first b';' verb name free
      ∙ ap (λ t. verb ∷ t) (tokens_last b';' name plain)

  write_ips-terminated :
      (acc : Str) (ips : List Str) → write_ips acc ips ≡ acc ++ terminated b';' ips
  unfolding write_ips terminated
  write_ips-terminated acc [] = sym (append-nil acc)
  write_ips-terminated acc (ip ∷ ips) =
      write_ips-terminated (acc ++ (ip ++ (b';' ∷ []))) ips
      ∙ append_assoc acc (ip ++ (b';' ∷ [])) (terminated b';' ips)
      ∙ ap (λ t. acc ++ t) (append_assoc ip (b';' ∷ []) (terminated b';' ips))

  pub forced_reply :
      (w : Machines) (name : Str) (ips : List Str)
      → has_byte b';' name ≡ false
      → where_to b name w.members ≡ some ips
      → (answered w (putfile_handler b (codes "1;" ++ name) w.clock w.members w.safety_check)).0
        ≡ terminated b';' ips
  unfolding putfile_handler string_to_int converts starts_digit atoi signed digits
  forced_reply w name ips plain known =
      let split = words (codes "1") name refl plain in
      rw (putfile_handler, split, known) (write_ips-terminated [] ips)

  by_conflict :
      (w : Machines) (ips : List Str) (o : Option SafetyCheck) (p : Option (List Str))
      → p ≡ some ips
      → ((answered w (elim o [
        | none ↦ some (codes "CONFLICT", w.safety_check)
        | some m' ↦ do ips ← p; some (write_ips [] ips, m')
      ])).0
          ≡ codes "CONFLICT")
        ⊎ ((answered w (elim o [
          | none ↦ some (codes "CONFLICT", w.safety_check)
          | some m' ↦ do ips ← p; some (write_ips [] ips, m')
        ])).0
            ≡ terminated b';' ips)
  by_conflict w ips none p e = inl refl
  by_conflict w ips (some m') p e = inr (rw e (write_ips-terminated [] ips))

  offered_reply :
      (w : Machines) (name : Str) (ips : List Str)
      → has_byte b';' name ≡ false
      → where_to b name w.members ≡ some ips
      → ((answered w (putfile_handler b (codes "0;" ++ name) w.clock w.members w.safety_check)).0
          ≡ codes "CONFLICT")
        ⊎ ((answered w (putfile_handler b (codes "0;" ++ name) w.clock w.members w.safety_check)).0
            ≡ terminated b';' ips)
  unfolding string_to_int converts starts_digit atoi signed digits
  offered_reply w name ips plain known =
      let split = words (codes "0") name refl plain in
      rw
        (putfile_handler-put b (codes "0;" ++ name) name w.clock w.members w.safety_check
          (codes "0", rw split refl, refl, rw split refl))
        (by_conflict w ips (check_conflict name w.clock w.safety_check) (where_to b name w.members)
          known)

  answered_keeps :
      (w : Machines) (o : Option (Str × SafetyCheck)) (ip : Str)
      → ((answered w o).1.files ip ≡ w.files ip) × ((answered w o).1.members ≡ w.members)
  answered_keeps w none ip = (refl, refl)
  answered_keeps w (some (response, m)) ip = (refl, refl)

  monitored_keeps :
      (ip : Str) (w : Machines) (o : Option (Str × List Str))
      → (monitored ip w o).1.members ≡ w.members
  monitored_keeps ip w none = refl
  monitored_keeps ip w (some (response, fs)) = refl

  check_reply :
      (w : Machines) (ip name : Str)
      → has_byte b';' name ≡ false
      → (monitored ip w (monitor_handler b (name ++ codes ";CHECK") me (w.files ip))).0
        ≡ reply (has_file name (w.files ip)) me
  unfolding monitor_handler str_eq
  check_reply w ip name plain =
      let split = words name (codes "CHECK") plain refl in
      elim (Bool-cases (has_file name (w.files ip))) [
        | inl there ↦ rw (monitor_handler, split, there) refl
        | inr gone ↦ rw (monitor_handler, split, gone) refl
      ]

  put_back :
      (ip i : Str) (w : Machines) → (if str_eq i ip then w.files ip else w.files i) ≡ w.files i
  put_back ip i w = ground (arith, str_eq_iff i ip)

  check_leaves :
      (w : Machines) (ip name : Str)
      → has_byte b';' name ≡ false
      → (monitored ip w (monitor_handler b (name ++ codes ";CHECK") me (w.files ip))).1 ≡ w
  unfolding monitor_handler str_eq
  check_leaves w ip name plain =
      let split = words name (codes "CHECK") plain refl in
      let same = ap (λ f. record w { files = f }) (fun_ext (λ i. put_back ip i w)) in
      elim (Bool-cases (has_file name (w.files ip))) [
        | inl there ↦ rw (monitor_handler, split, there) same
        | inr gone ↦ rw (monitor_handler, split, gone) same
      ]

  delete_reply :
      (name : Str) (fs : List Str)
      → has_byte b';' name ≡ false
      → monitor_handler b (name ++ codes ";DELETE") me fs
        ≡ some (codes "YES;" ++ me, delete_file name fs)
  unfolding monitor_handler str_eq
  delete_reply name fs plain = rw (words name (codes "DELETE") plain refl) refl

  files-put_files :
      (ip i n : Str) (fs : List Str) (w : Machines)
      → has_file n ((put_files ip fs w).files i)
        ≡ (if str_eq i ip then has_file n fs else has_file n (w.files i))
  files-put_files ip i n fs w = elim (Bool-cases (str_eq i ip)) [
    | inl same ↦ rw same refl
    | inr other ↦ rw other refl
  ]

  deleted_holds :
      (w : Machines) (ip name i n : Str)
      → has_byte b';' name ≡ false
      → has_file n
          ((monitored ip w (monitor_handler b (name ++ codes ";DELETE") me (w.files ip))).1.files i)
        ≡ (not (str_eq i ip && str_eq n name) && has_file n (w.files i))
  deleted_holds w ip name i n plain =
      ap (λ o. has_file n ((monitored ip w o).1.files i)) (delete_reply name (w.files ip) plain)
      ∙ files-put_files ip i n (delete_file name (w.files ip)) w
      ∙ ground (arith, has_file-delete_file name n (w.files ip), str_eq_iff i ip)

  uploaded_holds :
      (w : Machines) (ip new i n : Str)
      → has_file n ((put_files ip (new ∷ w.files ip) w).files i)
        ≡ ((str_eq i ip && str_eq n new) || has_file n (w.files i))
  unfolding has_file
  uploaded_holds w ip new i n =
      files-put_files ip i n (new ∷ w.files ip) w
      ∙ ground (arith, str_eq_sym new n, str_eq_iff i ip)

  -- The handlers do what `Service` asks of them, for a client at the address `me`.
  pub cluster_service : Service cluster me
  cluster_service = record {
    holds = λ w ip n. has_file n (w.files ip);
    places = λ w n. where_to b n w.members;
    forced = forced_reply;
    offered = offered_reply;
    request_holds = λ w t ip n.
        ap (has_file n)
          (answered_keeps w (putfile_handler b t w.clock w.members w.safety_check) ip).0;
    request_places = λ w t n.
        ap (where_to b n)
          (answered_keeps w (putfile_handler b t w.clock w.members w.safety_check) []).1;
    check = check_reply;
    check_keeps = check_leaves;
    delete_holds = λ w ip name i n plain. deleted_holds w ip name i n plain;
    delete_keeps =
        λ w t ip n. ap (where_to b n) (monitored_keeps ip w (monitor_handler b t me (w.files ip)));
    upload_holds = λ w ip name new i n. uploaded_holds w ip new i n;
    download_holds = λ w ip name new i n. refl;
    upload_keeps = λ w ip name new n. refl;
  }

  pub places-cluster :
      (w : Machines) (n : Str) → cluster_service.places w n ≡ where_to b n w.members
  unfolding cluster_service
  places-cluster w n = refl

pub holds-cluster :
    (b : Boost) (me : Str) (w : Machines) (ip n : Str)
    → (cluster_service b me).holds w ip n ≡ has_file n (w.files ip)
unfolding cluster_service
holds-cluster b me w ip n = refl
