-- ===== src/Replication/Restore.antt =====
-- src/client.cpp, `monitor` with the handlers of the master and of the monitors at the other end.
use dfss.Base.{
  ℕ, ◌≤◌, leb, length, ◌≡◌, refl, sym, ap, ◌∙◌, subst, Bool, true, false, not, ◌&&◌, some, List, [],
  ◌∷◌, ◌++◌, arith, Bool-cases, inl, inr, All,
}
use dfss.Replication.{Action, monitor_files, monitor}
use dfss.Replication.Removal.{missing, monitor_places_lem}
use dfss.Replication.Round.{
  Files, perform, round, round_step, round-gives, unneeded, has-remove, missing-other,
}
use dfss.Placement.{monitor_handler, has_file}
use dfss.Members.{MemberList}
use dfss.Text.{Str, str_eq, str_eq_iff, str_eq_refl, codes}
use dfss.Text.Order.{set_has, All-of-set_has}
use dfss.Text.Split.{Boost, Free, has_byte, split-tokens, terminated, tokens-terminated}

module _ (me : Str) (places : Str → List Str) (files : Files) where
  unneeded-gone :
      (name n : Str) (fs : Files)
      → has_file n (fs me) ≡ false
      → has_file n (perform me (unneeded me places files name) fs me) ≡ false
  unneeded-gone name n fs h = elim (Bool-cases (set_has me (places name))) [
    | inl own ↦ rw own h
    | inr away ↦
        rw away (has-remove me name me n fs ∙ rw h (none_left (str_eq me me && str_eq n name)))
  ]
    where
      none_left : (c : Bool) → (not c && false) ≡ false
      none_left true = refl
      none_left false = refl

  unneeded-clears :
      (n : Str) (fs : Files)
      → set_has me (places n) ≡ false
      → has_file n (perform me (unneeded me places files n) fs me) ≡ false
  unneeded-clears n fs away =
      rw away (has-remove me n me n fs ∙ rw (str_eq_refl me, str_eq_refl n) refl)

  not_there :
      (name n : Str)
      → set_has me (places n) ≡ false
      → (str_eq n name && set_has me (places name)) ≡ false
  not_there name n away = elim (Bool-cases (str_eq n name)) [
    | inl same ↦
        rw (same, subst (λ x. set_has me (places x) ≡ false) ((str_eq_iff n name).0 same) away) refl
    | inr other ↦ rw other refl
  ]

  round-gone :
      (n : Str) (names : List Str) (fs : Files)
      → set_has me (places n) ≡ false
      → has_file n (fs me) ≡ false
      → has_file n (perform me (round me places files names) fs me) ≡ false
  round-gone n [] fs away h = h
  round-gone n (name ∷ names) fs away h =
      ap (λ f. has_file n (f me)) (round_step me places files name names fs)
      ∙ round-gone n names _ away (
          unneeded-gone name n _ (
            missing-other me name me n (λ ip. has_file name (files ip)) (places name) fs
              (not_there name n away)
            ∙ h))

  round-clears :
      (n : Str) (names : List Str) (fs : Files)
      → set_has n names ≡ true
      → set_has me (places n) ≡ false
      → has_file n (perform me (round me places files names) fs me) ≡ false
  unfolding set_has
  round-clears n [] fs listed away = absurd (clash listed)
    where
      clash : false ≡ true → ⊥
      clash e = cc
  round-clears n (name ∷ names) fs listed away =
      ap (λ f. has_file n (f me)) (round_step me places files name names fs)
      ∙ elim (Bool-cases (str_eq n name)) [
        | inl same ↦ round-gone n names _ away (
            subst
              (λ x.
                has_file n (
                  perform me (unneeded me places files x)
                    (perform me (missing (λ ip. has_file name (files ip)) name (places name)) fs)
                    me)
                ≡ false)
              ((str_eq_iff n name).0 same) (unneeded-clears n _ away))
        | inr other ↦ round-clears n names _ (ground arith) away
      ]

-- What the master and the monitors answer in a round for the files `names`.
pub record Answered (b : Boost) (me : Str) (places : Str → List Str) (files : Files)
    (ask_master : Str → Str) (ask : Str → Str → Str) (names : List Str) : Type 0 where
  pub own : has_byte b';' me ≡ false
  pub plain : All (λ name. has_byte b';' name ≡ false) names
  pub free : All (λ name. Free b';' (places name)) names
  pub listed : All (λ name. ask_master (codes "1;" ++ name) ≡ terminated b';' (places name)) names
  pub checked :
      All
        (λ name.
          (ip : Str)
          → monitor_handler b (name ++ codes ";CHECK") me (files ip)
            ≡ some (ask (name ++ codes ";CHECK") ip, files ip))
        names

monitor_files-round :
    (b : Boost) (me : Str) (places : Str → List Str) (files : Files) (ask_master : Str → Str)
    (ask : Str → Str → Str) (names : List Str)
    → Answered b me places files ask_master ask names
    → monitor_files b ask_master ask names ≡ some (round me places files names)
unfolding monitor_files
monitor_files-round b me places files ask_master ask [] a = refl
monitor_files-round b me places files ask_master ask (name ∷ names) a =
    let rest : Answered b me places files ask_master ask names = record {
      own = a.own;
      plain = a.plain.1;
      free = a.free.1;
      listed = a.listed.1;
      checked = a.checked.1;
    } in
    let split =
      ap (b.split b';') a.listed.0
      ∙ split-tokens b b';' (terminated b';' (places name))
      ∙ tokens-terminated b';' (places name) a.free.0 in
    rw
      (
        split,
        monitor_places_lem b me name (ask (name ++ codes ";CHECK")) files (places name) a.own
            a.plain.0 a.checked.0,
        monitor_files-round b me places files ask_master ask names rest,
      )
      refl

enough_members : (n : ℕ) → 4 ≤ n → leb 4 n ≡ true
enough_members n h = ground arith

-- A round of `monitor` restores the copies: let the node know of four members or more, let the names and the addresses have no `;`, let the
-- master list the places of each file, and let the nodes answer the checks by `monitor_handler`.
-- Then the round for the files `names` ends without a fault; after what it does, every place of each
-- of the files has it, and the node itself has it exactly if it is one of its places.
pub monitor-restores :
    (b : Boost) (me : Str) (places : Str → List Str) (files : Files) (ask_master : Str → Str)
    (ask : Str → Str → Str) (member_list : MemberList) (names : List Str)
    → 4 ≤ length member_list
    → Answered b me places files ask_master ask names
    → (actions : List Action) × (monitor b ask_master ask member_list names ≡ some actions)
      × All (λ n. All (λ ip. has_file n (perform me actions files ip) ≡ true) (places n)) names
      × All (λ n. has_file n (perform me actions files me) ≡ set_has me (places n)) names
unfolding monitor
monitor-restores b me places files ask_master ask member_list names enough a =
    let actions = round me places files names in
    (
      actions,
      rw (enough_members (length member_list) enough)
          (monitor_files-round b me places files ask_master ask names a),
      All-of-set_has (λ n. All (λ ip. has_file n (perform me actions files ip) ≡ true) (places n))
          names
          (λ n listed.
            All-of-set_has (λ ip. has_file n (perform me actions files ip) ≡ true) (places n)
              (λ ip there. round-gives me places files ip n names files listed there (λ h. h))),
      All-of-set_has (λ n. has_file n (perform me actions files me) ≡ set_has me (places n)) names
          (λ n listed. elim (Bool-cases (set_has me (places n))) [
            | inl own ↦ round-gives me places files me n names files listed own (λ h. h) ∙ sym own
            | inr away ↦ round-clears me places files n names files listed away ∙ sym away
          ]),
    )
