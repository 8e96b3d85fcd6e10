-- ===== src/Commands/Outcome.antt =====
-- src/client.cpp: what the commands do to the files of the nodes. `Service` has what the commands
-- rely on.
use dfss.Base.{
  ◌≡◌, refl, sym, ap, subst, ◌∙◌, Bool, get_elem?, ◌>>=◌, true, false, not, ◌&&◌, ◌||◌, inl, inr,
  some, List, [], ◌∷◌, ◌++◌, Bool-cases, if◌then◌else◌, arith,
}
use dfss.Text.{Str, str_eq, eq_of_str_eq, codes}
use dfss.Text.Order.{set_has}
use dfss.Text.Split.{
  Boost, Free, has_byte, has_byte-append, terminated, split-tokens, tokens-terminated,
}
use dfss.Placement.{find_file_loop, find_file_remote}
use dfss.Replication.Removal.{reply, reply-tokens}
use dfss.Commands.Service.{Service}
use dfss.Commands.{
  Remote, uploaded, downloaded, deleted, not_on_sdfs, but_last, upload_places, delete_places,
  put_command, search_file, get_command, delete_command,
}

-- The first of the places that has the file.
abbrev pub first_holder : (Str → Bool) → List Str → Str
first_holder held [] = []
first_holder held (ip ∷ ips) = let rest = first_holder held ips in if held ip then ip else rest

but_last-append : (xs : List Str) (x : Str) → but_last (xs ++ (x ∷ [])) ≡ xs
unfolding but_last
but_last-append [] x = refl
but_last-append (y ∷ []) x = refl
but_last-append (y ∷ z ∷ xs) x = ap (◌∷◌ y) (but_last-append (z ∷ xs) x)

or_true : (c : Bool) → (c || true) ≡ true
or_true true = refl
or_true false = refl

first_holder_ext :
    (p q : Str → Bool)
    → ((ip : Str) → p ip ≡ q ip)
    → (ips : List Str) → first_holder p ips ≡ first_holder q ips
first_holder_ext p q h [] = refl
first_holder_ext p q h (ip ∷ ips) = rw (h ip, first_holder_ext p q h ips) refl

terminated_no-conflict : (ips : List Str) → str_eq (terminated b';' ips) (codes "CONFLICT") ≡ false
unfolding terminated str_eq
terminated_no-conflict [] = refl
terminated_no-conflict (ip ∷ ips) =
    elim (Bool-cases (str_eq (terminated b';' (ip ∷ ips)) (codes "CONFLICT"))) [
      | inr e ↦ e
      | inl e ↦
          let same = eq_of_str_eq (terminated b';' (ip ∷ ips)) (codes "CONFLICT") e in
          absurd (clash (sym (marked ip ips) ∙ ap (has_byte b';') same))
    ]
  where
    marked : (t : Str) (ts : List Str) → has_byte b';' (terminated b';' (t ∷ ts)) ≡ true
    marked t ts = has_byte-append b';' t (b';' ∷ terminated b';' ts) ∙ or_true (has_byte b';' t)

    clash : true ≡ false → ⊥
    clash e = cc

module _ {W : Type 0} (b : Boost) (r : Remote W) (me : Str) (s : Service r me)
    (free : has_byte b';' me ≡ false) where
  parsed : (ips : List Str) → Free b';' ips → b.split b';' (terminated b';' ips) ≡ ips ++ ([] ∷ [])
  parsed ips f = split-tokens b b';' (terminated b';' ips) ∙ tokens-terminated b';' ips f

  asked :
      (ask : Str → W → Str × W) (ip next : Str) (arr : List Str) (w w1 : W)
      → (ask ip w).1 ≡ w1
      → find_file_loop b ask (ip ∷ next ∷ arr) w ≡ (do
        verdict ← get_elem? (b.split b';' (ask ip w).0) 0
        elim (str_eq verdict (codes "YES")) [
          | true ↦ some (ip, w1)
          | false ↦ find_file_loop b ask (next ∷ arr) w1
        ])
  unfolding find_file_loop
  asked ask ip next arr w w1 e =
      subst
        (λ v. find_file_loop b ask (ip ∷ next ∷ arr) w ≡ (do
          verdict ← get_elem? (b.split b';' (ask ip w).0) 0
          elim (str_eq verdict (codes "YES")) [
            | true ↦ some (ip, v)
            | false ↦ find_file_loop b ask (next ∷ arr) v
          ]))
        e refl

  search_step :
      (w : W) (name ip next rest : Str) (arr : List Str)
      → has_byte b';' name ≡ false
      → find_file_loop b (r.monitor_request (name ++ codes ";CHECK")) (next ∷ arr) w
        ≡ some (rest, w)
      → find_file_loop b (r.monitor_request (name ++ codes ";CHECK")) (ip ∷ next ∷ arr) w
        ≡ some (if s.holds w ip name then ip else rest, w)
  unfolding str_eq
  search_step w name ip next rest arr plain e =
      let request = name ++ codes ";CHECK" in
      let said =
        ap (b.split b';') (s.check w ip name plain)
        ∙ split-tokens b b';' (reply (s.holds w ip name) me)
        ∙ reply-tokens (s.holds w ip name) me free in
      let kept =
        asked (r.monitor_request request) ip next arr w w (s.check_keeps w ip name plain) in
      elim (Bool-cases (s.holds w ip name)) [
        | inl there ↦ kept ∙ rw (said, there) refl
        | inr gone ↦ kept ∙ rw (said, gone) e
      ]

  search_loop-first :
      (w : W) (name : Str) (ips : List Str)
      → has_byte b';' name ≡ false
      → find_file_loop b (r.monitor_request (name ++ codes ";CHECK")) (ips ++ ([] ∷ [])) w
        ≡ some (first_holder (λ ip. s.holds w ip name) ips, w)
  unfolding find_file_loop
  search_loop-first w name [] plain = refl
  search_loop-first w name (ip ∷ []) plain = search_step w name ip [] [] [] plain refl
  search_loop-first w name (ip ∷ next ∷ ips) plain =
      search_step w name ip next (first_holder (λ i. s.holds w i name) (next ∷ ips))
        (ips ++ ([] ∷ [])) plain (search_loop-first w name (next ∷ ips) plain)

  -- With a master and nodes that keep `Service`, for an own address, a name and places without
  -- `;`: `get` downloads the file from the first of its places that has it; if none has it,
  -- nothing is downloaded.
  pub get-first :
      (w : W) (v1 v2 : Str) (ips : List Str)
      → has_byte b';' v1 ≡ false
      → s.places w v1 ≡ some ips
      → Free b';' ips
      → get_command b r v1 v2 w
        ≡ some (
            let w1 = (r.put_request (codes "1;" ++ v1) w).1 in
            let url = first_holder (λ ip. s.holds w ip v1) ips in
            if str_eq url [] then (not_on_sdfs, w1) else (downloaded url, r.download url v1 v2 w1))
  unfolding get_command search_file find_file_remote
  get-first w v1 v2 ips plain known f =
      let w1 = (r.put_request (codes "1;" ++ v1) w).1 in
      let split = ap (b.split b';') (s.forced w v1 ips plain known) ∙ parsed ips f in
      let found =
        search_loop-first w1 v1 ips plain
        ∙ ap (λ url. some (url, w1))
            (first_holder_ext (λ ip. s.holds w1 ip v1) (λ ip. s.holds w ip v1)
              (λ ip. s.request_holds w (codes "1;" ++ v1) ip v1) ips) in
      rw (get_command, split, found) refl

  upload_places-holds :
      (v1 v2 ip n : Str) (ips : List Str) (w : W)
      → s.holds (upload_places b r v1 v2 ips w) ip n
        ≡ ((set_has ip ips && str_eq n v2) || s.holds w ip n)
  unfolding upload_places set_has
  upload_places-holds v1 v2 ip n [] w = refl
  upload_places-holds v1 v2 ip n (x ∷ ips) w = ground (
    arith,
    upload_places-holds v1 v2 ip n ips (r.upload x v1 v2 w),
    s.upload_holds w x v1 v2 ip n,
  )

  delete_places-holds :
      (v1 ip n : Str) (ips : List Str) (w : W)
      → has_byte b';' v1 ≡ false
      → s.holds (delete_places b r v1 ips w) ip n
        ≡ (not (set_has ip ips && str_eq n v1) && s.holds w ip n)
  unfolding delete_places set_has
  delete_places-holds v1 ip n [] w plain = refl
  delete_places-holds v1 ip n (x ∷ ips) w plain = ground (
    arith,
    delete_places-holds v1 ip n ips (r.monitor_request (v1 ++ codes ";DELETE") x w).1 plain,
    s.delete_holds w x v1 ip n plain,
  )

  upload_places-keeps :
      (v1 v2 n : Str) (ips : List Str) (w : W)
      → s.places (upload_places b r v1 v2 ips w) n ≡ s.places w n
  unfolding upload_places
  upload_places-keeps v1 v2 n [] w = refl
  upload_places-keeps v1 v2 n (x ∷ ips) w =
      upload_places-keeps v1 v2 n ips (r.upload x v1 v2 w) ∙ s.upload_keeps w x v1 v2 n

  delete_places-keeps :
      (v1 n : Str) (ips : List Str) (w : W) → s.places (delete_places b r v1 ips w) n ≡ s.places w n
  unfolding delete_places
  delete_places-keeps v1 n [] w = refl
  delete_places-keeps v1 n (x ∷ ips) w =
      delete_places-keeps v1 n ips (r.monitor_request (v1 ++ codes ";DELETE") x w).1
      ∙ s.delete_keeps w (v1 ++ codes ";DELETE") x n

  -- With a master and nodes that keep `Service`, for an own address, a new name and places without
  -- `;`: `put` of a file that is here, confirmed if the master asks, leaves the file at every
  -- place of the new name, and nothing else changes at any node.
  pub put-places :
      (w : W) (v1 v2 : Str) (ips : List Str)
      → r.is_file_exist w (codes "./" ++ v1) ≡ true
      → has_byte b';' v2 ≡ false
      → s.places w v2 ≡ some ips
      → Free b';' ips
      → (w' : W) × (put_command b r (codes "yes") v1 v2 w ≡ (uploaded ips, w'))
        × ((ip n : Str) → s.holds w' ip n ≡ ((set_has ip ips && str_eq n v2) || s.holds w ip n))
        × ((n : Str) → s.places w' n ≡ s.places w n)
  unfolding put_command str_eq
  put-places w v1 v2 ips here plain known f =
      let w1 = (r.put_request (codes "0;" ++ v2) w).1 in
      let w2 = (r.put_request (codes "1;" ++ v2) w1).1 in
      let known' = s.request_places w (codes "0;" ++ v2) v2 ∙ known in
      let forced =
        ap (λ t. but_last (b.split b';' t)) (s.forced w1 v2 ips plain known')
        ∙ ap but_last (parsed ips f)
        ∙ but_last-append ips [] in
      elim (s.offered w v2 ips plain known) [
        | inl conflict ↦ (
          upload_places b r v1 v2 ips w2,
          rw (here, conflict, forced) refl,
          λ ip n.
              upload_places-holds v1 v2 ip n ips w2
              ∙ ap (λ h. (set_has ip ips && str_eq n v2) || h)
                  (s.request_holds w1 (codes "1;" ++ v2) ip n
                    ∙ s.request_holds w (codes "0;" ++ v2) ip n),
          λ n.
              upload_places-keeps v1 v2 n ips w2
              ∙ s.request_places w1 (codes "1;" ++ v2) n
              ∙ s.request_places w (codes "0;" ++ v2) n,
        )
        | inr listed ↦
            let offered =
              ap (λ t. but_last (b.split b';' t)) listed
              ∙ ap but_last (parsed ips f)
              ∙ but_last-append ips [] in
            (
              upload_places b r v1 v2 ips w1,
              rw
                  (
                    here,
                    ap (λ t. str_eq t (codes "CONFLICT")) listed ∙ terminated_no-conflict ips,
                    offered,
                  )
                  refl,
              λ ip n.
                  upload_places-holds v1 v2 ip n ips w1
                  ∙ ap (λ h. (set_has ip ips && str_eq n v2) || h)
                      (s.request_holds w (codes "0;" ++ v2) ip n),
              λ n. upload_places-keeps v1 v2 n ips w1 ∙ s.request_places w (codes "0;" ++ v2) n,
            )
      ]

  -- With a master and nodes that keep `Service`, for an own address, a name and places without
  -- `;`: after `delete` none of the places of the file has it, and nothing else changes at any
  -- node.
  pub delete-places :
      (w : W) (v1 : Str) (ips : List Str)
      → has_byte b';' v1 ≡ false
      → s.places w v1 ≡ some ips
      → Free b';' ips
      → (w' : W) × (delete_command b r v1 w ≡ (deleted, w'))
        × ((ip n : Str) → s.holds w' ip n ≡ (not (set_has ip ips && str_eq n v1) && s.holds w ip n))
        × ((n : Str) → s.places w' n ≡ s.places w n)
  unfolding delete_command
  delete-places w v1 ips plain known f =
      let w1 = (r.put_request (codes "1;" ++ v1) w).1 in
      let listed =
        ap (λ t. but_last (b.split b';' t)) (s.forced w v1 ips plain known)
        ∙ ap but_last (parsed ips f)
        ∙ but_last-append ips [] in
      (
        delete_places b r v1 ips w1,
        rw listed refl,
        λ ip n.
            delete_places-holds v1 ip n ips w1 plain
            ∙ ap (λ h. not (set_has ip ips && str_eq n v1) && h)
                (s.request_holds w (codes "1;" ++ v1) ip n),
        λ n. delete_places-keeps v1 n ips w1 ∙ s.request_places w (codes "1;" ++ v1) n,
      )
