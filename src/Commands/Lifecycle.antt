-- ===== src/Commands/Lifecycle.antt =====
-- src/client.cpp: a command after another.
use dfss.Base.{◌≡◌, refl, ◌∙◌, Bool, true, false, ◌||◌, ◌&&◌, some, List, [], ◌∷◌, ◌++◌, arith}
use dfss.Text.{Str, str_eq, str_eq_refl, codes}
use dfss.Text.Order.{set_has}
use dfss.Text.Split.{Boost, Free, has_byte}
use dfss.Commands.{
  Remote, uploaded, downloaded, deleted, not_on_sdfs, put_command, get_command, delete_command,
}
use dfss.Commands.Service.{Service}
use dfss.Commands.Outcome.{first_holder, get-first, put-places, delete-places}

first_holder_none :
    (held : Str → Bool) (all ips : List Str)
    → ((ip : Str) → set_has ip all ≡ true → held ip ≡ false)
    → ((ip : Str) → set_has ip ips ≡ true → set_has ip all ≡ true)
    → first_holder held ips ≡ []
unfolding set_has
first_holder_none held all [] h i = refl
first_holder_none held all (ip ∷ ips) h i =
    rw
      (
        h ip (i ip (first_here ip ips)),
        first_holder_none held all ips h (λ x e. i x (later x ip ips e)),
      )
      refl
  where
    first_here : (x : Str) (xs : List Str) → (str_eq x x || set_has x xs) ≡ true
    first_here x xs = rw (str_eq_refl x) refl

    later : (x y : Str) (xs : List Str) → set_has x xs ≡ true → (str_eq x y || set_has x xs) ≡ true
    later x y xs e = ground arith

module _ {W : Type 0} (b : Boost) (r : Remote W) (me : Str) (s : Service r me) where
  -- A `get` after a `put` of the same name, confirmed if the master asked: the file is downloaded,
  -- and from the first of its places; every place of it then has it, and no other file of a node
  -- has changed.
  pub put-get :
      (w : W) (v1 v2 v3 ip : Str) (ips : List Str)
      → has_byte b';' me ≡ false
      → r.is_file_exist w (codes "./" ++ v1) ≡ true
      → has_byte b';' v2 ≡ false
      → s.places w v2 ≡ some (ip ∷ ips)
      → Free b';' (ip ∷ ips)
      → str_eq ip [] ≡ false
      → (w1 w2 : W) × (put_command b r (codes "yes") v1 v2 w ≡ (uploaded (ip ∷ ips), w1))
        × (get_command b r v2 v3 w1 ≡ some (downloaded ip, r.download ip v2 v3 w2))
        × ((i n : Str)
            → s.holds (r.download ip v2 v3 w2) i n
              ≡ ((set_has i (ip ∷ ips) && str_eq n v2) || s.holds w i n))
  unfolding set_has
  put-get w v1 v2 v3 ip ips free here plain known f named =
      let (w1, put, holds, places) =
        put-places b r me s free w v1 v2 (ip ∷ ips) here plain known f in
      let there : s.holds w1 ip v2 ≡ true =
        holds ip v2 ∙ rw (str_eq_refl ip, str_eq_refl v2) refl in
      (
        w1,
        (r.put_request (codes "1;" ++ v2) w1).1,
        put,
        get-first b r me s free w1 v2 v3 (ip ∷ ips) plain (places v2 ∙ known) f
            ∙ rw (there, named) refl,
        λ i n.
            s.download_holds (r.put_request (codes "1;" ++ v2) w1).1 ip v2 v3 i n
            ∙ s.request_holds w1 (codes "1;" ++ v2) i n
            ∙ holds i n,
      )

  -- With a master and nodes that keep `Service`, for an own address, a name and places without
  -- `;`: a `get` after a `delete` of the same name finds no file.
  pub delete-get :
      (w : W) (v1 v2 : Str) (ips : List Str)
      → has_byte b';' me ≡ false
      → has_byte b';' v1 ≡ false
      → s.places w v1 ≡ some ips
      → Free b';' ips
      → (w1 w2 : W) × (delete_command b r v1 w ≡ (deleted, w1))
        × (get_command b r v1 v2 w1 ≡ some (not_on_sdfs, w2))
  unfolding str_eq
  delete-get w v1 v2 ips free plain known f =
      let (w1, gone, holds, places) = delete-places b r me s free w v1 ips plain known f in
      let nowhere =
        first_holder_none (λ ip. s.holds w1 ip v1) ips ips
          (λ ip e. holds ip v1 ∙ rw (e, str_eq_refl v1) refl) (λ ip e. e) in
      (
        w1,
        (r.put_request (codes "1;" ++ v1) w1).1,
        gone,
        get-first b r me s free w1 v1 v2 ips plain (places v1 ∙ known) f ∙ rw nowhere refl,
      )
