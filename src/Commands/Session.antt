-- ===== src/Commands/Session.antt =====
-- src/client.cpp: command lines as they are typed at the menu of `main`.
use dfss.Base.{◌≡◌, ◌&&◌, ◌||◌, refl, ap, ◌∙◌, true, false, some, List, [], ◌∷◌, ◌++◌}
use dfss.Text.{Str, str_eq, codes}
use dfss.Text.Order.{set_has}
use dfss.Text.Split.{Boost, Free, has_byte, split-tokens, tokens_first, tokens_last}
use dfss.Commands.{
  Remote, Printed, uploaded, downloaded, commands, choose, command, menu, put_words, get_words,
  put_command, get_command,
}
use dfss.Commands.Service.{Service}
use dfss.Commands.Lifecycle.{put-get}

module _ {W : Type 0} (b : Boost) (r : Remote W) where
  three_words :
      (verb v1 v2 : Str)
      → has_byte b' ' verb ≡ false
      → has_byte b' ' v1 ≡ false
      → has_byte b' ' v2 ≡ false
      → b.split b' ' (verb ++ (b' ' ∷ (v1 ++ (b' ' ∷ v2)))) ≡ verb ∷ v1 ∷ v2 ∷ []
  three_words verb v1 v2 h h1 h2 =
      split-tokens b b' ' (verb ++ (b' ' ∷ (v1 ++ (b' ' ∷ v2))))
      ∙ tokens_first b' ' verb (v1 ++ (b' ' ∷ v2)) h
      ∙ ap (λ t. verb ∷ t) (tokens_first b' ' v1 v2 h1 ∙ ap (λ t. v1 ∷ t) (tokens_last b' ' v2 h2))

  choose-put :
      (answer v1 v2 : Str) (w w' : W) (p : Printed)
      → has_byte b' ' v1 ≡ false
      → has_byte b' ' v2 ≡ false
      → put_command b r answer v1 v2 w ≡ (p, w')
      → choose b r (commands (codes "put " ++ (v1 ++ (b' ' ∷ v2))) answer) w ≡ some (some p, w')
  unfolding choose command put_words str_eq
  choose-put answer v1 v2 w w' p h1 h2 e = rw (three_words (codes "put") v1 v2 refl h1 h2, e) refl

  choose-get :
      (answer v1 v2 : Str) (w w' : W) (p : Printed)
      → has_byte b' ' v1 ≡ false
      → has_byte b' ' v2 ≡ false
      → get_command b r v1 v2 w ≡ some (p, w')
      → choose b r (commands (codes "get " ++ (v1 ++ (b' ' ∷ v2))) answer) w ≡ some (some p, w')
  unfolding choose command get_words str_eq
  choose-get answer v1 v2 w w' p h1 h2 e = rw (three_words (codes "get") v1 v2 refl h1 h2, e) refl

  -- With a master and nodes that keep `Service`, for names without blanks, and an own address, a
  -- new name and places without `;`: a user types `put v1 v2` for a file that is here, confirms if
  -- the master asks, and types `get v2 v3`. The file is uploaded to its places, then downloaded as
  -- `v3` from the first of them, which is not empty. In the end every place has the file, and no
  -- other file of any node has come or gone.
  pub menu-put-get :
      (me : Str) (s : Service r me) (w : W) (answer v1 v2 v3 ip : Str) (ips : List Str)
      → has_byte b';' me ≡ false
      → has_byte b' ' v1 ≡ false
      → has_byte b' ' v2 ≡ false
      → has_byte b' ' v3 ≡ false
      → has_byte b';' v2 ≡ false
      → r.is_file_exist w (codes "./" ++ v1) ≡ true
      → s.places w v2 ≡ some (ip ∷ ips)
      → Free b';' (ip ∷ ips)
      → str_eq ip [] ≡ false
      → (w2 : W) × (menu b r 10
            (commands (codes "put " ++ (v1 ++ (b' ' ∷ v2))) (codes "yes")
              ∷ commands (codes "get " ++ (v2 ++ (b' ' ∷ v3))) answer
              ∷ [])
            w
          ≡ some (uploaded (ip ∷ ips) ∷ downloaded ip ∷ [], r.download ip v2 v3 w2))
        × ((i n : Str)
            → s.holds (r.download ip v2 v3 w2) i n
              ≡ ((set_has i (ip ∷ ips) && str_eq n v2) || s.holds w i n))
  unfolding menu
  menu-put-get me s w answer v1 v2 v3 ip ips free t1 t2 t3 plain here known f named =
      let (w1, w2, put, get, holds) =
        put-get b r me s w v1 v2 v3 ip ips free here plain known f named in
      (
        w2,
        rw
            (
              choose-put (codes "yes") v1 v2 w w1 (uploaded (ip ∷ ips)) t1 t2 put,
              choose-get answer v2 v3 w1 (r.download ip v2 v3 w2) (downloaded ip) t2 t3 get,
            )
            refl,
        holds,
      )
