-- ===== src/Ftp/Listing.antt =====
-- src/ftpserver.cpp and src/ftpclient.cpp: `ls-remote` at the server and `list_remote_files`.
use dfss.Base.{
  subst, ◌+◌, ◌≤◌, ◌<◌, ◌≡◌, refl, sym, ap, ◌∙◌, false, Bool-cases, inl, inr, none, some, List, [],
  ◌∷◌, ◌++◌, arith, length, length-append, ltb,
}
use mathlib.Core.List.{append-nil, append_assoc}
use dfss.Text.{Str, str_eq, codes}
use dfss.Text.Split.{
  Boost, Free, has_byte, has_byte-append, terminated, tokens-terminated, split-tokens,
}
use dfss.Datagram.Delivery.{padded, length-padded, c_string-padded, overwrite_whole}
use dfss.Transfer.{Socket, zeros}
use dfss.Ftp.{
  FileSystem, fits, ls_loop, ls_local, ls_session, serve, list_remote_files, erase_last, is_dot,
}
use dfss.Ftp.Steps.{InOnePiece, AnswersWhole, fits_short, overwrite-clear, one_message}

length-terminated :
    (text : Str) (name : Str) (names : List Str)
    → length (text ++ (name ++ (b';' ∷ []))) + length (terminated b';' names)
      ≡ length text + length (terminated b';' (name ∷ names))
unfolding terminated
length-terminated text name names = omega (
  arith,
  length-append text (name ++ (b';' ∷ [])),
  length-append name (b';' ∷ []),
  length-append name (b';' ∷ terminated b';' names),
)

ls_loop-terminated :
    (text : Str) (dir : List Str)
    → length text + length (terminated b';' (ls_local dir)) < 256
    → ls_loop text dir ≡ some (text ++ terminated b';' (ls_local dir))
unfolding ls_loop ls_local terminated
ls_loop-terminated text [] h = ap some (sym (append-nil text))
ls_loop-terminated text (name ∷ dir) h = elim (Bool-cases (is_dot name)) [
  | inl skipped ↦ rw skipped (ls_loop-terminated text dir (rw skipped at h))
  | inr written ↦
      let h' : length text + length (terminated b';' (name ∷ ls_local dir)) < 256 =
        rw written at h in
      let total = length-terminated text name (ls_local dir) in
      rw
        (
          written,
          fits_short (text ++ (name ++ (b';' ∷ []))) (omega arith),
          ls_loop-terminated (text ++ (name ++ (b';' ∷ []))) dir (omega arith),
          append_assoc text (name ++ (b';' ∷ [])) (terminated b';' (ls_local dir)),
          append_assoc name (b';' ∷ []) (terminated b';' (ls_local dir)),
        )
        refl
]

has_byte-terminated : (names : List Str) → Free 0 names → has_byte 0 (terminated b';' names) ≡ false
unfolding terminated
has_byte-terminated [] f = refl
has_byte-terminated (name ∷ names) f =
    has_byte-append 0 name (b';' ∷ terminated b';' names)
    ∙ rw (f.0, has_byte-terminated names f.1) refl

erase_last-append : (xs : List Str) (x : Str) → erase_last (xs ++ (x ∷ [])) ≡ xs
unfolding erase_last
erase_last-append [] x = refl
erase_last-append (y ∷ []) x = refl
erase_last-append (y ∷ z ∷ xs) x = ap (◌∷◌ y) (erase_last-append (z ∷ xs) x)

-- The server's answer to `ls-remote`.
pub ls-sends :
    (k : Socket) (send : k.State → Str → k.State) (s : k.State) (folder : Str) (dir : List Str)
    (remote : FileSystem)
    → length (terminated b';' (ls_local dir)) < 256
    → InOnePiece k s (codes "ls-remote")
    → (s' : k.State) × (serve k send folder (some dir) remote s
        ≡ some (padded 256 (terminated b';' (ls_local dir)) ∷ [], remote, s'))
unfolding serve ls_session str_eq
ls-sends k send s folder dir remote fit (s1, came, rest) =
    let listing = padded 256 (terminated b';' (ls_local dir)) in
    (
      send s1 listing,
      rw
          (
            came,
            ls_loop-terminated [] dir (omega arith),
            overwrite-clear (terminated b';' (ls_local dir)) (omega arith),
          )
          refl,
    )

-- `list_remote_files` gives what `ls_local` gives at the server: if no name of a file holds `;` or
-- a byte 0, the names with a `;` after each fit in 255 bytes, and the request and the answer each
-- come in one piece, then the client, on a connection whose other end gives the one message that the
-- server sends for `ls-remote`, reads the server's names in their order.
pub remote-local :
    (b : Boost) (k k' : Socket) (send : k.State → Str → k.State) (send' : k'.State → Str → k'.State)
    (s : k.State) (s' s1 : k'.State) (folder answer : Str) (dir : List Str) (remote : FileSystem)
    → Free b';' (ls_local dir)
    → Free 0 (ls_local dir)
    → length (terminated b';' (ls_local dir)) < 256
    → InOnePiece k' s' (codes "ls-remote")
    → serve k' send' folder (some dir) remote s' ≡ some (answer ∷ [], remote, s1)
    → k.pending s ≡ []
    → AnswersWhole k send (codes "ls-remote") answer
    → list_remote_files k send b s ≡ some (ls_local dir)
unfolding list_remote_files zeros
remote-local b k k' send send' s s' s1 folder answer dir remote free plain fit came served there
      answered =
    let names = ls_local dir in
    let (s1', sends) = ls-sends k' send' s' folder dir remote fit came in
    let same : padded 256 (terminated b';' names) ≡ answer = one_message (sym sends ∙ served) in
    let size = length-padded 256 (terminated b';' names) (omega arith) in
    let (s2, got, rest) =
      subst (InOnePiece k (send s (codes "ls-remote"))) (sym same) (answered s there) in
    rw
      (
        got,
        overwrite_whole (padded 256 (terminated b';' names)) (codes "ls-remote" ++ zeros 247) size,
        c_string-padded 256 (terminated b';' names) (has_byte-terminated names plain) fit,
        split-tokens b b';' (terminated b';' names),
        tokens-terminated b';' names free,
        erase_last-append names [],
      )
      refl

ls_loop_long :
    (text : Str) (dir : List Str)
    → length text < 256
    → 256 ≤ length text + length (terminated b';' (ls_local dir))
    → ls_loop text dir ≡ none
unfolding ls_loop ls_local terminated
ls_loop_long text [] fit h = absurd (omega arith)
ls_loop_long text (name ∷ dir) fit h = elim (Bool-cases (is_dot name)) [
  | inl skipped ↦ rw skipped (ls_loop_long text dir fit (rw skipped at h))
  | inr written ↦
      let h' : 256 ≤ length text + length (terminated b';' (name ∷ ls_local dir)) =
        rw written at h in
      let total = length-terminated text name (ls_local dir) in
      let text' = text ++ (name ++ (b';' ∷ [])) in
      elim (Bool-cases (ltb (length text') 256)) [
        | inl short ↦
            rw
              (
                written,
                fits_short text' (ground arith),
                ls_loop_long text' dir (ground arith) (omega arith),
              )
              refl
        | inr long ↦ rw (written, fits_long text' long) refl
      ]
]
  where
    fits_long : (t : Str) → ltb (length t) 256 ≡ false → fits t ≡ none
    fits_long t h = unfold fits in rw h refl

-- If the names at the server, with a `;` after each, take 256 bytes or more, then a request
-- `ls-remote` that comes in one piece overflows the buffer of the server.
pub ls_too_long :
    (k : Socket) (send : k.State → Str → k.State) (s : k.State) (folder : Str) (dir : List Str)
    (remote : FileSystem)
    → 256 ≤ length (terminated b';' (ls_local dir))
    → InOnePiece k s (codes "ls-remote")
    → serve k send folder (some dir) remote s ≡ none
unfolding serve ls_session str_eq
ls_too_long k send s folder dir remote long (s1, came, rest) =
    rw (came, ls_loop_long [] dir (omega arith) (omega arith)) refl
