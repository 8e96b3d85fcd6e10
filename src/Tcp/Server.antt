-- ===== src/Tcp/Server.antt =====
-- src/com.cpp, `tcp_file_server`, and src/sdfs.cpp, which sends files to one: the loop of its `main`.
use dfss.Base.{
  ℕ, ◌+◌, ◌/◌, ◌≡◌, refl, sym, ap, ◌∙◌, subst, Bool, true, false, inl, inr, Option, none, some,
  List, [], ◌∷◌, ◌++◌, Bool-cases, Option-cases, bind_some, some-inj, none_or_some, ltb,
  if◌then◌else◌, ◌>>=◌,
}
use mathlib.Core.List.{append_assoc, append-nil}
use dfss.Base.Int.{pos}
use dfss.Text.{Str, codes}
use dfss.Text.Number.{string_to_int}
use dfss.Tcp.{TcpConnection, tcp_connection, start, block_count, tcp_send_file}
use dfss.Tcp.Blocks.{string_to_int-to_string}

-- Whether an `async_accept` is pending, and the connections that were started.
pub record TcpFileServer : Type 0 where
  pub accepting : Bool
  pub started : List TcpConnection

unfoldable pub start_accept : TcpFileServer → TcpFileServer
start_accept s = record s { accepting = true }

unfoldable pub tcp_file_server : TcpFileServer
unfolding start_accept
tcp_file_server = start_accept (record { accepting = false; started = [] })

-- `contents` is what the new connection reads first. `none` is an exception, which ends the server.
unfoldable pub handle_accept : Bool → Str → TcpFileServer → Option TcpFileServer
unfolding start_accept
handle_accept error contents s = if error then some (record s { accepting = false }) else (do
  c ← start contents tcp_connection
  some (start_accept (record s { started = s.started ++ (c ∷ []) })))

-- Connections that arrive without an error.
unfoldable pub accept_all : List Str → TcpFileServer → Option TcpFileServer
unfolding handle_accept
accept_all [] s = some s
accept_all (contents ∷ arrivals) s = do s' ← handle_accept false contents s; accept_all arrivals s'

-- The loop of `main` over the names that are typed: what is sent. `size_of` is the size of a file,
-- or none for a name that `is_file_exist` does not find.
unfoldable pub upload_loop : (Str → Option ℕ) → List Str → Option (List Str)
upload_loop size_of [] = some []
upload_loop size_of (file_name ∷ names) = elim (size_of file_name) [
  | none ↦ upload_loop size_of names
  | some file_size ↦ do
    message ← tcp_send_file (codes "new") file_size
    rest ← upload_loop size_of names
    some (message ∷ rest)
]

-- The connection of each file that is there, with the blocks that its size makes.
abbrev pub announced : (Str → Option ℕ) → List Str → List TcpConnection
announced size_of [] = []
announced size_of (file_name ∷ names) = elim (size_of file_name) [
  | none ↦ announced size_of names
  | some file_size ↦
      record { seq = 1; total_blocks = pos (file_size / 100000 + 2) } ∷ announced size_of names
]

block_count_lem : (file_size n : ℕ) → block_count file_size ≡ some n → file_size / 100000 + 2 ≡ n
unfolding block_count
block_count_lem file_size n e = elim (Bool-cases (ltb (file_size / 100000 + 2) 2147483648)) [
  | inl fits ↦ some-inj (rw fits at e)
  | inr large ↦ absurd (none_or_some (rw large at e))
]

start-announced :
    (file_size : ℕ) (message : Str)
    → tcp_send_file (codes "new") file_size ≡ some message
    → start message tcp_connection
      ≡ some (record { seq = 1; total_blocks = pos (file_size / 100000 + 2) })
unfolding tcp_send_file start
start-announced file_size message e =
    let (n, counted, e1) = bind_some (block_count file_size) _ e in
    let read : string_to_int message ≡ some (pos n) =
      ap string_to_int (sym (some-inj e1)) ∙ string_to_int-to_string n (codes "new") refl in
    rw (read, block_count_lem file_size n counted) refl

module _ (size_of : Str → Option ℕ) (file_name : Str) (names : List Str) where
  announced-none :
      size_of file_name ≡ none → announced size_of (file_name ∷ names) ≡ announced size_of names
  announced-none missing = rw (missing, announced) refl

  announced-some :
      (file_size : ℕ)
      → size_of file_name ≡ some file_size
      → announced size_of (file_name ∷ names)
        ≡ record { seq = 1; total_blocks = pos (file_size / 100000 + 2) } ∷ announced size_of names
  announced-some file_size there = rw (there, announced) refl

  upload_loop-none :
      size_of file_name ≡ none → upload_loop size_of (file_name ∷ names) ≡ upload_loop size_of names
  unfolding upload_loop
  upload_loop-none missing = rw (missing, upload_loop) refl

  upload_loop-some :
      (file_size : ℕ)
      → size_of file_name ≡ some file_size
      → upload_loop size_of (file_name ∷ names) ≡ (do
        message ← tcp_send_file (codes "new") file_size
        rest ← upload_loop size_of names
        some (message ∷ rest))
  unfolding upload_loop
  upload_loop-some file_size there = rw (there, upload_loop) refl

accept_all-announced :
    (size_of : Str → Option ℕ) (names messages : List Str) (started : List TcpConnection)
    → upload_loop size_of names ≡ some messages
    → accept_all messages (record { accepting = true; started = started })
      ≡ some (record { accepting = true; started = started ++ announced size_of names })
unfolding upload_loop accept_all handle_accept start_accept
accept_all-announced size_of [] messages started e =
    subst
      (λ l.
        accept_all l (record { accepting = true; started = started })
        ≡ some (record { accepting = true; started = started ++ [] }))
      (some-inj e) (rw (append-nil started) refl)
accept_all-announced size_of (file_name ∷ names) messages started e =
    elim (Option-cases (size_of file_name)) [
      | inl missing ↦ rw (announced-none size_of file_name names missing) (
          accept_all-announced size_of names messages started
            (sym (upload_loop-none size_of file_name names missing) ∙ e))
      | inr (file_size, there) ↦
          let (message, sent, e1) =
            bind_some (tcp_send_file (codes "new") file_size) _
              (sym (upload_loop-some size_of file_name names file_size there) ∙ e) in
          let (rest, run, e2) = bind_some (upload_loop size_of names) _ e1 in
          let c : TcpConnection = record { seq = 1; total_blocks = pos (file_size / 100000 + 2) } in
          let later = accept_all-announced size_of names rest (started ++ (c ∷ [])) run in
          rw (announced-some size_of file_name names file_size there) (
            subst
              (λ l.
                accept_all l (record { accepting = true; started = started })
                ≡ some (record {
                  accepting = true;
                  started = started ++ (c ∷ announced size_of names);
                }))
              (some-inj e2)
              (rw (start-announced file_size message sent)
                (later ∙ rw (append_assoc started (c ∷ []) (announced size_of names)) refl)))
    ]

-- If the number of blocks of each typed file that is there fits an `int`, and what `main` of sdfs
-- sends arrives at a `tcp_file_server`, one connection after the other and without an error, then the
-- server has started one connection for each of those files, in order, each with the number of
-- blocks of its file, and accepts further ones.
pub uploads-announced :
    (size_of : Str → Option ℕ) (names messages : List Str)
    → upload_loop size_of names ≡ some messages
    → accept_all messages tcp_file_server
      ≡ some (record { accepting = true; started = announced size_of names })
unfolding tcp_file_server start_accept
uploads-announced size_of names messages e = accept_all-announced size_of names messages [] e
