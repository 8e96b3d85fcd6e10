-- ===== src/Tcp.antt =====
-- src/com.hpp and src/com.cpp: `tcp_send_file` and the connection of `tcp_file_server` that reads it.
-- Boost's sockets are not part of the repository: what a `read` gives is an argument.
pub mod Blocks
pub mod Server
use dfss.Base.{
  ℕ, suc, ◌+◌, ◌/◌, Option, none, some, List, [], ◌∷◌, ◌++◌, ◌==◌, ltb, if◌then◌else◌, ◌>>=◌,
}
use dfss.Base.Int.{ℤ, pos, eqb_ℤ}
use dfss.Text.{Str}
use dfss.Text.Decimal.{to_string}
use dfss.Text.Number.{string_to_int}

-- `int total_blocks`, for a file whose blocks an `int` counts.
unfoldable pub block_count : ℕ → Option ℕ
block_count file_size =
    let total_blocks = file_size / 100000 + 2 in
    if ltb total_blocks 2147483648 then some total_blocks else none

-- What is written to the socket before it is closed. The blocks of the file are not.
unfoldable pub tcp_send_file : Str → ℕ → Option Str
unfolding block_count
tcp_send_file message file_size = do
  total_blocks ← block_count file_size
  some (to_string total_blocks ++ message)

pub record TcpConnection : Type 0 where
  pub seq : ℕ
  pub total_blocks : ℤ

abbrev pub tcp_connection : TcpConnection
tcp_connection = record { seq = 0; total_blocks = pos 0 }

-- `start` up to its `async_write`; `contents` is what it reads. `none` is the exception of `stoi`.
unfoldable pub start : Str → TcpConnection → Option TcpConnection
start contents c =
    if c.seq == 0
    then (do
      total ← string_to_int contents
      some (record { seq = suc c.seq; total_blocks = total }))
    else some (record c { seq = suc c.seq })

-- `start`, and `handle_write` after it, which starts again until all the blocks are counted: the
-- connection at the end, and the reads that are left. `none` is an exception, or the end of the
-- reads given.
unfoldable pub run : List Str → TcpConnection → Option (TcpConnection × List Str)
unfolding start
run [] c = none
run (contents ∷ reads) c = do
  c' ← start contents c
  let rest = run reads c'
  if eqb_ℤ (pos c'.seq) c'.total_blocks then some (c', reads) else rest
