-- ===== src/Examples/Datagrams.antt =====
-- A request of src/com.cpp to a server that echoes it, and a run of `tcp_send_file`.
use dfss.Base.{
  ℕ, zero, suc, ◌≡◌, refl, ap, true, false, Option, none, some, [], if◌then◌else◌, ◌∷◌, ◌++◌, arith,
  length-replicate, take, drop, replicate, ◌-◌, ◌>>=◌,
}
use dfss.Datagram.{Network, UdpServer, udp_server, send_buf, udp_sendmsg, handle_receive}
use dfss.Datagram.Delivery.{request_too_long, rpc-answers}
use dfss.Examples.Addresses.{host5, host20}
use dfss.Base.Int.{pos}
use dfss.Tcp.{tcp_send_file, block_count, tcp_connection, run}
use dfss.Tcp.Blocks.{blocks-counted}
use dfss.Tcp.Server.{upload_loop, accept_all, tcp_file_server, announced, uploads-announced}
use dfss.Text.{Str, str_eq, codes}
use dfss.Text.Decimal.{to_string, digits_of}
use dfss.Text.Split.{has_byte}

abbrev echo : Str → Str → ℕ → Option (Str × ℕ)
echo request remote n = some (request, suc n)

long_free : (n : ℕ) → has_byte 0 (replicate n 7) ≡ false
unfolding replicate
long_free zero = refl
long_free (suc n) = long_free n

request_too_long_example :
    (do
      datagram ← send_buf (replicate 600 7)
      handle_receive echo true datagram host5 (udp_server (replicate 512 7) 0))
    ≡ none
request_too_long_example =
    request_too_long echo host5 (replicate 600 7) (udp_server (replicate 512 7) 0) (long_free 600)
      (omega (arith, length-replicate {A = ℕ} 600 7)) (length-replicate {A = ℕ} 512 7)

abbrev reply_of : Option (Option Str × UdpServer ℕ) → Option Str
reply_of none = none
reply_of (some (reply, server)) = reply

-- A network with that server at its other end.
abbrev network : Network
network = record {
  valid = λ host. true;
  exchange = λ host port_no datagram.
      reply_of (handle_receive echo true datagram host5 (udp_server (replicate 512 7) 0));
}

rpc-answers_example :
    udp_sendmsg network (codes "JOIN") host20 10113 [] ≡ some ([] ++ take 512 (codes "JOIN"))
rpc-answers_example =
    rpc-answers echo host5 network (codes "JOIN") host20 [] (codes "JOIN") 10113
      (udp_server (replicate 512 7) 0) 1 refl (omega arith) (length-replicate {A = ℕ} 512 7) refl
      (λ datagram out after e. ap reply_of e) refl

sent : tcp_send_file (codes "data") 250000 ≡ some (codes "4data")
unfolding tcp_send_file block_count to_string digits_of
sent = refl

counted : block_count 250000 ≡ some 4
unfolding block_count
counted = refl

blocks-counted_example :
    run (codes "4data" ∷ [] ∷ [] ∷ [] ∷ []) tcp_connection
    ≡ some (record { seq = 4; total_blocks = pos 4 }, drop (4 - 1) ([] ∷ [] ∷ [] ∷ []))
blocks-counted_example =
    blocks-counted (codes "data") (codes "4data") 250000 4 ([] ∷ [] ∷ [] ∷ []) refl sent counted
      (omega arith)

abbrev size_of : Str → Option ℕ
size_of file_name = if str_eq file_name (codes "a") then some 250000 else none

uploaded : upload_loop size_of (codes "a" ∷ codes "b" ∷ []) ≡ some (codes "4new" ∷ [])
unfolding upload_loop tcp_send_file block_count to_string digits_of str_eq
uploaded = refl

uploads-announced_example :
    accept_all (codes "4new" ∷ []) tcp_file_server
    ≡ some (record { accepting = true; started = announced size_of (codes "a" ∷ codes "b" ∷ []) })
uploads-announced_example =
    uploads-announced size_of (codes "a" ∷ codes "b" ∷ []) (codes "4new" ∷ []) uploaded
