-- ===== src/Datagram.antt =====
-- src/com.cpp: `udp_sendmsg`, `clean_string` and `udp_server`, which carry every request of the
-- nodes. Boost's sockets are not part of the repository: `Network` stands for them.
pub mod Delivery
use dfss.Base.{
  ℕ, Bool, true, false, Option, none, some, List, [], ◌∷◌, ◌++◌, ◌==◌, if◌then◌else◌, take,
  replicate, ◌>>=◌,
}
use dfss.Text.{Str}

-- `valid` is whether `address::from_string` accepts the host; `exchange` is the datagram that comes
-- back from a host and a port, or `none` for an exception.
pub record Network : Type 0 where
  pub valid : Str → Bool
  pub exchange : Str → ℕ → Str → Option Str

-- `std::copy` over the start of a buffer; past its end the behaviour is undefined.
unfoldable pub overwrite : Str → Str → Option Str
overwrite [] buf = some buf
overwrite (c ∷ s) [] = none
overwrite (c ∷ s) (x ∷ buf) = do rest ← overwrite s buf; some (c ∷ rest)

-- `std::vector<char> send_buf(512)` with the request in it.
unfoldable pub send_buf : Str → Option Str
unfolding overwrite
send_buf request = overwrite request (replicate 512 0)

-- The reply is added to `response`; an exception of the socket is caught. `none` is an overflow of
-- `send_buf`, or the exception of `from_string`, which is not caught.
unfoldable pub udp_sendmsg : Network → Str → Str → ℕ → Str → Option Str
udp_sendmsg net request host port_no response =
    if net.valid host
    then (do
      datagram ← send_buf request
      elim (net.exchange host port_no datagram) [
        | none ↦ some response
        | some reply ↦ some (response ++ take 512 reply)
      ])
    else none

unfoldable pub clean_string : Str → Str
clean_string [] = []
clean_string (c ∷ str) = let rest = clean_string str in if c == 0 then [] else c ∷ rest

-- `std::string(recv_buffer_.data())`: up to the first 0, which must be in the array.
unfoldable pub c_string : Str → Option Str
c_string [] = none
c_string (c ∷ buf) =
    let more = (do rest ← c_string buf; some (c ∷ rest)) in if c == 0 then some [] else more

-- `listening` is whether a receive is pending; `state` is what the handler works on.
pub record UdpServer (S : Type 0) : Type 0 where
  pub recv_buffer : Str
  pub listening : Bool
  pub state : S

module _ {S : Type 0} where
  -- `recv_buffer_` is not initialised: `buffer` is what its 512 bytes happen to be.
  abbrev pub udp_server : Str → S → UdpServer S
  udp_server buffer s = record { recv_buffer = buffer; listening = true; state = s }

  -- `ok` is `!error || error == message_size`. The reply, if one is sent, and the server
  -- afterwards.
  unfoldable pub handle_receive :
      (Str → Str → S → Option (Str × S))
      → Bool
      → Str
      → Str
      → UdpServer S
      → Option (Option Str × UdpServer S)
  handle_receive req_processor ok datagram remote server =
      if ok
      then (do
        recv_buffer ← overwrite (take 512 datagram) server.recv_buffer
        param ← c_string recv_buffer
        (reply, state) ← req_processor (clean_string param) remote server.state
        some (some reply, record { recv_buffer = recv_buffer; listening = true; state = state }))
      else some (none, record server { listening = false })
