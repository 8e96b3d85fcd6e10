-- ===== src/Datagram/Delivery.antt =====
-- src/com.cpp: a request from `udp_sendmsg` to the handler behind `handle_receive`.
use dfss.Base.{
  ℕ, zero, suc, ◌≤◌, ◌<◌, ◌≡◌, refl, sym, ◌∙◌, true, false, Option, none, some, [], ◌∷◌, ◌++◌,
  arith, ltb, take, replicate, length, ◌>>=◌, take_all, length-replicate, Bool-cases, inl, inr,
}
use dfss.Text.{Str}
use dfss.Text.Split.{has_byte}
use dfss.Datagram.{
  Network, overwrite, send_buf, udp_sendmsg, clean_string, c_string, UdpServer, handle_receive,
}

-- The request, with zeros behind it up to `n` bytes.
abbrev pub padded : ℕ → Str → Str
padded n [] = replicate n 0
padded zero (c ∷ s) = c ∷ s
padded (suc n) (c ∷ s) = c ∷ padded n s

pub overwrite-zeros :
    (n : ℕ) (s : Str) → length s ≤ n → overwrite s (replicate n 0) ≡ some (padded n s)
unfolding overwrite replicate
overwrite-zeros n [] h = refl
overwrite-zeros zero (c ∷ s) h = absurd (omega arith)
overwrite-zeros (suc n) (c ∷ s) h = rw (overwrite-zeros n s (omega arith)) refl

overwrite_long : (n : ℕ) (s : Str) → n < length s → overwrite s (replicate n 0) ≡ none
unfolding overwrite replicate
overwrite_long n [] h = absurd (omega arith)
overwrite_long zero (c ∷ s) h = refl
overwrite_long (suc n) (c ∷ s) h = rw (overwrite_long n s (omega arith)) refl

pub overwrite_whole : (s buf : Str) → length s ≡ length buf → overwrite s buf ≡ some s
unfolding overwrite
overwrite_whole [] [] h = refl
overwrite_whole [] (x ∷ buf) h = absurd (omega arith)
overwrite_whole (c ∷ s) [] h = absurd (omega arith)
overwrite_whole (c ∷ s) (x ∷ buf) h = rw (overwrite_whole s buf (omega arith)) refl

pub length-padded : (n : ℕ) (s : Str) → length s ≤ n → length (padded n s) ≡ n
length-padded n [] h = length-replicate {A = ℕ} n 0
length-padded zero (c ∷ s) h = absurd (omega arith)
length-padded (suc n) (c ∷ s) h = omega (arith, length-padded n s)

pub c_string-padded :
    (n : ℕ) (s : Str) → has_byte 0 s ≡ false → length s < n → c_string (padded n s) ≡ some s
unfolding c_string replicate
c_string-padded zero s free h = absurd (omega arith)
c_string-padded (suc n) [] free h = refl
c_string-padded (suc n) (c ∷ s) free h = let rest = c_string-padded n s in ground (arith, rest)

send_buf_long : (request : Str) → 512 < length request → send_buf request ≡ none
unfolding send_buf
send_buf_long request h = overwrite_long 512 request h

send_buf_whole : (request : Str) → length request ≡ 512 → send_buf request ≡ some request
unfolding send_buf
send_buf_whole request h =
    overwrite_whole request (replicate 512 0) (h ∙ sym (length-replicate {A = ℕ} 512 0))

c_string_full : (s : Str) → has_byte 0 s ≡ false → c_string s ≡ none
unfolding c_string
c_string_full [] free = refl
c_string_full (c ∷ s) free = ground (arith, c_string_full s)

clean_string_lem : (s : Str) → has_byte 0 s ≡ false → clean_string s ≡ s
unfolding clean_string
clean_string_lem [] free = refl
clean_string_lem (c ∷ s) free = ground (arith, clean_string_lem s)

module _ {S : Type 0} (req_processor : Str → Str → S → Option (Str × S)) (remote : Str) where
  -- What the handler makes of a request that arrived as it was sent.
  abbrev pub handled : Str → Str → UdpServer S → Option (Option Str × UdpServer S)
  handled request datagram server = do
    (reply, state) ← req_processor request remote server.state
    some (some reply, record { recv_buffer = datagram; listening = true; state = state })

  -- A request without a byte 0 and of less than 512 bytes is sent, fills the server's buffer of 512
  -- bytes, whatever the buffer held before, and reaches the handler as it was.
  pub request-arrives :
      (request : Str) (server : UdpServer S)
      → has_byte 0 request ≡ false
      → length request < 512
      → length server.recv_buffer ≡ 512
      → (datagram : Str) × (send_buf request ≡ some datagram)
        × (length datagram ≡ 512)
        × (handle_receive req_processor true datagram remote server
            ≡ handled request datagram server)
  unfolding send_buf handle_receive
  request-arrives request server free short size =
      let datagram = padded 512 request in
      let full : length datagram ≡ 512 = length-padded 512 request (omega arith) in
      (
        datagram,
        overwrite-zeros 512 request (omega arith),
        full,
        rw
            (
              take_all 512 datagram (omega arith),
              overwrite_whole datagram server.recv_buffer (full ∙ sym size),
              c_string-padded 512 request free short,
              clean_string_lem request free,
            )
            refl,
      )

  -- A request without a byte 0 and of 512 bytes or more overflows the sender's buffer, or makes the
  -- server read past the end of its own.
  pub request_too_long :
      (request : Str) (server : UdpServer S)
      → has_byte 0 request ≡ false
      → 512 ≤ length request
      → length server.recv_buffer ≡ 512
      → (do datagram ← send_buf request; handle_receive req_processor true datagram remote server)
        ≡ none
  unfolding handle_receive
  request_too_long request server free long size = elim (Bool-cases (ltb 512 (length request))) [
    | inl more ↦ rw (send_buf_long request (ground arith)) refl
    | inr equal ↦
        let whole : length request ≡ 512 = ground arith in
        rw
          (
            send_buf_whole request whole,
            take_all 512 request (omega arith),
            overwrite_whole request server.recv_buffer (whole ∙ sym size),
            c_string_full request free,
          )
          refl
  ]

  -- A network that carries datagrams between the caller and a server: the request is answered by the
  -- handler, and the first 512 bytes of the reply are added to the response.
  pub rpc-answers :
      (net : Network) (request host response reply : Str) (port_no : ℕ) (server : UdpServer S)
      (state : S)
      → has_byte 0 request ≡ false
      → length request < 512
      → length server.recv_buffer ≡ 512
      → net.valid host ≡ true
      → ((datagram : Str) (out : Str) (after : UdpServer S)
          → handle_receive req_processor true datagram remote server ≡ some (some out, after)
          → net.exchange host port_no datagram ≡ some out)
      → req_processor request remote server.state ≡ some (reply, state)
      → udp_sendmsg net request host port_no response ≡ some (response ++ take 512 reply)
  unfolding udp_sendmsg
  rpc-answers net request host response reply port_no server state free short size ok carries e =
      let (datagram, sent, full, got) = request-arrives request server free short size in
      let answered : handle_receive req_processor true datagram remote server
          ≡ some (some reply, record { recv_buffer = datagram; listening = true; state = state }) =
        got ∙ rw e refl in
      rw (ok, sent, carries datagram reply _ answered) refl
