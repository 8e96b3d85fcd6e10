-- ===== src/System.antt =====
-- src/client.cpp: the processes of a network and the datagrams between them. An event is one step
-- of one thread, or a datagram that arrives; the datagrams that were sent arrive in any order, any
-- number of times or never, as they were sent: Datagram has the buffers on their way. `none` is a
-- fault of the source. The introducer's process is the one with `-i`.
pub mod Converge
pub mod Packets
pub mod Sound
pub mod Steps
pub mod Reach
pub mod Settling
use dfss.Base.{
  ℕ, zero, suc, ◌+◌, Bool, Option, none, some, List, [], ◌∷◌, ◌++◌, ◌==◌, if◌then◌else◌, get_elem?,
  map, ◌>>=◌,
}
use dfss.Text.{Str, str_eq, codes}
use dfss.Text.Split.{Boost}
use dfss.Node.{VirtualRing, virtual_ring}
use dfss.Members.{
  Node, heartbeat_handler, update_handler, failure_detector_round, master_elector_round,
}
use dfss.Members.Beats.{start_node, heartbeater_round, introducer_round}
use dfss.Introducer.{intro_handler, update_nodes}

abbrev pub mem_listner_port : ℕ
mem_listner_port = 10114

abbrev pub update_port : ℕ
update_port = 10116

-- A request that `udp_sendmsg` sends, with the sender's address.
pub record Packet : Type 0 where
  pub source : Str
  pub host : Str
  pub port_no : ℕ
  pub request : Str

-- The introducer's ring, the number of `update_nodes` threads that have not run yet, the process at
-- each address, and every datagram that was sent.
pub record System : Type 0 where
  pub introducer : Str
  pub ring : VirtualRing
  pub updaters : ℕ
  pub nodes : Str → Node
  pub sent : List Packet

abbrev pub put_node : Str → Node → System → System
put_node ip n s = record s { nodes = λ i. if str_eq i ip then n else s.nodes i }

abbrev pub blank : Node
blank = record { member_list = []; local_neighbour_list = []; master = [] }

-- The message to `remote_ip` and its heartbeat port.
abbrev pub runner : Str → Str → Str → Packet
runner source remote_ip message = record {
  source = source;
  host = remote_ip;
  port_no = mem_listner_port;
  request = message;
}

abbrev pub runner_back : Str → Str → Str → Packet
runner_back source remote_ip message = record {
  source = source;
  host = remote_ip;
  port_no = update_port;
  request = message;
}

-- A thread for each message.
abbrev pub packets : (Str → Str → Packet) → List (Str × Str) → List Packet
packets thread [] = []
packets thread ((host, request) ∷ messages) = thread host request ∷ packets thread messages

abbrev pub post : (Str → Str → Packet) → List (Str × Str) → System → System
post thread messages s = record s { sent = s.sent ++ packets thread messages }

-- What can happen next.
pub data Event : Type 0 where
  joins : (ip : Str) (now : ℕ) → Event
  leaves : (ip : Str) → Event
  updates : Event
  beats : (ip : Str) → Event
  arrives : (k now : ℕ) → Event
  detects : (ip : Str) (now : ℕ) → Event
  elects : (ip : Str) → Event

-- The introducer has started, and no other process.
unfoldable pub start_system : Str → System
start_system ip = record {
  introducer = ip;
  ring = virtual_ring ip;
  updaters = 0;
  nodes = λ i. record blank { master = ip };
  sent = [];
}

module _ (b : Boost) where
  -- The handler that `servo` starts.
  unfoldable pub servo : ℕ → Packet → Node → Option Node
  servo now p n = do (n', reply) ← heartbeat_handler b p.request p.source now n; some n'

  -- The handler that `updater` starts.
  unfoldable pub updater : Packet → Node → Node
  updater p n = (update_handler b p.request n).0

  -- The threads that `main` starts, by port: the introducer has no `updater`.
  unfoldable pub serve_packet : ℕ → Bool → Packet → Node → Option Node
  unfolding servo updater
  serve_packet now is_introx p n =
      if p.port_no == mem_listner_port
      then servo now p n
      else if p.port_no == update_port
      then some (if is_introx then n else updater p n)
      else some n

  -- A new process contacts the introducer, and starts its threads.
  unfoldable pub join_network : Str → ℕ → System → Option System
  join_network ip now s = do
    a ← intro_handler b (codes "JOIN") ip s.ring
    some (
        put_node ip (record (start_node b a.reply now blank) { master = s.introducer })
          (record s { ring = a.ring; updaters = s.updaters + 1 }))

  unfoldable pub leave_network : Str → System → Option System
  leave_network ip s = do
    a ← intro_handler b (codes "LEAVE") ip s.ring
    some (record s { ring = a.ring; updaters = s.updaters + 1 })

  -- One of the threads of `update_nodes` runs.
  unfoldable pub run_updater : ℕ → System → Option System
  run_updater zero s = some s
  run_updater (suc k) s = do
    messages ← update_nodes s.ring
    some (post (runner_back s.introducer) messages (record s { updaters = k }))

  -- A round of `heartbeater`, or of the introducer's loop in `main`.
  unfoldable pub beat : Str → System → Option System
  beat ip s = do
    messages ←
        (if str_eq ip s.introducer
          then introducer_round (s.nodes ip).member_list s.ring
          else heartbeater_round (s.nodes ip))
    some (post (runner ip) messages s)

  unfoldable pub deliver : Option Packet → ℕ → System → Option System
  unfolding serve_packet
  deliver none now s = some s
  deliver (some p) now s = do
    n ← serve_packet now (str_eq p.host s.introducer) p (s.nodes p.host)
    some (put_node p.host n s)

  unfoldable pub happen : Event → System → Option System
  unfolding join_network leave_network run_updater beat deliver
  happen (joins ip now) s = join_network ip now s
  happen (leaves ip) s = leave_network ip s
  happen updates s = run_updater s.updaters s
  happen (beats ip) s = beat ip s
  happen (arrives k now) s = deliver (get_elem? s.sent k) now s
  happen (detects ip now) s = some (
      if str_eq ip s.introducer then s else put_node ip (failure_detector_round now (s.nodes ip)) s)
  happen (elects ip) s = some (put_node ip (master_elector_round (s.nodes ip)) s)

  unfoldable pub happen_all : List Event → System → Option System
  unfolding happen
  happen_all [] s = some s
  happen_all (e ∷ es) s = do s' ← happen e s; happen_all es s'
