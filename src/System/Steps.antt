-- ===== src/System/Steps.antt =====
-- src/client.cpp: the network after an event.
use dfss.Base.{
  ℕ, zero, suc, ◌≡◌, sym, ap, ◌∙◌, subst, inl, inr, false, some, List, [], ◌∷◌, Bool-cases,
  Option-cases, All, All-append, bind_some, some-inj, get_elem?, none_or_some, if◌then◌else◌,
}
use dfss.Text.{Str, str_eq, codes}
use dfss.Text.Order.{All-at-set_has}
use dfss.Text.Split.{Boost}
use dfss.Members.{Node, make_message, heartbeat_handler, contact_introducer}
use dfss.Members.Beats.{heartbeater_round, introducer_round}
use dfss.Members.Known.{All-map}
use dfss.Introducer.{intro_handler, update_nodes}
use dfss.Introducer.Joining.{IsListed, join-answered, join_spec-All}
use dfss.Introducer.Leaving.{leave-answered, leave_spec-All}
use dfss.Introducer.Updates.{update_nodes-Sends}
use dfss.Ring.History.{join_spec-first, leave_spec-first}
use dfss.Ring.Search.{HasOctet}
use dfss.Ring.Shape.{All-of-mem}
use dfss.Ring.Spec.{join_spec, Represents}
use dfss.Ring.Unique.{IsUnique, join_spec-IsUnique, leave_spec-IsUnique}
use dfss.Ring.Splice.{Yields, Yields-some}
use dfss.System.{
  Packet, System, put_node, blank, packets, post, serve_packet, join_network, leave_network,
  run_updater, beat, deliver, runner, runner_back, servo, updater,
}
use dfss.System.Packets.{
  IsAddress, IsHeartbeat, IsPacket, heartbeats-IsPacket, Sends-IsPacket, heartbeater_round-messages,
  introducer_round-IsEmpty,
}
use dfss.System.Sound.{
  IsProcess, start_node-IsProcess, heartbeat_handler-IsProcess, update_handler-IsProcess,
}

-- A well-formed ring from the introducer on, different addresses without `;` and `:`, processes with
-- well-formed lists, and datagrams as the senders write them.
pub record Sound (b : Boost) (s : System) : Type 0 where
  pub rest : List Str
  pub ring : Represents b s.ring (s.introducer ∷ rest)
  pub plain : All IsAddress (s.introducer ∷ rest)
  pub unique : IsUnique (s.introducer ∷ rest)
  pub processes : (i : Str) → IsProcess (s.nodes i)
  pub sent : All (IsPacket b s.introducer) s.sent

abbrev head_or : List Str → Str
head_or [] = []
head_or (x ∷ xs) = x

put-IsProcess :
    (nodes : Str → Node) (ip : Str) (n : Node)
    → ((i : Str) → IsProcess (nodes i))
    → IsProcess n
    → (i : Str) → IsProcess (if str_eq i ip then n else nodes i)
put-IsProcess nodes ip n all new i = elim (Bool-cases (str_eq i ip)) [
  | inl same ↦ rw same new
  | inr other ↦ rw other (all i)
]

module _ (b : Boost) where
  pub put_node-Sound :
      (ip : Str) (n : Node) (s : System) → IsProcess n → Sound b s → Sound b (put_node ip n s)
  put_node-Sound ip n s new h = record {
    rest = h.rest;
    ring = h.ring;
    plain = h.plain;
    unique = h.unique;
    processes = put-IsProcess s.nodes ip n h.processes new;
    sent = h.sent;
  }

  post-Sound :
      (thread : Str → Str → Packet) (messages : List (Str × Str)) (s : System)
      → All (IsPacket b s.introducer) (packets thread messages)
      → Sound b s
      → Sound b (post thread messages s)
  post-Sound thread messages s new h = record {
    rest = h.rest;
    ring = h.ring;
    plain = h.plain;
    unique = h.unique;
    processes = h.processes;
    sent = All-append (IsPacket b s.introducer) s.sent (packets thread messages) h.sent new;
  }

  IsListed-of : (ips : List Str) → All IsAddress ips → All IsListed ips
  IsListed-of ips h = All-map ips (λ x p. p.0) h

  -- The introducer's own address, as its ring has it.
  pub own_address : (s : System) → Sound b s → s.ring.ip_addr s.ring.introducer ≡ s.introducer
  own_address s h = ap head_or h.ring.addrs

  pub join_network-Sound :
      (ip : Str) (now : ℕ) (s : System)
      → HasOctet b ip
      → IsAddress ip
      → Sound b s
      → Yields (Sound b) (join_network b ip now s)
  unfolding join_network
  join_network-Sound ip now s octet own h =
      let ips = s.introducer ∷ h.rest in
      let (a, e, joins) =
        Yields-some (intro_handler b (codes "JOIN") ip s.ring)
          (join-answered b ip s.ring ips blank h.ring octet (IsListed-of ips h.plain) own.0) in
      let (rest, spec) = join_spec-first b ip s.introducer h.rest in
      let plain = join_spec-All IsAddress b ip ips own h.plain in
      let nb = (contact_introducer b a.reply blank).local_neighbour_list in
      let known : All IsAddress nb =
        All-map nb (λ x p. All-at-set_has IsAddress x (join_spec b ip ips) plain p.0)
          joins.neighbours.others in
      rw e (record {
        rest = rest;
        ring = subst (Represents b a.ring) spec joins.represents;
        plain = subst (All IsAddress) spec plain;
        unique = subst IsUnique spec (join_spec-IsUnique b ip ips h.unique);
        processes =
            put-IsProcess s.nodes ip _ h.processes
              (start_node-IsProcess b a.reply s.introducer now joins.fits known);
        sent = h.sent;
      })

  pub leave_network-Sound :
      (ip : Str) (s : System)
      → str_eq ip s.introducer ≡ false
      → Sound b s
      → Yields (Sound b) (leave_network b ip s)
  unfolding leave_network
  leave_network-Sound ip s other h =
      let ips = s.introducer ∷ h.rest in
      let (a, e, left) = Yields-some (intro_handler b (codes "LEAVE") ip s.ring) (
        leave-answered b ip s.ring ips h.ring
          (subst (λ x. str_eq ip x ≡ false) (sym (own_address s h)) other)) in
      let (rest, spec) = leave_spec-first b ip s.introducer h.rest in
      rw e (record {
        rest = rest;
        ring = subst (Represents b a.ring) spec left.represents;
        plain = subst (All IsAddress) spec (leave_spec-All IsAddress ip ips h.plain);
        unique = subst IsUnique spec (leave_spec-IsUnique ip ips h.unique);
        processes = h.processes;
        sent = h.sent;
      })

  pub run_updater-Sound : (k : ℕ) (s : System) → Sound b s → Yields (Sound b) (run_updater b k s)
  unfolding run_updater
  run_updater-Sound zero s h = h
  run_updater-Sound (suc k) s h =
      let ips = s.introducer ∷ h.rest in
      let (messages, e, sends) =
        Yields-some (update_nodes s.ring) (update_nodes-Sends b s.ring ips h.ring) in
      let good =
        Sends-IsPacket b s.ring ips h.ring (IsListed-of ips h.plain) s.introducer
          (s.ring.ip_addr s.ring.introducer) (s.ring.introducer ∷ h.ring.nodes) messages
          (All-of-mem (s.ring.introducer ∷ h.ring.nodes) (λ t i. i)) sends in
      rw e (
        post-Sound (runner_back s.introducer) messages (record s { updaters = k })
          (subst (λ x. All (IsPacket b x) (packets (runner_back s.introducer) messages))
            (own_address s h) good)
          (record {
            rest = h.rest;
            ring = h.ring;
            plain = h.plain;
            unique = h.unique;
            processes = h.processes;
            sent = h.sent;
          }))

  pub beat-Sound :
      (ip : Str) (s s' : System) → beat b ip s ≡ some s' → IsAddress ip → Sound b s → Sound b s'
  unfolding beat make_message
  beat-Sound ip s s' e own h =
      let (messages, run, e1) =
        bind_some
          (if str_eq ip s.introducer
            then introducer_round (s.nodes ip).member_list s.ring
            else heartbeater_round (s.nodes ip))
          _ e in
      subst (Sound b) (some-inj e1) (
        post-Sound (runner ip) messages s
          (heartbeats-IsPacket b s.introducer ip messages own (written messages run)) h)
    where
      written :
          (messages : List (Str × Str))
          → (if str_eq ip s.introducer
              then introducer_round (s.nodes ip).member_list s.ring
              else heartbeater_round (s.nodes ip))
            ≡ some messages
          → All (λ x. IsHeartbeat x.1) messages
      written messages run = elim (Bool-cases (str_eq ip s.introducer)) [
        | inl at_introducer ↦
            All-map messages (λ x e. ([], e, tt, tt))
              (introducer_round-IsEmpty (s.nodes ip).member_list s.ring messages
                (rw at_introducer at run))
        | inr elsewhere ↦
            let (v, names) = h.processes ip in
            All-map messages (λ x e. ((s.nodes ip).member_list, e, v.sorted, names))
              (heartbeater_round-messages (s.nodes ip) messages (rw elsewhere at run))
      ]

  get-All :
      (P : Packet → Type 0) (xs : List Packet) (k : ℕ) (p : Packet)
      → All P xs
      → get_elem? xs k ≡ some p
      → P p
  get-All P [] k p h e = absurd (none_or_some e)
  get-All P (x ∷ xs) zero p h e = subst P (some-inj e) h.0
  get-All P (x ∷ xs) (suc k) p h e = get-All P xs k p h.1 e

  serve_packet-IsProcess :
      (p : Packet) (now : ℕ) (introducer : Str) (n : Node)
      → IsPacket b introducer p
      → IsProcess n
      → Yields IsProcess (serve_packet b now (str_eq p.host introducer) p n)
  unfolding serve_packet servo updater
  serve_packet-IsProcess p now introducer n (inl (port, own, (peer, written, sorted, plain))) h =
      let (n', run, h') = heartbeat_handler-IsProcess b peer p.source now n own plain h in
      let run' : heartbeat_handler b p.request p.source now n ≡ some (n', codes "pong") =
        ap (λ t. heartbeat_handler b t p.source now n) written ∙ run in
      rw (port, run') h'
  serve_packet-IsProcess p now introducer n (inr (port, fits, other)) h =
      rw (port, other) (update_handler-IsProcess b p.request n fits h)

  pub deliver-Sound :
      (k now : ℕ) (s : System) → Sound b s → Yields (Sound b) (deliver b (get_elem? s.sent k) now s)
  unfolding deliver
  deliver-Sound k now s h = elim (Option-cases (get_elem? s.sent k)) [
    | inl e ↦ rw e h
    | inr (p, e) ↦
        let (n, run, new) =
          Yields-some (serve_packet b now (str_eq p.host s.introducer) p (s.nodes p.host)) (
            serve_packet-IsProcess p now s.introducer (s.nodes p.host)
              (get-All (IsPacket b s.introducer) s.sent k p h.sent e) (h.processes p.host)) in
        rw (e, run) (put_node-Sound p.host n s new h)
  ]
