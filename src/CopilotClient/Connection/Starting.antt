-- ===== src/CopilotClient/Connection/Starting.antt =====
-- What a successful start leaves running: `start` and what it calls.
use copilot_sdk.Prelude.{
  ℕ, zero, suc, ◌≡◌, refl, sym, ap, subst, subst₂, ◌≢◌, ◌∙◌, Bool, true, false, Option, none, some,
  if◌then◌else◌, if_split, Result, ok, err, ◌>>=◌,
}
use copilot_sdk.Prelude.Int.{ℤ}
use copilot_sdk.CopilotClient.State.{Client, Options, connecting, connected, Process, popen, socket}
use copilot_sdk.CopilotClient.Command.{command_line, environment, read_port}
use copilot_sdk.CopilotClient.Status.{ping}
use copilot_sdk.CopilotClient.Connection.{
  World, Exec, then_do, after_spawn, after_port, start_cli_server, connect_via_stdio, after_connect,
  connect_port, connect_via_tcp, connect_to_server, verify_protocol_version, check_version,
  try_start, after_try, is_connected, same_int, sdk_protocol_version, after_connect, start,
  process_set,
}

-- `P` holds of the client after a method that did not raise.
abbrev pub Post : (Client → Type 0) → Result (Unit {0}) × Client → Type 0
Post P (ok u, c) = P c
Post P (err e, c) = Unit

pub Post-then_do :
    (P Q : Client → Type 0) (r : Result (Unit {0}) × Client) (m : Exec)
    → Post P r
    → ((c : Client) → P c → Post Q (m c))
    → Post Q (then_do r m)
Post-then_do P Q (ok u, c) m p f = f c p
Post-then_do P Q (err e, c) m p f = tt

-- The options and the kind of server of a client do not change.
record SameSetup (a b : Client) : Type 0 where
  pub options : b.options ≡ a.options
  pub external : b.is_external_server ≡ a.is_external_server

-- The process was spawned, and nothing else has taken its place.
record Spawned (a b : Client) : Type 0 where
  pub setup : SameSetup a b
  pub process : b.process ≡ popen
  pub running : b.cli_processes ≡ suc a.cli_processes
  pub sockets : b.connections ≡ a.connections

not_both : false ≢ true
not_both e = cc

after_port-Spawned : (a c : Client) (r : Result ℕ) → Spawned a c → Post (Spawned a) (after_port r c)
after_port-Spawned a c (err e) h = tt
after_port-Spawned a c (ok n) h = record {
  setup = record { options = h.setup.options; external = h.setup.external };
  process = h.process;
  running = h.running;
  sockets = h.sockets;
}

after_spawn-Spawned : (c : Client) (r : Result (Unit {0})) → Post (Spawned c) (after_spawn r c)
after_spawn-Spawned c (err e) = tt
after_spawn-Spawned c (ok u) = record {
  setup = record { options = refl; external = refl };
  process = refl;
  running = refl;
  sockets = refl;
}

start_cli_server-Spawned : (w : World) (c : Client) → Post (Spawned c) (start_cli_server w c)
unfolding start_cli_server
start_cli_server-Spawned w c =
    if_split (Post (Spawned c)) (w.exists c.options.cli_path) _ _
      (λ _.
        Post-then_do (Spawned c) (Spawned c)
          (after_spawn
            (w.spawn (command_line w.show_number c.options) (environment w.environ c.options)) c)
          _ (after_spawn-Spawned c _)
          λ c' h.
            if_split (Post (Spawned c)) c'.options.use_stdio _ _ (λ _. h)
              (λ _. after_port-Spawned c c' (read_port w.unicode w.output) h))
      (λ _. tt)

check_version-Post :
    (P : Client → Type 0) (r : Result ℤ) (c : Client) → P c → Post P (check_version r c)
check_version-Post P (err e) c p = tt
check_version-Post P (ok v) c p =
    if_split (Post P) (same_int v sdk_protocol_version) _ _ (λ _. p) (λ _. tt)

-- `_verify_protocol_version` changes nothing.
pub verify-Post :
    (P : Client → Type 0) (w : World) (c : Client) → P c → Post P (verify_protocol_version w c)
unfolding verify_protocol_version
verify-Post P w c p =
    check_version-Post P (ping w.conversions w.request none c >>= λ r. ok r.protocol_version) c p

-- What a client has behind `_connect_to_server`: a connection over what `_process` holds.
pub record Linked (p : Process) (runs opened : ℕ) (external : Bool) (c : Client) : Type 0 where
  pub client : c.has_client ≡ true
  pub process : c.process ≡ p
  pub running : c.cli_processes ≡ runs
  pub sockets : c.connections ≡ opened
  pub kind : c.is_external_server ≡ external

-- The process that the client has spawned since it was `a`
abbrev pub OwnProcess : Client → Bool → Client → Type 0
OwnProcess a = Linked popen (suc a.cli_processes) a.connections

-- A socket beside the processes and the connections that there were
abbrev pub OnSocket : ℕ → ℕ → Bool → Client → Type 0
OnSocket runs opened = Linked socket runs (suc opened)

stdio-Linked :
    (a c : Client)
    → a.options.use_stdio ≡ true
    → Spawned a c
    → (w : World) → Post (OwnProcess a a.is_external_server) (connect_to_server w c)
unfolding connect_to_server connect_via_stdio
stdio-Linked a c u h w =
    if_split (Post (OwnProcess a a.is_external_server)) c.options.use_stdio _ _
      (λ _.
        if_split (Post (OwnProcess a a.is_external_server)) (process_set c.process) _ _
          (λ _. record {
            client = refl;
            process = h.process;
            running = h.running;
            sockets = h.sockets;
            kind = h.setup.external;
          })
          (λ _. tt))
      (λ f. absurd (not_both (sym f ∙ ap (λ (o : Options). o.use_stdio) h.setup.options ∙ u)))

after_connect-Linked :
    (c : Client) (r : Result (Unit {0}))
    → Post (OnSocket c.cli_processes c.connections c.is_external_server) (after_connect r c)
after_connect-Linked c (err e) = tt
after_connect-Linked c (ok u) = record {
  client = refl;
  process = refl;
  running = refl;
  sockets = refl;
  kind = refl;
}

connect_port-Linked :
    (w : World) (p : Option ℕ) (c : Client)
    → Post (OnSocket c.cli_processes c.connections c.is_external_server) (connect_port w p c)
connect_port-Linked w none c = tt
connect_port-Linked w (some zero) c = tt
connect_port-Linked w (some (suc n)) c =
    after_connect-Linked c (w.tcp_connect c.actual_host (suc n))

tcp-Linked :
    (w : World) (c : Client)
    → c.options.use_stdio ≡ false
    → Post (OnSocket c.cli_processes c.connections c.is_external_server) (connect_to_server w c)
unfolding connect_to_server connect_via_tcp
tcp-Linked w c u =
    if_split (Post (OnSocket c.cli_processes c.connections c.is_external_server))
      c.options.use_stdio _ _ (λ t. absurd (not_both (sym u ∙ t)))
      (λ _. connect_port-Linked w c.actual_port c)

-- The invariants below do not read the state of the connection.
pub start-Post :
    (P : Client → Type 0) (w : World) (c : Client)
    → ((z : Client) → P z → P (record z { state = connected }))
    → is_connected c.state ≡ false
    → Post P (try_start w (record c { state = connecting }))
    → Post P (start w c)
unfolding start
start-Post P w c f d h =
    if_split (Post P) (is_connected c.state) _ _ (λ t. absurd (not_both (sym d ∙ t)))
      (λ _. ended (try_start w (record c { state = connecting })) h)
  where
    ended : (r : Result (Unit {0}) × Client) → Post P r → Post P (after_try w r)
    ended (ok u, z) h = f z h
    ended (err e, z) h = tt

pub connected-Linked :
    (p : Process) (r o : ℕ) (e : Bool) (z : Client)
    → Linked p r o e z
    → Linked p r o e (record z { state = connected })
connected-Linked p r o e z h = record {
  client = h.client;
  process = h.process;
  running = h.running;
  sockets = h.sockets;
  kind = h.kind;
}

-- A start of the client's own server, from what is known behind `_connect_to_server`
own-try :
    (P : Client → Type 0) (w : World) (c : Client)
    → c.is_external_server ≡ false
    → ((z : Client) → Spawned c z → Post P (connect_to_server w z))
    → Post P (try_start w c)
unfolding try_start
own-try P w c x f =
    Post-then_do P P
      (then_do (if c.is_external_server then (ok tt, c) else start_cli_server w c)
        (connect_to_server w))
      _
      (Post-then_do (Spawned c) P
        (if c.is_external_server then (ok tt, c) else start_cli_server w c) (connect_to_server w)
        (if_split (Post (Spawned c)) c.is_external_server _ _ (λ t. absurd (not_both (sym x ∙ t)))
          (λ _. start_cli_server-Spawned w c))
        f)
      (λ z h. verify-Post P w z h)

pub stdio-try :
    (w : World) (c : Client)
    → c.options.use_stdio ≡ true
    → c.is_external_server ≡ false
    → Post (OwnProcess c false) (try_start w c)
stdio-try w c u x =
    own-try (OwnProcess c false) w c x
      (λ z h. subst (λ e. Post (OwnProcess c e) (connect_to_server w z)) x (stdio-Linked c z u h w))

pub spawned-try :
    (w : World) (c : Client)
    → c.options.use_stdio ≡ false
    → c.is_external_server ≡ false
    → Post (OnSocket (suc c.cli_processes) c.connections false) (try_start w c)
spawned-try w c u x = own-try (OnSocket (suc c.cli_processes) c.connections false) w c x (λ z h.
    subst (λ o. Post (OnSocket (suc c.cli_processes) o false) (connect_to_server w z)) h.sockets
      (subst₂ (λ r e. Post (OnSocket r z.connections e) (connect_to_server w z)) h.running
        (h.setup.external ∙ x)
        (tcp-Linked w z (ap (λ (o : Options). o.use_stdio) h.setup.options ∙ u))))

pub external-try :
    (w : World) (c : Client)
    → c.options.use_stdio ≡ false
    → c.is_external_server ≡ true
    → Post (OnSocket c.cli_processes c.connections true) (try_start w c)
unfolding try_start
external-try w c u x =
    let P = OnSocket c.cli_processes c.connections in
    Post-then_do (P true) (P true)
      (then_do (if c.is_external_server then (ok tt, c) else start_cli_server w c)
        (connect_to_server w))
      _
      (if_split (λ r. Post (P true) (then_do r (connect_to_server w))) c.is_external_server _ _
        (λ _. subst (λ e. Post (P e) (connect_to_server w c)) x (tcp-Linked w c u))
        (λ f. absurd (not_both (sym f ∙ x))))
      (λ z h. verify-Post (P true) w z h)
