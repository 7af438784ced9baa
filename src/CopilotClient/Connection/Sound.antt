-- ===== src/CopilotClient/Connection/Sound.antt =====
-- What `start`, `stop` and `force_stop` of python/copilot/client.py keep of a client, whether they raise or not.
use copilot_sdk.Prelude.{
  ℕ, zero, suc, ◌≡◌, refl, sym, ◌∙◌, true, false, Option, none, some, [], if◌then◌else◌, if_both,
  Result, ok, err, ◌>>=◌,
}
use copilot_sdk.Prelude.Int.{ℤ}
use copilot_sdk.CopilotClient.State.{Client, connecting, connected, disconnected}
use copilot_sdk.CopilotClient.Status.{ping}
use copilot_sdk.CopilotClient.Connection.{
  World, Exec, then_do, start, try_start, after_try, after_spawn, after_port, start_cli_server,
  connect_via_stdio, after_connect, connect_port, connect_via_tcp, connect_to_server,
  verify_protocol_version, check_version, is_connected, same_int, sdk_protocol_version, process_set,
}
use copilot_sdk.CopilotClient.Connection.Starting.{Post, Post-then_do, verify-Post}
use copilot_sdk.CopilotClient.Connection.Stopping.{IsDown}

-- A CONNECTED client has an rpc client, a DISCONNECTED one has none, and a client that has none has
-- forgotten its sessions and its models.
pub record IsSound (c : Client) : Type 0 where
  pub linked : c.state ≡ connected → c.has_client ≡ true
  pub idle : c.state ≡ disconnected → c.has_client ≡ false
  pub forgotten : c.has_client ≡ false → (c.sessions ≡ []) × (c.models_cache ≡ none)

-- What `start` and all that it calls leave alone: the sessions and the models; the rpc client is not taken
-- away.
record Grows (a b : Client) : Type 0 where
  pub sessions : b.sessions ≡ a.sessions
  pub models : b.models_cache ≡ a.models_cache
  pub client : b.has_client ≡ false → a.has_client ≡ false

same :
    (a b : Client)
    → b.sessions ≡ a.sessions
    → b.models_cache ≡ a.models_cache
    → b.has_client ≡ a.has_client
    → Grows a b
same a b s m h = record { sessions = s; models = m; client = λ e. sym h ∙ e }

Grows-trans : (a b c : Client) → Grows a b → Grows b c → Grows a c
Grows-trans a b c g h = record {
  sessions = h.sessions ∙ g.sessions;
  models = h.models ∙ g.models;
  client = λ e. g.client (h.client e);
}

Grows-then_do :
    (a : Client) (r : Result (Unit {0}) × Client) (m : Exec)
    → Grows a r.1
    → ((c : Client) → Grows c (m c).1)
    → Grows a (then_do r m).1
Grows-then_do a (ok u, c) m g f = Grows-trans a c (m c).1 g (f c)
Grows-then_do a (err e, c) m g f = g

after_spawn-Grows : (r : Result (Unit {0})) (c : Client) → Grows c (after_spawn r c).1
after_spawn-Grows (err e) c = same c _ refl refl refl
after_spawn-Grows (ok u) c = same c _ refl refl refl

after_port-Grows : (r : Result ℕ) (c : Client) → Grows c (after_port r c).1
after_port-Grows (err e) c = same c _ refl refl refl
after_port-Grows (ok n) c = same c _ refl refl refl

abbrev AfterGrows : Client → Result (Unit {0}) × Client → Type 0
AfterGrows c r = Grows c r.1

start_cli_server-Grows : (w : World) (c : Client) → Grows c (start_cli_server w c).1
unfolding start_cli_server
start_cli_server-Grows w c =
    if_both (AfterGrows c) (w.exists c.options.cli_path)
      (Grows-then_do c (after_spawn _ c) _ (after_spawn-Grows _ c) λ z.
        if_both (AfterGrows z) z.options.use_stdio (same z z refl refl refl) (after_port-Grows _ z))
      (same c c refl refl refl)

after_connect-Grows : (r : Result (Unit {0})) (c : Client) → Grows c (after_connect r c).1
after_connect-Grows (err e) c = same c _ refl refl refl
after_connect-Grows (ok u) c = record { sessions = refl; models = refl; client = λ e. absurd (cc) }

connect_port-Grows : (w : World) (p : Option ℕ) (c : Client) → Grows c (connect_port w p c).1
connect_port-Grows w none c = same c _ refl refl refl
connect_port-Grows w (some zero) c = same c _ refl refl refl
connect_port-Grows w (some (suc n)) c = after_connect-Grows _ c

connect_to_server-Grows : (w : World) (c : Client) → Grows c (connect_to_server w c).1
unfolding connect_to_server connect_via_stdio connect_via_tcp
connect_to_server-Grows w c =
    if_both (AfterGrows c) c.options.use_stdio
      (if_both (AfterGrows c) (process_set c.process)
        (record { sessions = refl; models = refl; client = λ e. absurd (cc) })
        (same c c refl refl refl))
      (connect_port-Grows w c.actual_port c)

check_version-Grows : (r : Result ℤ) (c : Client) → Grows c (check_version r c).1
check_version-Grows (err e) c = same c c refl refl refl
check_version-Grows (ok v) c =
    if_both (AfterGrows c) (same_int v sdk_protocol_version) (same c c refl refl refl)
      (same c c refl refl refl)

verify_protocol_version-Grows : (w : World) (c : Client) → Grows c (verify_protocol_version w c).1
unfolding verify_protocol_version
verify_protocol_version-Grows w c =
    check_version-Grows (ping w.conversions w.request none c >>= λ r. ok r.protocol_version) c

try_start-Grows : (w : World) (c : Client) → Grows c (try_start w c).1
unfolding try_start
try_start-Grows w c =
    let linked =
      then_do (if c.is_external_server then (ok tt, c) else start_cli_server w c)
        (connect_to_server w) in
    Grows-then_do c linked (verify_protocol_version w)
      (Grows-then_do c (if c.is_external_server then (ok tt, c) else start_cli_server w c)
        (connect_to_server w)
        (if_both (AfterGrows c) c.is_external_server (same c c refl refl refl)
          (start_cli_server-Grows w c))
        (connect_to_server-Grows w))
      (verify_protocol_version-Grows w)

abbrev HasClient : Client → Type 0
HasClient c = c.has_client ≡ true

after_connect-HasClient : (r : Result (Unit {0})) (c : Client) → Post HasClient (after_connect r c)
after_connect-HasClient (err e) c = tt
after_connect-HasClient (ok u) c = refl

connect_port-HasClient :
    (w : World) (p : Option ℕ) (c : Client) → Post HasClient (connect_port w p c)
connect_port-HasClient w none c = tt
connect_port-HasClient w (some zero) c = tt
connect_port-HasClient w (some (suc n)) c = after_connect-HasClient _ c

connect_to_server-HasClient : (w : World) (c : Client) → Post HasClient (connect_to_server w c)
unfolding connect_to_server connect_via_stdio connect_via_tcp
connect_to_server-HasClient w c =
    if_both (Post HasClient) c.options.use_stdio
      (if_both (Post HasClient) (process_set c.process) refl tt)
      (connect_port-HasClient w c.actual_port c)

Post-any : (r : Result (Unit {0}) × Client) → Post (λ c. Unit {0}) r
Post-any (ok u, c) = tt
Post-any (err e, c) = tt

try_start-HasClient : (w : World) (c : Client) → Post HasClient (try_start w c)
unfolding try_start
try_start-HasClient w c =
    Post-then_do HasClient HasClient _ _
      (Post-then_do (λ z. Unit {0}) HasClient
        (if c.is_external_server then (ok tt, c) else start_cli_server w c) (connect_to_server w)
        (Post-any _) (λ z _. connect_to_server-HasClient w z))
      (λ z h. verify-Post HasClient w z h)

still_forgotten :
    (a b : Client)
    → Grows a b
    → IsSound a
    → b.has_client ≡ false
    → (b.sessions ≡ []) × (b.models_cache ≡ none)
still_forgotten a b g s e =
    let (no_sessions, no_models) = s.forgotten (g.client e) in
    (g.sessions ∙ no_sessions, g.models ∙ no_models)

after_try-IsSound :
    (w : World) (a : Client) (r : Result (Unit {0}) × Client)
    → IsSound a
    → Grows a r.1
    → Post HasClient r
    → IsSound (after_try w r).1
after_try-IsSound w a (ok u, z) s g h = record {
  linked = λ e. h;
  idle = λ e. absurd (cc);
  forgotten = still_forgotten a z g s;
}
after_try-IsSound w a (err e, z) s g h = record {
  linked = λ e. absurd (cc);
  idle = λ e. absurd (cc);
  forgotten = still_forgotten a z g s;
}

-- `start` keeps a client sound, whether it raises or not.
pub start-IsSound : (w : World) (c : Client) → IsSound c → IsSound (start w c).1
unfolding start
start-IsSound w c s =
    if_both (λ (r : Result (Unit {0}) × Client). IsSound r.1) (is_connected c.state) s
      (after_try-IsSound w (record c { state = connecting })
        (try_start w (record c { state = connecting }))
        (record { linked = λ e. absurd (cc); idle = λ e. absurd (cc); forgotten = s.forgotten })
        (try_start-Grows w (record c { state = connecting }))
        (try_start-HasClient w (record c { state = connecting })))

pub down-IsSound : (c : Client) → IsDown c → IsSound c
down-IsSound c d = record {
  linked = λ e. absurd (cc (e, d.state));
  idle = λ e. d.client;
  forgotten = λ e. (d.sessions, d.models);
}
