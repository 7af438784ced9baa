-- ===== src/CopilotClient/Connection/Stopping.antt =====
-- What `stop` and `force_stop` end after a start.
use copilot_sdk.Prelude.{
  ℕ, suc, ◌≡◌, refl, ap, ◌∙◌, true, false, Option, none, [], if◌then◌else◌, if_split, if_false,
  Result, ok, err,
}
use copilot_sdk.CopilotClient.State.{
  Client, disconnected, connecting, Process, no_process, popen, socket,
}
use copilot_sdk.CopilotClient.Connection.{
  World, is_connected, one_less, end_process, start, stop, force_stop, shut_down,
}
use copilot_sdk.CopilotClient.Connection.Starting.{
  Post, OwnProcess, stdio-try, start-Post, connected-Linked,
}

-- What `stop` and `force_stop` leave of every client.
pub record IsDown (c : Client) : Type 0 where
  pub state : c.state ≡ disconnected
  pub client : c.has_client ≡ false
  pub sessions : c.sessions ≡ []
  pub models : c.models_cache ≡ none

-- The fields that are reset before the process is ended.
abbrev reset : Client → Client
reset c = record c { has_client = false; models_cache = none; sessions = [] }

end_process-IsDown :
    (w : World) (p : Process) (c : Client) (n : Option ℕ)
    → IsDown (record (end_process w p (reset c)) { state = disconnected; actual_port = n })
end_process-IsDown w no_process c n = record {
  state = refl;
  client = refl;
  sessions = refl;
  models = refl;
}
end_process-IsDown w popen c n = record {
  state = refl;
  client = refl;
  sessions = refl;
  models = refl;
}
end_process-IsDown w socket c n = record {
  state = refl;
  client = refl;
  sessions = refl;
  models = refl;
}

pub shut_down-IsDown : (w : World) (c : Client) → IsDown (shut_down w c)
unfolding shut_down
shut_down-IsDown w c =
    if_split
      (λ z. IsDown (record z {
        state = disconnected;
        actual_port = if c.is_external_server then c.actual_port else none;
      }))
      c.is_external_server _ _
      (λ _. record { state = refl; client = refl; sessions = refl; models = refl })
      (λ _. end_process-IsDown w c.process c _)

-- What is ended when the server is the client's own.
shut_down-own :
    {A : Type 0} (f : Process → ℕ → ℕ → A) (w : World) (p : Process) (c : Client)
    → c.is_external_server ≡ false
    → c.process ≡ p
    → (let z = shut_down w c in f z.process z.cli_processes z.connections)
      ≡ (let z = end_process w p (reset c) in f z.process z.cli_processes z.connections)
unfolding shut_down
shut_down-own f w p c x e =
    ap (λ (z : Client). f z.process z.cli_processes z.connections)
      (if_false _ _ x ∙ ap (λ q. end_process w q (reset c)) e)

Post-imp :
    (P Q : Client → Type 0) (r : Result (Unit {0}) × Client)
    → ((z : Client) → P z → Q z)
    → Post P r
    → Post Q r
Post-imp P Q (ok u, z) f h = f z h
Post-imp P Q (err e, z) f h = tt

-- When a client that talks over stdio to a CLI of its own has been started, from any state but
-- CONNECTED and without an exception, then `stop` and `force_stop` end one CLI process: as many are left
-- as there were before the start, none if there were none; but a CLI that an earlier start has left
-- behind goes on running, and no field of the client leads to it. The client is then DISCONNECTED, without
-- sessions, without an rpc client and without a cache of models.
pub stdio-start-stop :
    (w w' : World) (c : Client)
    → c.options.use_stdio ≡ true
    → c.is_external_server ≡ false
    → is_connected c.state ≡ false
    → Post
        (λ z.
          (z.cli_processes ≡ suc c.cli_processes)
          × ((stop w' z).1.cli_processes ≡ c.cli_processes)
          × ((force_stop w' z).cli_processes ≡ c.cli_processes)
          × ((stop w' z).1.process ≡ no_process)
          × ((force_stop w' z).process ≡ no_process)
          × IsDown (stop w' z).1
          × IsDown (force_stop w' z))
        (start w c)
unfolding stop force_stop
stdio-start-stop w w' c u x d =
    Post-imp (OwnProcess c false) _ (start w c)
      (λ z h.
        let n = shut_down-own (λ p r o. r) w' popen z h.kind h.process ∙ ap one_less h.running in
        let p = shut_down-own (λ p r o. p) w' popen z h.kind h.process in
        (h.running, n, n, p, p, shut_down-IsDown w' z, shut_down-IsDown w' z))
      (start-Post (OwnProcess c false) w c (connected-Linked popen _ _ false) d
        (stdio-try w (record c { state = connecting }) u x))
