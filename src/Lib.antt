-- ===== src/Lib.antt =====
-- The Python SDK of the Copilot CLI (python/copilot): how an application talks to the CLI, which runs as
-- a process of its own or behind a socket.
--
-- The parts and how they interact. `JsonRpcClient` (python/copilot/jsonrpc.py) frames JSON messages on a
-- pipe. A thread reads them; answers settle the futures of our requests, requests and notifications of
-- the CLI go to handlers on the event loop. `CopilotSession` (python/copilot/session.py) holds the
-- handlers of one conversation. `CopilotClient` (python/copilot/client.py) starts and stops the CLI,
-- creates and resumes sessions, keeps them by id, and routes the requests of the CLI to them. The answers
-- of the CLI are classes of python/copilot/types.py, and its events and typed calls are generated classes
-- (python/copilot/generated). `define_tool` (python/copilot/tools.py) makes a tool from a function.
--
-- The files. Prelude holds tests, lists on native numbers, dicts as association lists in insertion order,
-- and exceptions as results. Value is JSON as Python holds it, Text is `str` as a list of code points.
--   Wire: how a class is read by `obj.get` and written by assignments to a dict; Wire/Convert has the
--     helpers of the generated files (`from_str`, `from_union`, `from_list` and so on) with their laws.
--   Types: the response, model and session classes of python/copilot/types.py.
--   Generated: every class of python/copilot/generated/rpc.py (Rpc, with the typed calls in Rpc/Api) and
--     of python/copilot/generated/session_events.py (SessionEvents). A class C has C_from_dict and
--     C_to_dict, an enumeration its lookup by value.
--   JsonRpc/Framing: `_send_message`, `_read_message`, `_read_exact`. The pipe is the list of the chunks
--     in which bytes arrive; a read may return fewer bytes than asked for.
--   JsonRpc/Client: `JsonRpcClient`. A future is its place in a list, a handler is a number; what is put
--     on the event loop is a queue of callbacks. Client/Step has the reading thread, the callers and the
--     event loop as steps that come in any order.
--   Session and its children: `CopilotSession`.
--   CopilotClient: Options (`__init__`), Url (`_parse_cli_url`), Command (the command line, the
--     environment and the announced port of `_start_cli_server`), Connection (`start`, `stop`,
--     `force_stop`), Payload and Sessions (`create_session`, `resume_session`), Serving (the handlers of
--     the CLI's requests), Lifecycle (`on`, notifications), Status (`ping`, `get_status`,
--     `get_auth_status`), Queries (`list_models` and others), Runs (all these one after the other).
--   Tools: `define_tool` with its signature detection and its handler, and `_normalize_result`.
--
-- Outside code is a parameter: json, UTF-8 and Unicode tables (Codec, Unicode), the handlers of the
-- application (Call, Calls, ToolCall, LifecycleCalls), the transport (Transport), the machine, the
-- process, the network and the server (World, Machine, Request), Python's conversions of values of other
-- types (Conversions, Numbers), dates and UUIDs (SessionEvents.Library), and pydantic (Tools.Library). The
-- operations that parse events take the parser as an argument, as they depend on nothing of it. A call of
-- an application's handler is taken as one step: what it awaits does not interleave with the operation
-- that calls it.
--
-- The text of an exception is shortened where the source only quotes values or gives advice.
--
-- A client counts the CLI processes that it has spawned and not ended, and the connections that it has
-- opened and not closed, whether a field leads to them or not: a second start puts a new process in the
-- place of the first. The socket object of a connection is closed by `stop`, but the connection is open as
-- long as the reading thread holds the file made of it, which is a fact of the World.
--
-- Bounds and fuel. Python's integers are unbounded, and so are these. `_read_exact` runs on one round of
-- fuel for each byte that is asked for; a read that gets no byte ends it, so this is enough, and the
-- results on it show so. The loop of the reading thread runs on fuel; one round more than the stream has
-- bytes is enough.
--
-- Not modelled: the accessors `rpc` (the objects that they make only store what the typed calls take as
-- arguments), the thread that collects stderr (its text is a parameter), the locks, which guard operations
-- that are single steps here, a function behind `define_tool` that returns a `ToolResult` with values that
-- JSON does not have, and the example agents and test programs of the repository.
pub mod Prelude
pub mod Value
pub mod Text
pub mod Wire
pub mod Types
pub mod Generated
pub mod JsonRpc
pub mod Session
pub mod CopilotClient
pub mod Tools
