-- ===== src/Session/Tools.antt =====
-- Custom tools of a session: `_register_tools` and `_get_tool_handler` of python/copilot/session.py.
use copilot_sdk.Prelude.{
  ℕ, String, ◌≡◌, refl, ap, ◌∙◌, Bool, true, false, not, ◌&&◌, Option, none, some, List, [], ◌∷◌,
  arith, Dict, lookup, insert, lookup-insert, lookup-nil, str_eq, eq_iff, if◌then◌else◌,
}
use copilot_sdk.Value.{Value}
use copilot_sdk.Session.{Session}

-- `Tool` of python/copilot/types.py
pub record Tool : Type 0 where
  pub name : String
  pub description : String
  pub parameters : Option Value
  pub handler : Option ℕ

-- One round of the loop: a tool with no name or no handler is skipped.
abbrev put_handler : String → Option ℕ → Dict ℕ → Dict ℕ
put_handler name none d = d
put_handler name (some h) d = if str_eq name "" then d else insert name h d

-- The loop of `_register_tools`
unfoldable pub register_each : List Tool → Dict ℕ → Dict ℕ
register_each [] d = d
register_each (t ∷ ts) d = register_each ts (put_handler t.name t.handler d)

abbrev pub tools_of : Option (List Tool) → List Tool
tools_of none = []
tools_of (some ts) = ts

-- `_register_tools`
unfoldable pub register_tools : Option (List Tool) → Session → Session
unfolding register_each
register_tools tools s = record s { tool_handlers = register_each (tools_of tools) [] }

-- `_get_tool_handler`
unfoldable pub get_tool_handler : String → Session → Option ℕ
get_tool_handler name s = lookup name s.tool_handlers

abbrev or_before : Option ℕ → Option ℕ → Option ℕ
or_before none h = h
or_before (some g) h = some g

abbrev handler_if_named : Bool → Option ℕ → Option ℕ
handler_if_named true h = h
handler_if_named false h = none

-- The handler of the last tool of the list that has the name, not empty, and a handler.
unfoldable pub last_handler : String → List Tool → Option ℕ
last_handler name [] = none
last_handler name (t ∷ ts) =
    or_before (last_handler name ts)
      (handler_if_named (str_eq t.name name && not (str_eq t.name "")) t.handler)

lookup-put_handler :
    (name k : String) (h : Option ℕ) (d : Dict ℕ)
    → lookup name (put_handler k h d)
      ≡ or_before (handler_if_named (str_eq k name && not (str_eq k "")) h) (lookup name d)
lookup-put_handler name k none d = ground arith
lookup-put_handler name k (some h) d = ground (arith, lookup-insert k name h d, eq_iff k name)

lookup-register_each :
    (name : String) (ts : List Tool) (d : Dict ℕ)
    → lookup name (register_each ts d) ≡ or_before (last_handler name ts) (lookup name d)
unfolding register_each last_handler
lookup-register_each name [] d = refl
lookup-register_each name (t ∷ ts) d =
    lookup-register_each name ts (put_handler t.name t.handler d)
    ∙ ground (arith, lookup-put_handler name t.name t.handler d)

or_before-none : (h : Option ℕ) → or_before h none ≡ h
or_before-none none = refl
or_before-none (some g) = refl

-- After `_register_tools` a name has the handler of the last tool that bears it and has a handler,
-- and what was registered before is gone, also when the list is empty or None.
pub get_tool_handler-register_tools :
    (name : String) (tools : Option (List Tool)) (s : Session)
    → get_tool_handler name (register_tools tools s) ≡ last_handler name (tools_of tools)
unfolding get_tool_handler register_tools
get_tool_handler-register_tools name tools s =
    lookup-register_each name (tools_of tools) []
    ∙ ap (or_before (last_handler name (tools_of tools))) (lookup-nil name)
    ∙ or_before-none (last_handler name (tools_of tools))
