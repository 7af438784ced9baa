-- ===== src/Tools/DefineTool/Answers.antt =====
-- What a tool made by `define_tool` answers, by itself and behind the client.
use copilot_sdk.Prelude.{
  ℕ, String, ◌≡◌, ◌≤◌, ◌+◌, refl, ap, ◌∙◌, subst, sym, Bool, true, false, Option, some, List, [],
  ◌∷◌, length, length-append, if_split, Result, ok, err, Returns, Returns-bind, Error, arith, ◌≢◌,
  if◌then◌else◌,
}
use copilot_sdk.Value.{
  Value, Fields, null, bool, int, float, str, arr, obj, get?, truthy, end, dict, of_dict,
}
use copilot_sdk.Session.{Session}
use copilot_sdk.Session.Waiting.{item}
use copilot_sdk.Session.Tools.{get_tool_handler}
use copilot_sdk.CopilotClient.State.{Client}
use copilot_sdk.CopilotClient.Serving.{
  ToolCall, Outcome, dataclass, plain, failure, hidden, handle_tool_call_request,
  normalize_tool_result,
}
use copilot_sdk.CopilotClient.Serving.Answers.{invocation_of, IsToolCall, tool_call-answered}
use copilot_sdk.Tools.{
  Python, json, object, Hint, no_hint, tool_invocation, other_hint, model, Library, pydantic_model,
  is_tool_result, success, serialized, normalize_result,
}
use copilot_sdk.Tools.DefineTool.{
  Argument, Function, Detected, validate, schema_of, or_first, detect, call_args, params_args,
  invocation_args, or_failure, attempt, wrapped_handler, DefinedTool, made, decorator, Definition,
  tool, decorates, define_tool,
}

abbrev IsToolResult : Value → Type 0
IsToolResult v = is_tool_result v ≡ true

success-IsToolResult : (text : String) → IsToolResult (success text)
unfolding is_tool_result get? of_dict
success-IsToolResult text = refl

serialized-IsToolResult : (r : Result String) → Returns IsToolResult (serialized r)
serialized-IsToolResult (ok text) = success-IsToolResult text
serialized-IsToolResult (err e) = tt

normalize_result-IsToolResult :
    (lib : Library) (r : Python lib.Object) → Returns IsToolResult (normalize_result lib r)
unfolding normalize_result
normalize_result-IsToolResult lib (json null) = success-IsToolResult ""
normalize_result-IsToolResult lib (json (str text)) = success-IsToolResult text
normalize_result-IsToolResult lib (json (obj fs)) =
    if_split (Returns IsToolResult) (is_tool_result (obj fs)) _ _ (λ e. e)
      (λ _. serialized-IsToolResult _)
normalize_result-IsToolResult lib (json (bool b)) = serialized-IsToolResult _
normalize_result-IsToolResult lib (json (int i)) = serialized-IsToolResult _
normalize_result-IsToolResult lib (json (float t)) = serialized-IsToolResult _
normalize_result-IsToolResult lib (json (arr xs)) = serialized-IsToolResult _
normalize_result-IsToolResult lib (object o) = serialized-IsToolResult _

module _ (lib : Library) where
  attempt-IsToolResult :
      (fn : Function lib) (d : Detected lib.Model) (invocation : Value)
      → Returns IsToolResult (attempt lib fn d invocation)
  unfolding attempt
  attempt-IsToolResult fn d invocation =
      Returns-bind IsToolResult (call_args lib d invocation) _ λ args _.
        Returns-bind IsToolResult (fn.call args) _
          λ result _. normalize_result-IsToolResult lib result

  or_failure-IsToolResult :
      (r : Result Value) → Returns IsToolResult r → IsToolResult (or_failure lib r)
  unfolding is_tool_result get? of_dict
  or_failure-IsToolResult (ok v) t = t
  or_failure-IsToolResult (err e) t = refl

  pub wrapped_handler-IsToolResult :
      (fn : Function lib) (d : Detected lib.Model) (invocation : Value)
      → IsToolResult (wrapped_handler lib fn d invocation)
  unfolding wrapped_handler
  wrapped_handler-IsToolResult fn d invocation =
      or_failure-IsToolResult _ (attempt-IsToolResult fn d invocation)

  abbrev HasLength : ℕ → List (Argument lib.Object) → Type 0
  HasLength n args = length args ≡ n

  params_args-HasLength :
      (ptype : Hint lib.Model) (invocation : Value)
      → Returns (HasLength 1) (params_args lib true ptype invocation)
  unfolding params_args
  params_args-HasLength ptype invocation =
      Returns-bind (HasLength 1) (item "arguments" invocation) _ λ given _.
        Returns-bind (HasLength 1)
          (validate lib (pydantic_model ptype) (if truthy given then given else obj end)) _
          λ a _. refl

  invocation_args-length :
      (i : Bool) (invocation : Value)
      → length (invocation_args lib i invocation) ≡ (if i then 1 else 0)
  invocation_args-length true invocation = refl
  invocation_args-length false invocation = refl

  passed :
      (p i : Bool) (n : ℕ) (ptype : Hint lib.Model) (invocation : Value)
      → (if p then 1 else 0) + (if i then 1 else 0) ≡ n
      → Returns (HasLength n) (
          call_args lib
            (record { takes_params = p; takes_invocation = i; ptype = ptype })
            invocation)
  unfolding call_args
  passed false false n ptype invocation e = unfold params_args in e
  passed false true n ptype invocation e = unfold params_args in e
  passed true i n ptype invocation e =
      Returns-bind (HasLength n) (params_args lib true ptype invocation) _ λ args r.
        length-append args (invocation_args lib i invocation)
        ∙ ap (λ k. k + length (invocation_args lib i invocation))
            (subst (Returns (HasLength 1)) r (params_args-HasLength ptype invocation))
        ∙ ap (λ k. 1 + k) (invocation_args-length i invocation)
        ∙ e

  -- A function of at most two parameters is called with as many arguments as it has parameters.
  pub call_args-length :
      (params_type : Hint lib.Model) (hints : List (Hint lib.Model)) (invocation : Value)
      → length hints ≤ 2
      → Returns
          (λ args. length args ≡ length hints)
          (call_args lib (detect params_type hints) invocation)
  unfolding call_args detect
  call_args-length params_type [] invocation few = passed false false 0 params_type invocation refl
  call_args-length params_type (tool_invocation ∷ []) invocation few =
      passed false true 1 params_type invocation refl
  call_args-length params_type (no_hint ∷ []) invocation few = passed true false 1 _ invocation refl
  call_args-length params_type (other_hint ∷ []) invocation few =
      passed true false 1 _ invocation refl
  call_args-length params_type (model m ∷ []) invocation few =
      passed true false 1 (or_first params_type (model m)) invocation refl
  call_args-length params_type (first ∷ second ∷ []) invocation few =
      passed true true 2 (or_first params_type first) invocation refl
  call_args-length params_type (first ∷ second ∷ third ∷ hints) invocation few =
      absurd (omega arith)

  -- The handler of the tool wraps the function, as its parameters were found to be.
  pub record IsMadeFrom (fn : Function lib) (params_type : Hint lib.Model) (t : DefinedTool lib)
      : Type 0 where
    pub hints : List (Hint lib.Model)
    pub found : fn.parameters ≡ ok hints
    pub wraps : t.handler ≡ wrapped_handler lib fn (detect params_type hints)

  decorator-IsMadeFrom :
      (name description : Option String) (params_type : Hint lib.Model) (fn : Function lib)
      → Returns (IsMadeFrom fn params_type) (decorator lib name description params_type fn)
  unfolding decorator made
  decorator-IsMadeFrom name description params_type fn =
      Returns-bind (IsMadeFrom fn params_type) fn.parameters _ λ hints e.
        Returns-bind (IsMadeFrom fn params_type)
          (schema_of lib (pydantic_model ((detect params_type hints).ptype)))
          (λ schema. ok (made lib name description fn (detect params_type hints) schema))
          λ schema _. record { hints = hints; found = e; wraps = refl }

  abbrev IsTool : (Function lib) → Hint lib.Model → Definition lib → Type 0
  IsTool fn params_type (tool t) = IsMadeFrom fn params_type t
  IsTool fn params_type (decorates f) = Unit

  define_tool-IsTool :
      (name : String) (description : Option String) (params_type : Hint lib.Model)
      (fn : Function lib)
      → Returns
          (IsTool fn params_type)
          (define_tool lib (some name) description (some fn) params_type)
  unfolding define_tool
  define_tool-IsTool name description params_type fn =
      Returns-bind (IsTool fn params_type) (decorator lib (some name) description params_type fn) _
        λ t e.
          subst (Returns (IsMadeFrom fn params_type)) e
            (decorator-IsMadeFrom (some name) description params_type fn)

  made-IsMadeFrom :
      (name : String) (description : Option String) (params_type : Hint lib.Model)
      (fn : Function lib) (t : DefinedTool lib)
      → define_tool lib (some name) description (some fn) params_type ≡ ok (tool t)
      → IsMadeFrom fn params_type t
  made-IsMadeFrom name description params_type fn t e =
      subst (Returns (IsTool fn params_type)) e (define_tool-IsTool name description params_type fn)

  abbrev found_hints : Result (List (Hint lib.Model)) → List (Hint lib.Model)
  found_hints (ok hints) = hints
  found_hints (err e) = []

  handler-wraps :
      (fn : Function lib) (params_type : Hint lib.Model) (t : DefinedTool lib)
      → IsMadeFrom fn params_type t
      → (hints : List (Hint lib.Model)) → fn.parameters ≡ ok hints
      → (invocation : Value)
      → t.handler invocation ≡ wrapped_handler lib fn (detect params_type hints) invocation
  handler-wraps fn params_type t m hints known invocation =
      ap (λ f. f invocation) m.wraps
      ∙ ap (λ r. wrapped_handler lib fn (detect params_type (found_hints r)) invocation)
          (sym m.found ∙ known)

  module _ (fn : Function lib) (d : Detected lib.Model) (invocation : Value) where
    wrapped_handler-ok :
        (v : Value) → attempt lib fn d invocation ≡ ok v → wrapped_handler lib fn d invocation ≡ v
    unfolding wrapped_handler
    wrapped_handler-ok v e = ap (or_failure lib) e

    wrapped_handler-err :
        (e : Error)
        → attempt lib fn d invocation ≡ err e
        → wrapped_handler lib fn d invocation ≡ failure hidden e.message
    unfolding wrapped_handler
    wrapped_handler-err e r = ap (or_failure lib) r

abbrev is_result : Outcome → Bool
unfolding is_tool_result
is_result (plain v) = is_tool_result v
is_result (dataclass fs) = false

not_none : (v : Value) → IsToolResult v → plain v ≢ plain null
unfolding is_tool_result is_result
not_none v t e = let none_is_result = sym t ∙ ap is_result e in cc

-- A tool that `define_tool` made from a function whose parameters can be inspected never raises behind the
-- client: when a session has its handler under the name of a valid call, the answer is always a
-- `ToolResult`. If reading the arguments, the function and `_normalize_result` succeed, it is the value that
-- they give; if one of them raises, it is a failure whose text for the model is the same for every
-- exception. A function of at most two parameters is called with as many arguments as it has parameters.
pub defined_tool-answered :
    (lib : Library) (name : String) (description : Option String) (params_type : Hint lib.Model)
    (fn : Function lib) (t : DefinedTool lib)
    → define_tool lib (some name) description (some fn) params_type ≡ ok (tool t)
    → (show_value : Value → String) (call : ToolCall) (params : Fields) (c : Client) (s : Session)
      (n : String) (h : ℕ)
    → IsToolCall params c s n
    → get_tool_handler n s ≡ some h
    → ((v : Value) → call h v ≡ ok (plain (t.handler v)))
    → (hints : List (Hint lib.Model)) → fn.parameters ≡ ok hints
    → (answer : Value) × (handle_tool_call_request show_value call params c
        ≡ ok (dict (("result", answer) ∷ [])))
      × (is_tool_result answer ≡ true)
      × ((v : Value)
          → attempt lib fn (detect params_type hints) (invocation_of params) ≡ ok v
          → answer ≡ v)
      × ((e : Error)
          → attempt lib fn (detect params_type hints) (invocation_of params) ≡ err e
          → answer ≡ failure hidden e.message)
      × (length hints ≤ 2
          → (args : List (Argument lib.Object))
          → call_args lib (detect params_type hints) (invocation_of params) ≡ ok args
          → length args ≡ length hints)
unfolding normalize_tool_result
defined_tool-answered lib name description params_type fn t defined show_value call params c s n h
      valid found runs hints known =
    let m = made-IsMadeFrom lib name description params_type fn t defined in
    let wraps = handler-wraps lib fn params_type t m hints known (invocation_of params) in
    let holds =
      subst IsToolResult (sym wraps)
        (wrapped_handler-IsToolResult lib fn (detect params_type hints) (invocation_of params)) in
    let (answer, answered, _, _, _, returned) =
      tool_call-answered show_value call params c s n valid in
    let same =
      returned h (plain (t.handler (invocation_of params))) found (runs (invocation_of params))
        (not_none (t.handler (invocation_of params)) holds) in
    (
      answer,
      answered,
      subst IsToolResult (sym same) holds,
      λ v e.
          same
          ∙ wraps
          ∙ wrapped_handler-ok lib fn (detect params_type hints) (invocation_of params) v e,
      λ e r.
          same
          ∙ wraps
          ∙ wrapped_handler-err lib fn (detect params_type hints) (invocation_of params) e r,
      λ few args e.
          subst (Returns (λ a. length a ≡ length hints)) e
            (call_args-length lib params_type hints (invocation_of params) few),
    )
