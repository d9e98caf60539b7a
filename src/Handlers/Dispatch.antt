-- ===== src/Handlers/Dispatch.antt =====
-- JsonDebugger::HandleMessage up to the handler (src/debug/json_debugger.cpp), and the handlers that
-- its constructor enters.
use asyncflow.Handlers.{Request}
use asyncflow.Debug.{c_str}
use asyncflow.Debug.Sent.{Message, error_message}
use asyncflow.Base.{◌∷◌, [], if◌then◌else◌, String, Option, some, List, none, ℤ, find_name, negsuc}
use Prim.Native.String.{◌++◌ as str_append}

pub data Handler : Type 0 where
  get_chart_list_h debug_chart_h stop_chart_h quick_debug_h break_point_h continue_h gm_h hotfix_h :
      Handler

-- The map of the handlers.
unfoldable pub handlers : List (String × Handler)
handlers =
    ("get_chart_list", get_chart_list_h)
    ∷ ("debug_chart", debug_chart_h)
    ∷ ("stop_chart", stop_chart_h)
    ∷ ("quick_debug", quick_debug_h)
    ∷ ("break_point", break_point_h)
    ∷ ("continue", continue_h)
    ∷ ("gm", gm_h)
    ∷ ("hotfix", hotfix_h)
    ∷ []

-- What becomes of a request: nothing, an error, or a call of a handler with the id.
pub data Dispatch : Type 0 where
  ignored : Dispatch
  answered : Message → Dispatch
  handled : Handler → ℤ → Dispatch

-- `parse` is the parser's result; `none` is a document without a method, which is undefined.
unfoldable pub handle_message : Option Request → Option Dispatch
handle_message none = some ignored
handle_message (some r) =
    if r.has_jsonrpc
    then elim r.method [
      | none ↦ none
      | some method ↦
          let func_name = c_str method in
          elim (find_name func_name handlers) [
            | none ↦ some (
                answered (
                  error_message (negsuc 32600)
                    (str_append (str_append "method " func_name) " not find") r.id))
            | some h ↦ some (handled h r.id)
          ]
    ]
    else some ignored
