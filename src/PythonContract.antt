-- ===== src/PythonContract.antt =====
-- src/tools/python-tool-contract.ts: what the registry and the generated Python code know of a tool
-- by its name, and the names of the Python helpers.
pub mod Names
use pi_ptc_advanced.Common.{
  Bool, true, false, not, ◌&&◌, Option, none, some, get_or, List, [], ◌∷◌, ◌++◌, Text, lit, ◌==◌,
  truthy, includes, String, if◌then◌else◌, Result, ok, err,
}
use pi_ptc_advanced.Common.Map
use pi_ptc_advanced.Common.Map.{Map}
use pi_ptc_advanced.Tools.{PtcToolOptions, Host, ToolInfo}

pub record BuiltinToolContract : Type 0 where
  pub is_read_only : Bool
  pub python_return_type : Text
  pub helper_signature : Option Text

plain : Bool → String → BuiltinToolContract
plain is_read_only returns = record {
  is_read_only = is_read_only;
  python_return_type = lit returns;
  helper_signature = none;
}

with_signature : String → String → BuiltinToolContract
with_signature returns signature = record {
  is_read_only = true;
  python_return_type = lit returns;
  helper_signature = some (lit signature);
}

builtin_tool_contracts : Map BuiltinToolContract
unfolding plain with_signature
builtin_tool_contracts =
    (
      lit "read",
      with_signature "Union[str, ReadResult]"
          "read(path: str, *, offset: Optional[int] = None, limit: Optional[int] = None, symbol: Optional[str] = None, map: Optional[bool] = None) -> Union[str, ReadResult]",
    )
    ∷ (
      lit "sg",
      with_signature "SgResult"
          "sg(pattern: str, *, lang: Optional[str] = None, path: Optional[str] = None) -> SgResult",
    )
    ∷ (lit "find", plain true "List[str]")
    ∷ (lit "glob", plain true "List[str]")
    ∷ (lit "grep", plain true "Union[List[GrepMatch], GrepResult]")
    ∷ (lit "ls", plain true "List[str]")
    ∷ (lit "bash", plain false "BashResult")
    ∷ (lit "edit", plain false "AnchoredEditResult")
    ∷ (lit "write", plain false "WriteResult")
    ∷ []

reserved_python_helper_names : List Text
reserved_python_helper_names =
    lit "ptc"
    ∷ lit "_rpc_call"
    ∷ lit "_ptc_drop_none"
    ∷ lit "read"
    ∷ lit "find"
    ∷ lit "glob"
    ∷ lit "grep"
    ∷ lit "sg"
    ∷ lit "ls"
    ∷ lit "bash"
    ∷ lit "edit"
    ∷ lit "write"
    ∷ []

-- A key that only `Object.prototype` has gives a contract without any of the fields, which the
-- callers read like no contract.
unfoldable pub get_builtin_tool_contract : Text → Option BuiltinToolContract
unfolding builtin_tool_contracts
get_builtin_tool_contract tool_name = Map.get builtin_tool_contracts tool_name

builtin_read_only : Option BuiltinToolContract → Bool
builtin_read_only none = false
builtin_read_only (some c) = c.is_read_only

declared_read_only : Option PtcToolOptions → Option Bool
declared_read_only none = none
declared_read_only (some ptc) = ptc.read_only

-- The field `isReadOnly` of the result.
unfoldable pub classify_builtin_tool : Text → Option PtcToolOptions → Bool
unfolding builtin_read_only declared_read_only
classify_builtin_tool tool_name ptc =
    get_or (declared_read_only ptc) (builtin_read_only (get_builtin_tool_contract tool_name))

python_name_of : Option PtcToolOptions → Option Text
python_name_of none = none
python_name_of (some ptc) = ptc.python_name

-- `a || b` of an optional and a plain string.
abbrev or_name : Option Text → Text → Text
or_name none b = b
or_name (some a) b = if truthy a then a else b

abbrev pub existing_tool : Option Text → Bool
existing_tool none = false
existing_tool (some name) = truthy name

duplicate_error : Text → Option Text → Text → Text
duplicate_error python_name existing name =
    lit "Duplicate Python helper name '"
    ++ (python_name
        ++ (lit "' for tools '" ++ (get_or existing [] ++ (lit "' and '" ++ (name ++ lit "'")))))

reserved_error : Text → Text → Text
reserved_error python_name name =
    lit "Python helper name '"
    ++ (python_name ++ (lit "' is reserved and cannot be used by tool '" ++ (name ++ lit "'")))

-- The test on `RESERVED_PYTHON_HELPER_NAMES`.
pub is_reserved_for_other : Text → Text → Bool
unfolding reserved_python_helper_names
is_reserved_for_other python_name name =
    includes reserved_python_helper_names python_name && not (python_name == name)

module _ {h : Host} where
  pub get_python_helper_name : ToolInfo h → Text
  unfolding python_name_of
  get_python_helper_name tool = or_name (python_name_of tool.ptc) tool.name

  unfoldable pub get_python_return_type : ToolInfo h → Text
  get_python_return_type tool = elim (get_builtin_tool_contract tool.name) [
    | none ↦ lit "Any"
    | some c ↦ c.python_return_type
  ]

  -- The loop of `validatePythonHelperNames`, with the tool that took each helper name.
  pub validate_names_from : Map Text → List (ToolInfo h) → Result (Unit {0})
  unfolding duplicate_error reserved_error
  validate_names_from seen [] = ok tt
  validate_names_from seen (tool ∷ tools) =
      let python_name = get_python_helper_name tool in
      let existing = Map.get seen python_name in
      let rest = validate_names_from (Map.set seen python_name tool.name) tools in
      if existing_tool existing
      then err (duplicate_error python_name existing tool.name)
      else if is_reserved_for_other python_name tool.name
      then err (reserved_error python_name tool.name)
      else rest

  unfoldable pub validate_python_helper_names : List (ToolInfo h) → Result (Unit {0})
  unfolding validate_names_from get_python_helper_name is_reserved_for_other
  validate_python_helper_names tools = validate_names_from [] tools
