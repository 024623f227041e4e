-- ===== src/Adapters/Handles.antt =====
-- `extractSupportedHandles` of src/tool-adapters.ts: the handles that a normalised value mentions.
pub mod Laws
use pi_ptc_advanced.Common.{
  if◌then◌else◌, Text, lit, trim, is_empty, includes, add, not, Option, none, some, List, [], ◌∷◌,
  ◌++◌,
}
use pi_ptc_advanced.Json.{
  Value, Items, Fields, undefined, null, boolean, number, string, array, object, nil, cons, end,
  field, as_string, prop,
}

pub data SupportedHandle : Type 0 where
  response file : Text → SupportedHandle

abbrev pub handle_capable_tools : List Text
handle_capable_tools =
    lit "web_search" ∷ lit "fetch_content" ∷ lit "get_search_content" ∷ lit "code_search" ∷ []

-- The handles pushed so far and the keys in `seen`.
pub record Collected : Type 0 where
  pub handles : List SupportedHandle
  pub seen : List Text

unfoldable pub key_of : SupportedHandle → Text
key_of (response id) = lit "response:" ++ id
key_of (file path) = lit "file:" ++ path

unfoldable pub push_response_handle : Collected → Text → Collected
unfolding key_of
push_response_handle c response_id =
    let normalized = trim response_id in
    let key = lit "response:" ++ normalized in
    if is_empty normalized
    then c
    else if includes c.seen key
    then c
    else record { handles = c.handles ++ response normalized ∷ []; seen = add c.seen key }

unfoldable pub push_file_handle : Collected → Text → Collected
unfolding key_of
push_file_handle c file_path =
    let normalized = trim file_path in
    let key = lit "file:" ++ normalized in
    if is_empty normalized
    then c
    else if includes c.seen key
    then c
    else record { handles = c.handles ++ file normalized ∷ []; seen = add c.seen key }

-- `if (typeof value === "string") push(value)`
unfoldable pub push_where : (Collected → Text → Collected) → Collected → Option Text → Collected
push_where push c none = c
push_where push c (some s) = push c s

module _ {N : Type 0} where
  unfoldable pub push_own_handles : Fields N → Collected → Collected
  unfolding push_response_handle push_file_handle push_where
  push_own_handles fs c =
      push_where push_file_handle
        (push_where push_response_handle c (as_string (prop fs (lit "responseId"))))
        (as_string (prop fs (lit "filePath")))

  unfoldable mutual
    unfolding push_own_handles

    pub collect_supported_handles : Value N → Collected → Collected
    collect_supported_handles (array items) c = collect_from_items items c
    collect_supported_handles (object fs) c = collect_from_fields fs (push_own_handles fs c)
    collect_supported_handles undefined c = c
    collect_supported_handles null c = c
    collect_supported_handles (boolean b) c = c
    collect_supported_handles (number n) c = c
    collect_supported_handles (string s) c = c

    pub collect_from_items : Items N → Collected → Collected
    collect_from_items nil c = c
    collect_from_items (cons v items) c = collect_from_items items (collect_supported_handles v c)

    pub collect_from_fields : Fields N → Collected → Collected
    collect_from_fields end c = c
    collect_from_fields (field k v fs) c = collect_from_fields fs (collect_supported_handles v c)

  unfoldable pub extract_supported_handles : Text → Value N → List SupportedHandle
  unfolding collect_supported_handles
  extract_supported_handles tool_name v =
      if not (includes handle_capable_tools tool_name)
      then []
      else (collect_supported_handles v (record { handles = []; seen = [] })).handles
