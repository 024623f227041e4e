-- ===== src/Adapters/Samples.antt =====
-- Results of nested calls.
use pi_ptc_advanced.Common.Distinct.{AreDistinct}
use pi_ptc_advanced.Common.{Text, lit, ◌==◌, includes, ℕ, ◌≡◌, refl}
use pi_ptc_advanced.Json.{Value, string, array, object, nil, cons, end, field}
use pi_ptc_advanced.Adapters.Handles.{extract_supported_handles}
use pi_ptc_advanced.Adapters.Handles.Laws.{keys_of, mentions, extract_supported_handles_complete}

session : Unit {0}
unfolding lit ◌==◌ includes
session = tt

abbrev search_result : Value ℕ
search_result = array (
    cons (object (field (lit "responseId") (string (lit " r1 ")) end))
      (cons (object (field (lit "responseId") (string (lit "r1")) end)) nil))

extract_supported_handles_complete_example :
    AreDistinct (keys_of (extract_supported_handles (lit "web_search") search_result))
    × ((k : Text)
        → includes (keys_of (extract_supported_handles (lit "web_search") search_result)) k
          ≡ includes (mentions search_result) k)
unfolding session
extract_supported_handles_complete_example =
    extract_supported_handles_complete (lit "web_search") search_result refl
