-- ===== src/Registry/State/Invariant.antt =====
-- ToolRegistry of src/tool-registry.ts: its maps stay keyed by the names of their tools.
use pi_ptc_advanced.Common.{◌≡◌, refl, Bool, true, false, Option, none, some, List, [], ◌∷◌, Text}
use pi_ptc_advanced.Common.Map
use pi_ptc_advanced.Common.Map.{Map}
use pi_ptc_advanced.Tools.{Host, ToolInfo}
use pi_ptc_advanced.Registry.State.{
  ToolRegistry, ExecutorPayload, empty_registry, ingest_payload, ingest_entry, ingest_entries,
  ingest_extension_executors, create, Change, upsert, remove, ingest, change, changes,
}

module _ {h : Host} where
  -- A tool stands under its own name. The registry never fills in the prompt metadata.
  abbrev pub IsEntry : Text → ToolInfo h → Type 0
  IsEntry k tool = (tool.name ≡ k) × (tool.prompt_snippet ≡ none) × (tool.prompt_guidelines ≡ none)

  -- Every tool stands under its own name, and no name stands twice.
  pub record IsKeyed (tools : Map (ToolInfo h)) : Type 0 where
    pub named : Map.AllEntries IsEntry tools
    pub distinct : Map.IsDistinct tools

  pub set-IsKeyed :
      (tools : Map (ToolInfo h)) (k : Text) (tool : ToolInfo h)
      → IsKeyed tools
      → IsEntry k tool
      → IsKeyed (Map.set tools k tool)
  set-IsKeyed tools k tool keyed e = record {
    named = Map.set-AllEntries _ tools k tool keyed.named e;
    distinct = Map.set-IsDistinct tools k tool keyed.distinct;
  }

  delete-IsKeyed :
      (tools : Map (ToolInfo h)) (k : Text) → IsKeyed tools → IsKeyed (Map.delete tools k)
  delete-IsKeyed tools k keyed = record {
    named = Map.delete-AllEntries _ tools k keyed.named;
    distinct = Map.delete-IsDistinct tools k keyed.distinct;
  }

  pub nil-IsKeyed : IsKeyed []
  nil-IsKeyed = record { named = tt; distinct = tt }

  ingest_payload-IsKeyed :
      (name : Option Text) (execute : Option h.Execute) (t : ExecutorPayload h)
      (tools : Map (ToolInfo h))
      → IsKeyed tools
      → IsKeyed (ingest_payload name execute t tools)
  unfolding ingest_payload
  ingest_payload-IsKeyed (some name) (some execute) t tools keyed =
      set-IsKeyed tools name _ keyed (refl, refl, refl)
  ingest_payload-IsKeyed _ none t tools keyed = keyed
  ingest_payload-IsKeyed none _ t tools keyed = keyed

  ingest_entries-IsKeyed :
      (entries : List (Option (ExecutorPayload h))) (tools : Map (ToolInfo h))
      → IsKeyed tools
      → IsKeyed (ingest_entries entries tools)
  unfolding ingest_entries ingest_entry
  ingest_entries-IsKeyed [] tools keyed = keyed
  ingest_entries-IsKeyed (none ∷ es) tools keyed = ingest_entries-IsKeyed es tools keyed
  ingest_entries-IsKeyed (some t ∷ es) tools keyed =
      ingest_entries-IsKeyed es (ingest_payload t.name t.execute t tools)
        (ingest_payload-IsKeyed t.name t.execute t tools keyed)

  pub record IsWellFormed (r : ToolRegistry h) : Type 0 where
    pub custom : IsKeyed r.custom_tools
    pub executors : IsKeyed r.extension_executors

  change-IsWellFormed :
      (c : Change h) (r : ToolRegistry h) → IsWellFormed r → IsWellFormed (change c r)
  unfolding change ingest_extension_executors
  change-IsWellFormed (upsert tool) r wf = record {
    custom = set-IsKeyed r.custom_tools tool.name _ wf.custom (refl, refl, refl);
    executors = wf.executors;
  }
  change-IsWellFormed (remove name) r wf = record {
    custom = delete-IsKeyed r.custom_tools name wf.custom;
    executors = wf.executors;
  }
  change-IsWellFormed (ingest none) r wf = wf
  change-IsWellFormed (ingest (some entries)) r wf = record {
    custom = wf.custom;
    executors = ingest_entries-IsKeyed entries r.extension_executors wf.executors;
  }

  pub changes-IsWellFormed :
      (cs : List (Change h)) (r : ToolRegistry h) → IsWellFormed r → IsWellFormed (changes cs r)
  unfolding changes
  changes-IsWellFormed [] r wf = wf
  changes-IsWellFormed (c ∷ cs) r wf =
      changes-IsWellFormed cs (change c r) (change-IsWellFormed c r wf)

  create-IsWellFormed :
      (pre_emitted : Option (Option (List (Option (ExecutorPayload h))))) (warned : Bool)
      → IsWellFormed (create pre_emitted warned).0
  unfolding create change
  create-IsWellFormed none true = record { custom = nil-IsKeyed; executors = nil-IsKeyed }
  create-IsWellFormed none false = record { custom = nil-IsKeyed; executors = nil-IsKeyed }
  create-IsWellFormed (some payload) warned =
      change-IsWellFormed (ingest payload) empty_registry
        (record { custom = nil-IsKeyed; executors = nil-IsKeyed })

  -- Whatever executors are there at the start, and whatever tools are registered, removed and emitted
  -- afterwards, in any order, each map of the registry holds every tool once, under its own name.
  pub registry-IsWellFormed :
      (pre_emitted : Option (Option (List (Option (ExecutorPayload h))))) (warned : Bool)
      (cs : List (Change h))
      → IsWellFormed (changes cs (create pre_emitted warned).0)
  registry-IsWellFormed pre_emitted warned cs =
      changes-IsWellFormed cs _ (create-IsWellFormed pre_emitted warned)
