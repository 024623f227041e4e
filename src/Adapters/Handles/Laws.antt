-- ===== src/Adapters/Handles/Laws.antt =====
-- What `extractSupportedHandles` of src/tool-adapters.ts finds: each handle once, and none missed.
use pi_ptc_advanced.Common.Distinct.{AreDistinct, includes-append, snoc-AreDistinct}
use pi_ptc_advanced.Common.{
  if◌then◌else◌, Bool-cases, Text, lit, ◌==◌, eq_iff, trim, is_empty, includes, add, includes-add,
  ◌≡◌, refl, inl, inr, true, false, ◌||◌, Option, none, some, List, [], ◌∷◌, ◌++◌, map, arith,
}
use pi_ptc_advanced.Json.{
  Value, Items, Fields, undefined, null, boolean, number, string, array, object, nil, cons, end,
  field, as_string, prop,
}
use pi_ptc_advanced.Adapters.Handles.{
  SupportedHandle, response, file, Collected, key_of, push_response_handle, push_file_handle,
  push_where, push_own_handles, collect_supported_handles, collect_from_items, collect_from_fields,
  extract_supported_handles, handle_capable_tools,
}

abbrev pub keys_of : List SupportedHandle → List Text
keys_of hs = map key_of hs

-- The keys that a text mentions under a kind of handle.
pub mentioned : Text → Text → List Text
mentioned kind s = if is_empty (trim s) then [] else (kind ++ trim s) ∷ []

text_mentions : Text → Option Text → List Text
unfolding mentioned
text_mentions kind none = []
text_mentions kind (some s) = mentioned kind s

module _ {N : Type 0} where
  own_mentions : Fields N → List Text
  unfolding text_mentions
  own_mentions fs =
      text_mentions (lit "response:") (as_string (prop fs (lit "responseId")))
      ++ text_mentions (lit "file:") (as_string (prop fs (lit "filePath")))

  -- Every key that a value mentions, wherever it stands in the value.
  mutual
    unfolding own_mentions

    pub mentions : Value N → List Text
    mentions (array items) = mentions_of_items items
    mentions (object fs) = own_mentions fs ++ mentions_of_fields fs
    mentions undefined = []
    mentions null = []
    mentions (boolean b) = []
    mentions (number n) = []
    mentions (string s) = []

    mentions_of_items : Items N → List Text
    mentions_of_items nil = []
    mentions_of_items (cons v items) = mentions v ++ mentions_of_items items

    mentions_of_fields : Fields N → List Text
    mentions_of_fields end = []
    mentions_of_fields (field k v fs) = mentions v ++ mentions_of_fields fs

-- What is collected is distinct, and `seen` holds just its keys.
record IsCollected (c : Collected) : Type 0 where
  distinct : AreDistinct (keys_of c.handles)
  seen_keys : (k : Text) → includes c.seen k ≡ includes (keys_of c.handles) k

-- A step from `c` to `d` that collects what `ks` mentions.
record Collects (c : Collected) (ks : List Text) (d : Collected) : Type 0 where
  collected : IsCollected c → IsCollected d
  grown :
      IsCollected c
      → (k : Text)
      → includes (keys_of d.handles) k ≡ (includes (keys_of c.handles) k || includes ks k)

Collects-none : (c : Collected) → Collects c [] c
unfolding includes
Collects-none c = record { collected = λ i. i; grown = λ i k. ground arith }

Collects-trans :
    (c d e : Collected) (ks ls : List Text)
    → Collects c ks d
    → Collects d ls e
    → Collects c (ks ++ ls) e
Collects-trans c d e ks ls p q = record {
  collected = λ i. q.collected (p.collected i);
  grown = λ i k. ground (arith, p.grown i k, q.grown (p.collected i) k, includes-append ks ls k);
}

map-snoc {ℓ κ} :
    {A : Type ℓ} {B : Type κ} (f : A → B) (xs : List A) (x : A)
    → map f (xs ++ x ∷ []) ≡ map f xs ++ f x ∷ []
map-snoc f [] x = refl
map-snoc f (y ∷ ys) x = rw (map-snoc f ys x) refl

includes_one : (x k : Text) → includes (x ∷ []) k ≡ (x == k)
unfolding includes
includes_one x k = ground arith

-- Pushing a new handle.
push-Collects :
    (c : Collected) (h : SupportedHandle)
    → includes c.seen (key_of h) ≡ false
    → Collects c
        (key_of h ∷ [])
        (record { handles = c.handles ++ h ∷ []; seen = add c.seen (key_of h) })
push-Collects c h fresh = record {
  collected = λ i. record {
    distinct =
        rw (map-snoc key_of c.handles h)
          (snoc-AreDistinct _ _ (ground (arith, i.seen_keys (key_of h))) i.distinct);
    seen_keys = λ k. rw (map-snoc key_of c.handles h) (
        ground (
          arith,
          includes-add c.seen (key_of h) k,
          includes-append (keys_of c.handles) (key_of h ∷ []) k,
          includes_one (key_of h) k,
          i.seen_keys k,
        ));
  };
  grown = λ i k.
      rw (map-snoc key_of c.handles h) (includes-append (keys_of c.handles) (key_of h ∷ []) k);
}

repeat-Collects :
    (c : Collected) (key : Text) → includes c.seen key ≡ true → Collects c (key ∷ []) c
repeat-Collects c key known = record {
  collected = λ i. i;
  grown = λ i k.
      ground (arith, i.seen_keys k, i.seen_keys key, includes_one key k, eq_iff key k, known_as k);
}
  where
    known_as : (k : Text) → key ≡ k → includes c.seen k ≡ true
    known_as k e = rw (← e) known

response-Collects :
    (c : Collected) (s : Text)
    → Collects c (mentioned (lit "response:") s) (push_response_handle c s)
unfolding push_response_handle mentioned key_of
response-Collects c s = elim (Bool-cases (is_empty (trim s))) [
  | inl blank ↦ rw blank (Collects-none c)
  | inr words ↦ rw words (elim (Bool-cases (includes c.seen (key_of (response (trim s))))) [
    | inl known ↦ rw known (repeat-Collects c _ known)
    | inr fresh ↦ rw fresh (push-Collects c (response (trim s)) fresh)
  ])
]

file-Collects :
    (c : Collected) (s : Text) → Collects c (mentioned (lit "file:") s) (push_file_handle c s)
unfolding push_file_handle mentioned key_of
file-Collects c s = elim (Bool-cases (is_empty (trim s))) [
  | inl blank ↦ rw blank (Collects-none c)
  | inr words ↦ rw words (elim (Bool-cases (includes c.seen (key_of (file (trim s))))) [
    | inl known ↦ rw known (repeat-Collects c _ known)
    | inr fresh ↦ rw fresh (push-Collects c (file (trim s)) fresh)
  ])
]

where-Collects :
    (kind : Text) (push : Collected → Text → Collected)
    → ((c : Collected) (s : Text) → Collects c (mentioned kind s) (push c s))
    → (c : Collected) (given : Option Text)
    → Collects c (text_mentions kind given) (push_where push c given)
unfolding text_mentions push_where
where-Collects kind push collects c none = Collects-none c
where-Collects kind push collects c (some s) = collects c s

module _ {N : Type 0} where
  own-Collects :
      (fs : Fields N) (c : Collected) → Collects c (own_mentions fs) (push_own_handles fs c)
  unfolding own_mentions push_own_handles
  own-Collects fs c =
      let middle = push_where push_response_handle c (as_string (prop fs (lit "responseId"))) in
      Collects-trans c middle _ _ _
        (where-Collects (lit "response:") push_response_handle response-Collects c _)
        (where-Collects (lit "file:") push_file_handle file-Collects middle _)

  mutual
    unfolding mentions collect_supported_handles

    value-Collects :
        (v : Value N) (c : Collected) → Collects c (mentions v) (collect_supported_handles v c)
    value-Collects (array items) c = items-Collects items c
    value-Collects (object fs) c =
        Collects-trans c (push_own_handles fs c) _ (own_mentions fs) (mentions_of_fields fs)
          (own-Collects fs c) (fields-Collects fs (push_own_handles fs c))
    value-Collects undefined c = Collects-none c
    value-Collects null c = Collects-none c
    value-Collects (boolean b) c = Collects-none c
    value-Collects (number n) c = Collects-none c
    value-Collects (string s) c = Collects-none c

    items-Collects :
        (items : Items N) (c : Collected)
        → Collects c (mentions_of_items items) (collect_from_items items c)
    items-Collects nil c = Collects-none c
    items-Collects (cons v items) c =
        Collects-trans c (collect_supported_handles v c) _ (mentions v) (mentions_of_items items)
          (value-Collects v c) (items-Collects items (collect_supported_handles v c))

    fields-Collects :
        (fs : Fields N) (c : Collected)
        → Collects c (mentions_of_fields fs) (collect_from_fields fs c)
    fields-Collects end c = Collects-none c
    fields-Collects (field k v fs) c =
        Collects-trans c (collect_supported_handles v c) _ (mentions v) (mentions_of_fields fs)
          (value-Collects v c) (fields-Collects fs (collect_supported_handles v c))

  -- For a tool that gives handles, the handles found in a value are distinct, and they are just
  -- the response identifiers and file paths, trimmed and not blank, that the value mentions at any
  -- depth.
  pub extract_supported_handles_complete :
      (tool_name : Text) (v : Value N)
      → includes handle_capable_tools tool_name ≡ true
      → AreDistinct (keys_of (extract_supported_handles tool_name v))
        × ((k : Text)
            → includes (keys_of (extract_supported_handles tool_name v)) k
              ≡ includes (mentions v) k)
  unfolding extract_supported_handles includes
  extract_supported_handles_complete tool_name v capable =
      let all = value-Collects v (record { handles = []; seen = [] }) in
      rw capable ((all.collected empty).distinct, λ k. ground (arith, all.grown empty k, nothing k))
    where
      nothing : (k : Text) → includes [] k ≡ false
      nothing k = refl

      empty : IsCollected (record { handles = []; seen = [] })
      empty = record { distinct = tt; seen_keys = λ k. refl }
