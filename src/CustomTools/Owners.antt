-- ===== src/CustomTools/Owners.antt =====
-- src/custom-tool-manager.ts: the names of the registry's tools beside the entries of `fileToTool`.
use pi_ptc_advanced.Common.Map
use pi_ptc_advanced.Common.{
  if◌then◌else◌, Bool-cases, Text, ◌==◌, eq_refl, eq_iff, truthy, ◌≡◌, refl, sym, ap, ◌∙◌, inl, inr,
  Bool, true, false, not, ◌&&◌, ◌||◌, Option, none, some, arith,
}
use pi_ptc_advanced.Common.Map.{Map}

-- Whether a file's tool, where it has one, has a name.
abbrev pub gives : Option Text → Text → Bool
gives none name = false
gives (some tool) name = tool == name

module _ {V : Type 0} where
  pub has-set :
      (m : Map V) (k j : Text) (v : V) → Map.has (Map.set m k v) j ≡ (k == j || Map.has m j)
  has-set m k j v = ground (arith, Map.get-set m k j v)

  pub has-delete :
      (m : Map V) (k j : Text) → Map.has (Map.delete m k) j ≡ (not (k == j) && Map.has m j)
  has-delete m k j = ground (arith, Map.get-delete m k j)

gives-set :
    (files : Map Text) (file name other : Text) (owner : Text)
    → gives (Map.get (Map.set files file name) owner) other
      ≡ (if file == owner then name == other else gives (Map.get files owner) other)
gives-set files file name other owner = ground (arith, Map.get-set files file owner name)

gives-delete :
    (files : Map Text) (file other : Text) (owner : Text)
    → gives (Map.get (Map.delete files file) owner) other
      ≡ (not (file == owner) && gives (Map.get files owner) other)
gives-delete files file other owner = ground (arith, Map.get-delete files file owner)

-- The entry of a file's former tool goes where the name is another one.
abbrev pub is_dropped : Option Text → Text → Text → Bool
is_dropped none name other = false
is_dropped (some previous) name other =
    truthy previous && not (previous == name) && previous == other

-- After a file's tool is replaced, only the new name is left of the file.
own_file :
    (found : Option Text) (name other : Text)
    → truthy other ≡ true
    → (name == other || (not (is_dropped found name other) && gives found other)) ≡ (name == other)
own_file none name other real = ground arith
own_file (some previous) name other real = elim (Bool-cases (previous == other)) [
  | inl same ↦
      let e : previous ≡ other = (eq_iff previous other).0 same in
      rw e (ground (arith, real, eq_refl other, eq_iff name other, eq_iff other name))
  | inr differs ↦ ground (arith, differs)
]

module _ (owner : Text → Text) where
  -- A file's tool has a name that the file owns.
  abbrev pub AreOwned : Map Text → Type 0
  AreOwned files = (file name : Text) → Map.get files file ≡ some name → owner name ≡ file

  -- A name that another file owns is not the one that this file gives.
  other_file :
      (found : Option Text) (file name other : Text)
      → ((given : Text) → found ≡ some given → owner given ≡ file)
      → file == owner other ≡ false
      → is_dropped found name other ≡ false
  other_file none file name other owned apart = refl
  other_file (some previous) file name other owned apart = elim (Bool-cases (previous == other)) [
    | inl same ↦
        let e : previous ≡ other = (eq_iff previous other).0 same in
        let owns : owner other ≡ file = rw (← e) (owned previous refl) in
        ground (arith, (eq_iff file (owner other)).1 (sym owns), apart)
    | inr differs ↦ ground (arith, differs)
  ]

  other_name :
      (file name other : Text)
      → owner name ≡ file
      → file == owner other ≡ false
      → name == other ≡ false
  other_name file name other owns apart = elim (Bool-cases (name == other)) [
    | inl same ↦
        let e : name ≡ other = (eq_iff name other).0 same in
        let owned : owner other ≡ file = rw (← e) owns in
        ground (arith, (eq_iff file (owner other)).1 (sym owned), apart)
    | inr differs ↦ differs
  ]

  put_has :
      (files : Map Text) (has : Bool) (file name other : Text)
      → AreOwned files
      → owner name ≡ file
      → truthy other ≡ true
      → has ≡ gives (Map.get files (owner other)) other
      → (name == other || (not (is_dropped (Map.get files file) name other) && has))
        ≡ gives (Map.get (Map.set files file name) (owner other)) other
  put_has files has file name other owned owns real same = elim (Bool-cases (file == owner other)) [
    | inl here ↦
        let e : file ≡ owner other = (eq_iff file (owner other)).0 here in
        let found : has ≡ gives (Map.get files file) other = rw e same in
        rw (gives-set files file name other (owner other), here, found)
          (own_file (Map.get files file) name other real)
    | inr apart ↦
        let kept = other_file (Map.get files file) file name other (owned file) apart in
        let fresh = other_name file name other owns apart in
        rw (gives-set files file name other (owner other), apart, kept, fresh) same
  ]

  put-AreOwned :
      (files : Map Text) (file name : Text)
      → AreOwned files
      → owner name ≡ file
      → AreOwned (Map.set files file name)
  put-AreOwned files file name owned owns f n e = elim (Bool-cases (file == f)) [
    | inl same ↦
        let here : file ≡ f = (eq_iff file f).0 same in
        let given : some name ≡ some n = rw (Map.get-set files file f name, same) at e in
        let name_given : name ≡ n = cc (given) in rw (← here, ← name_given) owns
    | inr other ↦ owned f n (rw (Map.get-set files file f name, other) at e)
  ]

  cut-AreOwned :
      (files : Map Text) (file : Text) → AreOwned files → AreOwned (Map.delete files file)
  cut-AreOwned files file owned f n e = elim (Bool-cases (file == f)) [
    | inl same ↦ cc (rw (Map.get-delete files file f, same) at e)
    | inr other ↦ owned f n (rw (Map.get-delete files file f, other) at e)
  ]

  cut_has :
      (files : Map Text) (has : Bool) (file name other : Text)
      → AreOwned files
      → Map.get files file ≡ some name
      → has ≡ gives (Map.get files (owner other)) other
      → (not (name == other) && has) ≡ gives (Map.get (Map.delete files file) (owner other)) other
  cut_has files has file name other owned given same = elim (Bool-cases (file == owner other)) [
    | inl here ↦
        let e : file ≡ owner other = (eq_iff file (owner other)).0 here in
        let file_gives = ap (Map.get files) (sym e) ∙ given in
        let found : has ≡ (name == other) = same ∙ ap (λ f. gives f other) file_gives in
        rw (gives-delete files file other (owner other), here, found) (ground arith)
    | inr apart ↦
        let fresh = other_name file name other (owned file name given) apart in
        rw (gives-delete files file other (owner other), apart, fresh) same
  ]

  -- The registry has the tool of a name exactly where the file that owns the name defines it.
  abbrev pub HoldsFiles : {V : Type 0} → Map Text → Map V → Type 0
  HoldsFiles files tools =
      ((name : Text)
        → truthy name ≡ true
        → Map.has tools name ≡ gives (Map.get files (owner name)) name)
      × AreOwned files

  pub put-HoldsFiles :
      {V : Type 0} (files next : Map Text) (tools later : Map V) (file name : Text)
      → next ≡ files
      → ((other : Text)
          → Map.has later other ≡ (
              name == other
              || (not (is_dropped (Map.get files file) name other) && Map.has tools other)))
      → owner name ≡ file
      → HoldsFiles files tools
      → HoldsFiles (Map.set next file name) later
  put-HoldsFiles files next tools later file name e has owns (same, owned) = rw e (
    λ other real.
        has other
        ∙ put_has files (Map.has tools other) file name other owned owns real (same other real),
    put-AreOwned files file name owned owns,
  )

  pub cut-HoldsFiles :
      {V : Type 0} (files : Map Text) (tools : Map V) (file name : Text)
      → Map.get files file ≡ some name
      → HoldsFiles files tools
      → HoldsFiles (Map.delete files file) (Map.delete tools name)
  cut-HoldsFiles files tools file name given (same, owned) = (
    λ other real.
        has-delete tools name other
        ∙ cut_has files (Map.has tools other) file name other owned given (same other real),
    cut-AreOwned files file owned,
  )
