-- ===== src/CustomTools/Polling.antt =====
-- src/custom-tool-manager.ts: one round of each loop of `scanForMissedChanges`.
use pi_ptc_advanced.Common.Map
use pi_ptc_advanced.Common.{
  if◌then◌else◌, Bool-cases, Result, keep, Text, ◌==◌, eq_iff, includes, ◌≡◌, refl, sym, ap, ◌∙◌,
  inl, inr, Bool, true, false, Option, none, some, is_some, List, [], ◌∷◌, arith,
}
use pi_ptc_advanced.Common.Map.{Map}
use mathlib.Core.Path.{subst}
use pi_ptc_advanced.Tools.{Host}
use pi_ptc_advanced.CustomTools.Loading.{Imported}
use pi_ptc_advanced.CustomTools.Manager.{
  Directory, CustomToolManager, refresh_file_signature, begin_reconcile,
}
use pi_ptc_advanced.CustomTools.Events.{same_signature, scan_present, scan_absent}
use pi_ptc_advanced.CustomTools.Synced.{
  defined, Leaves, Leaves-trans, refresh-Leaves, refresh-reads,
}
use pi_ptc_advanced.CustomTools.Reloads.{IsSynced, Leaves-IsSynced, begin-IsSynced}

same_signature-eq : (a b : Option Text) → same_signature a b ≡ true → a ≡ b
same_signature-eq none none e = refl
same_signature-eq (some a) (some b) e = ap some ((eq_iff a b).0 e)
same_signature-eq none (some b) e = cc
same_signature-eq (some a) none e = cc

pub includes-keys : (m : Map Text) (k : Text) → includes (Map.keys m) k ≡ is_some (Map.get m k)
unfolding includes Map.keys Map.get
includes-keys [] k = refl
includes-keys ((j, v) ∷ m) k = ground (arith, includes-keys m k)

pub includes-keep :
    (test : Text → Bool) (xs : List Text) (x : Text)
    → test x ≡ true
    → includes (keep test xs) x ≡ includes xs x
unfolding includes
includes-keep test [] x e = refl
includes-keep test (y ∷ xs) x e = ground (arith, includes-keep test xs x e, eq_iff y x)

-- A file is listed where it is on disk.
abbrev pub IsListed : Directory → List Text → Text → Type 0
IsListed dir present g = includes present g ≡ is_some (Map.get dir g)

pub not_listed : {V : Type 0} (found : Option V) → false ≡ is_some found → found ≡ none
not_listed none e = refl
not_listed (some x) e = cc

module _ {h : Host} where
  -- The manager knows the file by the signature that it has on disk.
  abbrev pub Settled : Directory → Text → CustomToolManager h → Type 0
  Settled dir file m = Map.get m.file_signatures file ≡ Map.get dir file

  pub Leaves-Settled :
      (dir : Directory) (file g : Text) (m n : CustomToolManager h)
      → Leaves file m n
      → (file == g ≡ true → Settled dir g n)
      → Settled dir g m
      → Settled dir g n
  Leaves-Settled dir file g m n k here settled = elim (Bool-cases (file == g)) [
    | inl same ↦ here same
    | inr apart ↦ k.signatures g apart ∙ settled
  ]

module _ {h : Host} (contents : Text → Text → Imported h)
    (changed : CustomToolManager h → Result (Unit {0})) (dir : Directory) where
  pub present-IsSynced :
      (file : Text) (m : CustomToolManager h)
      → IsSynced contents m
      → IsSynced contents (scan_present changed dir file m)
        × Leaves file m (scan_present changed dir file m)
        × Settled dir file (scan_present changed dir file m)
  unfolding scan_present
  present-IsSynced file m s =
      by_test (same_signature (Map.get m.file_signatures file) (Map.get next.file_signatures file))
        refl
    where
      next : CustomToolManager h
      next = refresh_file_signature dir file m

      Seen : CustomToolManager h → Type 0
      Seen n = IsSynced contents n × Leaves file m n × Settled dir file n

      by_test :
          (b : Bool)
          → same_signature
              (Map.get m.file_signatures file)
              (Map.get (refresh_file_signature dir file m).file_signatures file)
            ≡ b
          → Seen (
              if b
              then refresh_file_signature dir file m
              else begin_reconcile changed dir file (refresh_file_signature dir file m))
      by_test true e =
          let refreshed = refresh_file_signature dir file m in
          let (read, kept, waits) = refresh-reads dir file m in
          let same = same_signature-eq _ _ e in
          let leaves = refresh-Leaves dir file m in
          (
            Leaves-IsSynced contents file m refreshed leaves
                (λ idle.
                  ap (λ t. Map.get t file) kept
                  ∙ s.synced file (sym (ap (λ l. includes l file) waits) ∙ idle)
                  ∙ ap (defined contents file) same)
                (λ name given. s.named file name (sym (ap (λ t. Map.get t file) kept) ∙ given)) s,
            leaves,
            read,
          )
      by_test false e =
          let refreshed = refresh_file_signature dir file m in
          let (read, kept, waits) = refresh-reads dir file m in
          let (after, in_sync, named, settles, missing) =
            begin-IsSynced contents changed dir file refreshed
              (λ name given. s.named file name (sym (ap (λ t. Map.get t file) kept) ∙ given)) in
          let leaves = Leaves-trans file m refreshed _ (refresh-Leaves dir file m) after in
          (Leaves-IsSynced contents file m _ leaves in_sync named s, leaves, settles read)

  pub absent-IsSynced :
      (present : List Text) (file : Text) (m : CustomToolManager h)
      → IsSynced contents m
      → IsSynced contents (scan_absent changed dir present file m)
        × ((g : Text)
            → IsListed dir present g
            → Settled dir g m
            → Settled dir g (scan_absent changed dir present file m))
        × (includes present file ≡ false
            → IsListed dir present file
            → Settled dir file (scan_absent changed dir present file m))
  unfolding scan_absent
  absent-IsSynced present file m s = by_test (includes present file) refl
    where
      Seen : CustomToolManager h → Type 0
      Seen n =
          IsSynced contents n
          × ((g : Text) → IsListed dir present g → Settled dir g m → Settled dir g n)
          × (includes present file ≡ false → IsListed dir present file → Settled dir file n)

      by_test :
          (b : Bool)
          → includes present file ≡ b
          → Seen (
              if b
              then m
              else begin_reconcile changed dir file
                  (record m { file_signatures = Map.delete m.file_signatures file }))
      by_test true e = (s, λ g listed settled. settled, λ out. cc (sym e ∙ out))
      by_test false e =
          let cut : CustomToolManager h = record m {
            file_signatures = Map.delete m.file_signatures file;
          } in
          let cut_leaves : Leaves file m cut = record {
            files = λ g apart. refl;
            signatures = λ g apart. rw (Map.get-delete m.file_signatures file g, apart) refl;
            imports = λ g apart. refl;
            polls = refl;
          } in
          let (after, in_sync, named, settles, missing) =
            begin-IsSynced contents changed dir file cut (s.named file) in
          let leaves = Leaves-trans file m cut _ cut_leaves after in
          let settle_it : IsListed dir present file
              → Settled dir file (begin_reconcile changed dir file cut) =
            λ listed.
              (let gone = not_listed (Map.get dir file) (sym e ∙ listed) in
                missing gone ∙ sym gone) in
          (
            Leaves-IsSynced contents file m _ leaves in_sync named s,
            λ g listed. Leaves-Settled dir file g m _ leaves (λ same.
                let here = (eq_iff file g).0 same in
                subst (λ f. Settled dir f (begin_reconcile changed dir file cut)) here
                  (settle_it (subst (IsListed dir present) (sym here) listed))),
            λ out. settle_it,
          )
