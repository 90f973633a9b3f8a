-- ===== src/Rwa/Genesis/Round.antt =====
-- x/rwa/keeper/genesis.go: a chain that is exported and started again.
use vertix.Base.{◌⊎◌, ◌<◌, ◌≡◌, refl, sym, ◌∙◌, Bool, true, none, some, [], length, All, inl, inr}
use vertix.Base.Bytes.{Bytes}
use vertix.Base.Results.{Result, err, Result-cases, ok}
use vertix.Base.Sort.{All-map, All-sort_by, unsorted_sort}
use vertix.Base.Entries.{values, All-values, values-All, values-IsDistinct, sort_by-IsDistinct}
use vertix.Sdk.{Sdk, Bank, AddressLaws}
use vertix.Rwa.Types.{AssetRecord, min_issuer_bond_int}
use vertix.Rwa.Keeper.{State, get_asset, get_params, set_params}
use package.vertix.Rwa.Genesis.{
  GenesisError, seen_id, validate_genesis, init_genesis, all_assets, id_lt, export_genesis,
  export_restrictions,
}
use package.vertix.Rwa.Genesis.Records.{record_key, set_assets-Loaded, entries-IsKeyed}
use package.vertix.Rwa.Genesis.Validating.{
  none_seen, all_known, check_assets-passes, check_restrictions-passes,
}
use package.vertix.Rwa.Genesis.Passing.{HasBond, check_assets-Passed, set_assets-returns}
use package.vertix.Rwa.Genesis.Lists.{on_list, IsShort, add_restrictions-Joined}
use package.vertix.Rwa.Genesis.Lists.Written.{export_restrictions-Meets}
use package.vertix.Rwa.Genesis.Restoring.{
  Restored, HasBonds, IsExportable, validated, written, record_back, list_back, transfer_same,
}

-- A store with nothing of the module in it.
abbrev pub empty_store : Bank → State
empty_store b = record {
  params = none;
  assets = [];
  issuer_index = [];
  allowlist = [];
  denylist = [];
  bank = b;
  events = [];
}

ok-err {ℓ κ} :
    {E : Type ℓ} {A : Type κ} {a : A} {e : E} → (let r : Result E A = ok a in r) ≡ err e → ⊥
ok-err h = cc

module _ (sdk : Sdk) (laws : AddressLaws sdk) where
  -- An export that passes the validation starts again.
  valid_restarts :
      (s : State) (b : Bank)
      → IsExportable sdk s
      → validate_genesis sdk (export_genesis sdk s) ≡ ok tt
      → (t : State) × (init_genesis sdk (export_genesis sdk s) (empty_store b) ≡ ok t)
        × Restored sdk s t
        × (t.bank ≡ b)
  unfolding export_genesis init_genesis set_params
  valid_restarts s b x valid =
      let (p, seen, passed, listed) = validated sdk laws (export_genesis sdk s) valid in
      let short =
        All-map _ _ (written sdk laws s) (λ r q. q.0)
          (check_assets-Passed sdk (min_issuer_bond_int sdk (get_params sdk s)) [] seen
            (written sdk laws s) passed) in
      let t₁ : State = record (empty_store b) { params = some (get_params sdk s) } in
      let (t₂, run₂) =
        set_assets-returns sdk (written sdk laws s) t₁
          (All-sort_by _ id_lt (all_assets s.assets) (All-values _ s.assets x.indexed)) in
      let (t, run, j) =
        add_restrictions-Joined sdk seen (export_restrictions sdk s (written sdk laws s)) t₂
          (All-map _ IsShort (export_restrictions sdk s (written sdk laws s)) (λ r p. p.0)
            (export_restrictions-Meets sdk laws (λ id. length id < 256) s (written sdk laws s) short
              x.allowed x.denied))
          listed in
      let kept = set_assets-Loaded sdk (written sdk laws s) t₁ t₂ run₂ in
      let records : (id : Bytes) → get_asset id t ≡ get_asset id s =
        λ id. rw j.assets_kept (record_back sdk laws s t₁ t₂ id x.sound refl kept) in
      let lists : (deny : Bool) (id a : Bytes) (r : AssetRecord)
          → get_asset id s ≡ some r
          → on_list deny id a t ≡ on_list deny id a s =
        λ deny id a r. list_back sdk laws deny id a r s t₁ t₂ t x short refl refl kept j in
      (
        t,
        rw (valid, p) (rw run₂ run),
        record {
          params_same = rw (j.params_kept, kept.params_kept) refl;
          assets_same = records;
          lists_same = lists;
          transfers_same = λ id from to.
              transfer_same sdk laws s t id from to (records id)
                (λ r e deny a. lists deny id a r e);
        },
        rw j.bank_kept kept.bank_kept,
      )

  export_validates :
      (s : State)
      → IsExportable sdk s
      → All (HasBond sdk (min_issuer_bond_int sdk (get_params sdk s))) (values s.assets)
      → validate_genesis sdk (export_genesis sdk s) ≡ ok tt
  unfolding export_genesis validate_genesis
  export_validates s x bonds =
      let min = min_issuer_bond_int sdk (get_params sdk s) in
      let keyed = entries-IsKeyed sdk s.assets x.sound.entries in
      let (seen, run, known) =
        check_assets-passes sdk min [] (written sdk laws s)
          (All-sort_by _ id_lt (values s.assets) (All-values _ s.assets x.formed))
          (All-sort_by _ id_lt (values s.assets) bonds)
          (sort_by-IsDistinct record_key id_lt (values s.assets)
            (values-IsDistinct record_key s.assets x.sound.sorted keyed))
          (none_seen (written sdk laws s)) in
      let rs = export_restrictions sdk s (written sdk laws s) in
      let met =
        export_restrictions-Meets sdk laws (λ id. seen_id id seen ≡ true) s (written sdk laws s)
          (all_known seen (written sdk laws s) known) x.allowed x.denied in
      rw (x.params_valid, run) (check_restrictions-passes sdk seen rs met)

  bonds_of_valid :
      (s : State) → validate_genesis sdk (export_genesis sdk s) ≡ ok tt → HasBonds sdk s
  unfolding export_genesis
  bonds_of_valid s valid =
      let (p, seen, passed, listed) = validated sdk laws (export_genesis sdk s) valid in
      let min = min_issuer_bond_int sdk (get_params sdk s) in
      values-All _ s.assets (
        unsorted_sort _ id_lt (values s.assets) (
          All-map _ _ (written sdk laws s) (λ r q. q.1)
            (check_assets-Passed sdk min [] seen (written sdk laws s) passed)))

  -- A registry as IsExportable has it starts again from its own export exactly when no attested or
  -- active asset has less than the least bond. Where none has, InitGenesis succeeds on an empty
  -- store and any bank, which it does not touch; the parameters, every record, both lists of every
  -- registered asset and every answer of CheckTransferAllowed are then as before. Where one has,
  -- InitGenesis refuses the export.
  pub registry_restarts :
      (s : State) (b : Bank)
      → IsExportable sdk s
      → (HasBonds sdk s
          × (t : State) × (init_genesis sdk (export_genesis sdk s) (empty_store b) ≡ ok t)
          × Restored sdk s t
          × (t.bank ≡ b))
        ⊎ ((HasBonds sdk s → ⊥)
            × (e : GenesisError) × (init_genesis sdk (export_genesis sdk s) (empty_store b)
                ≡ err e))
  unfolding init_genesis
  registry_restarts s b x = elim (Result-cases (validate_genesis sdk (export_genesis sdk s))) [
    | inr (done, valid) ↦
        let (t, run, same, bank) = valid_restarts s b x valid in
        inl (bonds_of_valid s valid, t, run, same, bank)
    | inl (e, refuses) ↦ inr (
      λ bonds. ok-err (sym (export_validates s x (All-values _ s.assets bonds)) ∙ refuses),
      e,
      rw refuses refl,
    )
  ]
