-- ===== src/Strategies/Registering.antt =====
-- `register` adds a version under an id of its own.
use Prim.Native.String.{◌++◌ as str_append}
use text.Mathlib.TextLemmas.{append_cancel_left}
use trading_control.Prelude.{
  ℕ, ◌+◌, ◌≡◌, ◌≢◌, refl, sym, ap, ◌∙◌, true, false, Option, none, some, [], ◌∷◌, ◌++◌, String,
  Option-cases, inl, inr, arith, if◌then◌else◌, str_eq, Bool-cases,
}
use trading_control.Prelude.Dict.{get, put, get-put_same, get-put_other, put-Unique}
use trading_control.Prelude.Decimal.{text_of, text_of_inj}
use trading_control.Json.{Fields}
use trading_control.Strategies.{
  Status, proposed, Version, Entry, Registry, ok, version_id_of, lineage_of, by_version, moved,
  empty, register, set_status, status,
}
use trading_control.Strategies.Records.{IsEntry, Entries, is_ready, put-Entries, Stacked-put}
use trading_control.Strategies.Invariant.{IsValid, ready_on_stack}

-- The version number is read back from the id.
version_id_of_inj : (m n : ℕ) (s t : String) → version_id_of m s ≡ version_id_of n t → m ≡ n
unfolding version_id_of
version_id_of_inj m n s t h = text_of_inj m n s t (
    append_cancel_left "v" (str_append (text_of m) (str_append "-" s))
      (str_append (text_of n) (str_append "-" t)) h)

pub false-ne-true : false ≢ true
false-ne-true h = cc

module _ {W : Type 0} where
  abbrev pub Valid : Registry W → Type 0
  Valid r = IsValid r.next_version r.live_stack r.records

  pub empty-Valid : Valid empty
  unfolding get
  empty-Valid = record { entries = λ id e g. cc; stacked = tt; unique = tt }

  pub set_status-ok :
      (id : String) (st : Status) (now : W) (r : Registry W) (e : Entry W)
      → get id r.records ≡ some e
      → set_status id st now r ≡ ok (record r { records = put id (moved st now e) r.records })
  unfolding set_status
  set_status-ok id st now r e g = rw (g, set_status) refl

  -- The id of a new version is not in use.
  pub get-version_id_of :
      (r : Registry W) (hash : String)
      → Valid r
      → get (version_id_of r.next_version hash) r.records ≡ none
  get-version_id_of r hash v =
      let id = version_id_of r.next_version hash in
      elim (Option-cases (get id r.records)) [
        | inl free ↦ free
        | inr (e, taken) ↦
            let old = v.entries id e taken in
            let same =
              version_id_of_inj r.next_version e.strategy.version hash e.strategy.config_hash
                old.named in
            absurd (omega (arith, old.numbered))
      ]

  pub register-Valid :
      (hash : Fields W → String) (config : Fields W) (parent : Option ℕ) (now : W) (r : Registry W)
      → Valid r
      → Valid (register hash config parent now r).0
  unfolding register
  register-Valid hash config parent now r v =
      let free = get-version_id_of r (hash config) v in
      let id = version_id_of r.next_version (hash config) in
      let sv : Version W = record {
        version_id = id;
        version = r.next_version;
        parent_version = parent;
        config_hash = hash config;
        config = config;
        lineage = lineage_of (by_version parent r) ++ (r.next_version ∷ []);
        created_at = now;
      } in
      let e : Entry W = record { strategy = sv; status = proposed; history = [] } in
      let new : IsEntry (r.next_version + 1) r.live_stack id e = record {
        named = refl;
        keyed = refl;
        numbered = omega arith;
        staged = refl;
        topmost = λ h. cc;
      } in
      let all : Entries (r.next_version + 1) r.live_stack r.records = λ j e' g.
        let old = v.entries j e' g in
        record {
          named = old.named;
          keyed = old.keyed;
          numbered = omega (arith, old.numbered);
          staged = old.staged;
          topmost = old.topmost;
        } in
      record {
        entries = put-Entries (r.next_version + 1) r.live_stack r.records id e all new;
        stacked =
            Stacked-put id e r.records r.live_stack
              (λ h. absurd (
                false-ne-true
                  (ap is_ready (sym free) ∙ ready_on_stack r.records r.live_stack id v.stacked h)))
              v.stacked;
        unique = put-Unique id e r.records v.unique;
      }

  pub status-put :
      (id j : String) (e : Entry W) (r : Registry W)
      → status j (record r { records = put id e r.records })
        ≡ (if str_eq id j then some e.status else status j r)
  unfolding status
  status-put id j e r = elim (Bool-cases (str_eq id j)) [
    | inl same ↦ rw (same, get-put_same id j e r.records same, status) refl
    | inr other ↦ rw (other, get-put_other id j e r.records other, status) refl
  ]
