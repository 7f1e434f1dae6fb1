-- ===== src/Strategies.antt =====
-- api/services/strategy_registry.py: the versions of the strategy and their lifecycle. The hash of a
-- configuration is a parameter, and so are the times at which `time.time()` is read. A record is
-- mutated in place in the source, here it is written back under its id.
pub mod Records
pub mod Invariant
pub mod Registering
pub mod Transitions
pub mod Rollbacks
pub mod Lifecycle
pub mod Outcomes
pub mod Immutable
use Prim.Native.String.{◌++◌ as str_append}
use trading_control.Prelude.{
  ℕ, ◌+◌, Bool, true, false, Option, none, some, List, [], ◌∷◌, ◌++◌, map, String, str_eq, ltb,
  ◌==◌, if◌then◌else◌, find_first, keep,
}
use trading_control.Prelude.Dict.{Dict, get, put}
use trading_control.Prelude.Decimal.{text_of}
use trading_control.Json.{Json, text, Fields, member}

pub data Status : Type 0 where
  proposed backtested shadow canary live retired : Status

-- `to_status in _VALID_TRANSITIONS[status]`
unfoldable pub allowed : Status → Status → Bool
allowed proposed backtested = true
allowed backtested shadow = true
allowed shadow canary = true
allowed canary live = true
allowed proposed retired = true
allowed backtested retired = true
allowed shadow retired = true
allowed canary retired = true
allowed live retired = true
allowed _ _ = false

abbrev pub is_live : Status → Bool
is_live live = true
is_live _ = false

pub record Version (W : Type 0) : Type 0 where
  pub version_id : String
  pub version : ℕ
  pub parent_version : Option ℕ
  pub config_hash : String
  pub config : Fields W
  pub lineage : List ℕ
  pub created_at : W

pub record Entry (W : Type 0) : Type 0 where
  pub strategy : Version W
  pub status : Status
  -- oldest first
  pub history : List (Status × W)

pub record Registry (W : Type 0) : Type 0 where
  pub records : Dict (Entry W)
  pub next_version : ℕ
  -- the ids promoted to live, the current one first
  pub live_stack : List String

-- `InvalidTransitionError`, for its two reasons, and the `KeyError` of a read of `_records`.
pub data Failure : Type 0 where
  unknown_version not_allowed missing_key : Failure

pub data Result (A : Type 0) : Type 0 where
  err : Failure → Result A
  ok : A → Result A

-- A call that raises ends the method.
infixl 5 ◌>>=◌
abbrev pub ◌>>=◌ : {A B : Type 0} → Result A → (A → Result B) → Result B
err reason >>= rest = err reason
ok mid >>= rest = rest mid

-- `f"v{version}-{hash}"`
unfoldable pub version_id_of : ℕ → String → String
version_id_of v hash = str_append "v" (str_append (text_of v) (str_append "-" hash))

module _ {W : Type 0} where
  abbrev pub empty : Registry W
  empty = record { records = []; next_version = 1; live_stack = [] }

  unfoldable pub values : Dict (Entry W) → List (Entry W)
  values = map λ (p : String × Entry W). p.1

  -- `_by_version`
  unfoldable pub by_version : Option ℕ → Registry W → Option (Entry W)
  unfolding values
  by_version none r = none
  by_version (some v) r = find_first (λ (e : Entry W). e.strategy.version == v) (values r.records)

  unfoldable pub lineage_of : Option (Entry W) → List ℕ
  lineage_of none = []
  lineage_of (some e) = e.strategy.lineage

  unfoldable pub register :
      (Fields W → String) → Fields W → Option ℕ → W → Registry W → Registry W × Version W
  unfolding by_version version_id_of lineage_of
  register hash config parent_version now r =
      let v = r.next_version in
      let sv : Version W = record {
        version_id = version_id_of v (hash config);
        version = v;
        parent_version = parent_version;
        config_hash = hash config;
        config = config;
        lineage = lineage_of (by_version parent_version r) ++ (v ∷ []);
        created_at = now;
      } in
      let e : Entry W = record { strategy = sv; status = proposed; history = [] } in
      (record r { records = put sv.version_id e r.records; next_version = v + 1 }, sv)

  unfoldable pub status : String → Registry W → Option Status
  status id r = elim (get id r.records) [ none ↦ none | some e ↦ some e.status ]

  -- The test of `find_by_strategy`: `config.get("strategy") == strategy_name`.
  unfoldable pub has_strategy : String → Entry W → Bool
  has_strategy name e = elim (member "strategy" e.strategy.config) [
    | some (text s) ↦ str_eq s name
    | _ ↦ false
  ]

  -- `max` by version keeps the first of the highest.
  unfoldable pub highest : Option (Entry W) → List (Entry W) → Option (Entry W)
  highest best [] = best
  highest none (e ∷ es) = highest (some e) es
  highest (some b) (e ∷ es) =
      highest (some (if ltb b.strategy.version e.strategy.version then e else b)) es

  unfoldable pub find_by_strategy : String → Registry W → Option (Entry W)
  unfolding highest has_strategy values
  find_by_strategy name r = highest none (keep (has_strategy name) (values r.records))

  abbrev pub moved : Status → W → Entry W → Entry W
  moved st now e = record e { status = st; history = e.history ++ ((st, now) ∷ []) }

  -- `_set_status` of the record under an id
  unfoldable pub set_status : String → Status → W → Registry W → Result (Registry W)
  set_status id st now r = elim (get id r.records) [
    | none ↦ err missing_key
    | some e ↦ ok (record r { records = put id (moved st now e) r.records })
  ]

  -- `_supersede_current_live`
  unfoldable pub supersede : W → Registry W → List String → Result (Registry W)
  supersede now r [] = ok r
  supersede now r (top ∷ rest) = set_status top retired now r

  -- `self._supersede_current_live(); self._live_stack.append(version_id)`
  unfoldable pub go_live : String → W → Registry W → Result (Registry W)
  unfolding supersede
  go_live id now r = do
    r' ← supersede now r r.live_stack
    ok (record r' { live_stack = id ∷ r'.live_stack })

  -- The times are those of the two calls of `_set_status`, in their order.
  unfoldable pub transition : String → Status → W → W → Registry W → Result (Registry W × Version W)
  unfolding go_live allowed set_status
  transition id to_status now later r = elim (get id r.records) [
    | none ↦ err unknown_version
    | some e ↦
        if allowed e.status to_status
        then (do
          r' ← if is_live to_status then go_live id now r else ok r
          r'' ← set_status id to_status later r'
          ok (r'', e.strategy))
        else err not_allowed
  ]

  unfoldable pub current_live : Registry W → Option (Version W)
  unfolding values
  current_live r = elim (find_first (λ (e : Entry W). is_live e.status) (values r.records)) [
    | none ↦ none
    | some e ↦ some e.strategy
  ]

  -- The registry without its top, and what the rest of `rollback` does.
  unfoldable pub restore : List String → W → Registry W → Result (Registry W × Option (Version W))
  unfolding set_status
  restore [] now r = ok (r, none)
  restore (prev ∷ rest) now r = elim (get prev r.records) [
    | none ↦ err missing_key
    | some e ↦ set_status prev live now r >>= λ r'. ok (r', some e.strategy)
  ]

  unfoldable pub roll : List String → W → W → Registry W → Result (Registry W × Option (Version W))
  unfolding restore set_status
  roll [] now later r = ok (r, none)
  roll (current ∷ rest) now later r = do
    r' ← set_status current retired now (record r { live_stack = rest })
    restore rest later r'

  unfoldable pub rollback : W → W → Registry W → Result (Registry W × Option (Version W))
  unfolding roll
  rollback now later r = roll r.live_stack now later r

-- A run of the registry: the calls made of it, in order. A call that raises leaves it as it was.
pub data Call (W : Type 0) : Type 0 where
  registering : Fields W → Option ℕ → W → Call W
  transitioning : String → Status → W → W → Call W
  rolling_back : W → W → Call W

module _ {W : Type 0} (hash : Fields W → String) where
  unfoldable pub call : Registry W → Call W → Registry W
  call r (registering config parent_version now) = (register hash config parent_version now r).0
  call r (transitioning id to_status now later) = elim (transition id to_status now later r) [
    | ok (r', sv) ↦ r'
    | err e ↦ r
  ]
  call r (rolling_back now later) = elim (rollback now later r) [ ok (r', sv) ↦ r' | err e ↦ r ]

  unfoldable pub run : Registry W → List (Call W) → Registry W
  run r [] = r
  run r (c ∷ cs) = run (call r c) cs
