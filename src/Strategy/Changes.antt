-- ===== src/Strategy/Changes.antt =====
-- modules/strategy/strategy.service.ts: how strategies are created, changed and deleted, with what
-- that does to the caches.
pub mod Saving
pub mod Removing
use rustdesk_console.Common.{
  given, or_empty, ℕ, String, Bool, true, false, not, ◌&&◌, Option, none, some, List, [], ◌==◌,
  string_eq, if◌then◌else◌,
}
use rustdesk_console.Common.Effects.{
  M, Result, ok, err, pure, throw, get, modify, branch, when, ◌>>=◌, ◌>>◌,
}
use rustdesk_console.Rbac.Authorization.{AuthError}
use rustdesk_console.Strategy.Store.{is_found, Strategy, Peer, Store}
use rustdesk_console.Strategy.Resolution.{Entries, cached, dropped, Service}

-- What a call throws: a denied access, a plain exception, or the error of `JSON.parse`.
pub data StrategyError : Type 0 where
  denied : AuthError → StrategyError
  missing bad_request conflict syntax : String → StrategyError

abbrev pub Options : Type 0
Options = List (String × String)

pub record CreateStrategyDto : Type 0 where
  pub name : String
  pub note : Option String
  pub config_options : Option Options

pub record UpdateStrategyDto : Type 0 where
  pub name : Option String
  pub note : Option String
  pub config_options : Option Options

-- Is a row found, and is it another one than the row with the identifier?
abbrev pub is_other : Option Strategy → String → Bool
is_other none guid = false
is_other (some s) guid = not (s.guid == guid)

-- Does a device's entry name the strategy?
abbrev pub names : Option (Option String) → String → Bool
names (some (some h)) guid = h == guid
names _ guid = false

abbrev pub without : String → Entries (Option String) → Entries (Option String)
without guid m u = if names (m u) guid then none else m u

module _ {D : Type 0} where
  abbrev pub with_rows : D → Service D → Service D
  with_rows d w = record {
    rows = d;
    log = w.log;
    strategy_object_cache = w.strategy_object_cache;
    device_strategy_cache = w.device_strategy_cache;
  }

  abbrev pub with_object : String → Strategy → Service D → Service D
  with_object guid s w = record {
    rows = w.rows;
    log = w.log;
    strategy_object_cache = cached guid s w.strategy_object_cache;
    device_strategy_cache = w.device_strategy_cache;
  }

  abbrev pub forgotten : String → Service D → Service D
  forgotten guid w = record {
    rows = w.rows;
    log = w.log;
    strategy_object_cache = dropped guid w.strategy_object_cache;
    device_strategy_cache = without guid w.device_strategy_cache;
  }

abbrev pub Call : Type 0 → Type 0 → Type 0
Call D A = M (Service D) StrategyError A

module _ {D : Type 0} (db : Store D) where
  abbrev pub found : Option Strategy → Call D Strategy
  found none = throw (missing "Strategy not found")
  found (some s) = pure s

  abbrev pub find_stored : String → Call D Strategy
  find_stored guid = do w ← get; found (db.find_strategy guid w.rows)

  -- `save`, which returns the row as it is stored.
  unfoldable pub save : Strategy → Call D Strategy
  save s = do
    w ← get
    let saved = db.save_strategy s w.rows
    modify (with_rows saved.1)
    pure saved.0

  unfoldable pub check_name : Option String → String → Call D (Unit {0})
  check_name none guid = pure tt
  check_name (some name) guid = do
    w ← get
    when (is_other (db.find_strategy_named name w.rows) guid)
        (throw (bad_request "Strategy name already exists"))

  unfoldable pub delete_strategy : String → Call D (Unit {0})
  delete_strategy guid = do
    strategy ← find_stored guid
    modify (λ w. with_rows (db.remove_strategy strategy w.rows) w)
    modify (forgotten guid)

module _ {D : Type 0} (db : Store D) (stringify : Options → String)
    (parse : String → Result String Options) where
  abbrev pub text_of : Option Options → String
  text_of none = ""
  text_of (some o) = stringify o

  abbrev pub with_guid : String → CreateStrategyDto → Strategy
  with_guid guid dto = record {
    guid = guid;
    name = dto.name;
    note = or_empty dto.note;
    config_options = text_of dto.config_options;
    updated_at = 0;
  }

  -- `guid` is the identifier that `uuid.v4` makes.
  unfoldable pub create_strategy : String → CreateStrategyDto → Call D (Strategy × Options)
  create_strategy guid dto = do
    w ← get
    branch (is_found (db.find_strategy_named dto.name w.rows))
        (throw (bad_request "Strategy name already exists"))
        (do saved ← save db (with_guid guid dto); pure (saved, given dto.config_options []))

  abbrev pub changed : UpdateStrategyDto → Strategy → Strategy
  changed dto s = record {
    guid = s.guid;
    name = given dto.name s.name;
    note = given dto.note s.note;
    config_options = given (over_options dto.config_options) s.config_options;
    updated_at = s.updated_at;
  }
    where
      over_options : Option Options → Option String
      over_options none = none
      over_options (some o) = some (stringify o)

  abbrev pub parsed : Result String Options → Call D Options
  parsed (ok o) = pure o
  parsed (err e) = throw (syntax e)

  -- `JSON.parse(strategy.configOptions || '{}')`.
  abbrev pub options_of : Option Options → Strategy → Call D Options
  options_of (some o) s = pure o
  options_of none s = parsed (parse (if s.config_options == "" then "{}" else s.config_options))

  unfoldable pub update_strategy : String → UpdateStrategyDto → Call D (Strategy × Options)
  update_strategy guid dto = do
    strategy ← find_stored db guid
    check_name db dto.name guid
    saved ← save db (changed dto strategy)
    modify (with_object guid saved)
    options ← options_of dto.config_options saved
    pure (saved, options)

  unfoldable pub get_strategy : String → Call D (Strategy × Options)
  get_strategy guid = do
    strategy ← find_stored db guid
    options ← options_of none strategy
    pure (strategy, options)
