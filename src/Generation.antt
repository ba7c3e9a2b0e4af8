-- ===== src/Generation.antt =====
-- The plugin generations of agent/plugins/generation.py: their leases, and the registry that replaces
-- one generation of a plugin by the next. A generation object is a reference, a number.
pub mod Counts
pub mod Leases
use Prim.Native.Char.{code}
use kirakira_agent_online.Prelude.{
  ℕ, zero, suc, ◌+◌, ◌-◌, String, str_eq, Bool, true, false, ◌&&◌, ◌||◌, not, Option, none, some,
  List, [], ◌∷◌, ◌++◌, map, ◌==◌, ltb, if◌then◌else◌, Result, ok, err, any, keep, find, sort_by,
}

pub data GateStatus : Type 0 where
  gate_passed gate_failed : GateStatus

pub data GenerationState : Type 0 where
  compiled active retired quiesced : GenerationState

-- A generation with the result of its gate; what it contributes does not matter here.
pub record PluginGeneration : Type 0 where
  pub plugin_id : String
  pub generation_id : String
  pub source_revision : String
  pub config_revision : String
  pub gate_result : GateStatus
  pub state : GenerationState
  pub lease_count : ℕ

-- An item of the dict `_current`.
pub record CurrentGeneration : Type 0 where
  pub plugin_id : String
  pub generation : ℕ

-- A turn that entered `lease_active`, with the tuple that it was given.
pub record Turn : Type 0 where
  pub leased : List ℕ
  pub is_open : Bool

pub record Registry : Type 0 where
  pub current : List CurrentGeneration
  pub retired_list : List ℕ  -- `_retired`
  pub publication_in_progress : Bool
  pub objects : ℕ → PluginGeneration
  pub turns : List Turn  -- every turn that entered, in their order

pub data GenerationError : Type 0 where
  in_flight gate_refused not_leasable : GenerationError

abbrev pub RegistryOutcome : Type 0 → Type 0
RegistryOutcome A = Result GenerationError A × Registry

abbrev pub is_passed : GateStatus → Bool
is_passed gate_passed = true
is_passed gate_failed = false

-- `self.state in ("compiled", "active")`
abbrev pub accepts : GenerationState → Bool
accepts compiled = true
accepts active = true
accepts _ = false

abbrev pub is_quiesced : GenerationState → Bool
is_quiesced quiesced = true
is_quiesced _ = false

abbrev pub is_retired : GenerationState → Bool
is_retired retired = true
is_retired _ = false

unfoldable pub modify : ℕ → (PluginGeneration → PluginGeneration) → Registry → Registry
modify k f r = record r { objects = λ j. if j == k then f (r.objects j) else r.objects j }

unfoldable pub enter_state : GenerationState → ℕ → Registry → Registry
unfolding modify
enter_state state k r = modify k (λ g. record g { state = state }) r

-- `can_quiesce`
unfoldable pub can_quiesce : PluginGeneration → Bool
can_quiesce g = is_retired g.state && g.lease_count == 0

-- The additions of `acquire`, and `release`, whose error `lease_active` only logs.
unfoldable pub add_lease : ℕ → Registry → Registry
unfolding modify
add_lease k r = modify k (λ g. record g { lease_count = g.lease_count + 1 }) r

unfoldable pub release : ℕ → Registry → Registry
unfolding modify
release k r =
    if (r.objects k).lease_count == 0
    then r
    else modify k (λ g. record g { lease_count = g.lease_count - 1 }) r

unfoldable pub reversed : List ℕ → List ℕ
reversed [] = []
reversed (k ∷ ks) = reversed ks ++ (k ∷ [])

unfoldable pub release_each : List ℕ → Registry → Registry
unfolding release
release_each [] r = r
release_each (k ∷ ks) r = release_each ks (release k r)

-- `<=` of strings, by code points.
unfoldable pub str_leb : String → String → Bool
str_leb String.[] t = true
str_leb (String.◌∷◌ c s) String.[] = false
str_leb (String.◌∷◌ c s) (String.◌∷◌ d t) =
    let rest = str_leb s t in
    if ltb (code c) (code d) then true else if ltb (code d) (code c) then false else rest

-- `active`: the current generations by their plugin's id.
unfoldable pub active_generations : Registry → List ℕ
unfolding str_leb
active_generations r =
    map (λ c. c.generation) (sort_by (λ a b. str_leb a.plugin_id b.plugin_id) r.current)

unfoldable pub current_of : String → Registry → Option CurrentGeneration
current_of plugin_id r = find (λ c. str_eq c.plugin_id plugin_id) r.current

unfoldable pub without_plugin : String → List CurrentGeneration → List CurrentGeneration
without_plugin plugin_id entries = keep (λ c. not (str_eq c.plugin_id plugin_id)) entries

-- `_current[plugin_id] = generation`, which keeps the place of a key.
unfoldable pub set_current : String → ℕ → List CurrentGeneration → List CurrentGeneration
set_current plugin_id k [] = record { plugin_id = plugin_id; generation = k } ∷ []
set_current plugin_id k (c ∷ entries) =
    let rest = set_current plugin_id k entries in
    if str_eq c.plugin_id plugin_id
    then record { plugin_id = plugin_id; generation = k } ∷ entries
    else c ∷ rest

unfoldable pub retire_generation : ℕ → Registry → Registry
unfolding enter_state
retire_generation k r = record (enter_state retired k r) {
  retired_list = r.retired_list ++ (k ∷ []);
}

unfoldable pub publish : ℕ → Registry → RegistryOutcome (Option ℕ)
unfolding enter_state retire_generation set_current current_of
publish k r =
    let id = (r.objects k).plugin_id in
    let r' : Registry = record (enter_state active k r) { current = set_current id k r.current } in
    if not (is_passed (r.objects k).gate_result)
    then (err gate_refused, r)
    else elim (current_of id r) [
      | none ↦ (ok none, r')
      | some c ↦ (ok (some c.generation), retire_generation c.generation r')
    ]

unfoldable pub retire : String → Registry → Option ℕ × Registry
unfolding retire_generation without_plugin current_of
retire plugin_id r = elim (current_of plugin_id r) [
  | none ↦ (none, r)
  | some c ↦ (
    some c.generation,
    retire_generation c.generation (record r { current = without_plugin plugin_id r.current }),
  )
]

-- The loop of `lease_active`; an `acquire` that is refused gives back what was leased before it.
unfoldable pub acquire_each : List ℕ → List ℕ → Registry → Option (List ℕ) × Registry
unfolding add_lease release_each reversed
acquire_each [] leased r = (some leased, r)
acquire_each (k ∷ ks) leased r =
    let rest = acquire_each ks (leased ++ (k ∷ [])) (add_lease k r) in
    if accepts (r.objects k).state then rest else (none, release_each (reversed leased) r)

-- A turn that was given its tuple of generations.
unfoldable pub enter_turn : Option (List ℕ) → Registry → RegistryOutcome (List ℕ)
enter_turn none r = (err not_leasable, r)
enter_turn (some leased) r =
    (ok leased, record r { turns = r.turns ++ (record { leased = leased; is_open = true } ∷ []) })

-- `lease_active` is entered.
unfoldable pub lease_active : Registry → RegistryOutcome (List ℕ)
unfolding acquire_each active_generations enter_turn
lease_active r =
    enter_turn (acquire_each (active_generations r) [] r).0
      (acquire_each (active_generations r) [] r).1

unfoldable pub nth_turn : ℕ → List Turn → Option Turn
nth_turn n [] = none
nth_turn zero (x ∷ turns) = some x
nth_turn (suc n) (x ∷ turns) = nth_turn n turns

unfoldable pub close_turn : ℕ → List Turn → List Turn
close_turn n [] = []
close_turn zero (x ∷ turns) = record x { is_open = false } ∷ turns
close_turn (suc n) (x ∷ turns) = x ∷ close_turn n turns

-- The n-th turn leaves `lease_active`.
unfoldable pub leave : ℕ → Registry → Registry
unfolding nth_turn close_turn release_each reversed
leave n r = elim (nth_turn n r.turns) [
  | none ↦ r
  | some x ↦
      if not x.is_open
      then r
      else release_each (reversed x.leased) (record r { turns = close_turn n r.turns })
]

-- The retired generations without a lease, for their resources to be released.
unfoldable pub drain_quiescible : Registry → List ℕ × Registry
unfolding can_quiesce
drain_quiescible r =
    let ready = keep (λ k. can_quiesce (r.objects k)) r.retired_list in
    (
      ready,
      record r {
        retired_list = keep (λ k. not (any (λ j. j == k) ready)) r.retired_list;
        objects = λ j.
            if any (λ k. k == j) ready
            then record (r.objects j) { state = quiesced }
            else r.objects j;
      },
    )

unfoldable pub retire_each : List CurrentGeneration → Registry → Registry
unfolding retire_generation
retire_each [] r = r
retire_each (c ∷ entries) r = retire_each entries (retire_generation c.generation r)

unfoldable pub retire_all : Registry → List ℕ × Registry
unfolding retire_each
retire_all r =
    let r' : Registry = record (retire_each r.current r) { current = [] } in (r'.retired_list, r')

unfoldable pub begin_publication : Registry → RegistryOutcome (Unit {0})
begin_publication r =
    if r.publication_in_progress
    then (err in_flight, r)
    else (ok tt, record r { publication_in_progress = true })

unfoldable pub finish_publication : Registry → Registry
finish_publication r = record r { publication_in_progress = false }

pub data RegistryCall : Type 0 where
  publish_call leave_call : ℕ → RegistryCall
  retire_call : String → RegistryCall
  lease_call drain_call retire_all_call begin_call finish_call : RegistryCall

unfoldable pub registry_call : RegistryCall → Registry → Registry
registry_call (publish_call k) r = (publish k r).1
registry_call (leave_call n) r = leave n r
registry_call (retire_call p) r = (retire p r).1
registry_call lease_call r = (lease_active r).1
registry_call drain_call r = (drain_quiescible r).1
registry_call retire_all_call r = (retire_all r).1
registry_call begin_call r = (begin_publication r).1
registry_call finish_call r = finish_publication r

unfoldable pub registry_calls : List RegistryCall → Registry → Registry
registry_calls [] r = r
registry_calls (c ∷ more) r = registry_calls more (registry_call c r)

-- `__init__`, in a memory of generation objects.
unfoldable pub new_registry : (ℕ → PluginGeneration) → Registry
new_registry objects = record {
  current = [];
  retired_list = [];
  publication_in_progress = false;
  objects = objects;
  turns = [];
}
