-- ===== src/Configuration.antt =====
-- src/include/configuration/provider.h and src/impl/configuration/provider.cpp. The TOML library is a
-- parameter: its values, and what it finds in them.
pub mod Paths
use vector_db.Prelude.{
  ℕ, List, [], ◌∷◌, Option, none, some, Outcome, done, thrown, undefined, ◌>>=◌, or_throw, Bool,
  true, false, Bytes,
}

-- `toml::value`: its table or its array, if it is one; what a key finds in a table; and `toml::get<T>`,
-- which throws where this is `none`.
pub record Toml : Type 1 where
  pub Value : Type 0
  pub Table : Type 0
  pub as_table : Value → Option Table
  pub find : Bytes → Table → Option Value
  pub as_array : Value → Option (List Value)

-- How reading a file goes: it is not there, it does not parse, or it gives a value.
pub data FileRead (V : Type 0) : Type 0 where
  missing : FileRead V
  malformed : FileRead V
  parsed : V → FileRead V

module _ (T : Toml) where
  open T use {Value, Table, as_table, find, as_array}

  -- `config_provider_impl`
  pub record Provider : Type 0 where
    pub data_value : Value
    pub config_path : Bytes
    pub loaded : Bool

  -- The loader, given what the library reads under the path. Each failure is an exception, and leaves the
  -- provider as it was.
  unfoldable pub load : (Bytes → FileRead Value) → Bytes → Provider → Outcome Provider
  load read path c = elim (read path) [
    | missing ↦ thrown
    | malformed ↦ thrown
    | parsed v ↦ done (record { data_value = v; config_path = path; loaded = true })
  ]

  -- One step into a table; `none` is the early `return std::nullopt`.
  abbrev pub enter : Bytes → Value → Option Value
  enter key v = elim (as_table v) [ none ↦ none | some t ↦ find key t ]

  -- The loop over all keys but the last, then the last: the value that it leads to.
  unfoldable pub navigate : List Bytes → Value → Option Value
  navigate [] current = none
  navigate (key ∷ []) current = enter key current
  navigate (key ∷ (next ∷ keys)) current = elim (enter key current) [
    | none ↦ none
    | some v ↦ navigate (next ∷ keys) v
  ]

  -- The handler turns every exception into `nullopt`.
  abbrev pub get_value {ℓ} : {A : Type ℓ} → (Value → Option A) → List Bytes → Provider → Option A
  get_value get keys c = elim c.loaded [
    | false ↦ none
    | true ↦ elim (navigate keys c.data_value) [ none ↦ none | some v ↦ get v ]
  ]

  -- The loop that fills `result`; an element of another type ends it with an exception.
  unfoldable pub get_all {ℓ} : {A : Type ℓ} → (Value → Option A) → List Value → Option (List A)
  get_all get [] = some []
  get_all get (v ∷ vs) = elim (get v) [
    | none ↦ none
    | some a ↦ elim (get_all get vs) [ none ↦ none | some more ↦ some (a ∷ more) ]
  ]

  abbrev pub get_array {ℓ} :
      {A : Type ℓ} → (Value → Option A) → List Bytes → Provider → Option (List A)
  get_array get keys c = elim c.loaded [
    | false ↦ none
    | true ↦ elim (navigate keys c.data_value) [
      | none ↦ none
      | some v ↦ elim (as_array v) [ none ↦ none | some vs ↦ get_all get vs ]
    ]
  ]

  -- The loop of `has_key` over all the keys.
  unfoldable pub all_keys : List Bytes → Value → Bool
  all_keys [] current = true
  all_keys (key ∷ keys) current = elim (enter key current) [
    | none ↦ false
    | some v ↦ all_keys keys v
  ]

  abbrev pub has_key : List Bytes → Provider → Bool
  has_key [] c = false
  has_key (key ∷ keys) c = elim c.loaded [
    | false ↦ false
    | true ↦ all_keys (key ∷ keys) c.data_value
  ]
