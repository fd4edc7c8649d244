-- ===== src/Configuration/Paths.antt =====
-- What a path of keys leads to, and that the getters follow it.
use vector_db.Prelude.{
  List, [], ◌∷◌, Option, some, true, Bytes, ◌≡◌, ◌↔◌, refl, sym, ap, ◌∙◌, subst, inl, inr,
  Option-cases, arith,
}
use mathlib.Core.Option.{some_inj}
use vector_db.Configuration.{
  Toml, Provider, enter, navigate, get_value, get_all, get_array, all_keys, has_key,
}

module _ (T : Toml) where
  open T use {Value, Table, as_table, find, as_array}

  -- The keys lead from one value to another: each is found in the table that the ones before it lead to.
  abbrev pub Leads : Value → List Bytes → Value → Type 0
  Leads v [] x = v ≡ x
  Leads v (key ∷ keys) x =
      (t : Table) × (w : Value) × (as_table v ≡ some t) × (find key t ≡ some w) × Leads w keys x

  enter_lem :
      (key : Bytes) (v w : Value)
      → enter T key v ≡ some w
      → (t : Table) × (as_table v ≡ some t) × (find key t ≡ some w)
  enter_lem key v w h = elim (Option-cases (as_table v)) [
    | inl e ↦ absurd (ground arith)
    | inr (t, e) ↦ (t, e, ground arith)
  ]

  enter_of :
      (key : Bytes) (v w : Value) (t : Table)
      → as_table v ≡ some t
      → find key t ≡ some w
      → enter T key v ≡ some w
  enter_of key v w t h k = rw (h, k, enter) refl

  navigate-Leads :
      (key : Bytes) (keys : List Bytes) (v x : Value)
      → navigate T (key ∷ keys) v ≡ some x
      → Leads v (key ∷ keys) x
  unfolding navigate
  navigate-Leads key [] v x h = let (t, a, f) = enter_lem key v x h in (t, x, a, f, refl)
  navigate-Leads key (next ∷ keys) v x h = elim (Option-cases (enter T key v)) [
    | inl e ↦ absurd (ground arith)
    | inr (w, e) ↦
        let (t, a, f) = enter_lem key v w e in
        (t, w, a, f, navigate-Leads next keys w x (rw (e, navigate) at h))
  ]

  Leads-navigate :
      (key : Bytes) (keys : List Bytes) (v x : Value)
      → Leads v (key ∷ keys) x
      → navigate T (key ∷ keys) v ≡ some x
  unfolding navigate
  Leads-navigate key [] v x (t, w, a, f, e) = enter_of key v w t a f ∙ ap some e
  Leads-navigate key (next ∷ keys) v x (t, w, a, f, more) =
      rw (enter_of key v w t a f, navigate) (Leads-navigate next keys w x more)

  all_keys-Leads :
      (keys : List Bytes) (v : Value) → all_keys T keys v ≡ true → (x : Value) × Leads v keys x
  unfolding all_keys
  all_keys-Leads [] v h = (v, refl)
  all_keys-Leads (key ∷ keys) v h = elim (Option-cases (enter T key v)) [
    | inl e ↦ absurd (ground arith)
    | inr (w, e) ↦
        let (t, a, f) = enter_lem key v w e in
        let (x, rest) = all_keys-Leads keys w (rw (e, all_keys) at h) in (x, (t, w, a, f, rest))
  ]

  Leads-all_keys : (keys : List Bytes) (v x : Value) → Leads v keys x → all_keys T keys v ≡ true
  unfolding all_keys
  Leads-all_keys [] v x e = refl
  Leads-all_keys (key ∷ keys) v x (t, w, a, f, more) =
      rw (enter_of key v w t a f, all_keys) (Leads-all_keys keys w x more)

  -- The items have the given values, one for one.
  abbrev pub Read : {A : Type 0} → (Value → Option A) → List Value → List A → Type 0
  Read get [] [] = Unit
  Read get (v ∷ vs) (a ∷ more) = (get v ≡ some a) × Read get vs more
  Read get _ _ = ⊥

  get_all-Read :
      {A : Type 0} (get : Value → Option A) (vs : List Value) (items : List A)
      → get_all T get vs ≡ some items
      → Read get vs items
  unfolding get_all
  get_all-Read get [] [] h = tt
  get_all-Read get [] (a ∷ more) h = cc
  get_all-Read get (v ∷ vs) items h = elim (Option-cases (get v)) [
    | inl e ↦ absurd (ground arith)
    | inr (a, e) ↦ elim (Option-cases (get_all T get vs)) [
      | inl n ↦ absurd (ground arith)
      | inr (more, n) ↦
          let all : get_all T get (v ∷ vs) ≡ some (a ∷ more) = rw (e, n, get_all) refl in
          subst (Read get (v ∷ vs)) (some_inj.0 (sym all ∙ h)) (e, get_all-Read get vs more n)
    ]
  ]

  Read-get_all :
      {A : Type 0} (get : Value → Option A) (vs : List Value) (items : List A)
      → Read get vs items
      → get_all T get vs ≡ some items
  unfolding get_all
  Read-get_all get [] [] h = refl
  Read-get_all get [] (a ∷ more) h = absurd h
  Read-get_all get (v ∷ vs) [] h = absurd h
  Read-get_all get (v ∷ vs) (a ∷ more) (e, h) = rw (e, Read-get_all get vs more h, get_all) refl

  -- Once a file is loaded, for a path of at least one key: `has_key` holds exactly if the path leads to
  -- a value; `get_value` gives exactly what the value that it leads to is as that type; and
  -- `get_array` gives a list exactly if it leads to an array whose elements are, in order, of that type.
  pub lookup_iff :
      {A : Type 0} (get : Value → Option A) (key : Bytes) (keys : List Bytes) (c : Provider T)
      → c.loaded ≡ true
      → ((has_key T (key ∷ keys) c ≡ true) ↔ ((x : Value) × Leads c.data_value (key ∷ keys) x))
        × ((a : A)
            → (get_value T get (key ∷ keys) c ≡ some a)
              ↔ ((x : Value) × Leads c.data_value (key ∷ keys) x × (get x ≡ some a)))
        × ((items : List A)
            → (get_array T get (key ∷ keys) c ≡ some items) ↔ (
                (x : Value) × (vs : List Value) × Leads c.data_value (key ∷ keys) x
                × (as_array x ≡ some vs)
                × Read get vs items))
  lookup_iff get key keys c h = (
    (
      λ k. all_keys-Leads (key ∷ keys) c.data_value (rw (h, has_key) at k),
      λ (x, l). rw (h, has_key) (Leads-all_keys (key ∷ keys) c.data_value x l),
    ),
    λ a. (
      λ k. elim (Option-cases (navigate T (key ∷ keys) c.data_value)) [
        | inl e ↦ absurd (ground arith)
        | inr (x, e) ↦ (x, navigate-Leads key keys c.data_value x e, ground arith)
      ],
      λ (x, l, g). rw (h, Leads-navigate key keys c.data_value x l, get_value) g,
    ),
    λ items. (
      λ k. elim (Option-cases (navigate T (key ∷ keys) c.data_value)) [
        | inl e ↦ absurd (ground arith)
        | inr (x, e) ↦ elim (Option-cases (as_array x)) [
          | inl n ↦ absurd (ground arith)
          | inr (vs, n) ↦ (
            x,
            vs,
            navigate-Leads key keys c.data_value x e,
            n,
            get_all-Read get vs items (ground arith),
          )
        ]
      ],
      λ (x, vs, l, n, g).
          rw (h, Leads-navigate key keys c.data_value x l, n, get_array)
            (Read-get_all get vs items g),
    ),
  )
