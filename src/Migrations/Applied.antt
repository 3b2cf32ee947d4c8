-- ===== src/Migrations/Applied.antt =====
-- What an operation makes of a schema that is ready for it.
use mathlib.Core.List.{◌++◌ as append}
use crypto_ledger_sandbox.Prelude.{
  arith, Bool, true, false, Option, none, some, List, [], ◌∷◌, String, str_eq, eq_iff, ◌≡◌, refl,
  ap, ◌∙◌, any?,
}
use crypto_ledger_sandbox.Migrations.Schema.{
  Schema, Table, Index, Operation, migrate, apply, has_name, is_index, is_index_on, uses_type,
  refers_to, removed, without, targets_exist, types_free, types_of, create_table, create_index,
  drop_table, drop_index, drop_type,
}

module _ {A : Type 0} where
  pub without_absent : (p : A → Bool) (xs : List A) → any? p xs ≡ false → without p xs ≡ xs
  unfolding any? without
  without_absent p [] h = refl
  without_absent p (x ∷ xs) h = ground (arith, without_absent p xs)

text_eq_refl : (n : String) → str_eq n n ≡ true
text_eq_refl n = (eq_iff n n).1 refl

abbrev then_migrate : List Operation → Option Schema → Option Schema
then_migrate operations none = none
then_migrate operations (some s) = migrate operations s

migrate_done : (s : Schema) → migrate [] s ≡ some s
unfolding migrate
migrate_done s = refl

migrate-cases :
    (operations : List Operation) (r : Option Schema)
    → (elim r [ none ↦ none | some s ↦ migrate operations s ]) ≡ then_migrate operations r
migrate-cases operations none = refl
migrate-cases operations (some s) = refl

migrate-cons :
    (o : Operation) (operations : List Operation) (s : Schema)
    → migrate (o ∷ operations) s ≡ then_migrate operations (apply o s)
unfolding migrate
migrate-cons o operations s = migrate-cases operations (apply o s)

-- What an operation makes of a schema, and what operations make of it one after another.
pub record Applies (o : Operation) (s t : Schema) : Type 0 where
  pub result : apply o s ≡ some t

pub record Migrates (operations : List Operation) (s t : Schema) : Type 0 where
  pub result : migrate operations s ≡ some t

infixr 4 ◌⟫◌
pub ◌⟫◌ :
    {o : Operation} {operations : List Operation} {s t u : Schema}
    → Applies o s t
    → Migrates operations t u
    → Migrates (o ∷ operations) s u
◌⟫◌ {o} {operations} {s} h k = record {
  result = migrate-cons o operations s ∙ ap (then_migrate operations) h.result ∙ k.result;
}

pub done : {s : Schema} → Migrates [] s s
done {s} = record { result = migrate_done s }

abbrev pub schema : List Table → List Index → List String → Schema
schema tables indexes types = record { tables = tables; indexes = indexes; types = types }

-- No table of the name is there, no index is on it, and no table refers to it.
pub record IsAbsent (s : Schema) (name : String) : Type 0 where
  pub table : any? (has_name name) s.tables ≡ false
  pub indexes : any? (is_index_on name) s.indexes ≡ false
  pub references : any? (refers_to name) s.tables ≡ false

-- No type of the name is there, and no table uses it.
pub record IsUnused (s : Schema) (name : String) : Type 0 where
  pub free : any? (λ m. str_eq m name) s.types ≡ false
  pub uses : any? (uses_type name) s.tables ≡ false

module _ (tables : List Table) (indexes : List Index) (types : List String) where
  create_table_lem :
      (t : Table)
      → any? (has_name t.name) tables ≡ false
      → targets_exist tables t.constraints ≡ true
      → types_free types (types_of t.columns) ≡ true
      → apply (create_table t) (schema tables indexes types)
        ≡ some (schema (t ∷ tables) indexes (append (types_of t.columns) types))
  unfolding apply
  create_table_lem t h k l = rw (h, k, l) refl

  create_index_lem :
      (i : Index)
      → any? (is_index i.name) indexes ≡ false
      → any? (has_name i.table) tables ≡ true
      → apply (create_index i) (schema tables indexes types)
        ≡ some (schema tables (i ∷ indexes) types)
  unfolding apply
  create_index_lem i h k = rw (h, k) refl

  drop_index_lem :
      (i : Index)
      → apply (drop_index i.name) (schema tables (i ∷ indexes) types)
        ≡ some (schema tables indexes types)
  unfolding apply any? removed
  drop_index_lem i = rw (text_eq_refl i.name) refl

  drop_table_lem :
      (t : Table)
      → any? (is_index_on t.name) indexes ≡ false
      → any? (refers_to t.name) tables ≡ false
      → apply (drop_table t.name) (schema (t ∷ tables) indexes types)
        ≡ some (schema tables indexes types)
  unfolding apply any? removed
  drop_table_lem t h k =
      rw (text_eq_refl t.name, k, without_absent (is_index_on t.name) indexes h) refl

  drop_type_lem :
      (n : String)
      → any? (uses_type n) tables ≡ false
      → apply (drop_type n) (schema tables indexes types)
        ≡ some (schema tables indexes (removed (λ m. str_eq m n) types))
  unfolding apply
  drop_type_lem n h = rw h refl

module _ {tables : List Table} {indexes : List Index} {types : List String} where
  pub create_table-ok :
      (t : Table)
      → any? (has_name t.name) tables ≡ false
      → targets_exist tables t.constraints ≡ true
      → types_free types (types_of t.columns) ≡ true
      → Applies
          (create_table t)
          (schema tables indexes types)
          (schema (t ∷ tables) indexes (append (types_of t.columns) types))
  create_table-ok t h k l = record { result = create_table_lem tables indexes types t h k l }

  pub create_index-ok :
      (i : Index)
      → any? (is_index i.name) indexes ≡ false
      → any? (has_name i.table) tables ≡ true
      → Applies (create_index i) (schema tables indexes types) (schema tables (i ∷ indexes) types)
  create_index-ok i h k = record { result = create_index_lem tables indexes types i h k }

  pub drop_index-ok :
      (i : Index)
      → Applies
          (drop_index i.name)
          (schema tables (i ∷ indexes) types)
          (schema tables indexes types)
  drop_index-ok i = record { result = drop_index_lem tables indexes types i }

  pub drop_table-ok :
      (t : Table)
      → any? (is_index_on t.name) indexes ≡ false
      → any? (refers_to t.name) tables ≡ false
      → Applies
          (drop_table t.name)
          (schema (t ∷ tables) indexes types)
          (schema tables indexes types)
  drop_table-ok t h k = record { result = drop_table_lem tables indexes types t h k }

  -- A type, wherever it stands.
  pub drop_type-ok :
      (n : String)
      → any? (uses_type n) tables ≡ false
      → Applies
          (drop_type n)
          (schema tables indexes types)
          (schema tables indexes (removed (λ m. str_eq m n) types))
  drop_type-ok n h = record { result = drop_type_lem tables indexes types n h }
