-- ===== src/Persistent/KeyValue.antt =====
-- MemStore of pkg/storage/store.go.
use emqx_go.Base.{Option, none, some, Text, Outcome, ok, err}
use emqx_go.Base.Map.{Map, lookup, insert, delete, text_has_eq}

pub data StoreError : Type 0 where
  not_found : StoreError

pub record MemStore (V : Type 0) : Type 0 where
  pub entries : Map Text V

abbrev found_or_error : {V : Type 0} → Option V → Outcome StoreError V
found_or_error none = err not_found
found_or_error (some v) = ok v

module _ {V : Type 0} where
  unfoldable pub get : Text → MemStore V → Outcome StoreError V
  get key s = found_or_error (lookup key s.entries)

  unfoldable pub set : Text → V → MemStore V → MemStore V
  set key value s = record { entries = insert key value s.entries }

  unfoldable pub delete_key : Text → MemStore V → MemStore V
  delete_key key s = record { entries = delete key s.entries }
