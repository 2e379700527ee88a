-- ===== src/App/Error.antt =====
-- splittr-app/src/error.rs.
use splittr.Prelude.Ord.{Bytes}
use splittr.Store.OpStore.{StoreError}

pub data AppError : Type 0 where
  validation : Bytes → AppError
  not_authorized : Bytes → AppError
  not_found : Bytes → AppError
  root_locked : AppError
  store_failed : StoreError → AppError
