-- ===== src/Attachments/Storage.antt =====
-- The `StorageProvider` protocol of backend/apps/attachments/providers.py: where the bytes of an
-- attachment lie. The services are given any store that has its operations.
use quorfix.Prelude.{ℕ, Option, Text}
use quorfix.Exec.{Exec, Result}
use quorfix.Attachments.Validators.{Bytes}

-- What a provider raises: a key that leads out of the root, or the file system.
pub data StorageError : Type 0 where
  value_error os_error : StorageError

-- The `StorageProvider` protocol, over a store of type `F`.
pub record StorageProvider (F : Type 0) : Type 0 where
  pub save_stream : Text → Bytes → Exec StorageError F Unit
  pub resolve_download : Text → F → Result StorageError (Option Text)
  pub head : Text → F → Result StorageError (Option ℕ)
  pub delete : Text → Exec StorageError F Unit
