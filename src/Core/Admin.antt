-- ===== src/Core/Admin.antt =====
-- `AddToken` and `DeleteToken` (src/service/open_event_core.cpp).
pub mod Effects
use openevent.Common.{ℕ, ◌||◌, [], Bytes, is_empty, ◌==◌}
use openevent.Status.{Result, error, invalid_argument}
use openevent.Platform.{Platform}
use openevent.Storage.Writes
use openevent.Core.State.{M, pure, lift, refuse_if, ◌>>=◌, ◌>>◌, ensure_available, commit_batch}

module _ (p : Platform) where
  -- `generated` is what `GenerateToken` returns.
  unfoldable pub add_token : ℕ → Result Bytes → M p Bytes
  add_token principal generated = do
    ensure_available
    refuse_if (principal == 0) (error invalid_argument "principal must be greater than 0")
    token ← lift generated
    batch ← lift (Writes.put_token [] principal token)
    commit_batch batch
    pure token

  unfoldable pub delete_token : ℕ → Bytes → M p (Unit {0})
  delete_token principal token = do
    ensure_available
    refuse_if (principal == 0 || is_empty token)
        (error invalid_argument "principal must be greater than 0 and token must not be empty")
    commit_batch (Writes.delete_token [] principal token)
