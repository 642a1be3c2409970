-- ===== src/Core/Admin/Effects.antt =====
-- What `AddToken` and `DeleteToken` leave stored.
use openevent.Common.{ℕ, ◌≡◌, ◌≢◌, false, none, some, [], ◌∷◌, Bytes, arith, is_empty}
use openevent.Status.{Result, ok}
use openevent.Platform.{Platform, Lawful}
use openevent.Storage.Keys.{token_key}
use openevent.Storage.Rocks.Updates.{meta, put, delete, SetsMeta}
use openevent.Storage.Writes.{put_token}
use openevent.Storage.Writes
use openevent.Core.Admin.{add_token, delete_token}
use openevent.Core.State.{Core, ensure_available, commit_batch}
use openevent.Core.State.Inversion.{stored, put-SetsMeta, delete-SetsMeta}

module _ (p : Platform) (law : Lawful p) where
  add_token-ok :
      (principal : ℕ) (generated : Result Bytes) (token : Bytes) (c c' : Core p)
      → add_token p principal generated c ≡ (ok token, c')
      → (principal ≢ 0)
        × (generated ≡ ok token)
        × (commit_batch (put meta (token_key principal token) [] ∷ []) c ≡ (ok tt, c'))
  unfolding add_token ensure_available put_token
  add_token-ok principal generated token c c' h = ground arith

  delete_token-ok :
      (principal : ℕ) (token : Bytes) (c c' : Core p)
      → delete_token p principal token c ≡ (ok tt, c')
      → (principal ≢ 0)
        × (is_empty token ≡ false)
        × (commit_batch (delete meta (token_key principal token) ∷ []) c ≡ (ok tt, c'))
  unfolding delete_token ensure_available Writes.delete_token
  delete_token-ok principal token c c' h = ground arith

  -- An `AddToken` that returns a token was asked for a principal that is not zero, returns the
  -- generated token, has stored it under the principal and has changed nothing else.
  pub add_token-SetsMeta :
      (principal : ℕ) (generated : Result Bytes) (token : Bytes) (c c' : Core p)
      → add_token p principal generated c ≡ (ok token, c')
      → (principal ≢ 0)
        × (generated ≡ ok token)
        × SetsMeta (token_key principal token) (some []) (stored c) (stored c')
  add_token-SetsMeta principal generated token c c' h =
      let (nonzero, same, done) = add_token-ok principal generated token c c' h in
      (nonzero, same, put-SetsMeta p law (token_key principal token) [] c c' done)

  -- After a `DeleteToken` has returned, nothing is stored for the token under the principal, and
  -- nothing else is changed.
  pub delete_token-SetsMeta :
      (principal : ℕ) (token : Bytes) (c c' : Core p)
      → delete_token p principal token c ≡ (ok tt, c')
      → SetsMeta (token_key principal token) none (stored c) (stored c')
  delete_token-SetsMeta principal token c c' h =
      let (_, _, done) = delete_token-ok principal token c c' h in
      delete-SetsMeta p law (token_key principal token) c c' done
