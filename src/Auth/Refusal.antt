-- ===== src/Auth/Refusal.antt =====
-- app/modules/auth/service.py: the refresh tokens that are refused, after a rotation and after a
-- logout.
use tenantflow_api.Prelude.{
  ◌⊎◌, ◌+◌, ◌≡◌, refl, ◌∙◌, sym, ap, subst, String, true, Option, none, some, List, ⊤, inl, inr,
  Option-cases, present, scalar, scalar-update, if◌then◌else◌, ==-refl,
}
use tenantflow_api.Core.Errors.{Error, ok, err, authentication_error}
use tenantflow_api.Db.Models.{RefreshToken}
use tenantflow_api.Db.Session.{Platform, World, request, ◌>>=◌}
use tenantflow_api.Db.Session.Triple.{
  Triple, Triple-bind, Triple-pure, Triple-gets, Triple-weaken, Triple-run, request_returns,
}
use tenantflow_api.Auth.Service.{
  TokenPair, revoke, has_token_id, revoke_row, find_refresh_token, rotate_refresh_token,
  revoke_found, revoke_refresh_token,
}
use tenantflow_api.Auth.Rotation.{has_hash, IsRotated, rotate_lem}

abbrev pub invalid_token : Error
invalid_token = authentication_error "Refresh token is invalid or expired"

module _ ⦃p : Platform⦄ where
  spent_refused :
      (raw : String) (w : World) (row : RefreshToken)
      → scalar (has_hash (p.token_fingerprint raw)) w.db.refresh_tokens ≡ some row
      → present row.revoked_at ≡ true
      → rotate_refresh_token raw w ≡ (err invalid_token, record w { ticks = w.ticks + 1 })
  unfolding rotate_refresh_token find_refresh_token ◌>>=◌
  spent_refused raw w row e spent = rw e (rw spent refl)

  -- After a rotation that returned a pair, the old refresh token is revoked in favour of the new
  -- one, which is live, of the same user and family; and a second rotation of the old one is
  -- refused with a 401 and writes nothing, as long as the tokens are as the first one left them.
  pub refuse_reuse :
      (raw : String) (pair : TokenPair) (w v later : World)
      → request (rotate_refresh_token raw) w ≡ (ok pair, v)
      → later.db.refresh_tokens ≡ v.db.refresh_tokens
      → IsRotated (p.token_fingerprint raw) pair v.db.refresh_tokens
        × (rotate_refresh_token raw later
            ≡ (err invalid_token, record later { ticks = later.ticks + 1 }))
  refuse_reuse raw pair w v later e same =
      let i =
        Triple-run (rotate_lem raw) w v pair tt
          (request_returns (rotate_refresh_token raw) w v pair e) in
      let r = i.replaced in
      (
        i,
        spent_refused raw later r.row
            (ap (scalar (has_hash (p.token_fingerprint raw))) same ∙ r.found) r.revoked,
      )

  -- the token with this hash, if there is one, is revoked
  abbrev pub Revoked : String → List RefreshToken → Type 0
  Revoked h rs =
      (scalar (has_hash h) rs ≡ none)
      ⊎ ((row : RefreshToken) × (scalar (has_hash h) rs ≡ some row)
          × (present row.revoked_at ≡ true))

  revoke_found_lem :
      (h : String) (found : Option RefreshToken)
      → Triple
          (λ w. find_refresh_token h w.db ≡ found)
          (revoke_found found)
          (λ _ w. Revoked h w.db.refresh_tokens)
  unfolding find_refresh_token revoke_found revoke_row ◌>>=◌
  revoke_found_lem h none = Triple-pure _ (λ w e. inl e)
  revoke_found_lem h (some t) = elim (Option-cases t.revoked_at) [
    | inl fresh ↦ record {
      at = λ w e. rw fresh (
          inr (
            revoke (p.clock w.ticks) t.replaced_by_hash t,
            scalar-update (has_hash h) (has_token_id t.id)
                  (revoke (p.clock w.ticks) t.replaced_by_hash) w.db.refresh_tokens t (λ y. refl) e
                ∙ ap (λ b. some (if b then revoke (p.clock w.ticks) t.replaced_by_hash t else t))
                    (==-refl t.id),
            refl,
          ));
    }
    | inr (k, spent) ↦ record { at = λ w e. rw spent (inr (t, e, rw spent refl)) }
  ]

  revoke_returns :
      (raw : String) (w : World) → (v : World) × (revoke_refresh_token raw w ≡ (ok tt, v))
  unfolding revoke_refresh_token revoke_found ◌>>=◌
  revoke_returns raw w = go (find_refresh_token (p.token_fingerprint raw) w.db)
    where
      go : (found : Option RefreshToken) → (v : World) × (revoke_found found w ≡ (ok tt, v))
      go none = (w, refl)
      go (some t) = elim (Option-cases t.revoked_at) [
        | inl fresh ↦ rw fresh (_, refl)
        | inr (k, spent) ↦ rw spent (_, refl)
      ]

  revoke_lem :
      (raw : String)
      → Triple
          (λ w. ⊤)
          (revoke_refresh_token raw)
          (λ _ w. Revoked (p.token_fingerprint raw) w.db.refresh_tokens)
  unfolding revoke_refresh_token
  revoke_lem raw =
      Triple-bind _ _ (Triple-gets (λ w. ⊤) (find_refresh_token (p.token_fingerprint raw)))
        λ found. Triple-weaken (λ w e. e.1) (revoke_found_lem (p.token_fingerprint raw) found)

  unknown_refused :
      (raw : String) (w : World)
      → scalar (has_hash (p.token_fingerprint raw)) w.db.refresh_tokens ≡ none
      → rotate_refresh_token raw w ≡ (err invalid_token, record w { ticks = w.ticks + 1 })
  unfolding rotate_refresh_token find_refresh_token ◌>>=◌
  unknown_refused raw w e = rw e refl

  refused :
      (raw : String) (w : World)
      → Revoked (p.token_fingerprint raw) w.db.refresh_tokens
      → rotate_refresh_token raw w ≡ (err invalid_token, record w { ticks = w.ticks + 1 })
  refused raw w (inl e) = unknown_refused raw w e
  refused raw w (inr (row, e, spent)) = spent_refused raw w row e spent

  -- Logging out always succeeds, whether the token is known, unknown or revoked already; and
  -- while the tokens are as it left them, a rotation of the token is refused with a 401.
  logged_out :
      (raw : String) (w later : World)
      → later.db.refresh_tokens ≡ (request (revoke_refresh_token raw) w).1.db.refresh_tokens
      → ((request (revoke_refresh_token raw) w).0 ≡ ok tt)
        × (rotate_refresh_token raw later
            ≡ (err invalid_token, record later { ticks = later.ticks + 1 }))
  unfolding request
  logged_out raw w later same =
      let (v, e) = revoke_returns raw w in
      let same' : later.db.refresh_tokens ≡ v.db.refresh_tokens = (rw e at same) in
      let gone = Triple-run (revoke_lem raw) w v tt tt e in
      (
        rw e refl,
        refused raw later (subst (λ rs. Revoked (p.token_fingerprint raw) rs) (sym same') gone),
      )
