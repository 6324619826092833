-- ===== src/Auth/Rotation.antt =====
-- app/modules/auth/service.py: a refresh token is good for one rotation.
use tenantflow_api.Prelude.{
  ℕ, ◌+◌, ◌≡◌, ◌≢◌, refl, ◌∙◌, sym, ap, subst, String, Bool, true, false, none, some, List, [], ◌∷◌,
  ◌++◌, arith, ⊤, ◌==◌, ==→eq, Bool-cases, inl, inr, str_eq, str_eq_refl, scalar_passes, ◌*◌,
  present, scalar, exists, scalar-append_none, scalar-append_some, scalar-update, scalar_fresh,
  scalar_own, if◌then◌else◌, All-fresh, All-scalar, ==-refl,
}
use tenantflow_api.Core.Dependencies.{get_user}
use tenantflow_api.Core.Security.{create_access_token}
use tenantflow_api.Db.Models.{Database, User, RefreshToken}
use tenantflow_api.Db.Constraints.{refresh_token_clash, refresh_token_fits}
use tenantflow_api.Db.Session.{Platform}
use tenantflow_api.Db.Session.Triple.{
  Returns, Keeps, Triple, Triple-bind, Triple-pure, Triple-gets, Triple-or_raise, Triple-raise_if,
  Triple-flush, Triple-write, Keeps-now, Keeps-new_uuid, Keeps-new_token,
}
use tenantflow_api.Auth.Service.{
  TokenPair, revoke, has_token_id, revoke_row, find_refresh_token, choose_family, issue_token_pair,
  rotate_refresh_token, is_spent,
}

abbrev pub has_hash : String → RefreshToken → Bool
has_hash h t = str_eq t.token_hash h

-- The token with this hash is `row`, and it is not revoked.
pub record IsLive (h : String) (row : RefreshToken) (rs : List RefreshToken) : Type 0 where
  pub found : scalar (has_hash h) rs ≡ some row
  pub live : row.revoked_at ≡ none

-- The token with this hash is revoked, in favour of the token with the hash `successor`.
pub record IsReplaced (h successor : String) (rs : List RefreshToken) : Type 0 where
  pub row : RefreshToken
  pub found : scalar (has_hash h) rs ≡ some row
  pub revoked : present row.revoked_at ≡ true
  pub replaced : row.replaced_by_hash ≡ some successor

-- what the insert of a token that fits leaves: the older token as it was, and the new one
record IsInserted (h : String) (t new : RefreshToken) (rs : List RefreshToken) : Type 0 where
  old : scalar (has_hash h) rs ≡ some t
  found : scalar (has_hash new.token_hash) rs ≡ some new
  differs : (new.id == t.id) ≡ false

insert_lem :
    (h : String) (t new : RefreshToken) (d : Database)
    → scalar (has_hash h) d.refresh_tokens ≡ some t
    → refresh_token_fits d new ≡ true
    → IsInserted h t new (d.refresh_tokens ++ new ∷ [])
unfolding refresh_token_fits
insert_lem h t new d e fits =
    let free : exists (refresh_token_clash new) d.refresh_tokens ≡ false = ground arith in
    record {
      old = scalar-append_some (has_hash h) d.refresh_tokens _ t e;
      found =
          scalar-append_none (has_hash new.token_hash) d.refresh_tokens _ (
            scalar_fresh (has_hash new.token_hash) (refresh_token_clash new) d.refresh_tokens
              (λ x k. ground arith) free)
          ∙ scalar_own (has_hash new.token_hash) new (str_eq_refl new.token_hash);
      differs =
          let other =
            All-scalar (λ x. x.id ≢ new.id) (has_hash h) d.refresh_tokens t
              (All-fresh (λ (x : RefreshToken). x.id) (refresh_token_clash new) new.id
                (λ x k. ground arith) d.refresh_tokens free)
              e in
          elim (Bool-cases (new.id == t.id)) [
            | inl y ↦ absurd (other (sym (==→eq new.id t.id y)))
            | inr n ↦ n
          ];
    }

module _ ⦃p : Platform⦄ where
  access_token-Keeps : (P : Database → Type 0) (user_id : ℕ) → Keeps P (create_access_token user_id)
  unfolding create_access_token
  access_token-Keeps P user_id =
      Triple-bind _ _ (Keeps-now P)
        λ issued. Triple-bind _ _ (Keeps-new_token P) λ jti. Triple-pure _ (λ w h. h)

  -- the token of a pair that was issued to `user` while `t` had the hash `h`
  record IsIssued (h : String) (t : RefreshToken) (user family : ℕ) (pair : TokenPair)
      (rs : List RefreshToken) : Type 0 where
    new : RefreshToken
    inserted : IsInserted h t new rs
    hash : new.token_hash ≡ p.token_fingerprint pair.refresh_token
    owner : new.user_id ≡ user
    same_family : new.family_id ≡ family
    live : new.revoked_at ≡ none

  issue_lem :
      (h : String) (t : RefreshToken) (user : User) (family : ℕ)
      → Triple
          (λ w. scalar (has_hash h) w.db.refresh_tokens ≡ some t)
          (issue_token_pair user (some family))
          (λ pair w. IsIssued h t user.id family pair w.db.refresh_tokens)
  unfolding issue_token_pair choose_family
  issue_lem h t user family =
      let P = λ (d : Database). scalar (has_hash h) d.refresh_tokens ≡ some t in
      Triple-bind _ _ (Keeps-new_token P) λ raw. Triple-bind _ _ (Keeps-now P) λ instant.
        Triple-bind _ _
          (Triple-pure {P = λ w. P w.db} {Q = λ f w. P w.db × (f ≡ family)} family
            (λ w e. (e, refl)))
          λ f. Triple-bind _ _ (Keeps-new_uuid (λ d. P d × (f ≡ family))) λ id.
            let new : RefreshToken = record {
              id = id;
              user_id = user.id;
              token_hash = p.token_fingerprint raw;
              family_id = f;
              expires_at = instant + p.settings.refresh_token_days * 86400;
              revoked_at = none;
              replaced_by_hash = none;
              created_at = instant;
            } in
            let Q = λ (d : Database). IsInserted h t new d.refresh_tokens × (f ≡ family) in
            Triple-bind _ _
              (Triple-flush {Q = λ _ w. Q w.db} _ _
                (λ w e fits. (insert_lem h t new w.db e.0 fits, e.1)))
              λ _. Triple-bind _ _ (access_token-Keeps Q user.id) λ access. Triple-pure _ λ w e.
                record {
                  new = new;
                  inserted = e.0;
                  hash = refl;
                  owner = refl;
                  same_family = e.1;
                  live = refl;
                }

  -- what a rotation of a token leaves: the token is spent, and its successor is live
  pub record IsRotated (h : String) (pair : TokenPair) (rs : List RefreshToken) : Type 0 where
    pub successor : RefreshToken
    pub replaced : IsReplaced h (p.token_fingerprint pair.refresh_token) rs
    pub successor_live : IsLive (p.token_fingerprint pair.refresh_token) successor rs
    pub same_family : successor.family_id ≡ (replaced.row).family_id
    pub same_user : successor.user_id ≡ (replaced.row).user_id

  rotated :
      (h : String) (t : RefreshToken) (instant : ℕ) (pair : TokenPair) (d : Database)
      (i : IsIssued h t t.user_id t.family_id pair d.refresh_tokens)
      → IsRotated h pair
          (revoke_row t.id instant (some (p.token_fingerprint pair.refresh_token)) d).refresh_tokens
  unfolding revoke_row
  rotated h t instant pair d i =
      let successor = p.token_fingerprint pair.refresh_token in
      let f = revoke instant (some successor) in
      let step =
        λ (g : String) (x : RefreshToken) (e : scalar (has_hash g) d.refresh_tokens ≡ some x).
          scalar-update (has_hash g) (has_token_id t.id) f d.refresh_tokens x (λ y. refl) e in
      let k = ==-refl t.id in
      let ins = i.inserted in
      record {
        successor = i.new;
        replaced = record {
          row = f t;
          found = step h t ins.old ∙ ap (λ b. some (if b then f t else t)) k;
          revoked = refl;
          replaced = refl;
        };
        successor_live = record {
          found =
              step successor i.new
                (subst (λ g. scalar (has_hash g) d.refresh_tokens ≡ some i.new) i.hash ins.found)
              ∙ ap (λ b. some (if b then f i.new else i.new)) ins.differs;
          live = i.live;
        };
        same_family = i.same_family;
        same_user = i.owner;
      }

  user_of : (k : ℕ) (d : Database) (u : User) → get_user k d ≡ some u → u.id ≡ k
  unfolding get_user
  user_of k d u e = ==→eq u.id k (scalar_passes (λ (x : User). x.id == k) d.users u e)

  -- A rotation that returns a pair leaves the old token revoked in favour of the new one, which is
  -- live, of the same family and of the same user.
  pub rotate_lem :
      (raw : String)
      → Triple
          (λ w. ⊤)
          (rotate_refresh_token raw)
          (λ pair w. IsRotated (p.token_fingerprint raw) pair w.db.refresh_tokens)
  unfolding rotate_refresh_token find_refresh_token
  rotate_lem raw =
      let h = p.token_fingerprint raw in
      Triple-bind _ _ (Triple-gets (λ w. ⊤) (find_refresh_token h)) λ found.
        let P = λ (d : Database). ⊤ × (find_refresh_token h d ≡ found) in
        Triple-bind _ _ (Keeps-now P) λ instant.
          Triple-bind _ _ (Triple-or_raise (λ w. P w.db) found _) λ t.
            Triple-bind _ _ (Triple-raise_if _ (is_spent instant t) _) λ _.
              Triple-bind _ _ (Triple-gets _ (get_user t.user_id)) λ account.
                Triple-bind _ _ (Triple-or_raise _ account _) λ u.
                  Triple-bind _ _ (Triple-raise_if _ _ _) λ _.
                    Triple-bind _ _
                      (record {
                        at = λ w e.
                            let same = user_of t.user_id w.db u (((e.0).0).1 ∙ (e.0).1) in
                            subst
                              (λ k.
                                Returns
                                  (λ pair v. IsIssued h t k t.family_id pair v.db.refresh_tokens)
                                  (issue_token_pair u (some t.family_id) w))
                              same
                              ((issue_lem h t u t.family_id).at w
                                (((((e.0).0).0).0).0.1 ∙ ((((e.0).0).0).0).1));
                      })
                      λ pair.
                        Triple-bind _ _
                          (Triple-write {Q = λ _ w. IsRotated h pair w.db.refresh_tokens} _
                            (λ w i. rotated h t instant pair w.db i))
                          λ _. Triple-pure _ (λ w e. e)
