-- ===== src/Security/Redis.antt =====
-- The keys of Redis that app/core/security.py reads and writes: `revoked:{jti}` with its expiry and the
-- sets `active_jtis:{user}`, as pairs of a user and a jti. A command takes effect or raises.
use soc360_pymes.Prelude.{
  ℕ, ◌+◌, Bool, not, ◌&&◌, List, [], ◌∷◌, map, if◌then◌else◌, ltb, ◌==◌, any, is_empty,
}
use soc360_pymes.Sql.{select, delete_where}
use soc360_pymes.Outcome.{Result, ok, err}

pub record Denial : Type 0 where
  pub jti : ℕ
  pub expires : ℕ

pub record Tracked : Type 0 where
  pub user : ℕ
  pub jti : ℕ

pub record TokenStore : Type 0 where
  pub denied : List Denial
  pub active : List Tracked

pub data RedisError : Type 0 where
  redis_outage : RedisError

abbrev pub Answer : Type 0 → Type 0
Answer A = Result RedisError A × TokenStore

-- `SET revoked:{jti} 1 EX ttl`
abbrev pub deny : ℕ → ℕ → ℕ → TokenStore → TokenStore
deny now ttl jti r = record r {
  denied = record { jti = jti; expires = now + ttl } ∷ delete_where (λ d. d.jti == jti) r.denied;
}

-- `EXISTS revoked:{jti}`
unfoldable pub is_denied : TokenStore → ℕ → ℕ → Bool
is_denied r jti now = any (λ d. d.jti == jti && ltb now d.expires) r.denied

abbrev pub is_tracked : TokenStore → ℕ → ℕ → Bool
is_tracked r user jti = any (λ t. t.user == user && t.jti == jti) r.active

-- `SADD`, `SREM`, `SMEMBERS`, `DEL` on a user's set
abbrev pub sadd : ℕ → ℕ → TokenStore → TokenStore
sadd user jti r =
    if is_tracked r user jti
    then r
    else record r { active = record { user = user; jti = jti } ∷ r.active }

abbrev pub srem : ℕ → ℕ → TokenStore → TokenStore
srem user jti r = record r { active = delete_where (λ t. t.user == user && t.jti == jti) r.active }

abbrev pub smembers : ℕ → TokenStore → List ℕ
smembers user r = map (λ t. t.jti) (select (λ t. t.user == user) r.active)

abbrev pub del_active : ℕ → TokenStore → TokenStore
del_active user r = record r { active = delete_where (λ t. t.user == user) r.active }

-- one command, which goes through or not
abbrev pub attempt : Bool → TokenStore → (TokenStore → TokenStore) → Answer Unit
attempt goes r f = if goes then (ok tt, f r) else (err redis_outage, r)

-- `revoke_access_token`: a token without time left needs no entry
unfoldable pub revoke_access_token : Bool → ℕ → ℕ → ℕ → TokenStore → Answer Unit
revoke_access_token goes now jti ttl r =
    if ltb 0 ttl then attempt goes r (deny now ttl jti) else (ok tt, r)

-- `is_token_revoked`
unfoldable pub is_token_revoked : Bool → ℕ → ℕ → TokenStore → Result RedisError Bool
unfolding is_denied
is_token_revoked goes now jti r = if goes then ok (is_denied r jti now) else err redis_outage

unfoldable pub track_jti : Bool → ℕ → ℕ → TokenStore → Answer Unit
track_jti goes user jti r = attempt goes r (sadd user jti)

unfoldable pub untrack_jti : Bool → ℕ → ℕ → TokenStore → Answer Unit
untrack_jti goes user jti r = attempt goes r (srem user jti)

unfoldable pub get_active_jtis : Bool → ℕ → TokenStore → Result RedisError (List ℕ)
get_active_jtis goes user r = if goes then ok (smembers user r) else err redis_outage

-- `sorted`
abbrev pub insert_jti : ℕ → List ℕ → List ℕ
insert_jti j [] = j ∷ []
insert_jti j (k ∷ ks) = let rest = insert_jti j ks in if ltb k j then k ∷ rest else j ∷ k ∷ ks

abbrev pub sorted : List ℕ → List ℕ
sorted [] = []
sorted (j ∷ js) = insert_jti j (sorted js)

-- Phase 1 of `revoke_all_user_access_tokens`: the SETs in order, up to the first that raises.
-- `goes` says of each command of the call whether it goes through: 0 is the SMEMBERS, 1 the DEL, and
-- the SETs are 2 and on.
unfoldable pub deny_each : (ℕ → Bool) → ℕ → ℕ → ℕ → List ℕ → TokenStore → Answer Unit
deny_each goes n now ttl [] r = (ok tt, r)
deny_each goes n now ttl (j ∷ js) r =
    let rest = deny_each goes (n + 1) now ttl js (deny now ttl j r) in
    if goes n then rest else (err redis_outage, r)

-- Phase 2: the set goes only after every SET went through
unfoldable pub drop_active : Bool → ℕ → Answer Unit → Answer Unit
drop_active goes user (err e, r) = (err e, r)
drop_active goes user (ok u, r) = attempt goes r (del_active user)

unfoldable pub revoke_all_user_access_tokens : (ℕ → Bool) → ℕ → ℕ → ℕ → TokenStore → Answer Unit
unfolding deny_each drop_active
revoke_all_user_access_tokens goes now user ttl r =
    let jtis = sorted (smembers user r) in
    if not (goes 0)
    then (err redis_outage, r)
    else if is_empty jtis
    then (ok tt, r)
    else drop_active (goes 1) user (deny_each goes 2 now ttl jtis r)
