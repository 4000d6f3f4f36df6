-- ===== src/Result.antt =====
-- Calls that may raise. The constructors are the raise statements of the battle modules; the texts
-- of the messages are not modelled.
use fantasy_draft.Base.{◌≡◌, refl, ◌⊎◌, inl, inr, Bool, true, false, Option, none, some}

pub data Error : Type 0 where
  -- a missing key or an index out of range
  lookup_error : Error
  -- EnergyValidationError
  wildcard_count wild_cannot_pay not_enough_energy : Error
  -- TargetingError
  enemy_alias unknown_player invalid_slot duplicate_targets target_count : Error
  must_target_enemy must_target_ally must_target_self must_target_caster : Error
  cannot_target_caster target_not_active target_dead target_invulnerable lacks_status : Error
  -- ResolverError
  not_base_slot unknown_skill empty_action_id primary_not_first : Error
  secondary_is_primary secondary_not_second caster_not_active caster_dead : Error
  already_acted on_cooldown caster_stunned no_allies no_damage no_counters : Error
  cannot_afford redirect_needs_alternate alternate_dead alternate_is_watched : Error
  bloom_primary bloom_secondary bloom_secondary_dead bloom_team : Error
  ids_not_unique order_length order_duplicates order_mismatch one_skill_per_caster : Error
  -- a TargetingError that nothing turned into a ResolverError
  unhandled_targeting : Error
  -- EffectError
  needs_status_id needs_target_slot unsupported_effect : Error
  -- BattleV2Error
  match_finished match_paused not_your_turn wrong_phase not_confirmed : Error
  conversion_sources conversion_target already_converted unknown_room : Error
  queue_pending queue_already_confirmed no_opponent empty_sequence : Error
  reconnect_rejected grace_expired : Error
  unknown_energy only_core nonce_required nonce_too_long nonce_reused stale_revision
        unknown_action :
      Error
  bad_revision unknown_command hash_failed : Error

-- What a call gives: a value, or the error it raised.
pub data Result {u} (X : Type u) : Type u where
  ok : X → Result X
  err : Error → Result X

-- `if condition: raise ...`
abbrev pub raise_if : Bool → Error → Result (Unit {0})
raise_if false e = ok tt
raise_if true e = err e

-- `d[k]` and `xs[i]`
abbrev pub or_raise {u} : {X : Type u} → Option X → Error → Result X
or_raise (some x) e = ok x
or_raise none e = err e

infixl 5 ◌>>=◌
abbrev pub ◌>>=◌ {u v} : {X : Type u} → {Y : Type v} → Result X → (X → Result Y) → Result Y
err e >>= next = err e
ok x >>= next = next x

-- A statement whose value is not used.
infixl 5 ◌>>◌
abbrev pub ◌>>◌ {u} : {Y : Type u} → Result (Unit {0}) → Result Y → Result Y
first >> rest = first >>= λ _. rest

-- A call that came to its end came through every step before.
pub >>=-eq-ok {u v} :
    {X : Type u} {Y : Type v} (call : Result X) (next : X → Result Y) {y : Y}
    → (call >>= next) ≡ ok y
    → (x : X) × (call ≡ ok x) × (next x ≡ ok y)
>>=-eq-ok (err e) next h = cc
>>=-eq-ok (ok x) next h = (x, refl, h)

pub >>-eq-ok {u} :
    {Y : Type u} (first : Result (Unit {0})) (rest : Result Y) {y : Y}
    → (first >> rest) ≡ ok y
    → (first ≡ ok tt) × (rest ≡ ok y)
>>-eq-ok (err e) rest h = cc
>>-eq-ok (ok tt) rest h = (refl, h)

pub raise_if-ok : (b : Bool) (e : Error) → raise_if b e ≡ ok tt → b ≡ false
raise_if-ok false e h = refl
raise_if-ok true e h = cc

-- What a call gives, if it does not raise, has the property.
abbrev pub Yields {u v} : {X : Type u} → (X → Type v) → Result X → Type v
Yields P (ok x) = P x
Yields P (err e) = Unit

pub Yields-bind {u v w} :
    {X : Type u} {Y : Type v} (P : Y → Type w) (call : Result X) (next : X → Result Y)
    → ((x : X) → call ≡ ok x → Yields P (next x))
    → Yields P (call >>= next)
Yields-bind P (err e) next h = tt
Yields-bind P (ok x) next h = h x refl

pub Yields-ok {u v} :
    {X : Type u} (P : X → Type v) {call : Result X} {x : X} → Yields P call → call ≡ ok x → P x
Yields-ok P h e = rw e at h

pub Yields-map {u v w} :
    {X : Type u} (P : X → Type v) (Q : X → Type w) (call : Result X)
    → ((x : X) → P x → Q x)
    → Yields P call
    → Yields Q call
Yields-map P Q (err e) f h = tt
Yields-map P Q (ok x) f h = f x h

pub Result-cases {u} :
    {X : Type u} (r : Result X) → ((x : X) × (r ≡ ok x)) ⊎ ((e : Error) × (r ≡ err e))
Result-cases (ok x) = inl (x, refl)
Result-cases (err e) = inr (e, refl)

-- A value that is read from a call has what both its cases have.
pub result_keeps {u v w} :
    {X : Type u} {Y : Type v} (P : Y → Type w) (r : Result X) {f : Error → Y} {g : X → Y}
    → ((e : Error) → r ≡ err e → P (f e))
    → ((x : X) → r ≡ ok x → P (g x))
    → P (elim r [ err e ↦ f e | ok x ↦ g x ])
result_keeps P (err e) p q = p e refl
result_keeps P (ok x) p q = q x refl
