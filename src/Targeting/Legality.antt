-- ===== src/Targeting/Legality.antt =====
-- What an accepted choice of targets satisfies, `validate_target_rule` of
-- jjk_arena/battle_v2/targeting.py.
use mathlib.Core.Path.{subst, subst₂}
use fantasy_draft.Base.{
  ℕ, ◌≡◌, ◌≢◌, ◌≤◌, true, false, not, ◌&&◌, ◌||◌, some, List, [], ◌∷◌, ◌==◌, ltb, arith, length,
}
use fantasy_draft.Int.{ℤ, eqb_ℤ}
use fantasy_draft.Result.{ok, raise_if, >>=-eq-ok, >>-eq-ok, raise_if-ok}
use fantasy_draft.Models.{SkillSpec, CharacterState, PlayerState, PendingAction, BattleState}
use fantasy_draft.Conditions.{has_status}
use fantasy_draft.Energy.{team_at}
use fantasy_draft.Slots.{has_slot, are_distinct}
use fantasy_draft.Targeting.{
  get_character, get_player, resolve_player_id, invulnerability_blocks_skill, is_enemy_kind,
  is_ally_kind, is_self_kind, is_field_kind, required_id, check_slot, check_slots, chosen_slots,
  action_target_slots, check_self, check_targets, validate_target_rule,
}

-- A slot that a skill may target, with the character that stands there.
pub record IsLegalTarget (player : PlayerState) (player_id : ℕ) (action : PendingAction)
    (skill : SkillSpec) (slot : ℤ) (target : CharacterState) : Type 0 where
  pub stands : team_at player.team slot ≡ some target
  pub own_caster : is_self_kind skill.target_rule.kind ≡ true → eqb_ℤ slot action.caster_slot ≡ true
  pub active :
      is_self_kind skill.target_rule.kind ≡ false → has_slot player.active_slots slot ≡ true
  pub other_than_caster :
      is_self_kind skill.target_rule.kind ≡ false
      → skill.target_rule.allow_self ≡ false
      → player_id ≡ action.player_id
      → eqb_ℤ slot action.caster_slot ≡ false
  pub alive : skill.target_rule.allow_dead ≡ false → target.alive ≡ true
  pub vulnerable : invulnerability_blocks_skill target skill action player_id ≡ false
  pub marked :
      required_id skill.target_rule ≢ 0 → has_status target (required_id skill.target_rule) ≡ true

check_slot-IsLegalTarget :
    (player : PlayerState) (player_id : ℕ) (action : PendingAction) (skill : SkillSpec) (slot : ℤ)
    (target : CharacterState)
    → check_slot player player_id action skill slot ≡ ok target
    → IsLegalTarget player player_id action skill slot target
unfolding check_slot get_character
check_slot-IsLegalTarget player player_id action skill slot target h = record {
  stands = ground arith;
  own_caster = λ k. ground arith;
  active = λ k. ground arith;
  other_than_caster = λ k l m. ground arith;
  alive = λ k. ground arith;
  vulnerable = ground arith;
  marked = λ k. ground arith;
}

-- Slots and targets, one for one.
abbrev pub AreLegal :
    PlayerState → ℕ → PendingAction → SkillSpec → List ℤ → List CharacterState → Type 0
AreLegal player player_id action skill [] [] = Unit
AreLegal player player_id action skill (slot ∷ slots) (target ∷ targets) =
    IsLegalTarget player player_id action skill slot target
    × AreLegal player player_id action skill slots targets
AreLegal player player_id action skill _ _ = ⊥

check_slots-AreLegal :
    (player : PlayerState) (player_id : ℕ) (action : PendingAction) (skill : SkillSpec)
    (slots : List ℤ) (targets : List CharacterState)
    → check_slots player player_id action skill slots ≡ ok targets
    → AreLegal player player_id action skill slots targets
unfolding check_slots
check_slots-AreLegal player player_id action skill [] [] h = tt
check_slots-AreLegal player player_id action skill [] (t ∷ ts) h = cc
check_slots-AreLegal player player_id action skill (slot ∷ slots) targets h =
    let (t, first, h1) = >>=-eq-ok (check_slot player player_id action skill slot) _ h in
    let (ts, rest, h2) = >>=-eq-ok (check_slots player player_id action skill slots) _ h1 in
    let same : t ∷ ts ≡ targets = cc in
    subst (λ l. AreLegal player player_id action skill (slot ∷ slots) l) same
      (
        check_slot-IsLegalTarget player player_id action skill slot t first,
        check_slots-AreLegal player player_id action skill slots ts rest,
      )

-- What is known of an accepted action: who is targeted, how many slots, and what stands in them.
pub record Accepted (state : BattleState) (action : PendingAction) (skill : SkillSpec)
    (player_id : ℕ) (targets : List CharacterState) : Type 0 where
  pub player : PlayerState
  pub resolved : resolve_player_id state action.player_id action.target_player_id ≡ ok player_id
  pub known : get_player state player_id ≡ ok player
  pub distinct : are_distinct (action_target_slots action) ≡ true
  pub enough : skill.target_rule.min_targets ≤ length (chosen_slots player action skill)
  pub not_too_many : length (chosen_slots player action skill) ≤ skill.target_rule.max_targets
  pub enemy : is_enemy_kind skill.target_rule.kind ≡ true → player_id ≢ action.player_id
  pub ally : is_ally_kind skill.target_rule.kind ≡ true → player_id ≡ action.player_id
  pub self : is_self_kind skill.target_rule.kind ≡ true → player_id ≡ action.player_id
  pub legal : AreLegal player player_id action skill (chosen_slots player action skill) targets

check_targets-Accepted :
    (state : BattleState) (acting player : PlayerState) (id player_id : ℕ) (action : PendingAction)
    (skill : SkillSpec) (targets : List CharacterState)
    → resolve_player_id state action.player_id action.target_player_id ≡ ok id
    → get_player state id ≡ ok player
    → check_targets acting player id action skill ≡ ok (player_id, targets)
    → Accepted state action skill player_id targets
unfolding check_targets
check_targets-Accepted state acting player id player_id action skill targets r k h =
    let (d, h1) = >>-eq-ok (raise_if (not (are_distinct (action_target_slots action))) _) _ h in
    let slots = chosen_slots player action skill in
    let rule = skill.target_rule in
    let (c, h2) =
      >>-eq-ok
        (raise_if (ltb (length slots) rule.min_targets || ltb rule.max_targets (length slots)) _) _
        h1 in
    let (e, h3) = >>-eq-ok (raise_if (is_enemy_kind rule.kind && id == action.player_id) _) _ h2 in
    let (a, h4) =
      >>-eq-ok (raise_if (is_ally_kind rule.kind && not (id == action.player_id)) _) _ h3 in
    let (s, h5) =
      >>-eq-ok (raise_if (is_self_kind rule.kind && not (id == action.player_id)) _) _ h4 in
    let (ts, l, h6) = >>=-eq-ok (check_slots player id action skill slots) _ h5 in
    let (_, h7) = >>-eq-ok (check_self acting id action skill slots) _ h6 in
    let same_id : id ≡ player_id = cc in
    let same_targets : ts ≡ targets = cc in
    let size = raise_if-ok _ _ c in
    subst₂ (λ i l. Accepted state action skill i l) same_id same_targets
      (record {
        player = player;
        resolved = r;
        known = k;
        distinct = ground (arith, raise_if-ok _ _ d);
        enough = ground arith;
        not_too_many = ground arith;
        enemy = λ p. ground (arith, raise_if-ok _ _ e);
        ally = λ p. ground (arith, raise_if-ok _ _ a);
        self = λ p. ground (arith, raise_if-ok _ _ s);
        legal = check_slots-AreLegal player id action skill slots ts l;
      })

-- An accepted action of a skill that is not a field skill names distinct slots, as many as the skill
-- allows, of the right side; every target stands in its slot, and is active, alive, vulnerable and
-- marked as the skill requires; only a skill that allows it or targets the caster by its kind
-- reaches the caster, and the latter reaches nobody else.
pub validate_target_rule_sound :
    (state : BattleState) (action : PendingAction) (skill : SkillSpec) (player_id : ℕ)
    (targets : List CharacterState)
    → is_field_kind skill.target_rule.kind ≡ false
    → validate_target_rule state action skill ≡ ok (player_id, targets)
    → Accepted state action skill player_id targets
unfolding validate_target_rule
validate_target_rule_sound state action skill player_id targets f h =
    let (id, r, h1) =
      >>=-eq-ok (resolve_player_id state action.player_id action.target_player_id) _ h in
    let (player, k, h2) = >>=-eq-ok (get_player state id) _ h1 in
    let (acting, a, h3) = >>=-eq-ok (get_player state action.player_id) _ h2 in
    check_targets-Accepted state acting player id player_id action skill targets r k (rw f at h3)
