-- ===== src/Statuses/SideEffects.antt =====
-- Statuses and the skill replacements that they switch on and off,
-- jjk_arena/battle_v2/effects.py.
use fantasy_draft.Base.{ℕ, not, ◌&&◌, none, some, [], ◌∷◌, ◌++◌, ◌==◌, if◌then◌else◌, get_or}
use fantasy_draft.Int.{ℤ, pos, ltb_ℤ, eqb_ℤ}
use fantasy_draft.Dict.{Dict, lookup, insert, erase}
use fantasy_draft.Models.{IntKey, get_int, StatusEffect, CharacterState}

-- `StatusEffect.__post_init__`
unfoldable pub post_init : StatusEffect → StatusEffect
post_init s = record s {
  duration_clock = get_or s.payload.duration_clock s.duration_clock;
  families = elim s.families [ [] ↦ get_or s.payload.families [] | f ∷ fs ↦ f ∷ fs ];
}

-- `_status_replacements`
abbrev pub replacements_of : StatusEffect → Dict ℕ
replacements_of s = get_or s.payload.skill_replacements []

-- `d.update(other)`
unfoldable pub insert_all : Dict ℕ → Dict ℕ → Dict ℕ
insert_all [] d = d
insert_all ((source, replacement) ∷ rest) d = insert_all rest (insert source replacement d)

-- The loop of `_remove_status_side_effects`.
unfoldable pub remove_all : Dict ℕ → Dict ℕ → Dict ℕ
remove_all [] d = d
remove_all ((source, replacement) ∷ rest) d = remove_all rest (elim (lookup source d) [
  | none ↦ d
  | some current ↦ if current == replacement then erase source d else d
])

unfoldable pub remove_status_side_effects : CharacterState → StatusEffect → CharacterState
remove_status_side_effects c s = record c {
  skill_replacements = remove_all (replacements_of s) c.skill_replacements;
}

unfoldable pub apply_status_side_effects : CharacterState → StatusEffect → CharacterState
apply_status_side_effects c s =
    let unlock_at : ℤ = get_int s.payload IntKey.unlock_replacements_at_stacks in
    if not (eqb_ℤ unlock_at (pos 0)) && ltb_ℤ s.stacks unlock_at
    then remove_status_side_effects c s
    else record c { skill_replacements = insert_all (replacements_of s) c.skill_replacements }

abbrev pub add_status : CharacterState → StatusEffect → CharacterState
add_status c s = record c { statuses = c.statuses ++ s ∷ [] }
