-- ===== src/Examples/Statuses.antt =====
-- Ticking and recurring damage on single characters.
use fantasy_draft.Base.{◌≡◌, refl, false, some, [], ◌∷◌, keep, map, arith}
use fantasy_draft.Int.{pos}
use fantasy_draft.Models.{CharacterState}
use fantasy_draft.Conditions.{is_active}
use fantasy_draft.Damage.Bounds.{IsSound}
use fantasy_draft.Statuses.{Pass, apply_turn_end_statuses}
use fantasy_draft.Statuses.Ticking.{ticks, passes, passes-statuses}
use fantasy_draft.Statuses.Recurring.{Suffers, apply_turn_end_statuses-Suffers}
use fantasy_draft.Examples.Samples.{shield, armor, burning, character}

-- The end of a turn of the player 1.
abbrev own_pass : Pass
own_pass = record { acting_player_id = some 1; round_ending = false; turn_number = some (pos 7) }

abbrev bearer : CharacterState
bearer = character (pos 30) (shield ∷ armor ∷ burning ∷ [])

bearer-IsSound : IsSound bearer
bearer-IsSound = record {
  hp_nonneg = omega arith;
  hp_le_max = omega arith;
  living = λ _. omega arith;
  dead = λ e. absurd cc;
}

-- After two passes the shield of duration 2 is gone, and the armour is as it was.
passes-statuses_example :
    (passes 2 own_pass bearer).statuses
    ≡ keep is_active (map (ticks 2 own_pass) (shield ∷ armor ∷ burning ∷ []))
passes-statuses_example = passes-statuses 2 own_pass bearer (refl, (refl, (refl, tt)))

apply_turn_end_statuses-Suffers_example :
    let result = apply_turn_end_statuses bearer 2 (pos 0) (pos 7) own_pass in
    Suffers bearer result.0 result.1
apply_turn_end_statuses-Suffers_example =
    apply_turn_end_statuses-Suffers bearer 2 (pos 0) (pos 7) own_pass bearer-IsSound
