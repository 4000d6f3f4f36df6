-- ===== src/Effects/Lengths.antt =====
-- Lengthened statuses, `extend_status` of jjk_arena/battle_v2/effects.py.
use fantasy_draft.Base.{ℕ, ◌≡◌, refl, true, false, Option, [], ◌∷◌, keep}
use fantasy_draft.Int.{pos, negsuc, ◌+ℤ◌}
use fantasy_draft.Models.{StatusEffect}
use fantasy_draft.Conditions.{is_active}
use fantasy_draft.Effects.{is_wanted, extend_all}

-- A permanent status, of duration -1, is active; when an extension by one turn reaches it, it is
-- over at once.
pub extend_ends_permanent :
    (filter : Option ℕ) (s : StatusEffect)
    → s.duration ≡ negsuc 0
    → is_wanted filter s ≡ true
    → (keep is_active (s ∷ []) ≡ s ∷ [])
      × (keep is_active (extend_all filter (pos 1) (s ∷ [])).0 ≡ [])
unfolding extend_all ◌+ℤ◌
extend_ends_permanent filter s permanent wanted =
    let active : is_active s ≡ true = rw permanent refl in
    (
      rw active refl,
      rw wanted (
          let over : is_active (record s { duration = s.duration +ℤ pos 1 }) ≡ false =
            rw permanent refl in
          rw over refl),
    )
