-- ===== src/Match/Converting.antt =====
-- Transmuting five energies into one, `convert_energy` of jjk_arena/battle_v2/manager.py.
use native.Mathlib.Nat.{zero-add}
use fantasy_draft.Base.{
  ℕ, suc, ap, ◌+◌, ◌≡◌, ◌≢◌, refl, ◌∙◌, inl, inr, Bool, true, false, not, ◌||◌, ◌==◌, ==_refl,
  ==_iff, Option, some, List, [], ◌∷◌, if◌then◌else◌, any, length, arith, Bool-cases,
}
use fantasy_draft.Int.{ℤ, pos, ◌+ℤ◌, ◌-ℤ◌, ◌≤ℤ◌, int_laws}
use fantasy_draft.Dict.{lookup, lookup-insert}
use fantasy_draft.Result.{
  ok, raise_if, raise_if-ok, or_raise, Yields, Yields-bind, Yields-ok, >>-eq-ok, lookup_error,
  conversion_sources, unknown_energy, only_core, queue_already_confirmed, queue_pending,
  wrong_phase, already_converted,
}
use fantasy_draft.Models.{BattlePhase, phase_eq, EnergyType, energy_eq, Energy, PlayerState}
use fantasy_draft.Energy.{empty_counter, update_counter, items, require_energy}
use fantasy_draft.Energy.Counting.{count, update_counter-count, listed-items}
use fantasy_draft.Energy.Spending.{spend_items-listed, require_energy-items}
use fantasy_draft.Energy.Gains.{core_total}
use fantasy_draft.Queue.{pending}
use fantasy_draft.Queue.Confirming.{HasNoDebt}
use fantasy_draft.Turn.{log_event}
use fantasy_draft.Match.{MatchState}
use fantasy_draft.Match.Presence.{is_empty}
use fantasy_draft.Match.Phases.{ensure_turn_player, not-false}
use fantasy_draft.Match.Commands.{
  normalize_all, is_core, may_convert, read_request, add_one, transmute, convert_energy,
}

transmute-count :
    (sources : List EnergyType) (target : EnergyType) (energy : Energy) (k : EnergyType)
    → transmute sources target energy k
      ≡ (energy k -ℤ pos (count k sources)) +ℤ pos (if energy_eq k target then 1 else 0)
unfolding transmute add_one
transmute-count sources target energy k =
    let taken = spend_items-listed (items (update_counter empty_counter sources)) energy k in
    let listed_k =
      listed-items (update_counter empty_counter sources) k
      ∙ update_counter-count empty_counter sources k
      ∙ zero-add _ in
    elim (Bool-cases (energy_eq k target)) [
      | inl here ↦ rw (here, taken, listed_k) refl
      | inr there ↦ rw (there, taken, listed_k) (omega int_laws)
    ]

core_count :
    (l : List EnergyType)
    → any (λ e. not (is_core e)) l ≡ false
    → (count EnergyType.green l
          + count EnergyType.red l
          + count EnergyType.blue l
          + count EnergyType.white l
        ≡ length l)
unfolding count
core_count [] h = refl
core_count (EnergyType.green ∷ l) h = omega (arith, core_count l h)
core_count (EnergyType.red ∷ l) h = omega (arith, core_count l h)
core_count (EnergyType.blue ∷ l) h = omega (arith, core_count l h)
core_count (EnergyType.white ∷ l) h = omega (arith, core_count l h)
core_count (EnergyType.black ∷ l) h = cc

four_sums :
    (a b c d : ℤ) (p q r s t u v w : ℕ)
    → p + q + r + s ≡ 5
    → t + u + v + w ≡ 1
    → ((a -ℤ pos p) +ℤ pos t)
        +ℤ ((b -ℤ pos q) +ℤ pos u)
        +ℤ ((c -ℤ pos r) +ℤ pos v)
        +ℤ ((d -ℤ pos s) +ℤ pos w)
        +ℤ pos 4
      ≡ a +ℤ b +ℤ c +ℤ d
four_sums a b c d p q r s t u v w h g = omega int_laws

abbrev is_target : EnergyType → EnergyType → ℕ
is_target target k = if energy_eq k target then 1 else 0

one_target :
    (target : EnergyType)
    → is_core target ≡ true
    → is_target target EnergyType.green
        + is_target target EnergyType.red
        + is_target target EnergyType.blue
        + is_target target EnergyType.white
      ≡ 1
one_target target h = ground arith

-- Five core energies become one.
transmute-core_total :
    (sources : List EnergyType) (target : EnergyType) (energy : Energy)
    → length sources ≡ 5
    → any (λ e. not (is_core e)) sources ≡ false
    → is_core target ≡ true
    → core_total (transmute sources target energy) +ℤ pos 4 ≡ core_total energy
unfolding core_total
transmute-core_total sources target energy five core goal =
    let total = core_count sources core in
    rw
      (
        transmute-count sources target energy EnergyType.green,
        transmute-count sources target energy EnergyType.red,
        transmute-count sources target energy EnergyType.blue,
        transmute-count sources target energy EnergyType.white,
      )
      (four_sums (energy EnergyType.green) (energy EnergyType.red) (energy EnergyType.blue)
        (energy EnergyType.white) _ _ _ _ _ _ _ _ (total ∙ five) (one_target target goal))

kept_nonneg : (a : ℤ) (n m : ℕ) → pos n ≤ℤ a → pos 0 ≤ℤ (a -ℤ pos n) +ℤ pos m
kept_nonneg a n m h = omega int_laws

or_false : (a b : Bool) → a || b ≡ false → (a ≡ false) × (b ≡ false)
or_false false b h = (refl, h)
or_false true b h = cc

-- What an accepted conversion was and did.
pub record Converted (player_id : ℕ) (player : PlayerState) (before after : MatchState)
    (sources : List (Option EnergyType)) (target : Option EnergyType) : Type 0 where
  pub named : List EnergyType
  pub goal : EnergyType
  pub reads : read_request sources target ≡ ok (named, goal)
  pub five : length named ≡ 5
  pub paid : PlayerState
  pub stands : lookup player_id after.battle.players ≡ some paid
  pub taken :
      (k : EnergyType)
      → paid.energy k ≡ (player.energy k -ℤ pos (count k named)) +ℤ pos (is_target goal k)
  pub total : core_total paid.energy +ℤ pos 4 ≡ core_total player.energy
  pub no_debt : HasNoDebt paid
  pub marked : paid.energy_converted_this_turn ≡ true
  pub not_before : player.energy_converted_this_turn ≡ false
  pub planning : phase_eq before.battle.phase BattlePhase.planning ≡ true
  pub no_queue : is_empty (pending before.battle player_id) ≡ true
  pub others :
      (id : ℕ) → id ≢ player_id → lookup id after.battle.players ≡ lookup id before.battle.players

normalize_all-length :
    (sources : List (Option EnergyType))
    → Yields (λ (named : List EnergyType). length named ≡ length sources) (normalize_all sources)
unfolding normalize_all
normalize_all-length [] = refl
normalize_all-length (o ∷ sources) =
    let P : List EnergyType → Type 0 = λ named. length named ≡ suc (length sources) in
    Yields-bind P (or_raise o unknown_energy) _ λ e _.
      Yields-bind P (normalize_all sources) _ λ rest h. ap suc (
        Yields-ok (λ (named : List EnergyType). length named ≡ length sources)
          (normalize_all-length sources) h)

-- A request that is read names five core energies and a core energy.
abbrev IsRequest : List EnergyType × EnergyType → Type 0
IsRequest request =
    (length request.0 ≡ 5)
    × (any (λ e. not (is_core e)) request.0 ≡ false)
    × (is_core request.1 ≡ true)

read_request-IsRequest :
    (sources : List (Option EnergyType)) (target : Option EnergyType)
    → Yields IsRequest (read_request sources target)
unfolding read_request
read_request-IsRequest sources target =
    Yields-bind IsRequest (raise_if (not (length sources == 5)) conversion_sources) _ λ _ five.
      Yields-bind IsRequest (normalize_all sources) _ λ named reads.
        Yields-bind IsRequest (or_raise target unknown_energy) _ λ goal _.
          Yields-bind IsRequest
            (raise_if (not (is_core goal) || any (λ e. not (is_core e)) named) only_core) _
            λ _ core.
              let same =
                Yields-ok (λ (l : List EnergyType). length l ≡ length sources)
                  (normalize_all-length sources) reads in
              let n : length sources ≡ 5 =
                (==_iff (length sources) 5).0
                  (not-false _ (raise_if-ok _ conversion_sources five)) in
              let c = or_false (not (is_core goal)) _ (raise_if-ok _ only_core core) in
              (same ∙ n, c.1, not-false _ c.0)

-- The conversion of a player that is in no debt.
convert_energy-Yields :
    (player_id : ℕ) (sources : List (Option EnergyType)) (target : Option EnergyType)
    (state : MatchState) (player : PlayerState)
    → lookup player_id state.battle.players ≡ some player
    → HasNoDebt player
    → Yields
        (λ after. Converted player_id player state after sources target)
        (convert_energy player_id sources target state)
unfolding convert_energy log_event may_convert
convert_energy-Yields player_id sources target state player found nonneg =
    let P : MatchState → Type 0 = λ after. Converted player_id player state after sources target in
    Yields-bind P (ensure_turn_player player_id state) _ λ _ _.
      Yields-bind P (or_raise (lookup player_id state.battle.players) lookup_error) _ λ p is_player.
        Yields-bind P (may_convert p state.battle player_id) _ λ _ may.
          Yields-bind P (read_request sources target) _ λ request reads.
            Yields-bind P (require_energy p.energy (items (update_counter empty_counter request.0)))
              _
              λ _ enough.
                let here : p ≡ player = (let x = (rw found at is_player) in cc) in
                let (confirmed, m1) =
                  >>-eq-ok (raise_if p.queue_confirmed queue_already_confirmed) _ may in
                let (empty, m2) =
                  >>-eq-ok
                    (raise_if (not (is_empty (pending state.battle player_id))) queue_pending) _
                    m1 in
                let (planning, already) =
                  >>-eq-ok
                    (raise_if (not (phase_eq state.battle.phase BattlePhase.planning)) wrong_phase)
                    _ m2 in
                let r = Yields-ok IsRequest (read_request-IsRequest sources target) reads in
                let covered =
                  (require_energy-items player.energy (update_counter empty_counter request.0)
                      nonneg).0
                    (rw here at enough) in
                let formula = transmute-count request.0 request.1 player.energy in
                record {
                  named = request.0;
                  goal = request.1;
                  reads = reads;
                  five = r.0;
                  paid = record player {
                    energy = transmute request.0 request.1 player.energy;
                    energy_converted_this_turn = true;
                  };
                  stands =
                      rw
                        (
                          here,
                          lookup-insert player_id player_id _ state.battle.players,
                          ==_refl player_id,
                        )
                        refl;
                  taken = formula;
                  total = transmute-core_total request.0 request.1 player.energy r.0 r.1 r.2;
                  no_debt = λ k.
                      let f = formula k in
                      let c = covered k in
                      let n = update_counter-count empty_counter request.0 k in
                      rw f (
                        kept_nonneg (player.energy k) _ _ (
                          let m : count k request.0 ≡ update_counter empty_counter request.0 k =
                            omega arith in
                          rw m c));
                  marked = refl;
                  not_before = rw (← here) (raise_if-ok _ already_converted already);
                  planning = not-false _ (raise_if-ok _ wrong_phase planning);
                  no_queue = not-false _ (raise_if-ok _ queue_pending empty);
                  others = λ id other.
                      rw
                        (
                          lookup-insert player_id id _ state.battle.players,
                          (let e : (player_id == id) ≡ false = ground arith in e),
                        )
                        refl;
                }

-- A conversion that a player without debt is granted takes exactly the five core energies that the
-- request names and adds one of its goal: the core energies together fall by 4, no energy falls
-- below 0, it was the planning phase with no queue pending, the player had not converted before in
-- this turn and is marked now, and the other players are as they were.
pub convert_energy-Converted :
    (player_id : ℕ) (sources : List (Option EnergyType)) (target : Option EnergyType)
    (state : MatchState) (player : PlayerState) {after : MatchState}
    → lookup player_id state.battle.players ≡ some player
    → HasNoDebt player
    → convert_energy player_id sources target state ≡ ok after
    → Converted player_id player state after sources target
convert_energy-Converted player_id sources target state player found nonneg h =
    Yields-ok (λ after. Converted player_id player state after sources target)
      (convert_energy-Yields player_id sources target state player found nonneg) h
