-- ===== src/Sessions.antt =====
-- Resume credentials, `BattleSessionRegistry` of jjk_arena/battle_v2/sessions.py. Tokens, digests,
-- rooms and players are numbers; `secrets.token_urlsafe` is the argument `fresh` of the calls that
-- draw a token, and SHA-256 is the parameter `digest`. Every method runs under the registry's lock,
-- so a method is one step.
pub mod View
pub mod Resuming
use fantasy_draft.Base.{
  ℕ, Bool, true, false, not, ◌&&◌, Option, none, some, List, [], ◌∷◌, ◌==◌, if◌then◌else◌, get_or,
  is_some,
}
use fantasy_draft.Dict.{Dict, lookup, insert, erase}

pub record Registry : Type 0 where
  pub token_hashes : Dict (Dict ℕ)
  pub reservations : Dict (Dict ℕ)

abbrev pub empty_registry : Registry
empty_registry = record { token_hashes = []; reservations = [] }

pub record ResumeSession : Type 0 where
  pub room_id : ℕ
  pub player_id : ℕ
  pub token : ℕ

module _ {V : Type 0} where
  -- `d.get(room, {}).get(player)`
  unfoldable pub get_in : Dict (Dict V) → ℕ → ℕ → Option V
  get_in d room player = lookup player (get_or (lookup room d) [])

  -- `d.setdefault(room, {})[player] = v`
  unfoldable pub put_in : Dict (Dict V) → ℕ → ℕ → V → Dict (Dict V)
  put_in d room player v = insert room (insert player v (get_or (lookup room d) [])) d

  -- `d.get(room, {}).pop(player, None)`: the inner dict is changed where it stands.
  unfoldable pub pop_in : Dict (Dict V) → ℕ → ℕ → Dict (Dict V)
  pop_in d room player = elim (lookup room d) [
    | none ↦ d
    | some inner ↦ insert room (erase player inner) d
  ]

  -- `d.setdefault(room, {})`
  unfoldable pub open_in : Dict (Dict V) → ℕ → Dict (Dict V)
  open_in d room = elim (lookup room d) [ none ↦ insert room [] d | some inner ↦ d ]

module _ (digest : ℕ → ℕ) where
  unfoldable pub issue : ℕ → ℕ → ℕ → Registry → ResumeSession × Registry
  issue fresh room player reg = (
    record { room_id = room; player_id = player; token = fresh },
    record reg { token_hashes = put_in reg.token_hashes room player (digest fresh) },
  )

  unfoldable pub verify : ℕ → ℕ → ℕ → Registry → Bool
  verify room player token reg = elim (get_in reg.token_hashes room player) [
    | none ↦ false
    | some expected ↦ expected == digest token
  ]

  unfoldable pub reserve : ℕ → ℕ → ℕ → Registry → Bool × Registry
  reserve room player token reg =
      let opened : Registry = record reg { reservations = open_in reg.reservations room } in
      let claimed : Registry = record reg {
        reservations = put_in reg.reservations room player (digest token);
      } in
      if not (verify room player token reg)
      then (false, reg)
      else if is_some (get_in reg.reservations room player)
      then (false, opened)
      else (true, claimed)

  unfoldable pub holds : ℕ → ℕ → ℕ → Registry → Bool
  holds room player token reg = elim (get_in reg.reservations room player) [
    | none ↦ false
    | some held ↦ held == digest token
  ]

  unfoldable pub release : ℕ → ℕ → Registry → Registry
  release room player reg = record reg { reservations = pop_in reg.reservations room player }

  -- The `finally` clause releases the reservation on every way out.
  unfoldable pub commit : ℕ → ℕ → ℕ → ℕ → Registry → Option ResumeSession × Registry
  commit fresh room player token reg =
      let issued = issue fresh room player reg in
      if holds room player token reg && verify room player token reg
      then (some issued.0, release room player issued.1)
      else (none, release room player reg)

  unfoldable pub abort : ℕ → ℕ → Registry → Registry
  abort room player reg = release room player reg

  unfoldable pub rotate : ℕ → ℕ → ℕ → ℕ → Registry → Option ResumeSession × Registry
  rotate fresh room player token reg =
      let issued = issue fresh room player reg in
      if verify room player token reg then (some issued.0, issued.1) else (none, reg)

  unfoldable pub resume : ℕ → ℕ → ℕ → ℕ → Registry → Option ResumeSession × Registry
  resume = rotate

  unfoldable pub remove_room : ℕ → Registry → Registry
  remove_room room reg = record {
    token_hashes = erase room reg.token_hashes;
    reservations = erase room reg.reservations;
  }

  unfoldable pub clear : Registry → Registry
  clear reg = empty_registry
