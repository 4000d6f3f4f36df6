-- ===== src/Sessions/Resuming.antt =====
-- Resuming a seat, `BattleSessionRegistry` of jjk_arena/battle_v2/sessions.py.
use fantasy_draft.Base.{
  ℕ, ◌≡◌, ◌≢◌, refl, inl, inr, true, false, ◌&&◌, none, some, ◌==◌, arith, Bool-cases, Option-cases,
  if◌then◌else◌, ==_refl, is_some,
}
use fantasy_draft.Dict.{Dict}
use fantasy_draft.Sessions.{
  Registry, get_in, issue, verify, reserve, holds, release, commit, abort, put_in,
}
use fantasy_draft.Sessions.View.{at_pair, get_in-put_in, get_in-pop_in}

module _ (digest : ℕ → ℕ) where
  -- A reservation never changes which tokens are accepted, whether it is granted or not; nor does
  -- giving one back.
  pub attempts_burn_nothing :
      (reg : Registry) (room player token r p t : ℕ)
      → (verify digest r p t (reserve digest room player token reg).1 ≡ verify digest r p t reg)
        × (verify digest r p t (abort digest room player reg) ≡ verify digest r p t reg)
  unfolding verify reserve abort release
  attempts_burn_nothing reg room player token r p t = (ground arith, refl)

  reserve-granted :
      (reg : Registry) (room player token : ℕ)
      → verify digest room player token reg ≡ true
      → get_in reg.reservations room player ≡ none
      → reserve digest room player token reg
        ≡ (true, record reg { reservations = put_in reg.reservations room player (digest token) })
  unfolding reserve
  reserve-granted reg room player token h free = rw (h, free)

  reserve-taken :
      (reg : Registry) (room player token v : ℕ)
      → get_in reg.reservations room player ≡ some v
      → (reserve digest room player token reg).0 ≡ false
  unfolding reserve
  reserve-taken reg room player token v h = ground (arith, h)

  -- A granted reservation stands.
  reserve-holds :
      (reg : Registry) (room player token : ℕ)
      → (reserve digest room player token reg).0 ≡ true
      → get_in (reserve digest room player token reg).1.reservations room player
        ≡ some (digest token)
  unfolding reserve
  reserve-holds reg room player token h = elim (Bool-cases (verify digest room player token reg)) [
    | inl accepted ↦ elim (Option-cases (get_in reg.reservations room player)) [
      | inl free ↦ rw (
        accepted,
        free,
        get_in-put_in reg.reservations room player room player (digest token),
        ==_refl room,
        ==_refl player,
      )
      | inr (v, taken) ↦ ground (arith, (rw (accepted, taken) at h))
    ]
    | inr rejected ↦ ground (arith, (rw rejected at h))
  ]

  -- While a reservation stands, no second one is granted for the pair, with any token.
  pub reserve_exclusive :
      (reg : Registry) (room player token token' : ℕ)
      → (reserve digest room player token reg).0 ≡ true
      → (reserve digest room player token' (reserve digest room player token reg).1).0 ≡ false
  reserve_exclusive reg room player token token' h =
      reserve-taken (reserve digest room player token reg).1 room player token' (digest token)
        (reserve-holds reg room player token h)

  reserved_after :
      (reg : Registry) (room player : ℕ)
      → get_in (release digest room player reg).reservations room player ≡ none
  unfolding release
  reserved_after reg room player =
      rw (get_in-pop_in reg.reservations room player room player, ==_refl room, ==_refl player)

  verify-release :
      (reg : Registry) (room player r p t : ℕ)
      → verify digest r p t (release digest room player reg) ≡ verify digest r p t reg
  unfolding verify release
  verify-release reg room player r p t = refl

  verify-reservations :
      (reg : Registry) (d : Dict (Dict ℕ)) (r p t : ℕ)
      → verify digest r p t (record reg { reservations = d }) ≡ verify digest r p t reg
  unfolding verify
  verify-reservations reg d r p t = refl

  -- An issued token takes the place of the seat's token and of no other.
  verify-issue :
      (reg : Registry) (fresh room player r p t : ℕ)
      → verify digest r p t (issue digest fresh room player reg).1
        ≡ (if at_pair room player r p then digest fresh == digest t else verify digest r p t reg)
  unfolding verify issue
  verify-issue reg fresh room player r p t =
      ground (arith, get_in-put_in reg.token_hashes room player r p (digest fresh))

  commit-granted :
      (reg : Registry) (fresh room player token : ℕ)
      → holds digest room player token reg && verify digest room player token reg ≡ true
      → commit digest fresh room player token reg ≡ (
        some (issue digest fresh room player reg).0,
        release digest room player (issue digest fresh room player reg).1,
      )
  unfolding commit
  commit-granted reg fresh room player token h = rw h

  commit-refused :
      (reg : Registry) (fresh room player token : ℕ)
      → holds digest room player token reg && verify digest room player token reg ≡ false
      → commit digest fresh room player token reg ≡ (none, release digest room player reg)
  unfolding commit
  commit-refused reg fresh room player token h = rw h

  -- A commit gives a new token exactly if the caller holds the reservation made with its token and
  -- the token is still accepted. Either way the reservation is gone; without a new token every token
  -- is accepted as before.
  pub commit_lem :
      (reg : Registry) (fresh room player token : ℕ)
      → let result = commit digest fresh room player token reg in
        (get_in result.1.reservations room player ≡ none)
        × ((holds digest room player token reg && verify digest room player token reg)
            ≡ is_some result.0)
        × (result.0 ≡ none → (r p t : ℕ) → verify digest r p t result.1 ≡ verify digest r p t reg)
  commit_lem reg fresh room player token =
      elim (Bool-cases
        (holds digest room player token reg && verify digest room player token reg)) [
          | inl granted ↦
              rw (commit-granted reg fresh room player token granted) (
                reserved_after (issue digest fresh room player reg).1 room player,
                granted,
                λ h. cc,
              )
          | inr refused ↦ rw (commit-refused reg fresh room player token refused) (
            reserved_after reg room player,
            refused,
            λ _ r p t. verify-release reg room player r p t,
          )
        ]

  holds-reserved :
      (reg : Registry) (room player token : ℕ)
      → holds digest room player token
          (record reg { reservations = put_in reg.reservations room player (digest token) })
        ≡ true
  unfolding holds
  holds-reserved reg room player token =
      rw
        (
          holds,
          get_in-put_in reg.reservations room player room player (digest token),
          ==_refl room,
          ==_refl player,
        )
        (==_refl (digest token))

  -- After a token was reserved, a commit with it grants a fresh one.
  resumed :
      (reg : Registry) (fresh room player token : ℕ)
      → verify digest room player token reg ≡ true
      → get_in reg.reservations room player ≡ none
      → let reserved : Registry = record reg {
        reservations = put_in reg.reservations room player (digest token);
      } in
        commit digest fresh room player token (reserve digest room player token reg).1 ≡ (
          some (issue digest fresh room player reserved).0,
          release digest room player (issue digest fresh room player reserved).1,
        )
  resumed reg fresh room player token accepted free =
      rw (reserve-granted reg room player token accepted free) (
        commit-granted _ fresh room player token
          (rw (holds-reserved reg room player token) (rw verify-reservations accepted)))

  -- The life of a resume: a token that is accepted and not reserved can be reserved, and committed
  -- to a fresh token; from then on the fresh token is accepted for the seat, the old one is not, and
  -- the tokens of all other seats are accepted as before.
  pub resume_rotates :
      (reg : Registry) (fresh room player token : ℕ)
      → verify digest room player token reg ≡ true
      → get_in reg.reservations room player ≡ none
      → digest token ≢ digest fresh
      → let reserved = reserve digest room player token reg in
        let done = commit digest fresh room player token reserved.1 in
        (reserved.0 ≡ true)
        × (done.0 ≡ some (record { room_id = room; player_id = player; token = fresh }))
        × (verify digest room player fresh done.1 ≡ true)
        × (verify digest room player token done.1 ≡ false)
        × ((r p t : ℕ)
            → at_pair room player r p ≡ false
            → verify digest r p t done.1 ≡ verify digest r p t reg)
  resume_rotates reg fresh room player token ok_token free differ =
      rw (resumed reg fresh room player token ok_token free) (
        rw (reserve-granted reg room player token ok_token free) refl,
        unfold issue in refl,
        rw (verify-release, verify-issue, ==_refl room, ==_refl player) (==_refl (digest fresh)),
        rw (verify-release, verify-issue, ==_refl room, ==_refl player) (ground (arith, differ)),
        λ r p t other. rw (verify-release, verify-issue, other) (verify-reservations reg _ r p t),
      )
