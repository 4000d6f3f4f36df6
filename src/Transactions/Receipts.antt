-- ===== src/Transactions/Receipts.antt =====
-- The receipts of a player, `_record_command_receipt` of jjk_arena/battle_v2/manager.py: bounded, the
-- newest last, and the newest never evicted.
use fantasy_draft.Base.{
  ℕ, ◌≤◌, ◌≡◌, refl, sym, ◌∙◌, inl, inr, ◌==◌, ==_refl, ltb, none, some, [], ◌∷◌, ◌++◌,
  if◌then◌else◌, arith, length, Bool-cases,
}
use fantasy_draft.Dict.{lookup, insert, erase, lookup-erase}
use fantasy_draft.Transactions.{Receipts, max_receipts, move_to_end, evict, record_receipt}

length-evict : (l : Receipts) → length (evict l) ≤ max_receipts
unfolding evict
length-evict [] = omega arith
length-evict (r ∷ rest) = ground (arith, length-evict rest)

pub lookup-append_last :
    (k j f : ℕ) (l : Receipts)
    → lookup j (l ++ (k, f) ∷ [])
      ≡ (if k == j then (elim (lookup j l) [ none ↦ some f | some g ↦ some g ]) else lookup j l)
unfolding lookup
lookup-append_last k j f [] = ground arith
lookup-append_last k j f ((i, g) ∷ l) = ground (arith, lookup-append_last k j f l)

-- Eviction takes from the front: what stands last stays.
lookup-evict_last :
    (k f : ℕ) (l : Receipts) → lookup k l ≡ none → lookup k (evict (l ++ (k, f) ∷ [])) ≡ some f
unfolding lookup evict
lookup-evict_last k f [] h = rw (==_refl k) refl
lookup-evict_last k f ((i, g) ∷ l) h = elim (Bool-cases (i == k)) [
  | inl here ↦ absurd (let e = (rw (lookup, here) at h) in cc)
  | inr there ↦
      let absent : lookup k l ≡ none = (rw (lookup, there) at h) in
      elim (Bool-cases (ltb max_receipts (length ((i, g) ∷ l ++ (k, f) ∷ [])))) [
        | inl full ↦ rw full (lookup-evict_last k f l absent)
        | inr fits ↦ rw (fits, there, lookup-append_last k k f l, ==_refl k, absent) refl
      ]
]

-- A recorded command is remembered with its fingerprint, whatever was evicted, and no player ever
-- has more than 128 receipts.
pub record_receipt_lem :
    (nonce fingerprint : ℕ) (receipts : Receipts)
    → let after = record_receipt nonce fingerprint receipts in
      (lookup nonce after ≡ some fingerprint) × (length after ≤ max_receipts)
unfolding record_receipt move_to_end
record_receipt_lem nonce fingerprint receipts = (
  lookup-evict_last nonce fingerprint (erase nonce (insert nonce fingerprint receipts))
      (lookup-erase nonce nonce (insert nonce fingerprint receipts) ∙ rw (==_refl nonce) refl),
  length-evict (move_to_end nonce fingerprint (insert nonce fingerprint receipts)),
)

-- Moving a nonce to the end forgets nothing.
pub lookup-move_to_end :
    (nonce fingerprint j : ℕ) (receipts : Receipts)
    → lookup nonce receipts ≡ some fingerprint
    → lookup j (move_to_end nonce fingerprint receipts) ≡ lookup j receipts
unfolding move_to_end
lookup-move_to_end nonce fingerprint j receipts h = elim (Bool-cases (nonce == j)) [
  | inl here ↦
      rw
        (
          lookup-append_last nonce j fingerprint (erase nonce receipts),
          lookup-erase nonce j receipts,
          here,
        )
        (let e : nonce ≡ j = ground arith in sym (rw e at h))
  | inr there ↦
      rw
        (
          lookup-append_last nonce j fingerprint (erase nonce receipts),
          lookup-erase nonce j receipts,
          there,
        )
        refl
]
