-- ===== src/Trail/Tokens/Seizure.antt =====
-- Seizing moves tokens and makes none: `seizetoken` and `seizebygroup` of eosio.trail.
use telos_arbitration_fix.Prelude.{
  ◌≡◌, ◌∙◌, ap, inl, inr, true, Option-cases, some, List, [], ◌∷◌, arith,
}
use telos_arbitration_fix.Prelude.Int.{ℤ, pos, pos_part, neg_part, ◌+ℤ◌, ◌-ℤ◌, int_laws}
use telos_arbitration_fix.Eosio.{
  Result-cases, ok, Table, find, modify, scope, Name, Asset, Host, IsDocumented, scope-put,
}
use telos_arbitration_fix.Eosio.Sums.{sum_of, sum_of-modify}
use telos_arbitration_fix.Trail.Tokens.{Registry, Balance, Wallets}
use telos_arbitration_fix.Trail.Tokens.Actions.{seize_from, seize_group, seizebygroup}

-- What all owners have, in the balances of one token.
unfoldable pub total_tokens : Table Balance → ℤ
unfolding sum_of
total_tokens t = sum_of (λ b. b.tokens.amount) t

total_tokens-modify :
    (k : Name) (x : Asset) (t : Table Balance) (b : Balance)
    → find k t ≡ some b
    → total_tokens (modify k (λ a. record a { tokens = x }) t) +ℤ b.tokens.amount
      ≡ total_tokens t +ℤ x.amount
unfolding total_tokens
total_tokens-modify k x t b e =
    sum_of-modify (λ b. b.tokens.amount) (λ a. record a { tokens = x }) k t b e

taken_and_given : (t u v a b q : ℤ) → u +ℤ a ≡ t +ℤ (a -ℤ q) → v +ℤ b ≡ u +ℤ (b +ℤ q) → v ≡ t
taken_and_given t u v a b q h k =
    omega (int_laws, ap pos_part h, ap neg_part h, ap pos_part k, ap neg_part k)

seize_from-total_tokens :
    (h : Host) (p o : Name) (q : Asset) (t u : Table Balance)
    → IsDocumented h
    → seize_from h p q o t ≡ ok u
    → total_tokens u ≡ total_tokens t
unfolding seize_from
seize_from-total_tokens h p o q t u d e = elim (Option-cases (find o t)) [
  | inl n ↦ ground arith
  | inr (b, n) ↦ elim (Result-cases (h.asset_sub b.tokens q)) [
    | inr (w, r) ↦ ground arith
    | inl (left, r) ↦
        let t₁ = modify o (λ a. record a { tokens = left }) t in
        elim (Option-cases (find p t₁)) [
          | inl m ↦ ground arith
          | inr (c, m) ↦ elim (Result-cases (h.asset_add c.tokens q)) [
            | inr (w, l) ↦ ground arith
            | inl (sum, l) ↦ ground (
              arith,
              taken_and_given (total_tokens t) (total_tokens t₁) (total_tokens u) b.tokens.amount
                  c.tokens.amount q.amount,
              total_tokens-modify o left t b n,
              total_tokens-modify p sum t₁ c m,
              d.sub_ok b.tokens q left r,
              d.add_ok c.tokens q sum l,
            )
          ]
        ]
  ]
]

seize_group-total_tokens :
    (h : Host) (p : Name) (q : Asset) (group : List Name) (t u : Table Balance)
    → IsDocumented h
    → seize_group h p q group t ≡ ok u
    → total_tokens u ≡ total_tokens t
unfolding seize_group
seize_group-total_tokens h p q [] t u d e = ground arith
seize_group-total_tokens h p q (n ∷ group) t u d e = elim (Result-cases (seize_from h p q n t)) [
  | inr (w, r) ↦ ground arith
  | inl (v, r) ↦
      seize_group-total_tokens h p q group v u d (ground arith)
      ∙ seize_from-total_tokens h p n q t v d r
]

-- On a host that behaves as documented, seizing from a group of voters, which may repeat and may hold
-- the publisher, is done by the publisher of the registry where it allows that, and leaves the sum of
-- all balances of the token as it was, and every registry and airgrab.
pub seizebygroup_conserves :
    (h : Host) (p : Name) (group : List Name) (q : Asset) (s s' : Wallets)
    → IsDocumented h
    → seizebygroup h p group q s ≡ ok s'
    → (reg : Registry) × (find q.symbol.code s.registries ≡ some reg)
      × (reg.publisher ≡ p)
      × (reg.settings.is_seizable ≡ true)
      × (total_tokens (scope q.symbol.code s'.balances)
          ≡ total_tokens (scope q.symbol.code s.balances))
      × (s'.registries ≡ s.registries)
      × (s'.airgrabs ≡ s.airgrabs)
unfolding seizebygroup
seizebygroup_conserves h p group q s s' d e =
    elim (Option-cases (find q.symbol.code s.registries)) [
      | inl n ↦ elim (Result-cases (h.make_asset (pos 0) q.symbol)) [
        | inr (w, z) ↦ ground arith
        | inl (zero, z) ↦ ground arith
      ]
      | inr (reg, n) ↦ elim (Result-cases (h.make_asset (pos 0) q.symbol)) [
        | inr (w, z) ↦ ground arith
        | inl (zero, z) ↦
            elim (Result-cases (seize_group h p q group (scope q.symbol.code s.balances))) [
              | inr (w, r) ↦ ground arith
              | inl (u, r) ↦
                  let code = q.symbol.code in
                  (
                    reg,
                    n,
                    ground arith,
                    ground arith,
                    ground (
                      arith,
                      scope-put code code u s.balances,
                      seize_group-total_tokens h p q group (scope code s.balances) u d r,
                    ),
                    ground arith,
                    ground arith,
                  )
            ]
      ]
    ]
