-- ===== src/Sip/Digest/Best.antt =====
-- The challenge that `choose_digest_challenge` of rfcvoip/SIPAuth.py answers.
use mathlib.Core.Path.{subst}
use rfcvoip.Prelude.{
  ℕ, suc, ◌≤◌, ◌<◌, ◌≡◌, refl, sym, ap, ◌∙◌, Option, none, some, inl, inr, ◌⊎◌, List, [], ◌∷◌, ◌++◌,
  All, Option-cases,
}
use rfcvoip.Sip.Dict.{Dict}
use rfcvoip.Sip.Digest.Algorithms.{Hashlib, or_value, supported_digest_algorithms}
use rfcvoip.Sip.Digest.Challenge.{
  rank_of, Candidate, append_candidate, candidates_from, sort_candidates, first_challenge,
  choose_among, choose_digest_challenge, ordered_algorithms,
}
use rfcvoip.Sip.Digest.Candidates.{
  Chosen, Leads, Ranks, AllRank, nothing, best, no_candidate, leads, sort-Leads, candidates-Grows,
}

uncons : {x y : Candidate} {xs ys : List Candidate} → x ∷ xs ≡ y ∷ ys → (x ≡ y) × (xs ≡ ys)
uncons h = (cc, cc)

module _ (supported : List (List ℕ)) where
  ranked :
      (P : ℕ → Type 0) (o : Option ℕ) (i : ℕ) (d : Dict) (cs : List Candidate)
      → All (λ c. P c.rank) (append_candidate o i (some d) cs)
      → Ranks P o × All (λ c. P c.rank) cs
  ranked P none i d cs h = (tt, h)
  ranked P (some r) i d cs h = h

  candidates-AllRank :
      (P : ℕ → Type 0) (i : ℕ) (challenges : List (Option Dict))
      → All (λ d. P d.rank) (candidates_from supported i challenges)
      → AllRank supported P challenges
  unfolding candidates_from
  candidates-AllRank P i [] h = tt
  candidates-AllRank P i (none ∷ challenges) h = (tt, candidates-AllRank P (suc i) challenges h)
  candidates-AllRank P i (some d ∷ challenges) h =
      let (first, more) =
        ranked P (rank_of supported (some d)) i d (candidates_from supported (suc i) challenges)
          h in
      (first, candidates-AllRank P (suc i) challenges more)

  -- Where a candidate stands among the challenges.
  abbrev Stands : (P Q : ℕ → Type 0) → List (Option Dict) → Candidate → Type 0
  Stands P Q challenges c =
      (b : List (Option Dict)) × (a : List (Option Dict)) × (challenges ≡ b ++ some c.challenge ∷ a)
      × (rank_of supported (some c.challenge) ≡ some c.rank)
      × AllRank supported P b
      × AllRank supported Q a

  one_more :
      (P Q : ℕ → Type 0) (x : Option Dict) (challenges : List (Option Dict)) (c : Candidate)
      → Ranks P (rank_of supported x)
      → Stands P Q challenges c
      → Stands P Q (x ∷ challenges) c
  one_more P Q x challenges c h (b, a, e, r, hb, ha) = (x ∷ b, a, ap (λ t. x ∷ t) e, r, (h, hb), ha)

  Stands-at :
      (P Q : ℕ → Type 0) (i : ℕ) (challenges : List (Option Dict)) (before : List Candidate)
      (c : Candidate) (after : List Candidate)
      → candidates_from supported i challenges ≡ before ++ c ∷ after
      → All (λ d. P d.rank) before
      → All (λ d. Q d.rank) after
      → Stands P Q challenges c
  unfolding candidates_from
  Stands-at P Q i [] [] c after e hb ha = absurd (cc)
  Stands-at P Q i [] (b ∷ before) c after e hb ha = absurd (cc)
  Stands-at P Q i (none ∷ challenges) before c after e hb ha =
      one_more P Q none challenges c tt (Stands-at P Q (suc i) challenges before c after e hb ha)
  Stands-at P Q i (some d ∷ challenges) [] c after e hb ha =
      elim (Option-cases (rank_of supported (some d))) [
        | inl skipped ↦ one_more P Q (some d) challenges c (subst (Ranks P) (sym skipped) tt) (
            Stands-at P Q (suc i) challenges [] c after
              (ap
                  (λ o.
                    append_candidate o i (some d) (candidates_from supported (suc i) challenges))
                  (sym skipped)
                ∙ e)
              hb ha)
        | inr (r, ranks) ↦
            let (same, rest) = uncons (
              ap (λ o. append_candidate o i (some d) (candidates_from supported (suc i) challenges))
                (sym ranks)
              ∙ e) in
            (
              [],
              challenges,
              ap (λ (x : Candidate). some x.challenge ∷ challenges) same,
              subst (λ (x : Candidate). rank_of supported (some x.challenge) ≡ some x.rank) same
                  ranks,
              tt,
              candidates-AllRank Q (suc i) challenges
                  (subst (λ l. All (λ x. Q x.rank) l) (sym rest) ha),
            )
      ]
  Stands-at P Q i (some d ∷ challenges) (b ∷ before) c after e hb ha =
      elim (Option-cases (rank_of supported (some d))) [
        | inl skipped ↦ one_more P Q (some d) challenges c (subst (Ranks P) (sym skipped) tt) (
            Stands-at P Q (suc i) challenges (b ∷ before) c after
              (ap
                  (λ o.
                    append_candidate o i (some d) (candidates_from supported (suc i) challenges))
                  (sym skipped)
                ∙ e)
              hb ha)
        | inr (r, ranks) ↦
            let (same, rest) = uncons (
              ap (λ o. append_candidate o i (some d) (candidates_from supported (suc i) challenges))
                (sym ranks)
              ∙ e) in
            one_more P Q (some d) challenges c
              (subst (Ranks P) (sym ranks) (subst (λ (x : Candidate). P x.rank) (sym same) hb.0))
              (Stands-at P Q (suc i) challenges before c after rest hb.1 ha)
      ]

  no_ranks :
      (i : ℕ) (challenges : List (Option Dict))
      → candidates_from supported i challenges ≡ []
      → All (λ c. rank_of supported c ≡ none) challenges
  unfolding candidates_from
  no_ranks i [] e = tt
  no_ranks i (none ∷ challenges) e = (refl, no_ranks (suc i) challenges e)
  no_ranks i (some d ∷ challenges) e = elim (Option-cases (rank_of supported (some d))) [
    | inl skipped ↦ (
      skipped,
      no_ranks (suc i) challenges (
          ap (λ o. append_candidate o i (some d) (candidates_from supported (suc i) challenges))
            (sym skipped)
          ∙ e),
    )
    | inr (r, ranks) ↦ absurd (
        cc (
          ap (λ o. append_candidate o i (some d) (candidates_from supported (suc i) challenges))
            (sym ranks)
          ∙ e))
  ]

  first-Chosen :
      (challenges : List (Option Dict)) (cs : List Candidate) {sorted : List Candidate}
      → candidates_from supported 0 challenges ≡ cs
      → Leads cs sorted
      → Chosen supported challenges (first_challenge sorted)
  first-Chosen challenges cs k (no_candidate e) = nothing (no_ranks 0 challenges (k ∙ e))
  first-Chosen challenges cs k (leads before c after rest e strict weak) =
      let (b, a, split, ranks, hb, ha) =
        Stands-at (λ r. c.rank < r) (λ r. c.rank ≤ r) 0 challenges before c after (k ∙ e) strict
          weak in
      best b c.challenge a c.rank split ranks hb ha

  chosen :
      (challenges : List (Option Dict))
      → Chosen supported challenges
          (first_challenge (sort_candidates (candidates_from supported 0 challenges)))
  chosen challenges = first-Chosen challenges (candidates_from supported 0 challenges) refl (
      sort-Leads 0 (candidates_from supported 0 challenges)
        (candidates-Grows supported 0 challenges))

-- With algorithms that can be used, the chosen challenge is the first of those that rank best by the
-- order of the algorithms, and none is chosen only when every challenge is skipped: it is no dict, it
-- lacks a realm or a nonce, or its algorithm or qop is not supported. With none, no challenge is.
pub choose-Chosen :
    (h : Hashlib) (challenges : List (Option Dict)) (algorithms : Option (List (List ℕ)))
    → (ordered_algorithms h (or_value algorithms supported_digest_algorithms) ≡ [])
        × (choose_digest_challenge h challenges algorithms ≡ none)
      ⊎ Chosen
          (ordered_algorithms h (or_value algorithms supported_digest_algorithms))
          challenges
          (choose_digest_challenge h challenges algorithms)
unfolding choose_digest_challenge
choose-Chosen h challenges algorithms =
    among (ordered_algorithms h (or_value algorithms supported_digest_algorithms))
  where
    among :
        (s : List (List ℕ))
        → (s ≡ []) × (choose_among s challenges ≡ none)
          ⊎ Chosen s challenges (choose_among s challenges)
    among [] = inl (refl, refl)
    among (s ∷ supported) = inr (chosen (s ∷ supported) challenges)
